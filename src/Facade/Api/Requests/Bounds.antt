-- ===== src/Facade/Api/Requests/Bounds.antt =====
-- How much a list of past requests holds.
use database_gateway.Common.{
  ℕ, zero, suc, ◌≤◌, ◌≡◌, sym, ap, ◌∙◌, subst, Bool, true, not, some, List, [], ◌∷◌, length,
  length-map, arith, ok, >>-eq-ok, >>=-eq-ok, reject_if, reject_if-eq-ok, not-eq-false,
  ok_injective, ◌==◌, eq_iff, inl, inr, Bool-cases,
}
use database_gateway.Common.Just.{Just}
use database_gateway.Common.Text.{leb}
use database_gateway.Config.{role_admin}
use database_gateway.App.Users.{User}
use database_gateway.App.Values.{ℤ, pos, positive_or}
use database_gateway.App.Effects.{Event, World, StoredResult, Outside, reading}
use database_gateway.App.Effects.Laws.{run-eq-ok}
use database_gateway.App.Requests.{AdminRequest, take, show_request, cut_page, list_admin_requests}
use database_gateway.Facade.Api.Requests.{
  ApiAdminRequest, AdminRequestsListResp, show_api_request, admin_requests_list,
}

length-take-le {ℓ} : {A : Type ℓ} (n : ℕ) (xs : List A) → length (take n xs) ≤ n
unfolding take
length-take-le zero xs = omega arith
length-take-le (suc n) [] = omega arith
length-take-le (suc n) (x ∷ xs) = omega (arith, length-take-le n xs)

leb→le : (a b : ℕ) → leb a b ≡ true → a ≤ b
leb→le a b h = ground arith

positive_or_pos : (n : ℤ) (d : ℕ) → suc zero ≤ d → suc zero ≤ positive_or n d
unfolding positive_or
positive_or_pos (pos zero) d h = h
positive_or_pos (pos (suc n)) d h = omega arith
positive_or_pos _ d h = h

module _ (outside : Outside) where
  cut_page-le :
      (size : ℕ) (items : List StoredResult) → length (cut_page outside size items).0 ≤ size
  unfolding cut_page
  cut_page-le size items = elim (Bool-cases (leb (length items) size)) [
    | inl fits ↦
        rw (fits, length-map (show_request outside) items) (leb→le (length items) size fits)
    | inr more ↦
        rw (more, length-map (show_request outside) (take size items)) (length-take-le size items)
  ]

  list_admin_requests-le :
      (log : List Event) (user : User) (page : ℤ) (size : ℕ) (items : List AdminRequest)
      (next : Bool)
      → list_admin_requests outside log user page (pos (suc size)) ≡ ok (items, next)
      → (user.role ≡ role_admin) × (length items ≤ suc size)
  unfolding list_admin_requests positive_or
  list_admin_requests-le log user page size items next h =
      let (checked, h1) = >>-eq-ok (reject_if (not (user.role == role_admin)) _) _ h in
      let (rows, _, h2) = >>=-eq-ok (outside.list_query_results log _ _) _ h1 in
      let page_eq : (cut_page outside (suc size) rows).0 ≡ items =
        ap (λ p. p.0) (ok_injective h2) in
      (
        (eq_iff user.role role_admin).0 (not-eq-false _ (reject_if-eq-ok _ _ checked)),
        subst (λ (xs : List AdminRequest). length xs ≤ suc size) page_eq
            (cut_page-le (suc size) rows),
      )

  -- Whatever the storage lists and whatever page is asked for: the call for the requests of all
  -- users answers an admin only, with at most 50 requests, under the number of a page from 1 on,
  -- and announces a page before it exactly when that number is not 1.
  pub admin_requests_list-bounds :
      (just : Just) (user : User) (asked : ℤ) (w w' : World) (resp : AdminRequestsListResp)
      → admin_requests_list just outside (some user) asked w ≡ (ok resp, w')
      → (user.role ≡ role_admin)
        × (length resp.requests ≤ 50)
        × (1 ≤ resp.page)
        × (resp.has_prev ≡ not (leb resp.page 1))
  unfolding admin_requests_list
  admin_requests_list-bounds just user asked w w' resp h =
      let page = positive_or asked 1 in
      let ((items, next), w1, e1, h1) =
        run-eq-ok (reading (λ log. list_admin_requests outside log user (pos page) (pos 50))) _ w
          h in
      let (admin, small) =
        list_admin_requests-le w.log user (pos page) 49 items next (ap (λ p. p.0) e1) in
      let same = ok_injective (ap (λ p. p.0) h1) in
      let shown : just.slice_map AdminRequest ApiAdminRequest items show_api_request
          ≡ resp.requests =
        ap (λ r. r.requests) same in
      let own : page ≡ resp.page = ap (λ r. r.page) same in
      (
        admin,
        subst (λ (xs : List ApiAdminRequest). length xs ≤ 50)
            (sym (just.slice_map_map AdminRequest ApiAdminRequest items show_api_request) ∙ shown)
            (rw (length-map show_api_request items) small),
        subst (λ (n : ℕ). 1 ≤ n) own (positive_or_pos asked 1 (omega arith)),
        sym (ap (λ r. r.has_prev) same) ∙ ap (λ (n : ℕ). not (leb n 1)) own,
      )
