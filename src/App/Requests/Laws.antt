-- ===== src/App/Requests/Laws.antt =====
-- The pages of past requests.
use database_gateway.Common.{
  ℕ, zero, suc, ◌+◌, ◌-◌, ◌*◌, ◌<◌, ◌≡◌, refl, ap, ◌∙◌, true, not, ◌==◌, eq_iff, List, [], ◌∷◌,
  length, arith, ok, if◌then◌else◌, map, inl, inr, Bool-cases,
}
use database_gateway.Common.Text.{leb}
use database_gateway.Config.{role_admin}
use database_gateway.App.Users.{User}
use database_gateway.App.Values.{pos, to_int64, positive_or}
use database_gateway.App.Effects.{Event, StoredResult, Outside}
use database_gateway.App.Requests.{take, show_request, cut_page, list_admin_requests}

-- What is left after the first items.
abbrev pub drop {ℓ} : {A : Type ℓ} → ℕ → List A → List A
drop zero xs = xs
drop (suc n) [] = []
drop (suc n) (x ∷ xs) = drop n xs

to_int64_small : (n : ℕ) → n < 9223372036854775808 → to_int64 n ≡ pos n
unfolding to_int64
to_int64_small n h = ground arith

length-take_over :
    (n : ℕ) (xs : List StoredResult) → leb (length (take (suc n) xs)) n ≡ leb (length xs) n
unfolding take
length-take_over n [] = refl
length-take_over zero (x ∷ xs) = ground arith
length-take_over (suc n) (x ∷ xs) = ground (arith, length-take_over n xs)

leb-suc : (a b : ℕ) → leb (suc a) (suc b) ≡ leb a b
leb-suc a b = ground arith

take_page :
    (n : ℕ) (xs : List StoredResult)
    → (if not (leb (length (take (suc n) xs)) n) then take n (take (suc n) xs) else take (suc n) xs)
      ≡ take n xs
unfolding take
take_page zero [] = refl
take_page (suc n) [] = ground arith
take_page zero (x ∷ xs) = ground arith
take_page (suc n) (x ∷ xs) = elim (Bool-cases (leb (length (take (suc n) xs)) n)) [
  | inl fits ↦
      rw (leb-suc (length (take (suc n) xs)) n, fits)
        (ap (λ ys. x ∷ ys) (rw fits at (take_page n xs)))
  | inr exceeds ↦
      rw (leb-suc (length (take (suc n) xs)) n, exceeds)
        (ap (λ ys. x ∷ ys) (rw exceeds at (take_page n xs)))
]

length-drop :
    (o n : ℕ) (xs : List StoredResult) → leb (length (drop o xs)) n ≡ leb (length xs) (o + n)
length-drop zero n xs = ground arith
length-drop (suc o) n [] = ground arith
length-drop (suc o) n (x ∷ xs) = ground (arith, length-drop o n xs)

module _ (outside : Outside) (log : List Event) where
  -- The storage lists some of its rows, by a limit and an offset that are not negative.
  abbrev pub IsPaging : List StoredResult → Type 0
  IsPaging rows =
      (limit offset : ℕ)
      → outside.list_query_results log (pos limit) (pos offset) ≡ ok (take limit (drop offset rows))

  cut_page-take :
      (n : ℕ) (xs : List StoredResult)
      → cut_page outside n (take (suc n) xs)
        ≡ (map (show_request outside) (take n xs), not (leb (length xs) n))
  unfolding cut_page
  cut_page-take n xs = rw (← take_page n xs, ← length-take_over n xs) refl

  -- For an admin, page p + 1 of size n + 1 in ListAdminRequests is made of the rows from p * (n + 1)
  -- on, n + 1 at most, and a next page is announced exactly when there are more rows than
  -- (p + 1) * (n + 1). The storage is one that pages through the rows, and neither the offset nor
  -- the size, with one more, exceeds an int64.
  pub list_admin_requests-page :
      (user : User) (rows : List StoredResult) (p n : ℕ)
      → user.role ≡ role_admin
      → IsPaging rows
      → p * suc n < 9223372036854775808
      → suc n + 1 < 9223372036854775808
      → list_admin_requests outside log user (pos (suc p)) (pos (suc n))
        ≡ ok (
          map (show_request outside) (take (suc n) (drop (p * suc n) rows)),
          not (leb (length rows) (p * suc n + suc n)),
        )
  unfolding list_admin_requests positive_or
  list_admin_requests-page user rows p n admin paging small_offset small_size =
      let is_admin : (user.role == role_admin) ≡ true = (eq_iff user.role role_admin).1 admin in
      let size : to_int64 (suc n + 1) ≡ pos (suc (suc n)) =
        to_int64_small (suc n + 1) small_size ∙ ap pos (omega arith) in
      let offset : to_int64 ((suc p - 1) * suc n) ≡ pos (p * suc n) =
        ap (λ q. to_int64 (q * suc n)) (omega arith) ∙ to_int64_small (p * suc n) small_offset in
      rw (is_admin, size, offset, paging (suc (suc n)) (p * suc n))
        (rw (cut_page-take (suc n) (drop (p * suc n) rows), length-drop (p * suc n) (suc n) rows)
          refl)
