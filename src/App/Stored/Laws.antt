-- ===== src/App/Stored/Laws.antt =====
-- Who reads a stored result, and which bookmarks are kept.
use database_gateway.Common.{
  ◌≡◌, subst, refl, sym, ap, ◌∙◌, ◌⊎◌, inl, inr, String, true, false, ◌||◌, ◌==◌, eq_iff, List, [],
  ◌∷◌, arith, ok, err, Error, Sentinel, reject_if, reject_if-eq-ok, Result-cases, Bool-cases,
  ok_injective, plain, wrapping, ◌++◌, ℕ,
}
use database_gateway.Common.Text.{is_empty, trim_space}
use database_gateway.Config.{TargetId, Target, role_admin, UserId}
use database_gateway.Policy.{Authorizer}
use database_gateway.Validator.Schema.{DbSchema}
use database_gateway.App.Users.{User, user_subjects, can_read_query_results}
use database_gateway.App.Targets.{get_target_by_id}
use database_gateway.App.Targets.Laws.{IsFound, get_target_by_id-IsFound}
use database_gateway.App.Effects.{
  Event, bookmarked, InsertBookmarkReq, StoredResult, World, Outside, pure_step,
}
use database_gateway.App.Effects.Laws.{run-eq-ok}
use database_gateway.App.Queries.Audit.{pure-ok, calling-ok}
use database_gateway.App.Stored.{
  QueryResults, is_no_record, lookup_error, no_access, show_result, get_query_results, add_bookmark,
}

-- The user is an admin or owns what the owner has.
abbrev pub IsReader : User → UserId → Type 0
IsReader user owner = (user.role ≡ role_admin) ⊎ (user.id ≡ owner)

can_read_query_results-IsReader :
    (user : User) (owner : UserId) → can_read_query_results user owner ≡ true → IsReader user owner
unfolding can_read_query_results
can_read_query_results-IsReader user owner h = elim (Bool-cases (user.role == role_admin)) [
  | inl admin ↦ inl ((eq_iff user.role role_admin).0 admin)
  | inr other ↦ inr ((eq_iff user.id owner).0 (rw other at h))
]

can_read_query_results_refuses :
    (user : User) (owner : UserId)
    → ¬ IsReader user owner
    → can_read_query_results user owner ≡ false
can_read_query_results_refuses user owner h =
    elim (Bool-cases (can_read_query_results user owner)) [
      | inl reads ↦ absurd (h (can_read_query_results-IsReader user owner reads))
      | inr refuses ↦ refuses
    ]

module _ (outside : Outside) (log : List Event) where
  -- GetQueryResults gives a user only a result that is stored, under its identifier, its owner and
  -- its query, and only if the user is an admin or the owner.
  pub get_query_results-IsReader :
      (user : User) (qid : String) (r : QueryResults)
      → get_query_results outside log user qid ≡ ok r
      → IsReader user r.user_id
        × (res : StoredResult) × (outside.get_query_results_by_id log qid ≡ ok res)
        × (r.id ≡ res.id)
        × (r.user_id ≡ res.user_id)
        × (r.query ≡ res.query)
  unfolding get_query_results show_result
  get_query_results-IsReader user qid r h =
      elim (Result-cases (outside.get_query_results_by_id log qid)) [
        | inr (e, failed) ↦ cc (rw (failed, get_query_results) at h)
        | inl (res, found) ↦
            let h1 : show_result outside user res ≡ ok r = rw (found, get_query_results) at h in
            elim (Bool-cases (can_read_query_results user res.user_id)) [
              | inr refuses ↦ cc (rw (refuses, show_result) at h1)
              | inl reads ↦ elim (Result-cases (outside.unmarshal res.response)) [
                | inr (e, failed) ↦ cc (rw (reads, failed, show_result) at h1)
                | inl (payload, read) ↦
                    let same = ok_injective (rw (reads, read, show_result) at h1) in
                    let owner : res.user_id ≡ r.user_id = ap (λ q. q.user_id) same in
                    (
                      rw owner at (can_read_query_results-IsReader user res.user_id reads),
                      res,
                      found,
                      sym (ap (λ q. q.id) same),
                      sym owner,
                      sym (ap (λ q. q.query) same),
                    )
              ]
            ]
      ]

  -- A result of another user and a result that is not stored are refused alike, with ErrNotFound
  -- alone, to a user who is no admin.
  pub get_query_results_hides :
      (user : User) (qid : String)
      → ((e : Error) × (outside.get_query_results_by_id log qid ≡ err e)
          × (is_no_record e.wraps ≡ true))
        ⊎ ((res : StoredResult) × (outside.get_query_results_by_id log qid ≡ ok res)
            × (¬ IsReader user res.user_id))
      → (e : Error) × (get_query_results outside log user qid ≡ err e)
        × (e.wraps ≡ Sentinel.not_found ∷ [])
  unfolding get_query_results show_result lookup_error
  get_query_results_hides user qid (inl (e, failed, missing)) = (
    wrapping Sentinel.not_found "unknown result id",
    rw (failed, get_query_results) (rw (missing, lookup_error) refl),
    refl,
  )
  get_query_results_hides user qid (inr (res, found, other)) = (
    no_access,
    rw (found, get_query_results)
        (rw (can_read_query_results_refuses user res.user_id other, show_result) refl),
    refl,
  )

module _ (outside : Outside) (authorizer : Authorizer) (targets : List Target) where
  -- The state after the insertion of a bookmark.
  abbrev inserted : User → TargetId → String → String → World → World
  inserted user target_id title query w = record w {
    log =
        w.log
        ++ (bookmarked (record {
          id = outside.new_id w.log;
          user_id = user.id;
          target_id = target_id;
          title = trim_space title;
          query = trim_space query;
          created_at = outside.now w.log;
        })
            ∷ []);
  }

  -- AddBookmark succeeds only with a title and a query that are not blank, for a target that the
  -- user may use, and it then makes one call: the insertion of the trimmed texts under the user and
  -- the target.
  pub add_bookmark-IsFound :
      (user : User) (target_id : TargetId) (title query : String) (w w2 : World)
      → add_bookmark outside authorizer targets user target_id title query w ≡ (ok tt, w2)
      → (is_empty (trim_space title) ≡ false)
        × (is_empty (trim_space query) ≡ false)
        × (p : Target × DbSchema) × IsFound authorizer (user_subjects user) target_id targets p
        × (id : String) × (created_at : ℕ) × (w2 ≡ record w {
          log =
              w.log
              ++ (bookmarked (record {
                id = id;
                user_id = user.id;
                target_id = target_id;
                title = trim_space title;
                query = trim_space query;
                created_at = created_at;
              })
                  ∷ []);
        })
  unfolding add_bookmark
  add_bookmark-IsFound user target_id title query w w2 h =
      let check =
        reject_if (is_empty (trim_space title) || is_empty (trim_space query))
          (plain "title and query are required") in
      let (u, w1, e1, h1) = run-eq-ok (pure_step check) _ w h in
      let (checked, same1) = pure-ok check w w1 u e1 in
      let find = get_target_by_id authorizer targets user target_id in
      let (p, w3, e2, h2) = run-eq-ok (pure_step find) _ w1 h1 in
      let (found, same2) = pure-ok find w1 w3 p e2 in
      let guard = reject_if-eq-ok _ _ checked in
      let req : InsertBookmarkReq = record {
        id = outside.new_id w3.log;
        user_id = user.id;
        target_id = target_id;
        title = trim_space title;
        query = trim_space query;
        created_at = outside.now w3.log;
      } in
      let (_, final) =
        calling-ok (bookmarked req) (λ log. outside.insert_bookmark log req) w3 w2 tt h2 in
      (
        ground (arith, guard),
        ground (arith, guard),
        p,
        get_target_by_id-IsFound authorizer targets user target_id p found,
        outside.new_id w.log,
        outside.now w.log,
        subst (λ v. w2 ≡ inserted user target_id title query v) (same2 ∙ same1) final,
      )
