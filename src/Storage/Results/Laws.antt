-- ===== src/Storage/Results/Laws.antt =====
-- What the operations on stored results read, and what the service makes of it.
use database_gateway.Common.{
  ◌≡◌, ◌≢◌, refl, sym, ap, ◌∙◌, subst, inl, inr, ℕ, ◌≤◌, String, ◌==◌, eq_iff, true, false, none,
  some, List, map, length, length-map, In, All, All-map, In-All, ok, err, err_injective, Error,
  Sentinel, wrapping, Bool-cases, Option-cases,
}
use database_gateway.Config.{UserId}
use database_gateway.App.Values.{pos}
use database_gateway.App.Users.{User}
use database_gateway.App.Effects.{Event, StoredResult, Outside}
use database_gateway.App.Stored.{QueryResults, is_no_record, lookup_error, get_query_results}
use database_gateway.App.Stored.Laws.{IsReader, get_query_results-IsReader}
use database_gateway.Storage.Failures.{DbError, Answer, answered, broken, call_error, handled}
use database_gateway.Storage.Database.{
  QueryResultsRow, id_eq, user_id_eq, Select, Database, SqlTables,
}
use database_gateway.Storage.Bookmarks.Laws.{handled-ok}
use database_gateway.Storage.Results.{
  stored_result, get_query_results_by_id, list_query_results_by_user,
}

-- An error that a call gives wraps ErrNotFound only if no row was found.
call_error-no_record :
    (x : DbError) → is_no_record (call_error x).wraps ≡ true → x.is_no_rows ≡ true
unfolding call_error
call_error-no_record x h = elim (Bool-cases x.is_no_rows) [
  | inl missing ↦ missing
  | inr found ↦ elim (Option-cases x.pq_code) [
    | inl no_code ↦ cc (rw (found, no_code, call_error) at h)
    | inr (code, has) ↦ elim (Bool-cases (code == "23505")) [
      | inl taken ↦ cc (rw (found, has, taken, call_error) at h)
      | inr other ↦ cc (rw (found, has, other, call_error) at h)
    ]
  ]
]

handled-err {ℓ κ} :
    {A : Type ℓ} {B : Type κ} (a : Answer A) (f : A → B) (e : Error)
    → handled a f ≡ err e
    → (x : DbError) × (a ≡ broken x) × (call_error x ≡ e)
unfolding handled
handled-err (broken x) f e h = (x, refl, err_injective h)
handled-err (answered x) f e h = cc

module _ (d : Database) (tables : SqlTables d) where
  -- ListQueryResultsByUser lists rows of the user only, and as many as its limit at most.
  pub list_query_results_by_user-own :
      (uid : UserId) (n : ℕ) (db : d.Db) (out : List StoredResult)
      → list_query_results_by_user d uid (pos n) db ≡ ok out
      → All
          (λ b.
            (b.user_id ≡ uid)
            × ((r : QueryResultsRow) × In r (tables.results db) × (stored_result r ≡ b)))
          out
        × (length out ≤ n)
  unfolding list_query_results_by_user stored_result
  list_query_results_by_user-own uid n db out h =
      let s : Select = record {
        where_ = user_id_eq uid;
        newest_first = true;
        limit = some (pos n);
        offset = none;
      } in
      let (rows, read, same) = handled-ok (d.select_results s db) (map stored_result) out h in
      let P = λ (b : StoredResult).
        (b.user_id ≡ uid)
        × ((r : QueryResultsRow) × In r (tables.results db) × (stored_result r ≡ b)) in
      let each : All (λ r. P (stored_result r)) rows = In-All rows λ r i.
        let (was, under) = tables.select_results_only s db rows r read i in
        ((eq_iff r.user_id uid).0 under, (r, was, refl)) in
      (
        subst (λ (xs : List StoredResult). All P xs) same (All-map P stored_result rows each),
        subst (λ (xs : List StoredResult). length xs ≤ n) same
            (rw (length-map stored_result rows)
              (tables.select_results_limit s db rows n read refl)),
      )

  -- The service with this storage: its answers are those of the operations on a state.
  module _ (outside : Outside) (log : List Event) (db : d.Db)
      (backed : (id : String)
        → outside.get_query_results_by_id log id ≡ get_query_results_by_id d id db) where
    -- What GetQueryResults of the service gives a user is a row of the table of results that has
    -- the identifier, and the user is an admin or the one whose query it was.
    pub get_query_results-row :
        (user : User) (id : String) (q : QueryResults)
        → get_query_results outside log user id ≡ ok q
        → (r : QueryResultsRow) × In r (tables.results db)
          × (r.id ≡ id)
          × IsReader user r.user_id
          × (q.user_id ≡ r.user_id)
          × (q.query ≡ r.query)
    unfolding get_query_results_by_id stored_result
    get_query_results-row user id q h =
        let (reads, res, found, _, owner, query) =
          get_query_results-IsReader outside log user id q h in
        let s : Select = record {
          where_ = id_eq id;
          newest_first = false;
          limit = some (pos 1);
          offset = none;
        } in
        let (r, read, same) =
          handled-ok (d.select_one s db) stored_result res (sym (backed id) ∙ found) in
        let (was, under) = tables.select_one_only s db r read in
        let own : res.user_id ≡ r.user_id = ap (λ (x : StoredResult). x.user_id) (sym same) in
        (
          r,
          was,
          (eq_iff r.id id).0 under,
          subst (IsReader user) (owner ∙ own) reads,
          owner ∙ own,
          query ∙ ap (λ (x : StoredResult). x.query) (sym same),
        )

    -- Where the storage reports ErrNotFound, no row of the table has the identifier, and
    -- GetQueryResults answers every user, an admin too, with the service's ErrNotFound.
    pub get_query_results-missing :
        (user : User) (id : String) (e : Error)
        → get_query_results_by_id d id db ≡ err e
        → is_no_record e.wraps ≡ true
        → ((r : QueryResultsRow) → In r (tables.results db) → r.id ≢ id)
          × (get_query_results outside log user id
              ≡ err (wrapping Sentinel.not_found "unknown result id"))
    unfolding get_query_results_by_id get_query_results lookup_error
    get_query_results-missing user id e h missing =
        let s : Select = record {
          where_ = id_eq id;
          newest_first = false;
          limit = some (pos 1);
          offset = none;
        } in
        let (x, failed, same) = handled-err (d.select_one s db) stored_result e h in
        let no_rows = call_error-no_record x (rw (← same) at missing) in
        (
          (λ r was own.
              cc (tables.select_one_none s db x r failed no_rows was, (eq_iff r.id id).1 own)),
          rw (backed id ∙ h, get_query_results) (rw (missing, lookup_error) refl),
        )
