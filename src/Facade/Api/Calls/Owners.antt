-- ===== src/Facade/Api/Calls/Owners.antt =====
-- On whose behalf a call acts.
use database_gateway.Common.{
  ◌≡◌, refl, ap, ◌∙◌, String, none, some, some-injective, Option-cases, Bool-cases, Result-cases,
  inl, inr, List, ◌++◌, All, In, ok, ◌⊎◌, ◌||◌, reject_if,
}
use database_gateway.Common.Text.{is_empty, trim_space}
use database_gateway.Config.{Target}
use database_gateway.App.Users.{User, user_subjects}
use database_gateway.App.Targets.{get_target_by_id}
use database_gateway.App.Effects.{
  Event, opened, queried, stored, bookmarked, unbookmarked, Run, pure_step, World,
  InsertBookmarkReq,
}
use database_gateway.App.Effects.Adds.{
  Adds, adds_nothing, Adds-pure_step, Adds-calling, Adds->>=, Adds-after,
}
use database_gateway.App.Stored.{add_bookmark, delete_bookmark}
use database_gateway.Facade.Api.Targets.{profile_get, target_list, target_get}
use database_gateway.Facade.Api.Requests.{queries_list, admin_requests_list}
use database_gateway.App.Queries.{connection_url, run_query}
use database_gateway.App.Queries.Adds.{IsOf, run_query-Adds}
use database_gateway.App.Targets.Laws.{IsVisible, get_target_by_id-IsFound}
use database_gateway.Facade.Export.{extract_bearer_token}
use database_gateway.Facade.Api.Caller.{with_api_bearer_auth, parse_id, parse_id-eq-ok}
use database_gateway.Facade.Api.Bookmarks.{
  BookmarksAddReq, bookmarks_list, bookmarks_add, bookmarks_delete,
}
use database_gateway.Facade.Api.Results.{QueryRunReq, query_run, query_results_get, export_link}
use database_gateway.Facade.Api.Calls.{
  Call, profile_get_v1, targets_list_v1, targets_get_v1, bookmarks_list_v1, bookmarks_add_v1,
  bookmarks_delete_v1, queries_list_v1, admin_requests_list_v1, query_run_v1, query_results_get_v1,
  query_results_export_link_v1, Reply, profile, servers, server, bookmarks, queries, requests,
  results, table, link, done, reply_by, Service, handle_call, serve_call,
}
use database_gateway.Facade.Api.Calls.Reads.{
  target_get-Adds, bookmarks_list-Adds, queries_list-Adds, admin_requests_list-Adds,
  query_results_get-Adds, export_link-Adds,
}

module _ (s : Service) where
  open s use {just, outside, authorizer, targets, lib, surroundings}

  -- What a call may do for a user: open the pool of the target that it names, run its own query and
  -- store what it gave under the user; or add or delete a bookmark of the user's own.
  abbrev pub Permits : User → Call → Event → Type 0
  Permits user (query_run_v1 req) (opened url) =
      (srv : Target) × (In srv targets)
      × IsVisible authorizer (user_subjects user) (trim_space req.target_id) srv
      × (url ≡ connection_url just srv.connection)
  Permits user (query_run_v1 req) (queried pool query) = query ≡ trim_space req.query
  Permits user (query_run_v1 req) (stored made) =
      IsOf user (trim_space req.target_id) (trim_space req.query) made
  Permits user (bookmarks_add_v1 req) (bookmarked mark) =
      (mark.user_id ≡ user.id) × (mark.target_id ≡ trim_space req.target_id)
  Permits user (bookmarks_delete_v1 id) (unbookmarked owner bookmark_id) =
      (owner ≡ user.id) × (lib.parse_ulid (trim_space id) ≡ ok bookmark_id)
  Permits user _ _ = ⊥

  replies-Adds :
      {A : Type 0} (P : Event → Type 0) (shape : A → Reply) (handler : Run A)
      → Adds P handler
      → Adds P (reply_by shape handler)
  replies-Adds P shape handler h =
      Adds->>= P handler (λ a. pure_step (ok (shape a))) h (λ a. Adds-pure_step P (ok (shape a)))

  query_run-Adds :
      (user : User) (req : QueryRunReq)
      → Adds
          (Permits user (query_run_v1 req))
          (query_run just outside authorizer targets (some user) req)
  unfolding query_run
  query_run-Adds user req =
      let P = Permits user (query_run_v1 req) in
      let target_id = trim_space req.target_id in
      let query = trim_space req.query in
      Adds-after P (reject_if (is_empty target_id || is_empty query) _) _ λ _ _.
        Adds->>= P (run_query just outside authorizer targets user target_id query) _
          (run_query-Adds just outside P authorizer targets user target_id query
            (λ srv schema found.
              let (listed, seen, _) =
                get_target_by_id-IsFound authorizer targets user target_id (srv, schema) found in
              (srv, listed, seen, refl))
            (λ pool. refl) (λ made own. own))
          λ _. adds_nothing P

  bookmarks_add-Adds :
      (user : User) (req : BookmarksAddReq)
      → Adds
          (Permits user (bookmarks_add_v1 req))
          (bookmarks_add outside authorizer targets (some user) req)
  unfolding bookmarks_add add_bookmark
  bookmarks_add-Adds user req =
      let P = Permits user (bookmarks_add_v1 req) in
      let target_id = trim_space req.target_id in
      let title = trim_space req.title in
      let query = trim_space req.query in
      Adds-after P (reject_if (is_empty target_id || (is_empty title || is_empty query)) _) _ λ _ _.
        Adds-after P (reject_if (is_empty (trim_space title) || is_empty (trim_space query)) _) _
          λ _ _. Adds-after P (get_target_by_id authorizer targets user target_id) _ λ found _. λ w.
            let mark : InsertBookmarkReq = record {
              id = outside.new_id w.log;
              user_id = user.id;
              target_id = target_id;
              title = trim_space title;
              query = trim_space query;
              created_at = outside.now w.log;
            } in
            Adds-calling P (bookmarked mark) (λ log. outside.insert_bookmark log mark) (refl, refl)
              w

  bookmarks_delete-Adds :
      (user : User) (id : String)
      → Adds
          (Permits user (bookmarks_delete_v1 id))
          (bookmarks_delete outside lib.parse_ulid (some user) id)
  unfolding bookmarks_delete delete_bookmark
  bookmarks_delete-Adds user id =
      let P = Permits user (bookmarks_delete_v1 id) in
      Adds-after P (parse_id lib.parse_ulid "bad bookmark id" (trim_space id)) _
        λ bookmark_id parsed.
          Adds-calling P (unbookmarked user.id bookmark_id)
            (λ log. outside.delete_bookmark log user.id bookmark_id)
            (refl, parse_id-eq-ok lib.parse_ulid _ (trim_space id) bookmark_id parsed)

  pub handle_call-Permits :
      (user : User) (call : Call) → Adds (Permits user call) (handle_call s (some user) call)
  unfolding handle_call profile_get target_list
  handle_call-Permits user profile_get_v1 =
      let P = Permits user profile_get_v1 in
      replies-Adds P profile (profile_get (some user)) (adds_nothing P)
  handle_call-Permits user targets_list_v1 =
      let P = Permits user targets_list_v1 in
      replies-Adds P servers (target_list just authorizer targets (some user)) (adds_nothing P)
  handle_call-Permits user (targets_get_v1 id) =
      let P = Permits user (targets_get_v1 id) in
      replies-Adds P server (target_get just authorizer targets (some user) id)
        (target_get-Adds s P user id)
  handle_call-Permits user (bookmarks_list_v1 id) =
      let P = Permits user (bookmarks_list_v1 id) in
      replies-Adds P bookmarks (bookmarks_list just outside authorizer targets (some user) id)
        (bookmarks_list-Adds s P user id)
  handle_call-Permits user (bookmarks_add_v1 req) =
      let P = Permits user (bookmarks_add_v1 req) in
      replies-Adds P (λ _. done) (bookmarks_add outside authorizer targets (some user) req)
        (bookmarks_add-Adds user req)
  handle_call-Permits user (bookmarks_delete_v1 id) =
      let P = Permits user (bookmarks_delete_v1 id) in
      replies-Adds P (λ _. done) (bookmarks_delete outside lib.parse_ulid (some user) id)
        (bookmarks_delete-Adds user id)
  handle_call-Permits user (queries_list_v1 limit) =
      let P = Permits user (queries_list_v1 limit) in
      replies-Adds P queries (queries_list just outside (some user) limit)
        (queries_list-Adds s P user limit)
  handle_call-Permits user (admin_requests_list_v1 page) =
      let P = Permits user (admin_requests_list_v1 page) in
      replies-Adds P requests (admin_requests_list just outside (some user) page)
        (admin_requests_list-Adds s P user page)
  handle_call-Permits user (query_run_v1 req) =
      let P = Permits user (query_run_v1 req) in
      replies-Adds P table (query_run just outside authorizer targets (some user) req)
        (query_run-Adds user req)
  handle_call-Permits user (query_results_get_v1 req) =
      let P = Permits user (query_results_get_v1 req) in
      replies-Adds P results (query_results_get outside lib (some user) req)
        (query_results_get-Adds s P user req)
  handle_call-Permits user (query_results_export_link_v1 req) =
      let P = Permits user (query_results_export_link_v1 req) in
      replies-Adds P link (export_link outside lib (some user) surroundings req)
        (export_link-Adds s P user req)

  with_api_bearer_auth-some :
      (auth_header : String) (user : User)
      → with_api_bearer_auth surroundings auth_header ≡ some user
      → surroundings.auth_by_access_token (extract_bearer_token auth_header) ≡ ok user
  unfolding with_api_bearer_auth
  with_api_bearer_auth-some auth_header user h =
      let token = extract_bearer_token auth_header in
      elim (Bool-cases (is_empty token)) [
        | inl without ↦ cc (rw (without, with_api_bearer_auth) at h)
        | inr has ↦ elim (Result-cases (surroundings.auth_by_access_token token)) [
          | inl (known, accepted) ↦
              accepted ∙ ap ok (some-injective _ _ (rw (has, accepted, with_api_bearer_auth) at h))
          | inr (e, refused) ↦ cc (rw (has, refused, with_api_bearer_auth) at h)
        ]
      ]

  -- A request of `/api/v1` that is not answered with 401 comes from a user whom AuthByAccessToken
  -- gives for its bearer token. Whether it succeeds or not, it makes such calls only as it permits
  -- this user: a pool of a target that the policy allows, the request's own query, results stored
  -- under the user's name, or a bookmark of the user's. A request that is answered with 401 changes
  -- nothing.
  pub serve_call-Permits :
      (auth_header : String) (call : Call) (w : World)
      → (((serve_call s auth_header call w).0 ≡ none) × ((serve_call s auth_header call w).1 ≡ w))
        ⊎ ((user : User) × (surroundings.auth_by_access_token (extract_bearer_token auth_header)
              ≡ ok user)
            × (es : List Event) × ((serve_call s auth_header call w).1.log ≡ w.log ++ es)
            × All (Permits user call) es)
  unfolding serve_call
  serve_call-Permits auth_header call w =
      elim (Option-cases (with_api_bearer_auth surroundings auth_header)) [
        | inl refused ↦ rw (refused, serve_call) (inl (refl, refl))
        | inr (user, known) ↦
            let (es, grown, permitted) = handle_call-Permits user call w in
            inr (
              user,
              with_api_bearer_auth-some auth_header user known,
              es,
              rw (known, serve_call) grown,
              permitted,
            )
      ]
