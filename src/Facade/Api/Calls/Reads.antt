-- ===== src/Facade/Api/Calls/Reads.antt =====
-- The calls that make no call of another system but reads of the storage.
use database_gateway.Common.{String, some, not, if◌then◌else◌, ◌+◌, reject_if}
use database_gateway.Common.Text.{is_empty, trim_space}
use database_gateway.App.Users.{User}
use database_gateway.App.Effects.{Event}
use database_gateway.App.Effects.Adds.{Adds, adds_nothing, Adds-after, Adds-reads}
use database_gateway.App.Stored.{list_bookmarks, list_all_bookmarks, get_query_results}
use database_gateway.App.Requests.{list_recent_queries, list_admin_requests}
use database_gateway.App.Values.{ℤ, pos, positive_or}
use database_gateway.Facade.Api.Targets.{target_get}
use database_gateway.Facade.Api.Requests.{queries_list, admin_requests_list}
use database_gateway.Facade.Export.{is_supported_export_format, build_export_token}
use database_gateway.Facade.Api.Caller.{parse_id}
use database_gateway.Facade.Api.Bookmarks.{bookmarks_list}
use database_gateway.Facade.Api.Results.{
  QueryResultsGetReq, ExportLinkReq, query_results_get, export_link,
}
use database_gateway.Facade.Api.Calls.{Service}

module _ (s : Service) where
  open s use {just, outside, authorizer, targets, lib, surroundings}

  pub target_get-Adds :
      (P : Event → Type 0) (user : User) (id : String)
      → Adds P (target_get just authorizer targets (some user) id)
  unfolding target_get
  target_get-Adds P user id =
      Adds-after P (reject_if (is_empty (trim_space id)) _) _ λ _ _. adds_nothing P

  pub bookmarks_list-Adds :
      (P : Event → Type 0) (user : User) (id : String)
      → Adds P (bookmarks_list just outside authorizer targets (some user) id)
  unfolding bookmarks_list
  bookmarks_list-Adds P user id =
      let trimmed = trim_space id in
      Adds-reads P
        (λ log.
          if is_empty trimmed
          then list_all_bookmarks just outside log user.id
          else list_bookmarks just outside authorizer targets log user trimmed)
        _ λ _. adds_nothing P

  pub queries_list-Adds :
      (P : Event → Type 0) (user : User) (limit : ℤ)
      → Adds P (queries_list just outside (some user) limit)
  unfolding queries_list
  queries_list-Adds P user limit =
      Adds-reads P (λ log. list_recent_queries outside log user.id (pos (positive_or limit 20))) _
        λ _. adds_nothing P

  pub admin_requests_list-Adds :
      (P : Event → Type 0) (user : User) (page : ℤ)
      → Adds P (admin_requests_list just outside (some user) page)
  unfolding admin_requests_list
  admin_requests_list-Adds P user page =
      Adds-reads P (λ log. list_admin_requests outside log user (pos (positive_or page 1)) (pos 50))
        _ λ _. adds_nothing P

  pub query_results_get-Adds :
      (P : Event → Type 0) (user : User) (req : QueryResultsGetReq)
      → Adds P (query_results_get outside lib (some user) req)
  unfolding query_results_get
  query_results_get-Adds P user req =
      let given = trim_space req.query_result_id in
      let raw = if is_empty given then trim_space req.id else given in
      Adds-after P (parse_id lib.parse_ulid _ raw) _
        λ id _. Adds-reads P (λ log. get_query_results outside log user id) _ λ item. adds_nothing P

  pub export_link-Adds :
      (P : Event → Type 0) (user : User) (req : ExportLinkReq)
      → Adds P (export_link outside lib (some user) surroundings req)
  unfolding export_link
  export_link-Adds P user req =
      Adds-after P (parse_id lib.parse_ulid _ (trim_space req.query_result_id)) _ λ id _.
        Adds-after P (reject_if (not (is_supported_export_format (trim_space req.format))) _) _
          λ _ _.
            Adds-reads P (λ log. get_query_results outside log user id) _
              λ item.
                Adds-after P
                  (build_export_token surroundings user.id id (trim_space req.format)
                    (surroundings.now + 3))
                  _ λ token _. adds_nothing P
