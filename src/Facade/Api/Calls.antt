-- ===== src/Facade/Api/Calls.antt =====
-- The registration of the calls and the group of `/api/v1` in `Run` of internal/facade/service.go: a
-- method's name is a constructor, whose arguments are the request. What the server of the library
-- lrpc does with the bytes of a request and of a reply is left out.
mod Reads
pub mod Owners
pub mod History
mod Tests
use database_gateway.Common.{String, Option, none, some, List, Result, ok, err}
use database_gateway.Common.Just.{Just}
use database_gateway.Config.{Target}
use database_gateway.Policy.{Authorizer}
use database_gateway.App.Users.{User}
use database_gateway.App.Values.{ℤ}
use database_gateway.App.Targets.{Server}
use database_gateway.App.Effects.{World, Outside, Run, ◌>>=◌, pure_step}
use database_gateway.Facade.Export.{Surroundings}
use database_gateway.Facade.Api.Caller.{with_api_bearer_auth}
use database_gateway.Facade.Api.Targets.{ProfileGetResp, profile_get, target_list, target_get}
use database_gateway.Facade.Api.Bookmarks.{
  ApiBookmark, BookmarksAddReq, bookmarks_list, bookmarks_add, bookmarks_delete,
}
use database_gateway.Facade.Api.Requests.{
  ApiQuery, AdminRequestsListResp, queries_list, admin_requests_list,
}
use database_gateway.Facade.Api.Results.{
  QueryRunReq, QueryRunResp, QueryResultsGetReq, QueryResultsGetResp, ExportLinkReq, ExportLinkResp,
  Libraries, query_run, query_results_get, export_link,
}

pub data Call : Type 0 where
  profile_get_v1 targets_list_v1 : Call
  targets_get_v1 : String → Call
  bookmarks_list_v1 : String → Call
  bookmarks_add_v1 : BookmarksAddReq → Call
  bookmarks_delete_v1 : String → Call
  queries_list_v1 : ℤ → Call
  admin_requests_list_v1 : ℤ → Call
  query_run_v1 : QueryRunReq → Call
  query_results_get_v1 : QueryResultsGetReq → Call
  query_results_export_link_v1 : ExportLinkReq → Call

pub data Reply : Type 0 where
  profile : ProfileGetResp → Reply
  servers : List Server → Reply
  server : Server → Reply
  bookmarks : List ApiBookmark → Reply
  done : Reply
  queries : List ApiQuery → Reply
  requests : AdminRequestsListResp → Reply
  table : QueryRunResp → Reply
  results : QueryResultsGetResp → Reply
  link : ExportLinkResp → Reply

-- A handler's response, as a reply.
abbrev pub reply_by : {A : Type 0} → (A → Reply) → Run A → Run Reply
reply_by shape handler = handler >>= λ response. pure_step (ok (shape response))

-- What the service is started with, and the libraries that it calls.
pub record Service : Type 1 where
  pub just : Just
  pub outside : Outside
  pub authorizer : Authorizer
  pub targets : List Target
  pub lib : Libraries
  pub surroundings : Surroundings

module _ (s : Service) where
  open s use {just, outside, authorizer, targets, lib, surroundings}

  unfoldable pub handle_call : Option User → Call → Run Reply
  handle_call caller profile_get_v1 = reply_by profile (profile_get caller)
  handle_call caller targets_list_v1 = reply_by servers (target_list just authorizer targets caller)
  handle_call caller (targets_get_v1 target_id) =
      reply_by server (target_get just authorizer targets caller target_id)
  handle_call caller (bookmarks_list_v1 target_id) =
      reply_by bookmarks (bookmarks_list just outside authorizer targets caller target_id)
  handle_call caller (bookmarks_add_v1 req) =
      reply_by (λ _. done) (bookmarks_add outside authorizer targets caller req)
  handle_call caller (bookmarks_delete_v1 id) =
      reply_by (λ _. done) (bookmarks_delete outside lib.parse_ulid caller id)
  handle_call caller (queries_list_v1 limit) =
      reply_by queries (queries_list just outside caller limit)
  handle_call caller (admin_requests_list_v1 page) =
      reply_by requests (admin_requests_list just outside caller page)
  handle_call caller (query_run_v1 req) =
      reply_by table (query_run just outside authorizer targets caller req)
  handle_call caller (query_results_get_v1 req) =
      reply_by results (query_results_get outside lib caller req)
  handle_call caller (query_results_export_link_v1 req) =
      reply_by link (export_link outside lib caller surroundings req)

  -- A request with its Authorization header: none is the status 401.
  unfoldable pub serve_call : String → Call → World → Option (Result Reply) × World
  unfolding with_api_bearer_auth handle_call
  serve_call auth_header call w = elim (with_api_bearer_auth surroundings auth_header) [
    | none ↦ (none, w)
    | some user ↦ let (response, w') = handle_call (some user) call w in (some response, w')
  ]
