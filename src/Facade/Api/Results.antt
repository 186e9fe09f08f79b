-- ===== src/Facade/Api/Results.antt =====
-- The calls that run queries and show their results of internal/facade/api_lrpc.go.
pub mod Links
mod Tests
use database_gateway.Common.{
  ℕ, ◌+◌, String, ◌<>◌, ◌||◌, not, Option, List, Result, ok, wrapping, Sentinel, reject_if,
  if◌then◌else◌,
}
use database_gateway.Common.Just.{Just}
use database_gateway.Common.Text.{is_empty, trim_space}
use database_gateway.Config.{UserId, TargetId, Target}
use database_gateway.Policy.{Authorizer}
use database_gateway.App.Users.{User}
use database_gateway.App.Effects.{QTable, QMeta, Outside, Run, ◌>>=◌, ◌>>◌, pure_step, reading}
use database_gateway.App.Stored.{get_query_results}
use database_gateway.App.Queries.{run_query}
use database_gateway.Facade.Export.{Surroundings, is_supported_export_format, build_export_token}
use database_gateway.Facade.Api.Caller.{user_from_api_token, parse_id}

pub record QueryRunReq : Type 0 where
  pub target_id : String
  pub query : String

pub record QueryRunResp : Type 0 where
  pub query_id : String
  pub table : QTable

pub record QueryResultsGetReq : Type 0 where
  pub id : String
  pub query_result_id : String

pub record QueryResultsGetResp : Type 0 where
  pub id : String
  pub user_id : UserId
  pub target_id : TargetId
  pub query : String
  pub created_at : String
  pub table : QTable
  pub meta : QMeta

pub record ExportLinkReq : Type 0 where
  pub query_result_id : String
  pub format : String

pub record ExportLinkResp : Type 0 where
  pub url : String
  pub expires_at : String

-- What the calls take from libraries: `ulid.Parse` and the printing of a time in seconds after
-- RFC 3339.
pub record Libraries : Type 0 where
  pub parse_ulid : String → Result String
  pub format_rfc3339 : ℕ → String

unfoldable pub query_run :
    Just → Outside → Authorizer → List Target → Option User → QueryRunReq → Run QueryRunResp
unfolding user_from_api_token
query_run just outside authorizer targets caller req = do
  user ← pure_step (user_from_api_token caller)
  let target_id = trim_space req.target_id
  let query = trim_space req.query
  pure_step (
      reject_if (is_empty target_id || is_empty query)
        (wrapping Sentinel.bad_input "target_id and query are required"))
  (query_id, table) ← run_query just outside authorizer targets user target_id query
  pure_step (ok (record { query_id = query_id; table = table }))

module _ (outside : Outside) (lib : Libraries) (caller : Option User) where
  unfoldable pub query_results_get : QueryResultsGetReq → Run QueryResultsGetResp
  unfolding user_from_api_token parse_id
  query_results_get req = do
    user ← pure_step (user_from_api_token caller)
    let given = trim_space req.query_result_id
    let raw = if is_empty given then trim_space req.id else given
    query_result_id ← pure_step (parse_id lib.parse_ulid "bad query result id" raw)
    item ← reading (λ log. get_query_results outside log user query_result_id)
    pure_step (
        ok (record {
          id = item.id;
          user_id = item.user_id;
          target_id = item.target_id;
          query = item.query;
          created_at = lib.format_rfc3339 item.created_at;
          table = item.q_table;
          meta = item.meta;
        }))

  -- Times are in seconds: `time.Now()` of the surroundings, and three seconds on.
  unfoldable pub export_link : Surroundings → ExportLinkReq → Run ExportLinkResp
  unfolding user_from_api_token parse_id is_supported_export_format
  export_link s req = do
    user ← pure_step (user_from_api_token caller)
    query_result_id ←
        pure_step (parse_id lib.parse_ulid "bad query result id" (trim_space req.query_result_id))
    let format = trim_space req.format
    pure_step (
        reject_if (not (is_supported_export_format format))
          (wrapping Sentinel.bad_input "bad export format"))
    item ← reading (λ log. get_query_results outside log user query_result_id)
    let expires_at = s.now + 3
    token ← pure_step (build_export_token s user.id query_result_id format expires_at)
    pure_step (
        ok (record {
          url = "/api/v1/query-results/export/" <> token;
          expires_at = lib.format_rfc3339 expires_at;
        }))
