-- ===== src/Facade/Api/Requests.antt =====
-- The calls about past requests of internal/facade/api_lrpc.go. A page and a limit are `int64`.
pub mod Bounds
mod Tests
use database_gateway.Common.{String, Bool, not, Option, List, Result, ok, ℕ}
use database_gateway.Common.Just.{Just}
use database_gateway.Common.Text.{leb}
use database_gateway.Config.{UserId, TargetId}
use database_gateway.App.Users.{User}
use database_gateway.App.Values.{ℤ, pos, positive_or}
use database_gateway.App.Effects.{Outside, Run, ◌>>=◌, pure_step, reading}
use database_gateway.App.Requests.{Query, AdminRequest, list_recent_queries, list_admin_requests}
use database_gateway.Facade.Api.Caller.{user_from_api_token}

-- `Query` of internal/facade/api_lrpc.go
pub record ApiQuery : Type 0 where
  pub id : String
  pub target_id : TargetId
  pub query : String
  pub created_at : String

-- `AdminRequest` of internal/facade/api_lrpc.go
pub record ApiAdminRequest : Type 0 where
  pub id : String
  pub user_id : UserId
  pub target_id : TargetId
  pub query : String
  pub created_at : String

pub record AdminRequestsListResp : Type 0 where
  pub requests : List ApiAdminRequest
  pub page : ℕ
  pub has_prev : Bool
  pub has_next : Bool

unfoldable pub show_api_query : Query → ApiQuery
show_api_query query = record {
  id = query.id;
  target_id = query.target_id;
  query = query.query;
  created_at = query.created_at;
}

unfoldable pub show_api_request : AdminRequest → ApiAdminRequest
show_api_request item = record {
  id = item.id;
  user_id = item.user_id;
  target_id = item.target_id;
  query = item.query;
  created_at = item.created_at;
}

module _ (just : Just) (outside : Outside) (caller : Option User) where
  unfoldable pub queries_list : ℤ → Run (List ApiQuery)
  unfolding user_from_api_token show_api_query positive_or
  queries_list limit = do
    user ← pure_step (user_from_api_token caller)
    queries ← reading (λ log. list_recent_queries outside log user.id (pos (positive_or limit 20)))
    pure_step (ok (just.slice_map Query ApiQuery queries show_api_query))

  unfoldable pub admin_requests_list : ℤ → Run AdminRequestsListResp
  unfolding user_from_api_token show_api_request positive_or
  admin_requests_list asked = do
    user ← pure_step (user_from_api_token caller)
    let page = positive_or asked 1
    (items, has_next) ← reading (λ log. list_admin_requests outside log user (pos page) (pos 50))
    pure_step (
        ok (record {
          requests = just.slice_map AdminRequest ApiAdminRequest items show_api_request;
          page = page;
          has_prev = not (leb page 1);
          has_next = has_next;
        }))
