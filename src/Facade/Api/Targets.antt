-- ===== src/Facade/Api/Targets.antt =====
-- The calls about targets and the profile of internal/facade/api_lrpc.go.
use database_gateway.Common.{String, Option, List, ok, wrapping, Sentinel, reject_if}
use database_gateway.Common.Just.{Just}
use database_gateway.Common.Text.{is_empty, trim_space}
use database_gateway.Config.{UserId, Role, Target}
use database_gateway.Policy.{Authorizer}
use database_gateway.App.Users.{User}
use database_gateway.App.Targets.{Server, get_targets, get_server_by_id}
use database_gateway.App.Effects.{Run, ◌>>=◌, ◌>>◌, pure_step}
use database_gateway.Facade.Api.Caller.{user_from_api_token}

pub record ProfileGetResp : Type 0 where
  pub id : UserId
  pub username : String
  pub role : Role

unfoldable pub profile_get : Option User → Run ProfileGetResp
unfolding user_from_api_token
profile_get caller = do
  user ← pure_step (user_from_api_token caller)
  pure_step (ok (record { id = user.id; username = user.username; role = user.role }))

module _ (just : Just) (authorizer : Authorizer) (targets : List Target)
    (caller : Option User) where
  unfoldable pub target_list : Run (List Server)
  unfolding user_from_api_token
  target_list = do
    user ← pure_step (user_from_api_token caller)
    pure_step (ok (get_targets just authorizer targets user))

  unfoldable pub target_get : String → Run Server
  unfolding user_from_api_token
  target_get target_id = do
    user ← pure_step (user_from_api_token caller)
    let trimmed = trim_space target_id
    pure_step (reject_if (is_empty trimmed) (wrapping Sentinel.bad_input "target_id is required"))
    pure_step (get_server_by_id just authorizer targets user trimmed)
