-- ===== src/App/Targets.antt =====
-- The targets of internal/app/private.go and internal/app/service.go, with the adapters of
-- internal/app/adapters.go. The service's options are the arguments.
pub mod Laws
use database_gateway.Common.{
  String, Bool, ◌==◌, List, [], ◌∷◌, Result, ok, err, ◌>>=◌, wrapping, Sentinel,
}
use database_gateway.Common.{if◌then◌else◌}
use database_gateway.Common.Just.{Just}
use database_gateway.Config.{Target, TargetId, TargetTable}
use database_gateway.Policy.{Authorizer}
use database_gateway.Validator.Schema.{DbSchema}
use database_gateway.App.Users.{User, user_subjects}

pub record Tag : Type 0 where
  pub name : String

pub record Server : Type 0 where
  pub id : TargetId
  pub description : String
  pub tags : List Tag
  pub type : String
  pub tables : List TargetTable

-- `validator.NewDbSchema`
unfoldable pub new_db_schema : String → List TargetTable → DbSchema
new_db_schema default_schema tables = record { default_schema = default_schema; tables = tables }

module _ (authorizer : Authorizer) where
  -- The loop over the targets.
  unfoldable pub find_target : List String → TargetId → List Target → Result (Target × DbSchema)
  unfolding new_db_schema
  find_target subjects t_id [] = err (wrapping Sentinel.not_found "target not found")
  find_target subjects t_id (target ∷ targets) =
      let rest = find_target subjects t_id targets in
      if target.id == t_id
      then if authorizer.allow_target subjects target.id
        then ok (target, new_db_schema target.default_schema target.tables)
        else rest
      else rest

  unfoldable pub get_target_by_id : List Target → User → TargetId → Result (Target × DbSchema)
  unfolding find_target user_subjects
  get_target_by_id targets user t_id = find_target (user_subjects user) t_id targets

module _ (just : Just) where
  unfoldable pub adapt_tags : List String → List Tag
  adapt_tags tags = just.slice_map String Tag tags (λ t. record { name = t })

  unfoldable pub adapt_target : Target → Server
  unfolding adapt_tags
  adapt_target target = record {
    id = target.id;
    description = target.description;
    tags = adapt_tags target.tags;
    type = target.type;
    tables = target.tables;
  }

  unfoldable pub get_targets : Authorizer → List Target → User → List Server
  unfolding adapt_target user_subjects
  get_targets authorizer targets user =
      just.slice_map Target Server
        (just.slice_filter Target targets
          λ target. authorizer.allow_target (user_subjects user) target.id)
        adapt_target

  -- `GetTargetByID`
  unfoldable pub get_server_by_id : Authorizer → List Target → User → TargetId → Result Server
  unfolding get_target_by_id adapt_target
  get_server_by_id authorizer targets user t_id =
      get_target_by_id authorizer targets user t_id >>= λ (target, schema). ok (adapt_target target)
