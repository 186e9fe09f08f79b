-- ===== src/Config.antt =====
-- internal/config/config.go: the configuration and `Validate`. Go's string types `UserID`, `Role`,
-- `TargetID` and `Op` are texts, so `S()` is the value itself.
pub mod Laws
pub mod Samples
mod Tests
use database_gateway.Common.{ℕ, String, Bool, true, false, ◌||◌, not, List, [], ◌∷◌, Map, ◌==◌}
use database_gateway.Common.{Result, ok, err, ◌>>=◌, ◌>>◌, reject_if, plain}
use database_gateway.Common.Text.{is_empty, contains_dot, trim_space}

abbrev pub UserId : Type 0
UserId = String

abbrev pub Role : Type 0
Role = String

abbrev pub TargetId : Type 0
TargetId = String

abbrev pub Op : Type 0
Op = String

abbrev pub role_admin : Role
role_admin = "admin"

abbrev pub role_user : Role
role_user = "user"

abbrev pub op_select : Op
op_select = "select"

abbrev pub op_insert : Op
op_insert = "insert"

abbrev pub op_update : Op
op_update = "update"

abbrev pub op_delete : Op
op_delete = "delete"

-- `Role.IsValid`
unfoldable pub is_valid_role : Role → Bool
is_valid_role r = r == role_admin || r == role_user

pub record TargetTable : Type 0 where
  pub table : String
  pub fields : List String

pub record Connection : Type 0 where
  pub host : String
  pub port : ℕ
  pub user : String
  pub password : String
  pub db : String
  pub use_ssl : Bool
  pub max_pool_size : ℕ

pub record Target : Type 0 where
  pub id : TargetId
  pub description : String
  pub tags : List String
  pub type : String
  pub connection : Connection
  pub default_schema : String
  pub tables : List TargetTable

pub record UsersProviderOidc : Type 0 where
  pub client_id : String
  pub client_secret : String
  pub issuer_url : String
  pub redirect_url : String
  pub scopes : List String
  pub access_token_audience : String
  pub role_claim : String
  pub role_mapping : Map Role

-- The parts of `Config` that `Validate` reads.
pub record Config : Type 0 where
  pub targets : List Target
  pub users : UsersProviderOidc
  pub policy_path : String

-- The loop over the tables of a target.
unfoldable pub validate_tables : List TargetTable → Result (Unit {0})
unfolding contains_dot
validate_tables [] = ok tt
validate_tables (table ∷ tables) = do
  reject_if (not (contains_dot table.table)) (plain "use table notation with leading schema")
  validate_tables tables

-- The loop over the targets.
unfoldable pub validate_targets : List Target → Result (Unit {0})
unfolding validate_tables
validate_targets [] = ok tt
validate_targets (target ∷ targets) = do validate_tables target.tables; validate_targets targets

-- The loop over the role mapping.
unfoldable pub validate_roles : Map Role → Result (Unit {0})
unfolding is_valid_role
validate_roles [] = ok tt
validate_roles ((attr, role) ∷ roles) = do
  reject_if (not (is_valid_role role)) (plain "unsupported role for users.role_mapping")
  validate_roles roles

unfoldable pub validate : Config → Result (Unit {0})
unfolding validate_targets validate_roles trim_space
validate c = do
  validate_targets c.targets
  validate_roles c.users.role_mapping
  reject_if (is_empty (trim_space c.policy_path)) (plain "policy.path is required")
