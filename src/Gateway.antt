-- ===== src/Gateway.antt =====
-- cmd/gateway: the commands of main.go and helpers.go, with internal/pgdb, internal/migrator and the
-- constructors of internal/app and internal/facade. The machine that they run on is an argument.
pub mod Acts
pub mod Laws
mod Tests
use database_gateway.Common.{
  ℕ, String, ◌<>◌, Bool, true, false, not, ◌||◌, List, [], ◌∷◌, Map, Result, ok, err, Error, plain,
  reject_if, if◌then◌else◌,
}
use database_gateway.Common.Text.{is_empty, ◌=ℕ◌}
use database_gateway.Common.Just.{Just}
use database_gateway.Config.{Config, Role, validate}
use database_gateway.Policy.Opa.{OpaAuthorizer}
use database_gateway.Policy.Opa.Loading.{Files, load_modules, Prepare, new}
use database_gateway.App.Values.{decimal}
use database_gateway.Gateway.Acts.{
  Act, connected, migrated_up, migrated_down, migration_created, generated, discovered, listened,
  Start, ◌>>=◌, ◌>>◌, pure_step, acting,
}
use Prim.Native.Char.{code}
use Prim.Native.String

-- A port and a size are not negative.
pub record PostgresConfig : Type 0 where
  pub host : String
  pub port : ℕ
  pub database : String
  pub username : String
  pub password : String
  pub use_ssl : Bool
  pub max_pool_size : ℕ

pub record FacadeConfig : Type 0 where
  pub port : ℕ
  pub cookie_secret : String
  pub unsafe_cors_allow_all : Bool

-- The whole configuration: what `Config.Validate` reads, and the two other sections.
pub record Settings : Type 0 where
  pub config : Config
  pub facade : FacadeConfig
  pub storage : PostgresConfig

pub record Machine : Type 0 where
  -- `just.JsonParseTypeF`
  pub parse_config : String → Result Settings
  -- `filepath.Join(filepath.Dir(file), path)`
  pub beside : String → String → String
  -- `sql.Open` and `PingContext`, from the acts before
  pub connect : List Act → String → Result (Unit {0})
  -- `goose.SetDialect`, `goose.Up`, `goose.Down` and `goose.Create`
  pub set_dialect : String → Result (Unit {0})
  pub up : List Act → String → Result (Unit {0})
  pub down : List Act → String → Result (Unit {0})
  pub create : List Act → String → Result (Unit {0})
  -- `postgres.GenerateDSN`
  pub generate : List Act → String → Result (Unit {0})
  pub files : Files
  pub prepare : Prepare
  -- `Options.Validate` of internal/app, `oidc.NewProvider` and `lrpcserver.New`
  pub app_options : Config → Result (Unit {0})
  pub discover : List Act → String → Result (Unit {0})
  pub new_lrpc : Result (Unit {0})
  -- `echo.Start`, which returns only with an error
  pub listen : List Act → ℕ → Error

-- `filepath.IsAbs`
unfoldable pub is_abs : String → Bool
is_abs String.[] = false
is_abs (String.◌∷◌ c s) = code c =ℕ b'/'

-- `len(oidcCfg.RoleMapping) == 0`
abbrev pub no_roles : Map Role → Bool
no_roles [] = true
no_roles (_ ∷ _) = false

-- The names of the commands in main.go.
pub data Command : Type 0 where
  run jet_generate migrate_up migrate_down_one migrate_new : Command

module _ (just : Just) (machine : Machine) where
  unfoldable pub build_db_dsn : PostgresConfig → String
  unfolding decimal
  build_db_dsn cfg =
      "host="
      <> (cfg.host
          <> (" port="
              <> (decimal cfg.port
                  <> (" user="
                      <> (cfg.username
                          <> (" password="
                              <> (cfg.password
                                  <> (" dbname="
                                      <> (cfg.database
                                          <> (" sslmode="
                                              <> just.if_else cfg.use_ssl "prefer"
                                                  "disable"))))))))))

  -- The settings of the pool are left out.
  unfoldable pub connect_to_pg : PostgresConfig → Start (Unit {0})
  unfolding build_db_dsn
  connect_to_pg cfg =
      acting (connected (build_db_dsn cfg)) (λ log. machine.connect log (build_db_dsn cfg))

  unfoldable pub new_migrator : PostgresConfig → Start (Unit {0})
  unfolding connect_to_pg
  new_migrator cfg = connect_to_pg cfg >> pure_step (machine.set_dialect "postgres")

  unfoldable pub migrate : PostgresConfig → Start (Unit {0})
  unfolding build_db_dsn
  migrate cfg = acting (migrated_up (build_db_dsn cfg)) (λ log. machine.up log (build_db_dsn cfg))

  -- `app.New`
  unfoldable pub new_app : Config → Start (Unit {0})
  new_app config =
      pure_step (machine.app_options config)
      >> (pure_step
            (reject_if (no_roles config.users.role_mapping) (plain "no role mappings defined"))
          >> acting (discovered config.users.issuer_url)
              (λ log. machine.discover log config.users.issuer_url))

  -- `facade.New`: the validation of its options, and of the library lrpc.
  unfoldable pub new_facade : FacadeConfig → Start (Unit {0})
  new_facade cfg =
      pure_step
        (reject_if (is_empty cfg.cookie_secret || cfg.port =ℕ 0) (plain "bad configuration"))
      >> pure_step machine.new_lrpc

  -- `Run` of the facade: an error of the server ends the process.
  unfoldable pub run_facade : FacadeConfig → Start (Unit {0})
  run_facade cfg = acting (listened cfg.port) (λ log. err (machine.listen log cfg.port))

  unfoldable pub cmd_run : Settings → Start (Unit {0})
  unfolding new_facade run_facade
  cmd_run cfg = pure_step (validate cfg.config) >> (new_facade cfg.facade >> run_facade cfg.facade)

  unfoldable pub with_app : (Settings → Start (Unit {0})) → Settings → Start (Unit {0})
  unfolding new_migrator migrate connect_to_pg new_app
  with_app cmd cfg =
      new_migrator cfg.storage
      >> (migrate cfg.storage
          >> (connect_to_pg cfg.storage
              >> (pure_step (load_modules machine.files cfg.config.policy_path) >>= λ modules.
                  pure_step (new machine.prepare modules) >>= λ authorizer.
                  new_app cfg.config >> cmd cfg)))

  -- The path of the policies, of which a relative one is from the directory of the configuration.
  unfoldable pub resolve_paths : String → Settings → Settings
  unfolding is_abs
  resolve_paths file cfg =
      let path = cfg.config.policy_path in
      record cfg {
        config = record cfg.config {
          policy_path = if is_abs path then path else machine.beside file path;
        };
      }

  unfoldable pub with_config : (Settings → Start (Unit {0})) → String → Start (Unit {0})
  unfolding resolve_paths
  with_config action file =
      pure_step (machine.parse_config file) >>= λ cfg. action (resolve_paths file cfg)

  unfoldable pub cmd_generate_models : Settings → Start (Unit {0})
  unfolding build_db_dsn
  cmd_generate_models cfg =
      acting (generated (build_db_dsn cfg.storage))
        (λ log. machine.generate log (build_db_dsn cfg.storage))

  unfoldable pub cmd_migrate_up : Settings → Start (Unit {0})
  unfolding new_migrator migrate
  cmd_migrate_up cfg = new_migrator cfg.storage >> migrate cfg.storage

  unfoldable pub cmd_migrate_down_one : Settings → Start (Unit {0})
  unfolding new_migrator build_db_dsn
  cmd_migrate_down_one cfg =
      new_migrator cfg.storage
      >> acting (migrated_down (build_db_dsn cfg.storage))
          (λ log. machine.down log (build_db_dsn cfg.storage))

  unfoldable pub cmd_migrate_create_new : Settings → Start (Unit {0})
  unfolding new_migrator
  cmd_migrate_create_new cfg =
      new_migrator cfg.storage
      >> acting (migration_created "unnamed_migration")
          (λ log. machine.create log "unnamed_migration")

  -- What `main` runs for a command, with the name of the configuration's file.
  unfoldable pub main : Command → String → Start (Unit {0})
  unfolding with_config with_app cmd_run cmd_generate_models cmd_migrate_up cmd_migrate_down_one
      cmd_migrate_create_new
  main run = with_config (with_app cmd_run)
  main jet_generate = with_config cmd_generate_models
  main migrate_up = with_config cmd_migrate_up
  main migrate_down_one = with_config cmd_migrate_down_one
  main migrate_new = with_config cmd_migrate_create_new
