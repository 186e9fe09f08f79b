-- ===== src/Gateway/Tests.antt =====
-- Runs of the commands.
use database_gateway.Common.{
  ◌≡◌, refl, String, false, List, [], ◌∷◌, ok, err, plain, insert, none, ◌<>◌,
}
use database_gateway.Common.Just.{sample_just}
use database_gateway.Common.Text.{trim_space, contains_dot}
use database_gateway.Config.{validate}
use database_gateway.Config.Samples.{sample_config}
use database_gateway.Gateway.Acts.{Act, connected, migrated_up, migrated_down, discovered, listened}
use database_gateway.Policy.Opa.Loading.{load_modules, new}
use database_gateway.Gateway.{Settings, Machine, Command, main}

abbrev settings : Settings
settings = record {
  config = sample_config;
  facade = record { port = 8080; cookie_secret = "secret"; unsafe_cors_allow_all = false };
  storage = record {
    host = "db";
    port = 5432;
    database = "gateway";
    username = "gateway";
    password = "pass";
    use_ssl = false;
    max_pool_size = 5;
  };
}

abbrev machine : Machine
machine = record {
  parse_config = λ file. ok settings;
  beside = λ file path. "/etc/" <> path;
  connect = λ log dsn. ok tt;
  set_dialect = λ dialect. ok tt;
  up = λ log dsn. ok tt;
  down = λ log dsn. ok tt;
  create = λ log name. ok tt;
  generate = λ log dsn. ok tt;
  files = record {
    read_dir = λ dir. ok (record { name = "all.rego"; is_dir = false } ∷ []);
    read_file = λ dir name. ok "package gateway";
  };
  prepare = λ query modules. ok (λ input. none);
  app_options = λ config. ok tt;
  discover = λ log issuer. ok tt;
  new_lrpc = ok tt;
  listen = λ log port. plain "address in use";
}

abbrev dsn : String
dsn = "host=db port=5432 user=gateway password=pass dbname=gateway sslmode=disable"

abbrev all_acts : List Act
all_acts =
    connected dsn
    ∷ migrated_up dsn
    ∷ connected dsn
    ∷ discovered "https://issuer"
    ∷ listened 8080
    ∷ []

serves :
    main sample_just machine Command.run "config.json" [] ≡ (err (plain "address in use"), all_acts)
unfolding main insert trim_space contains_dot load_modules new validate
serves = refl

-- Validate refuses a configuration with no path of the policies. The command `run` does not: it has
-- made the path the directory of the configuration before.
abbrev pathless : Settings
pathless = record settings { config = record sample_config { policy_path = "" } }

invalid : validate pathless.config ≡ err (plain "policy.path is required")
unfolding validate trim_space contains_dot
invalid = refl

serves_pathless :
    main sample_just
      (record machine { parse_config = λ file. ok pathless })
      Command.run
      "config.json"
      []
    ≡ (err (plain "address in use"), all_acts)
unfolding main insert trim_space contains_dot load_modules new validate
serves_pathless = refl

migrates_down :
    main sample_just machine Command.migrate_down_one "config.json" []
    ≡ (ok tt, connected dsn ∷ migrated_down dsn ∷ [])
unfolding main
migrates_down = refl
