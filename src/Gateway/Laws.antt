-- ===== src/Gateway/Laws.antt =====
-- In which order the command `run` does what it does.
use database_gateway.Common.{◌≡◌, ◌⊎◌, String, List, [], ◌∷◌, ◌++◌, Map, ok}
use database_gateway.Common.Just.{Just}
use database_gateway.Config.{validate}
use database_gateway.Policy.Opa.{OpaAuthorizer}
use database_gateway.Policy.Opa.Loading.{load_modules, new}
use database_gateway.Gateway.Acts.{Act, connected, migrated_up, discovered, listened, Start}
use database_gateway.Gateway.Acts.Plan.{Follows}
use database_gateway.Gateway.{Settings, Machine, build_db_dsn}

module _ (just : Just) (machine : Machine) where
  -- The acts before the server listens.
  abbrev pub starting : Settings → List Act
  starting cfg =
      let dsn = build_db_dsn just machine cfg.storage in
      connected dsn ∷ migrated_up dsn ∷ connected dsn ∷ discovered cfg.config.users.issuer_url ∷ []

  -- The configuration is valid, and the policies have been loaded and prepared.
  abbrev pub IsReady : Settings → Type 0
  IsReady cfg =
      (validate cfg.config ≡ ok tt)
      × (modules : Map String) × (authorizer : OpaAuthorizer) × (load_modules machine.files
            cfg.config.policy_path
          ≡ ok modules)
      × (new machine.prepare modules ≡ ok authorizer)

  -- The acts are some of the first of `starting`, or all of them and then that the server listens,
  -- if all is ready.
  abbrev pub IsOrderly : Settings → List Act → Type 0
  IsOrderly cfg acts =
      ((rest : List Act) × (starting cfg ≡ acts ++ rest))
      ⊎ ((acts ≡ starting cfg ++ (listened cfg.facade.port ∷ [])) × IsReady cfg)

  abbrev Goes : Settings → List Act → List Act → Start (Unit {0}) → Type 0
  Goes cfg done plan m = (log : List Act) → Follows (IsOrderly cfg) done plan (λ _. Unit {0}) m log

  module _ (cfg : Settings) where
    abbrev dsn : String
    dsn = build_db_dsn just machine cfg.storage

    -- The acts so far, and those of `starting` that are left.
    abbrev at_first : List Act
    at_first = connected dsn ∷ []

    abbrev migrated : List Act
    migrated = connected dsn ∷ migrated_up dsn ∷ []

    abbrev stored : List Act
    stored = connected dsn ∷ migrated_up dsn ∷ connected dsn ∷ []

    abbrev found : Act
    found = discovered cfg.config.users.issuer_url
