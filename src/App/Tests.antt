-- ===== src/App/Tests.antt =====
-- Runs of the service.
use database_gateway.Validator.Checks.{validate_access}
use database_gateway.Validator.Checks.{validate_schema}
use database_gateway.Parser.Expr.{parse_where_clause}
use database_gateway.Parser.Tables.{new_tables}
use database_gateway.Parser.Tables.{put}
use database_gateway.Validator.Vecs.{make_vectors}
use database_gateway.Parser.Tables.{full_name}
use database_gateway.Common.{
  ℕ, ◌≡◌, refl, ◌⊎◌, inl, String, true, false, some, List, [], ◌∷◌, All, ok, lookup, insert,
}
use database_gateway.Common.Just.{sample_just}
use database_gateway.Common.Text.{is_empty, trim_space}
use database_gateway.Config.{Target, validate, op_select}
use database_gateway.Config.Samples.{shop_target, sample_users, sample_config}
use database_gateway.Parser.Ast.{delete_stmt}
use database_gateway.Parser.Samples.{select_joined, joined, delete_users, users}
use database_gateway.Parser.Select.Sources.{range_vars, full_name_of, IsUnmasked}
use database_gateway.Parser.Statement.{parse}
use database_gateway.Validator.Schema.{DbSchema, canonical_table}
use database_gateway.Validator.Checks.Guards.{stmt_op}
use database_gateway.App.Users.{
  User, IdToken, Token, user_subjects, complete_oidc, auth_by_access_token,
}
use database_gateway.App.Users.Laws.{
  IsAuthenticated, complete_oidc-IsAuthenticated, auth_by_access_token-IsAuthenticated,
}
use database_gateway.App.Targets.{get_target_by_id}
use database_gateway.App.Targets.Laws.{IsFound}
use database_gateway.App.Effects.{World, QTable, opened, queried, stored}
use database_gateway.App.Queries.{get_connection, run_query}
use database_gateway.App.Queries.Laws.{
  IsRefused, IsAdmitted, run_query-guarded, run_query-select, run_query-write,
}
use database_gateway.App.Queries.Audit.{IsAudited, request, run_query-IsAudited}
use database_gateway.App.Samples.{
  anna, allow_all, start, sample_outside, sample_verify, sample_exchange,
}

abbrev shop : List Target
shop = shop_target ∷ []

abbrev shop_found : Target × DbSchema
shop_found = (shop_target, record { default_schema = "public"; tables = shop_target.tables })

found_shop : get_target_by_id allow_all shop anna "shop" ≡ ok shop_found
unfolding get_target_by_id
found_shop = refl

anna_completes :
    complete_oidc sample_just sample_users sample_verify sample_exchange 5 "code" "state" "state"
    ≡ ok (anna, 900000000005, record { id_token = "raw"; access_token = "access" })
unfolding complete_oidc lookup trim_space
anna_completes = refl

abbrev sent_state : String
sent_state = "state"

complete_oidc_example :
    (sent_state ≡ sent_state)
    × (is_empty sent_state ≡ false)
    × (token : Token) × (t : IdToken) × (sample_exchange "code" ≡ ok token)
    × (token.id_token ≡ some "raw")
    × (sample_verify "raw" ≡ ok t)
    × IsAuthenticated sample_users t anna
complete_oidc_example =
    complete_oidc-IsAuthenticated sample_just sample_users sample_verify sample_exchange 5 "code"
      "state" "state" anna 900000000005 (record { id_token = "raw"; access_token = "access" })
      anna_completes

anna_enters : auth_by_access_token sample_just sample_users sample_verify " access " ≡ ok anna
unfolding auth_by_access_token trim_space lookup
anna_enters = refl

auth_by_access_token_example :
    (is_empty (trim_space " access ") ≡ false)
    × (t : IdToken) × (sample_verify (trim_space " access ") ≡ ok t)
    × IsAuthenticated sample_users t anna
auth_by_access_token_example =
    auth_by_access_token-IsAuthenticated sample_just sample_users sample_verify " access " anna
      anna_enters

config_validated : validate sample_config ≡ ok tt
unfolding validate
config_validated = refl

run_query-guarded_example :
    IsRefused (run_query sample_just sample_outside allow_all shop anna "shop" "select" start) start
    ⊎ ((p : Target × DbSchema) × IsAdmitted sample_just sample_outside allow_all shop anna "shop"
          "select" p)
run_query-guarded_example =
    run_query-guarded sample_just sample_outside allow_all shop anna "shop" "select" start

free_joined : IsUnmasked (range_vars joined)
unfolding range_vars full_name
free_joined = ((inl refl, tt), (tt, tt))

run_query-select_example :
    IsRefused (run_query sample_just sample_outside allow_all shop anna "shop" "select" start) start
    ⊎ ((p : Target × DbSchema) × IsFound allow_all (user_subjects anna) "shop" shop p
        × All
            (λ r.
              allow_all.allow_query
                (user_subjects anna)
                "shop"
                op_select
                (canonical_table p.1 (full_name_of r))
              ≡ true)
            (range_vars joined))
run_query-select_example =
    run_query-select sample_just sample_outside allow_all shop anna "shop" "select" start
      select_joined joined refl refl free_joined

run_query-write_example :
    IsRefused (run_query sample_just sample_outside allow_all shop anna "shop" "delete" start) start
    ⊎ ((p : Target × DbSchema) × IsFound allow_all (user_subjects anna) "shop" shop p
        × (allow_all.allow_query
              (user_subjects anna)
              "shop"
              (stmt_op (delete_stmt delete_users))
              (canonical_table p.1 (full_name_of users))
            ≡ true))
run_query-write_example =
    run_query-write sample_just sample_outside allow_all shop anna "shop" "delete" start
      (delete_stmt delete_users) users refl refl tt

abbrev shop_url : String
shop_url = "postgres://pg:secret@db:5432/shop?sslmode=disable"

abbrev connected_world : World
connected_world = record { conns = ("shop", 7) ∷ []; log = opened shop_url ∷ [] }

abbrev some_runs : List (User × String × String)
some_runs = (anna, "shop", "select") ∷ (anna, "bank", "delete") ∷ []

abbrev result_table : QTable
result_table = record { headers = "name" ∷ "total" ∷ []; rows = ("anna" ∷ "12" ∷ []) ∷ [] }

abbrev final_world : World
final_world = record {
  conns = ("shop", 7) ∷ [];
  log =
      opened shop_url
      ∷ queried 7 "select"
      ∷ stored (request sample_just sample_outside anna "shop" "select" "id-1" "{}")
      ∷ [];
}

anna_selects :
    run_query sample_just sample_outside allow_all shop anna "shop" "select" start
    ≡ (ok ("id-1", result_table), final_world)
unfolding run_query get_connection get_target_by_id make_vectors parse put insert new_tables lookup
    parse_where_clause validate_schema validate_access
anna_selects = refl

run_query-IsAudited_example :
    (p : Target × DbSchema) × (vectors : ℕ) × (get_target_by_id allow_all shop anna "shop" ≡ ok p)
    × IsAudited sample_just sample_outside anna p.0 "shop" "select" vectors start "id-1"
        result_table final_world
run_query-IsAudited_example =
    run_query-IsAudited sample_just sample_outside allow_all shop anna "shop" "select" start
      final_world "id-1" result_table anna_selects
