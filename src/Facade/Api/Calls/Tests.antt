-- ===== src/Facade/Api/Calls/Tests.antt =====
-- Runs of calls.
use database_gateway.Common.{◌≡◌, refl, ◌⊎◌, none, List, [], ◌∷◌, ◌++◌, ok, All}
use database_gateway.Common.Just.{sample_just}
use database_gateway.Config.Samples.{shop_target}
use database_gateway.App.Users.{User}
use database_gateway.App.Samples.{anna, allow_all, start, sample_outside}
use database_gateway.App.Effects.{Event, World, opened, queried, stored, unbookmarked}
use database_gateway.App.Stored.{get_query_results}
use database_gateway.Facade.Samples.{around_with}
use database_gateway.Facade.Export.{extract_bearer_token}
use database_gateway.Facade.Api.Calls.{Call, query_run_v1, Service, serve_call}
use database_gateway.Facade.Api.Calls.Owners.{Permits, serve_call-Permits}
use database_gateway.Facade.Api.Calls.History.{History, Moment}

abbrev shop_service : Service
shop_service = record {
  just = sample_just;
  outside = sample_outside;
  authorizer = allow_all;
  targets = shop_target ∷ [];
  lib = record { parse_ulid = λ text. ok text; format_rfc3339 = λ t. "2024" };
  surroundings = around_with (get_query_results sample_outside []);
}

abbrev run_select : Call
run_select = query_run_v1 (record { target_id = " shop"; query = "select " })

abbrev after_select : World
after_select = record {
  conns = ("shop", 7) ∷ [];
  log =
      opened "postgres://pg:secret@db:5432/shop?sslmode=disable"
      ∷ queried 7 "select"
      ∷ stored (record {
        id = "id-1";
        user_id = "anna@shop";
        target_id = "shop";
        created_at = 4000000;
        query = "select";
        response = "{}";
      })
      ∷ [];
}

abbrev morning : Moment
morning = record { now = 7; accepts = λ token. ok anna }

abbrev after_delete : World
after_delete = record after_select {
  log = after_select.log ++ (unbookmarked "anna@shop" "id-2" ∷ []);
}

refused_call : serve_call shop_service "Basic abc" run_select start ≡ (none, start)
unfolding serve_call
refused_call = refl

serve_call-Permits_example :
    (((serve_call shop_service "Bearer abc" run_select start).0 ≡ none)
      × ((serve_call shop_service "Bearer abc" run_select start).1 ≡ start))
    ⊎ ((user : User) × (shop_service.surroundings.auth_by_access_token
            (extract_bearer_token "Bearer abc")
          ≡ ok user)
        × (es : List Event) × ((serve_call shop_service "Bearer abc" run_select start).1.log
            ≡ start.log ++ es)
        × All (Permits shop_service user run_select) es)
serve_call-Permits_example = serve_call-Permits shop_service "Bearer abc" run_select start
