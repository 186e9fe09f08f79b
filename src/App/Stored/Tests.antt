-- ===== src/App/Stored/Tests.antt =====
-- Runs on stored results and bookmarks.
use database_gateway.App.Targets.{get_target_by_id}
use database_gateway.Common.{◌≡◌, refl, inl, inr, String, [], ◌∷◌, ok, err, Error, Sentinel}
use database_gateway.Common.Text.{trim_space}
use database_gateway.Config.Samples.{shop_target}
use database_gateway.App.Effects.{World, StoredResult, bookmarked}
use database_gateway.App.Stored.{QueryResults, get_query_results, add_bookmark}
use database_gateway.App.Stored.Laws.{IsReader, get_query_results_hides}
use database_gateway.App.Samples.{anna, boris, allow_all, start, sample_outside}

abbrev sample_result : QueryResults
sample_result = record {
  id = "id-1";
  user_id = "anna@shop";
  target_id = "shop";
  created_at = 1;
  query = "select";
  q_table = record { headers = []; rows = [] };
  meta = record {
    execution_time_ms = 0;
    parsing_time_ms = 0;
    network_round_trip_ms = 0;
    rows_count = 0;
    columns_count = 0;
    vectors_count = 0;
  };
}

anna_reads : get_query_results sample_outside [] anna "id-1" ≡ ok sample_result
unfolding get_query_results
anna_reads = refl

abbrev annas : StoredResult
annas = record {
  id = "id-1";
  user_id = "anna@shop";
  target_id = "shop";
  created_at = 1;
  query = "select";
  response = "{}";
}

not_IsReader-boris : ¬ IsReader boris annas.user_id
not_IsReader-boris (inl e) = let h : ◌≡◌ {A = String} "user" "admin" = e in cc
not_IsReader-boris (inr e) = let h : ◌≡◌ {A = String} "boris@shop" "anna@shop" = e in cc

get_query_results_hides_example :
    (e : Error) × (get_query_results sample_outside [] boris "id-1" ≡ err e)
    × (e.wraps ≡ Sentinel.not_found ∷ [])
get_query_results_hides_example =
    get_query_results_hides sample_outside [] boris "id-1" (inr (annas, refl, not_IsReader-boris))

abbrev bookmarked_world : World
bookmarked_world = record {
  conns = [];
  log =
      bookmarked (record {
        id = "id-1";
        user_id = "anna@shop";
        target_id = "shop";
        title = "all";
        query = "select";
        created_at = 7000000;
      })
      ∷ [];
}

anna_bookmarks :
    add_bookmark sample_outside allow_all (shop_target ∷ []) anna "shop" " all " "select " start
    ≡ (ok tt, bookmarked_world)
unfolding add_bookmark trim_space get_target_by_id
anna_bookmarks = refl
