-- ===== src/App/Samples.antt =====
-- The surroundings that the tests of the service share.
use database_gateway.Common.{List, err, plain}
use database_gateway.Common.{String, true, none, some, [], ◌∷◌, Result, ok}
use database_gateway.Policy.{Authorizer}
use database_gateway.Validator.Samples.{sample_parse}
use database_gateway.App.Users.{User, IdToken, Token}
use database_gateway.App.Values.{printed, numeric}
use database_gateway.App.Values.{ℤ, pos}
use database_gateway.App.Effects.{StoredResult}
use database_gateway.App.Requests.{take}
use database_gateway.App.Requests.Laws.{drop}
use database_gateway.App.Effects.{World, Outside, Rows}

abbrev pub anna : User
anna = record { id = "anna@shop"; username = "anna"; role = "user" }

abbrev pub allow_all : Authorizer
allow_all = record {
  allow_target = λ subjects target. true;
  allow_query = λ subjects target op table. true;
}

abbrev pub start : World
start = record { conns = []; log = [] }

abbrev pub sample_rows : Rows
sample_rows = record {
  collected = ok ((printed "anna" ∷ numeric (some "12") ∷ []) ∷ []);
  field_descriptions = record { name = "name" } ∷ record { name = "total" } ∷ [];
}

abbrev pub past_result : String → StoredResult
past_result id = record {
  id = id;
  user_id = "anna@shop";
  target_id = "shop";
  created_at = 1;
  query = "select";
  response = "{}";
}

abbrev pub past_results : List StoredResult
past_results = past_result "3" ∷ past_result "2" ∷ past_result "1" ∷ []

abbrev pub sample_page : ℤ → ℤ → Result (List StoredResult)
sample_page (pos limit) (pos offset) = ok (take limit (drop offset past_results))
sample_page _ _ = err (plain "LIMIT and OFFSET must not be negative")

abbrev pub sample_outside : Outside
sample_outside = record {
  pg_parse = sample_parse;
  new_pool = λ log url. ok 7;
  pool_query = λ log pool query. ok sample_rows;
  marshal = λ payload. ok "{}";
  new_id = λ log. "id-1";
  insert_query_results = λ log req. ok tt;
  now = λ log. 7000000;
  unmarshal = λ text. ok (record {
    table = record { headers = []; rows = [] };
    meta = record {
      execution_time_ms = 0;
      parsing_time_ms = 0;
      network_round_trip_ms = 0;
      rows_count = 0;
      columns_count = 0;
      vectors_count = 0;
    };
  });
  get_query_results_by_id = λ log id. ok (record {
    id = id;
    user_id = "anna@shop";
    target_id = "shop";
    created_at = 1;
    query = "select";
    response = "{}";
  });
  insert_bookmark = λ log req. ok tt;
  delete_bookmark = λ log uid id. ok tt;
  list_query_results = λ log limit offset. sample_page limit offset;
  list_query_results_by_user = λ log uid limit. ok [];
  format_time = λ t. "2024-01-01 00:00:00";
  list_bookmarks = λ log uid target_id. ok [];
  list_bookmarks_by_user = λ log uid. ok [];
  clock = record {
    full_round_trip_started_at = 1000000;
    parsing_started_at = 2000000;
    parsed_at = 3000000;
    query_started_at = 4000000;
    queried_at = 9000000;
    finished_at = 11000000;
  };
}

abbrev pub sample_token : IdToken
sample_token = record {
  claims = ok (record { email = "anna@shop"; preferred_username = "anna"; subject = "1" });
  raw_claims = ok (("groups", some ("guests" ∷ "staff" ∷ [])) ∷ []);
}

abbrev pub sample_verify : String → Result IdToken
sample_verify token = ok sample_token

abbrev pub sample_exchange : String → Result Token
sample_exchange code = ok (record { id_token = some "raw"; access_token = "access"; expiry = none })

abbrev pub boris : User
boris = record { id = "boris@shop"; username = "boris"; role = "user" }
