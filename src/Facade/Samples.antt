-- ===== src/Facade/Samples.antt =====
-- The surroundings that the tests of the HTTP service share.
use database_gateway.Common.{◌==◌, eq_iff, [], String, Result, ok, err, plain}
use database_gateway.App.Users.{User}
use database_gateway.App.Samples.{anna}
use database_gateway.App.Stored.{QueryResults}
use database_gateway.Facade.Export.{ExportClaims, Surroundings}

abbrev pub sample_claims : ExportClaims
sample_claims = record {
  user_id = "anna@shop";
  query_result_id = "id-1";
  format = "csv";
  expires_at = 10;
  nonce = "n";
}

abbrev pub sample_results : QueryResults
sample_results = record {
  id = "id-1";
  user_id = "anna@shop";
  target_id = "shop";
  created_at = 1;
  query = "select";
  q_table = record { headers = []; rows = [] };
  meta = record {
    execution_time_ms = 0;
    parsing_time_ms = 0;
    network_round_trip_ms = 0;
    rows_count = 0;
    columns_count = 0;
    vectors_count = 0;
  };
}

-- Surroundings with one user, one token and the results given.
abbrev pub around_with : (User → String → Result QueryResults) → Surroundings
around_with results = record {
  Bytes = String;
  equal = λ a b. a == b;
  equal_iff = eq_iff;
  random = ok "n";
  encode = λ text. text;
  decode = λ text. ok text;
  sign = λ payload. "signature";
  marshal = λ claims. ok "payload";
  unmarshal = λ payload. ok sample_claims;
  now = 7;
  auth_by_access_token = λ token. ok anna;
  session_user = err (plain "no session user");
  get_query_results = results;
}
