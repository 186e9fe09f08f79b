-- ===== src/Facade/Export/Tests.antt =====
-- Runs of downloads.
use database_gateway.Common.{◌≡◌, refl, [], Result, ok, err, wrapping, Sentinel}
use database_gateway.App.Users.{User}
use database_gateway.App.Samples.{anna, sample_outside}
use database_gateway.App.Effects.{StoredResult}
use database_gateway.App.Stored.Laws.{IsReader}
use database_gateway.App.Stored.{QueryResults, get_query_results}
use database_gateway.Facade.Samples.{sample_claims, sample_results, around_with}
use database_gateway.Facade.Export.{
  ExportClaims, Surroundings, served, panicked, extract_bearer_token, parse_export_token,
  current_export_user, download_query_results_export, build_export_token,
}
use database_gateway.Facade.Export.Laws.{download-IsReader, download_panics}

abbrev around : Result QueryResults → Surroundings
around results = around_with (λ user id. results)

bearer : extract_bearer_token " bEaReR  abc " ≡ "abc"
unfolding extract_bearer_token
bearer = refl

built :
    build_export_token (around (ok sample_results)) "anna@shop" "id-1" "csv" 10
    ≡ ok "payload.signature"
unfolding build_export_token
built = refl

anna_downloads :
    download_query_results_export (around (ok sample_results)) "Bearer abc" "payload.signature"
    ≡ served "csv" sample_results
unfolding download_query_results_export
anna_downloads = refl

abbrev lost : Surroundings
lost = around (err (wrapping Sentinel.not_found "unknown result id"))

anna_known : current_export_user lost "Bearer abc" ≡ ok anna
unfolding current_export_user
anna_known = refl

token_parsed : parse_export_token lost "payload.signature" ≡ ok sample_claims
unfolding parse_export_token
token_parsed = refl

download_panics_example :
    download_query_results_export lost "Bearer abc" "payload.signature" ≡ panicked
download_panics_example =
    download_panics lost "Bearer abc" "payload.signature" anna sample_claims
      (wrapping Sentinel.not_found "unknown result id") anna_known token_parsed refl refl refl

-- Surroundings whose results are those of the service.
abbrev served_by_app : Surroundings
served_by_app = around_with (get_query_results sample_outside [])

app_serves :
    download_query_results_export served_by_app "Bearer abc" "payload.signature"
    ≡ served "csv" sample_results
unfolding download_query_results_export get_query_results
app_serves = refl

download-IsReader_example :
    (user : User) × (claims : ExportClaims) × (res : StoredResult) × (current_export_user
        served_by_app "Bearer abc"
      ≡ ok user)
    × (parse_export_token served_by_app "payload.signature" ≡ ok claims)
    × (sample_outside.get_query_results_by_id [] claims.query_result_id ≡ ok res)
    × IsReader user res.user_id
    × (sample_results.user_id ≡ res.user_id)
    × (sample_results.query ≡ res.query)
download-IsReader_example =
    download-IsReader served_by_app sample_outside [] (λ user id. refl) "Bearer abc"
      "payload.signature" "csv" sample_results app_serves
