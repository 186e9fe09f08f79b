-- ===== src/Facade/Api/Results/Tests.antt =====
-- Runs of calls that hand out links.
use text.Mathlib.TextEquality.{eq_iff}
use database_gateway.Common.{
  ◌≡◌, ◌↔◌, refl, ap, ℕ, zero, suc, ◌+◌, String, ◌<>◌, ◌==◌, Bool, true, ◌&&◌, some, List, [],
  Result, ok, err, plain, if◌then◌else◌, arith, Bool-cases, inl, inr,
}
use database_gateway.Common.Text.{is_space, leb, trim_space, ◌=ℕ◌}
use database_gateway.App.Samples.{anna, start, sample_outside}
use database_gateway.App.Effects.{Event}
use database_gateway.App.Stored.{QueryResults, get_query_results}
use database_gateway.Facade.Export.{
  is_supported_export_format, ExportClaims, Surroundings, served, current_export_user,
  download_query_results_export, build_export_token, parse_export_token,
}
use database_gateway.Facade.Export.Roundtrip.{IsPart, IsFaithful, at_time, parse-build}
use database_gateway.Common.Text.Clean.{AllCodes}
use database_gateway.Facade.Api.Results.{Libraries, ExportLinkReq, ExportLinkResp, export_link}
use database_gateway.Facade.Api.Results.Links.{later, export_link-works}

-- Bytes that are a number, written as so many letters.
letters : ℕ → String
letters zero = ""
letters (suc n) = String.◌∷◌ "a" (letters n)

count_letters : String → ℕ
count_letters String.[] = 0
count_letters (String.◌∷◌ c s) = suc (count_letters s)

count-letters : (n : ℕ) → count_letters (letters n) ≡ n
unfolding letters count_letters
count-letters zero = refl
count-letters (suc n) = ap suc (count-letters n)

-- The claims that are marshalled: those of one link.
abbrev link_claims : ExportClaims
link_claims = record {
  user_id = "anna@shop";
  query_result_id = "id-1";
  format = "csv";
  expires_at = 10;
  nonce = "aaa";
}

=ℕ_iff : (a b : ℕ) → ((a =ℕ b) ≡ true) ↔ (a ≡ b)
=ℕ_iff a b = ((λ h. ground arith), (λ h. ground arith))

same_claims : ExportClaims → Bool
same_claims c =
    c.user_id == "anna@shop"
    && (c.query_result_id == "id-1"
        && (c.format == "csv" && (c.expires_at =ℕ 10 && c.nonce == "aaa")))

same_claims-eq : (c : ExportClaims) → same_claims c ≡ true → link_claims ≡ c
unfolding same_claims
same_claims-eq c h = ground (
  arith,
  h,
  eq_iff c.user_id "anna@shop",
  eq_iff c.query_result_id "id-1",
  eq_iff c.format "csv",
  eq_iff c.nonce "aaa",
)

-- `marshal` for these claims alone.
marshal_one : ExportClaims → Result ℕ
unfolding same_claims
marshal_one c = if same_claims c then ok 3 else err (plain "no other claims")

marshal_one-eq : (c : ExportClaims) (n : ℕ) → marshal_one c ≡ ok n → link_claims ≡ c
unfolding marshal_one
marshal_one-eq c n h = elim (Bool-cases (same_claims c)) [
  | inl same ↦ same_claims-eq c same
  | inr other ↦ cc (rw (other, marshal_one) at h)
]

abbrev link_surroundings : Surroundings
link_surroundings = record {
  Bytes = ℕ;
  encode = letters;
  decode = λ text. ok (count_letters text);
  sign = λ payload. payload + 1;
  equal = λ a b. a =ℕ b;
  equal_iff = =ℕ_iff;
  marshal = marshal_one;
  unmarshal = λ bytes. ok link_claims;
  random = ok 3;
  now = 7;
  auth_by_access_token = λ token. ok anna;
  session_user = err (plain "no session user");
  get_query_results = get_query_results sample_outside [];
}

letters_clean : (n : ℕ) → AllCodes IsPart (letters n)
unfolding letters is_space
letters_clean zero = tt
letters_clean (suc n) = ((refl, refl), letters_clean n)

link-IsFaithful : IsFaithful link_surroundings
link-IsFaithful = record {
  decode-encode = λ bytes. ap ok (count-letters bytes);
  encode_clean = letters_clean;
  unmarshal-marshal = λ claims bytes h. ap ok (marshal_one-eq claims bytes h);
}

abbrev link_libraries : Libraries
link_libraries = record { parse_ulid = λ text. ok text; format_rfc3339 = λ t. "2024" }

abbrev link_req : ExportLinkReq
link_req = record { query_result_id = " id-1 "; format = "csv" }

abbrev link_resp : ExportLinkResp
link_resp = record { url = "/api/v1/query-results/export/aaa.aaaa"; expires_at = "2024" }

linked :
    export_link sample_outside link_libraries (some anna) link_surroundings link_req start
    ≡ (ok link_resp, start)
unfolding export_link get_query_results marshal_one letters build_export_token trim_space
linked = refl

export_link-works_example :
    (id : String) × (token : String) × (link_libraries.parse_ulid
        (trim_space link_req.query_result_id)
      ≡ ok id)
    × (link_resp.url ≡ "/api/v1/query-results/export/" <> token)
    × ((auth_header : String) (now : ℕ) (log : List Event) (q : QueryResults)
        → current_export_user (later sample_outside link_surroundings now log) auth_header ≡ ok anna
        → leb now (link_surroundings.now + 3) ≡ true
        → get_query_results sample_outside log anna id ≡ ok q
        → download_query_results_export
            (later sample_outside link_surroundings now log)
            auth_header
            token
          ≡ served (trim_space link_req.format) q)
export_link-works_example =
    export_link-works sample_outside link_libraries link_surroundings link-IsFaithful anna link_req
      start start link_resp linked

token_built : build_export_token link_surroundings "anna@shop" "id-1" "csv" 10 ≡ ok "aaa.aaaa"
unfolding build_export_token marshal_one letters
token_built = refl

parse-build_example :
    (nonce : String) × (parse_export_token (at_time link_surroundings 9) "aaa.aaaa"
      ≡ ok (record {
        user_id = "anna@shop";
        query_result_id = "id-1";
        format = "csv";
        expires_at = 10;
        nonce = nonce;
      }))
unfolding is_supported_export_format
parse-build_example =
    parse-build link_surroundings link-IsFaithful "anna@shop" "id-1" "csv" 10 "aaa.aaaa" 9
      token_built refl refl
