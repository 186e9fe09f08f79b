-- ===== src/Facade/Export.antt =====
-- The export of stored results of internal/facade/service.go: the bearer token, the signed token of
-- a download and the download itself. What other code computes is in `Surroundings`: base64, HMAC,
-- JSON, the clock, sign-in by an access token, the session and the stored results.
pub mod Laws
pub mod Roundtrip
mod Tests
use Prim.Native.Char.{code}
use Prim.Native.String
use database_gateway.Common.{
  ℕ, zero, suc, String, ◌<>◌, ◌≡◌, ◌↔◌, Bool, true, false, not, ◌||◌, ◌==◌, Option, none, some,
  List,
}
use database_gateway.Common.{
  Result, ok, err, ◌>>=◌, ◌>>◌, reject_if, plain, wrapping, Sentinel, Error, if◌then◌else◌,
}
use database_gateway.Common.Text.{is_empty, trim_space, lowers_to, ◌=ℕ◌, leb}
use database_gateway.Config.{UserId}
use database_gateway.App.Users.{User}
use database_gateway.App.Stored.{QueryResults}

-- `strings.Cut`, at a separator of one character, by its code.
unfoldable pub cut : ℕ → String → Option (String × String)
cut sep String.[] = none
cut sep (String.◌∷◌ c s) =
    let rest = cut sep s in
    if code c =ℕ sep
    then some ("", s)
    else elim rest [ none ↦ none | some (before, after) ↦ some (String.◌∷◌ c before, after) ]

-- The rest of `extractBearerToken`, after the cut.
unfoldable pub bearer_of : Option (String × String) → String
unfolding trim_space lowers_to
bearer_of none = ""
bearer_of (some (scheme, token)) = if lowers_to scheme "bearer" then trim_space token else ""

unfoldable pub extract_bearer_token : String → String
unfolding cut bearer_of trim_space
extract_bearer_token auth_header =
    if is_empty auth_header then "" else bearer_of (cut b' ' (trim_space auth_header))

pub record ExportClaims : Type 0 where
  pub user_id : UserId
  pub query_result_id : String
  pub format : String
  pub expires_at : ℕ
  pub nonce : String

unfoldable pub is_supported_export_format : String → Bool
is_supported_export_format format = format == "json" || format == "csv"

pub record Surroundings : Type 1 where
  pub Bytes : Type 0
  -- `base64.RawURLEncoding`
  pub encode : Bytes → String
  pub decode : String → Result Bytes
  -- `signQueryResultsExportPayload`, with the secret
  pub sign : Bytes → Bytes
  -- `hmac.Equal`
  pub equal : Bytes → Bytes → Bool
  pub equal_iff : (a b : Bytes) → (equal a b ≡ true) ↔ (a ≡ b)
  pub marshal : ExportClaims → Result Bytes
  pub unmarshal : Bytes → Result ExportClaims
  -- what `rand.Read` gives for the nonce
  pub random : Result Bytes
  -- the seconds of `time.Now().Unix()`
  pub now : ℕ
  pub auth_by_access_token : String → Result User
  pub session_user : Result User
  pub get_query_results : User → String → Result QueryResults

-- What a request is answered with. `serveExport` reads through a pointer to the results, so with a
-- nil pointer it panics.
pub data Response : Type 0 where
  no_content : ℕ → Response
  failed : Error → Response
  served : String → QueryResults → Response
  panicked : Response

-- `errors.Is` of the service's two errors, over the sentinels of an error.
abbrev pub is_not_found : List Sentinel → Bool
is_not_found List.[] = false
is_not_found (List.◌∷◌ Sentinel.not_found _) = true
is_not_found (List.◌∷◌ _ rest) = is_not_found rest

abbrev pub is_forbidden : List Sentinel → Bool
is_forbidden List.[] = false
is_forbidden (List.◌∷◌ Sentinel.forbidden _) = true
is_forbidden (List.◌∷◌ _ rest) = is_forbidden rest

-- Where the signed token is cut, or the error of a token with no dot.
unfoldable pub token_parts : String → Result (String × String)
unfolding cut trim_space
token_parts raw_token = elim (cut b'.' (trim_space raw_token)) [
  | none ↦ err (wrapping Sentinel.bad_token_format "bad token format")
  | some parts ↦ ok parts
]

module _ (s : Surroundings) where
  -- `expires_at` is the seconds of the time.
  unfoldable pub build_export_token : UserId → String → String → ℕ → Result String
  build_export_token user_id query_result_id format expires_at = do
    nonce ← s.random
    payload ← s.marshal (record {
      user_id = user_id;
      query_result_id = query_result_id;
      format = format;
      expires_at = expires_at;
      nonce = s.encode nonce;
    })
    ok (s.encode payload <> ("." <> s.encode (s.sign payload)))

  unfoldable pub parse_export_token : String → Result ExportClaims
  unfolding token_parts is_supported_export_format
  parse_export_token raw_token = do
    (payload_part, sig_part) ← token_parts raw_token
    payload ← s.decode payload_part
    got_sig ← s.decode sig_part
    reject_if (not (s.equal got_sig (s.sign payload)))
        (wrapping Sentinel.bad_token_signature "bad token signature")
    claims ← s.unmarshal payload
    reject_if (not (is_supported_export_format claims.format))
        (wrapping Sentinel.bad_export_format "bad export format")
    reject_if (not (leb s.now claims.expires_at)) (wrapping Sentinel.token_expired "token expired")
    ok claims

  -- The Authorization header is the argument.
  unfoldable pub current_export_user : String → Result User
  unfolding extract_bearer_token
  current_export_user auth_header =
      if is_empty (extract_bearer_token auth_header)
      then s.session_user
      else s.auth_by_access_token (extract_bearer_token auth_header)

  -- The results that are found, and the error. `NoContent` writes the status 404 or 403 and gives no
  -- error, so a result that is not found or forbidden gives neither.
  unfoldable pub lookup_export : User → String → Result (Option QueryResults)
  lookup_export user query_result_id = elim (s.get_query_results user query_result_id) [
    | ok q_res ↦ ok (some q_res)
    | err e ↦ if is_not_found e.wraps || is_forbidden e.wraps then ok none else err e
  ]

  unfoldable pub serve_export : String → Option QueryResults → Response
  unfolding is_supported_export_format
  serve_export format q_res =
      if is_supported_export_format format
      then elim q_res [ none ↦ panicked | some results ↦ served format results ]
      else no_content 404

  -- After the user and the token are known.
  unfoldable pub download_for : User → ExportClaims → Response
  unfolding lookup_export serve_export
  download_for user claims =
      if claims.user_id == user.id
      then elim (lookup_export user claims.query_result_id) [
        | err e ↦ failed e
        | ok q_res ↦ serve_export claims.format q_res
      ]
      else no_content 404

  unfoldable pub download_query_results_export : String → String → Response
  unfolding current_export_user parse_export_token download_for
  download_query_results_export auth_header raw_token = elim (current_export_user auth_header) [
    | err e ↦ no_content 401
    | ok user ↦ elim (parse_export_token raw_token) [
      | err e ↦ no_content 404
      | ok claims ↦ download_for user claims
    ]
  ]
