-- ===== src/Facade/Api/Caller.antt =====
-- Who calls, and what a call names: `userFromAPIToken` and the identifiers of
-- internal/facade/api_lrpc.go, `withAPIBearerAuth` of internal/facade/service.go. The reading of an
-- identifier belongs to oklog/ulid; an identifier is its text.
use database_gateway.Common.{
  ◌≡◌, ◌∙◌, inl, inr, Result-cases, String, Option, none, some, Result, ok, err, wrapping, Sentinel,
  if◌then◌else◌,
}
use database_gateway.Common.Text.{is_empty}
use database_gateway.App.Users.{User}
use database_gateway.Facade.Export.{Surroundings, extract_bearer_token}

-- What the context of a request holds under `ctxAPITokenUser` is the argument.
unfoldable pub user_from_api_token : Option User → Result User
user_from_api_token caller = elim caller [
  | none ↦ err (wrapping Sentinel.forbidden "authenticate api token")
  | some user ↦ ok user
]

-- `uuid6.ParseStr`, with the error that every call gives for a text that it refuses.
unfoldable pub parse_id : (String → Result String) → String → String → Result String
parse_id parse_ulid refusal text = elim (parse_ulid text) [
  | err e ↦ err (wrapping Sentinel.bad_input refusal)
  | ok id ↦ ok id
]

pub parse_id-eq-ok :
    (parse_ulid : String → Result String) (refusal text id : String)
    → parse_id parse_ulid refusal text ≡ ok id
    → parse_ulid text ≡ ok id
unfolding parse_id
parse_id-eq-ok parse_ulid refusal text id h = elim (Result-cases (parse_ulid text)) [
  | inl (a, parsed) ↦ parsed ∙ rw (parsed, parse_id) at h
  | inr (e, failed) ↦ cc (rw (failed, parse_id) at h)
]

-- The user that `withAPIBearerAuth` puts into the context for the next handler, or none if it
-- answers 401. The Authorization header is the argument.
unfoldable pub with_api_bearer_auth : Surroundings → String → Option User
unfolding extract_bearer_token
with_api_bearer_auth s auth_header =
    if is_empty (extract_bearer_token auth_header)
    then none
    else elim (s.auth_by_access_token (extract_bearer_token auth_header)) [
      | err e ↦ none
      | ok user ↦ some user
    ]
