-- ===== src/App/Users.antt =====
-- Users of internal/structs/structs.go, and what internal/app/service.go derives of their tokens.
-- The verification of tokens belongs to github.com/coreos/go-oidc and golang.org/x/oauth2, and the
-- decoding of a claim to encoding/json: what they answer is an argument.
pub mod Laws
use database_gateway.Common.{
  ℕ, ◌+◌, String, Bool, true, false, not, ◌||◌, ◌==◌, Option, none, some, List, [], ◌∷◌,
}
use database_gateway.Common.{
  Map, lookup, Result, ok, err, ◌>>=◌, ◌>>◌, reject_if, plain, if◌then◌else◌,
}
use database_gateway.Common.Just.{Just}
use database_gateway.Common.Text.{is_empty, trim_space}
use database_gateway.Config.{UserId, Role, role_admin, UsersProviderOidc}
use database_gateway.Policy.Opa.{subject_user, subject_role}

pub record User : Type 0 where
  pub id : UserId
  pub username : String
  pub role : Role

unfoldable pub user_subjects : User → List String
unfolding subject_user subject_role
user_subjects user = subject_user user.id ∷ subject_role user.role ∷ []

unfoldable pub can_read_query_results : User → UserId → Bool
can_read_query_results user owner_id = user.role == role_admin || user.id == owner_id

-- A claim of a token, as json.Unmarshal reads it into a `[]string`: nothing where it fails.
abbrev pub RawClaim : Type 0
RawClaim = Option (List String)

-- The text of a claim's error names the claim.
unfoldable pub get_claim_values : Map RawClaim → String → Result (List String)
get_claim_values claims claim_name = elim (lookup claim_name claims) [
  | none ↦ err (plain "claim not found")
  | some none ↦ err (plain "claim must be []string type")
  | some (some claim_values) ↦ ok claim_values
]

-- The loop over the values of the claim.
unfoldable pub first_role : List String → Map Role → Result Role
first_role [] role_mapping = err (plain "no role found")
first_role (claim_value ∷ claim_values) role_mapping = elim (lookup claim_value role_mapping) [
  | none ↦ first_role claim_values role_mapping
  | some role ↦ ok role
]

unfoldable pub resolve_user_role : Map RawClaim → String → Map Role → Result Role
unfolding get_claim_values first_role
resolve_user_role claims role_claim role_mapping = do
  claim_values ← get_claim_values claims role_claim
  first_role claim_values role_mapping

-- The claims of a verified token that are read by name, and all of them.
pub record Claims : Type 0 where
  pub email : String
  pub preferred_username : String
  pub subject : String

pub record IdToken : Type 0 where
  pub claims : Result Claims
  pub raw_claims : Result (Map RawClaim)

-- A token of the exchange. Times are counted in nanoseconds; an expiry of none is the zero time.
pub record Token : Type 0 where
  pub id_token : Option String
  pub access_token : String
  pub expiry : Option ℕ

pub record OidcTokens : Type 0 where
  pub id_token : String
  pub access_token : String

abbrev pub token_lifetime : ℕ
token_lifetime = 900000000000

-- The id token of a token, `token.Extra("id_token").(string)`.
unfoldable pub raw_id_token : Token → Result String
raw_id_token token = elim token.id_token [
  | none ↦ err (plain "id_token not found in response")
  | some raw ↦ ok raw
]

unfoldable pub expiry_of : Token → ℕ → ℕ
expiry_of token now = elim token.expiry [ none ↦ now + token_lifetime | some expiry ↦ expiry ]

module _ (just : Just) (users : UsersProviderOidc) where
  -- The user of a verified id token; `CompleteOIDC` puts it together after its last check, which is
  -- about another value.
  unfoldable pub oidc_user : IdToken → Result User
  unfolding resolve_user_role
  oidc_user id_token = do
    claims ← id_token.claims
    reject_if (is_empty claims.email) (plain "email claim is required in id_token")
    raw_claims ← id_token.raw_claims
    role ← resolve_user_role raw_claims users.role_claim users.role_mapping
    ok (record {
      id = claims.email;
      username =
          just.if_else (not (is_empty claims.preferred_username)) claims.preferred_username
            claims.email;
      role = role;
    })

  -- The user of a verified access token.
  unfoldable pub access_user : IdToken → Result User
  unfolding resolve_user_role
  access_user id_token = do
    claims ← id_token.claims
    raw_claims ← id_token.raw_claims
    role ← resolve_user_role raw_claims users.role_claim users.role_mapping
    let user_id = if is_empty claims.email then claims.subject else claims.email
    reject_if (is_empty user_id) (plain "email or sub claim is required in access token")
    let trimmed = trim_space claims.preferred_username
    ok (record {
      id = user_id;
      username = if is_empty trimmed then user_id else trimmed;
      role = role;
    })

  unfoldable pub complete_oidc :
      (String → Result IdToken)
      → (String → Result Token)
      → ℕ
      → String
      → String
      → String
      → Result (User × ℕ × OidcTokens)
  unfolding oidc_user raw_id_token expiry_of
  complete_oidc verify exchange now code expected_state received_state = do
    reject_if (not (expected_state == received_state) || is_empty expected_state)
        (plain "invalid state parameter - possible CSRF attack")
    token ← exchange code
    raw ← raw_id_token token
    id_token ← verify raw
    user ← oidc_user id_token
    reject_if (is_empty (trim_space token.access_token))
        (plain "access_token not found in response")
    ok (user, expiry_of token now, record { id_token = raw; access_token = token.access_token })

  unfoldable pub auth_by_access_token : (String → Result IdToken) → String → Result User
  unfolding access_user
  auth_by_access_token verify token = do
    reject_if (is_empty (trim_space token)) (plain "access token is required")
    id_token ← verify (trim_space token)
    access_user id_token
