-- ===== src/App/Oidc.antt =====
-- The provider's URLs and the revocation of tokens of internal/app/service.go. The parsing and the
-- printing of URLs belong to net/url, the URL of the provider's sign-in to golang.org/x/oauth2, and
-- the request to net/http: what they answer is an argument.
pub mod Laws
mod Tests
use database_gateway.Common.{
  ℕ, String, Bool, true, false, not, ◌||◌, ◌&&◌, List, [], ◌∷◌, Map, insert, Result, ok, err, ◌>>=◌,
  ◌>>◌, reject_if, plain, if◌then◌else◌,
}
use database_gateway.Common.Text.{is_empty, leb}

-- `url.Values`
abbrev pub Values : Type 0
Values = Map (List String)

-- `url.URL`, as far as it is used: its text, its query, and the URL with another query.
pub record Urls : Type 1 where
  pub Url : Type 0
  pub parse : String → Result Url
  pub query : Url → Values
  pub with_query : Url → Values → Url
  pub print : Url → String

-- `uuid.NewUUID` gives the state, and `AuthCodeURL` the URL for a state.
unfoldable pub init_oidc : String → (String → String) → String × String
init_oidc new_state auth_code_url = (auth_code_url new_state, new_state)

-- `Values.Set`, if the value is not empty.
unfoldable pub set_given : String → String → Values → Values
set_given key value values = if is_empty value then values else insert key (value ∷ []) values

module _ (urls : Urls) where
  unfoldable pub build_oidc_logout_url : String → String → String → Result String
  unfolding set_given
  build_oidc_logout_url oidc_logout_ep id_token_hint post_logout_redirect_url = do
    reject_if (is_empty oidc_logout_ep) (plain "oidc end_session_endpoint is not configured")
    parsed_url ← urls.parse oidc_logout_ep
    let hinted = set_given "id_token_hint" id_token_hint (urls.query parsed_url)
    let query_values = set_given "post_logout_redirect_uri" post_logout_redirect_url hinted
    ok (urls.print (urls.with_query parsed_url query_values))

-- The revocation endpoint of the provider and the client's names; `post` sends the form and gives
-- the status of the response.
pub record Revocation : Type 0 where
  pub oidc_revoke_ep : String
  pub client_id : String
  pub client_secret : String
  pub post : String → Values → Result ℕ

unfoldable pub revoke_form : Revocation → String → Values
revoke_form r token =
    ("token", token ∷ [])
    ∷ ("client_id", r.client_id ∷ [])
    ∷ ("client_secret", r.client_secret ∷ [])
    ∷ ("token_type_hint", "access_token" ∷ [])
    ∷ []

unfoldable pub revoke_oidc_token : Revocation → String → Result (Unit {0})
unfolding revoke_form
revoke_oidc_token r token =
    if is_empty token || is_empty r.oidc_revoke_ep
    then ok tt
    else r.post r.oidc_revoke_ep (revoke_form r token) >>= λ status.
        reject_if (not (leb 200 status) || leb 300 status) (plain "unexpected status")
