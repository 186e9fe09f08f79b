-- ===== src/App/Oidc/Laws.antt =====
-- What a logout URL carries, and when a token counts as revoked.
use database_gateway.Common.{
  ◌≡◌, refl, sym, ◌∙◌, ◌⊎◌, ◌↔◌, inl, inr, ℕ, ◌≤◌, ◌<◌, String, true, false, ◌||◌, ◌==◌, some, [],
  ◌∷◌, lookup, lookup-insert, ok, ok_injective, >>=-eq-ok, >>-eq-ok, reject_if, reject_if-eq-ok,
  Bool-cases, arith,
}
use text.Mathlib.TextPositions.{eq_refl}
use database_gateway.Common.Text.{is_empty}
use database_gateway.App.Oidc.{
  Values, Urls, set_given, build_oidc_logout_url, Revocation, revoke_form, revoke_oidc_token,
}

lookup-set :
    (name key value : String) (values : Values)
    → (name == key) ≡ false
    → lookup key (set_given name value values) ≡ lookup key values
unfolding set_given
lookup-set name key value values other = elim (Bool-cases (is_empty value)) [
  | inl without ↦ rw (without, set_given)
  | inr given ↦ rw (given, set_given) (lookup-insert name key (value ∷ []) values ∙ rw other refl)
]

lookup-set_self :
    (name value : String) (values : Values)
    → is_empty value ≡ false
    → lookup name (set_given name value values) ≡ some (value ∷ [])
unfolding set_given
lookup-set_self name value values given =
    rw (given, set_given) (lookup-insert name name (value ∷ []) values ∙ rw (eq_refl name) refl)

module _ (urls : Urls) where
  -- A logout URL that is built is the one of the provider's endpoint with other values in its query:
  -- where there is a URL to come back to, it stands there alone, and the values under other names
  -- than the two that are set are those of the endpoint.
  pub build_oidc_logout_url-query :
      (endpoint hint back out : String)
      → build_oidc_logout_url urls endpoint hint back ≡ ok out
      → (is_empty endpoint ≡ false)
        × (url : urls.Url) × (values : Values) × (urls.parse endpoint ≡ ok url)
        × (out ≡ urls.print (urls.with_query url values))
        × (is_empty back ≡ false → lookup "post_logout_redirect_uri" values ≡ some (back ∷ []))
        × ((key : String)
            → ("id_token_hint" == key) ≡ false
            → ("post_logout_redirect_uri" == key) ≡ false
            → lookup key values ≡ lookup key (urls.query url))
  unfolding build_oidc_logout_url
  build_oidc_logout_url-query endpoint hint back out h =
      let (checked, h1) = >>-eq-ok (reject_if (is_empty endpoint) _) _ h in
      let (url, parsed, h2) = >>=-eq-ok (urls.parse endpoint) _ h1 in
      let hinted = set_given "id_token_hint" hint (urls.query url) in
      (
        reject_if-eq-ok _ _ checked,
        url,
        set_given "post_logout_redirect_uri" back hinted,
        parsed,
        sym (ok_injective h2),
        lookup-set_self "post_logout_redirect_uri" back hinted,
        (λ key other other'.
            lookup-set "post_logout_redirect_uri" key back hinted other'
            ∙ lookup-set "id_token_hint" key hint (urls.query url) other),
      )

-- Revoking a token succeeds exactly when there is no token, no endpoint, or the provider answers
-- the form with the token and the client's secret with a status from 200 to 299.
abbrev pub IsRevoked : Revocation → String → Type 0
IsRevoked r token =
    (status : ℕ) × (r.post r.oidc_revoke_ep (revoke_form r token) ≡ ok status)
    × (200 ≤ status)
    × (status < 300)

pub revoke_oidc_token_iff :
    (r : Revocation) (token : String)
    → (revoke_oidc_token r token ≡ ok tt)
      ↔ ((is_empty token ≡ true) ⊎ ((is_empty r.oidc_revoke_ep ≡ true) ⊎ IsRevoked r token))
unfolding revoke_oidc_token
revoke_oidc_token_iff r token = (forth, back)
  where
    forth :
        revoke_oidc_token r token ≡ ok tt
        → (is_empty token ≡ true) ⊎ ((is_empty r.oidc_revoke_ep ≡ true) ⊎ IsRevoked r token)
    forth h = elim (Bool-cases (is_empty token)) [
      | inl no_token ↦ inl no_token
      | inr token_given ↦ elim (Bool-cases (is_empty r.oidc_revoke_ep)) [
        | inl no_endpoint ↦ inr (inl no_endpoint)
        | inr endpoint ↦
            let (status, posted, h1) =
              >>=-eq-ok (r.post r.oidc_revoke_ep (revoke_form r token)) _
                (rw (token_given, endpoint) at h) in
            let accepted = reject_if-eq-ok _ _ h1 in
            inr (inr (status, posted, ground (arith, accepted), ground (arith, accepted)))
      ]
    ]

    back :
        (is_empty token ≡ true) ⊎ ((is_empty r.oidc_revoke_ep ≡ true) ⊎ IsRevoked r token)
        → revoke_oidc_token r token ≡ ok tt
    back (inl no_token) = rw (no_token, revoke_oidc_token) refl
    back (inr (inl no_endpoint)) = ground (arith, no_endpoint)
    back (inr (inr (status, posted, low, high))) =
        elim (Bool-cases (is_empty token || is_empty r.oidc_revoke_ep)) [
          | inl skipped ↦ rw (skipped, revoke_oidc_token) refl
          | inr sent ↦ rw (sent, posted, revoke_oidc_token) (ground arith)
        ]
