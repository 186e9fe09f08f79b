-- ===== src/Facade/Sessions.antt =====
-- The sessions of internal/facade/service.go: the middleware in front of every page, sign-in and
-- logout. A session is a signed cookie of gorilla/sessions: what the browser holds is the argument,
-- and what is saved is in the response. Sign-in is that of App.Users.
pub mod Laws
pub mod Issued
mod Tests
use text.Mathlib.Text.{starts_with}
use database_gateway.Common.{
  ℕ, zero, suc, ◌-◌, insert, String, ◌<>◌, Bool, true, false, ◌||◌, Option, none, some, List, [],
  ◌∷◌, Result, ok, err, Error, plain, if◌then◌else◌,
}
use Prim.Native.Nat.{◌/◌}
use database_gateway.Common.Text.{leb}
use database_gateway.Common.Just.{Just}
use database_gateway.Config.{UsersProviderOidc}
use database_gateway.App.Values.{ℤ, pos, negsuc}
use database_gateway.App.Users.{User, IdToken, Token, OidcTokens, complete_oidc}
use database_gateway.App.Oidc.{Urls, Values, build_oidc_logout_url}

-- A value of a session, of the type that the code expects or of another.
pub data Held {ℓ} (A : Type ℓ) : Type ℓ where
  held : A → Held A
  other : Held A

-- `sess.Values` under `keyUserID` and `keyOIDCState`, and the `MaxAge` of its options.
pub record Session : Type 0 where
  pub uid : Option (Held User)
  pub oidc_state : Option (Held String)
  pub max_age : ℤ

-- What a request is answered with: an error, a redirect with the session that is saved first, if
-- one is, or what the next handler makes of the user.
pub data Answer : Type 0 where
  failed : Error → Answer
  redirected : String → Option Session → Answer
  passed : Option User → Answer

-- Calls of the provider, of the library for sessions and of the clock. `session` is what
-- `session.Get` makes of the cookie, and `save` whether the session can be written.
pub record Visit : Type 0 where
  pub session : Result Session
  pub save : Session → Result (Unit {0})
  pub exchange : String → Result Token
  pub verify : String → Result IdToken
  pub now : ℕ

-- `sess.Save`, and a redirect.
unfoldable pub save_and_redirect : Visit → Session → String → Answer
save_and_redirect v session url = elim (v.save session) [
  | err e ↦ failed e
  | ok _ ↦ redirected url (some session)
]

-- The middleware in front of every page, for the path of the request.
unfoldable pub check_session : Visit → String → Answer
check_session v path =
    if starts_with path "/auth" || (starts_with path "/logout" || starts_with path "/api/v1/")
    then passed none
    else elim v.session [
      | err e ↦ failed e
      | ok session ↦ elim session.uid [
        | none ↦ redirected "/auth" none
        | some Held.other ↦ redirected "/logout" none
        | some (held user) ↦ passed (some user)
      ]
    ]

-- `initOIDC` is what `InitOIDC` gives: the URL of the provider and the state.
unfoldable pub get_auth : Visit → Result (String × String) → Answer
unfolding save_and_redirect
get_auth v init_oidc = elim init_oidc [
  | err e ↦ failed e
  | ok (auth_url, state) ↦ elim v.session [
    | err e ↦ failed e
    | ok session ↦
        save_and_redirect v (record session { oidc_state = some (held state); max_age = pos 300 })
          auth_url
  ]
]

-- `encode` is `url.Values.Encode`.
unfoldable pub build_auth_redirect_url : (Values → String) → String → String
build_auth_redirect_url encode access_token =
    "/ui#"
    <> encode (insert "access_token" (access_token ∷ []) (insert "token_type" ("Bearer" ∷ []) []))

minus : ℕ → ℤ
minus zero = pos 0
minus (suc n) = negsuc n

-- The seconds from now to a time, `int(time.Until(expiry).Seconds())`, rounded towards zero.
unfoldable pub seconds_until : ℕ → ℕ → ℤ
unfolding minus
seconds_until now expiry =
    if leb now expiry
    then pos ((expiry - now) / 1000000000)
    else minus ((now - expiry) / 1000000000)

-- The session of a user who has just signed in.
unfoldable pub signed_in : Session → User → ℤ → Session
signed_in session user max_age = record session {
  uid = some (held user);
  oidc_state = none;
  max_age = max_age;
}

module _ (just : Just) (users : UsersProviderOidc) where
  unfoldable pub get_auth_callback : Visit → (Values → String) → String → String → Answer
  unfolding signed_in seconds_until save_and_redirect build_auth_redirect_url
  get_auth_callback v encode code received_state = elim v.session [
    | err e ↦ failed e
    | ok session ↦ elim session.oidc_state [
      | none ↦ failed (plain "no state found in session - possible CSRF attack")
      | some Held.other ↦ failed (plain "no state found in session - possible CSRF attack")
      | some (held expected) ↦
          elim (complete_oidc just users v.verify v.exchange v.now code expected received_state) [
            | err e ↦ failed e
            | ok (user, expiry, tokens) ↦
                save_and_redirect v (signed_in session user (seconds_until v.now expiry))
                  (build_auth_redirect_url encode tokens.access_token)
          ]
    ]
  ]

module _ (urls : Urls) where
  -- Where a logout leads: to the provider, or to `/auth` where no URL can be built.
  unfoldable pub logout_target : String → String → String
  unfolding build_oidc_logout_url
  logout_target oidc_logout_ep post_logout_redirect_url =
      elim (build_oidc_logout_url urls oidc_logout_ep "" post_logout_redirect_url) [
        | err e ↦ "/auth"
        | ok url ↦ url
      ]

  -- The end point of the provider for logout, and the URL to come back to.
  unfoldable pub logout : Visit → String → String → Answer
  unfolding save_and_redirect logout_target
  logout v oidc_logout_ep post_logout_redirect_url = elim v.session [
    | err e ↦ failed e
    | ok session ↦
        save_and_redirect v (record { uid = none; oidc_state = none; max_age = negsuc 0 })
          (logout_target oidc_logout_ep post_logout_redirect_url)
  ]
