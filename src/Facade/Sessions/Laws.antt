-- ===== src/Facade/Sessions/Laws.antt =====
-- What sign-in and logout save, and what a page makes of it.
use text.Mathlib.Text.{starts_with}
use database_gateway.Common.{
  ◌≡◌, refl, sym, ap, inl, inr, ℕ, String, Bool, false, ◌||◌, ◌⊎◌, Option, none, some, ok, plain,
  Result-cases,
}
use database_gateway.Common.Just.{Just}
use database_gateway.Config.{UsersProviderOidc}
use database_gateway.App.Users.{User, OidcTokens, complete_oidc}
use database_gateway.App.Oidc.{Urls, Values}
use database_gateway.Facade.Sessions.{
  Held, held, other, Session, failed, redirected, Visit, save_and_redirect, check_session,
  seconds_until, signed_in, get_auth_callback, logout,
}

pub Held-cases {ℓ} :
    {A : Type ℓ} (o : Option (Held A))
    → ((a : A) × (o ≡ some (held a))) ⊎ ((o ≡ none) ⊎ (o ≡ some other))
Held-cases none = inr (inl refl)
Held-cases (some other) = inr (inr refl)
Held-cases (some (held a)) = inl (a, refl)

-- The paths that need no session.
abbrev pub is_open : String → Bool
is_open path =
    starts_with path "/auth" || (starts_with path "/logout" || starts_with path "/api/v1/")

redirected_injective :
    {u1 u2 : String} {s1 s2 : Session} → redirected u1 (some s1) ≡ redirected u2 (some s2) → s1 ≡ s2
redirected_injective h = cc

pub save_and_redirect-saves :
    (v : Visit) (session saved : Session) (to url : String)
    → save_and_redirect v session to ≡ redirected url (some saved)
    → session ≡ saved
unfolding save_and_redirect
save_and_redirect-saves v session saved to url h = elim (Result-cases (v.save session)) [
  | inl (_, written) ↦ redirected_injective (rw (written, save_and_redirect) at h)
  | inr (e, refused) ↦ cc (rw (refused, save_and_redirect) at h)
]

-- What a callback that saves a session has found.
pub record IsCallback (just : Just) (users : UsersProviderOidc) (v : Visit) (code received : String)
    (saved : Session) : Type 0 where
  pub session : Session
  pub is_session : v.session ≡ ok session
  pub expected : String
  pub is_expected : session.oidc_state ≡ some (held expected)
  pub user : User
  pub expiry : ℕ
  pub tokens : OidcTokens
  pub completed :
      complete_oidc just users v.verify v.exchange v.now code expected received
      ≡ ok (user, expiry, tokens)
  pub is_saved : signed_in session user (seconds_until v.now expiry) ≡ saved

module _ (just : Just) (users : UsersProviderOidc) where
  pub get_auth_callback-IsCallback :
      (v : Visit) (encode : Values → String) (code received url : String) (saved : Session)
      → get_auth_callback just users v encode code received ≡ redirected url (some saved)
      → IsCallback just users v code received saved
  unfolding get_auth_callback
  get_auth_callback-IsCallback v encode code received url saved h = elim (Result-cases v.session) [
    | inr (e, lost) ↦ cc (rw (lost, get_auth_callback) at h)
    | inl (session, known) ↦ by_state session known (Held-cases session.oidc_state)
  ]
    where
      by_state :
          (session : Session)
          → v.session ≡ ok session
          → ((s : String) × (session.oidc_state ≡ some (held s)))
            ⊎ ((session.oidc_state ≡ none) ⊎ (session.oidc_state ≡ some other))
          → IsCallback just users v code received saved
      by_state session known (inr (inl without)) = cc (rw (known, without, get_auth_callback) at h)
      by_state session known (inr (inr strange)) = cc (rw (known, strange, get_auth_callback) at h)
      by_state session known (inl (expected, has)) =
          elim (Result-cases
            (complete_oidc just users v.verify v.exchange v.now code expected received)) [
              | inr (e, refused) ↦ cc (rw (known, has, refused, get_auth_callback) at h)
              | inl ((user, expiry, tokens), completed) ↦ record {
                session = session;
                is_session = known;
                expected = expected;
                is_expected = has;
                user = user;
                expiry = expiry;
                tokens = tokens;
                completed = completed;
                is_saved =
                    save_and_redirect-saves v _ saved _ url
                      (rw (known, has, completed, get_auth_callback) at h);
              }
            ]

  -- A callback that saves a session has taken the state out of it: a later callback with the saved
  -- session fails, whatever code and state it is given, until `/auth` writes a state again.
  pub callback-once :
      (v later : Visit) (encode : Values → String) (code received url : String) (saved : Session)
      (code' received' : String)
      → get_auth_callback just users v encode code received ≡ redirected url (some saved)
      → later.session ≡ ok saved
      → get_auth_callback just users later encode code' received'
        ≡ failed (plain "no state found in session - possible CSRF attack")
  unfolding get_auth_callback
  callback-once v later encode code received url saved code' received' h same =
      let c = get_auth_callback-IsCallback v encode code received url saved h in
      let clear : saved.oidc_state ≡ none = sym (ap (λ (x : Session). x.oidc_state) c.is_saved) in
      rw (same, clear, get_auth_callback) refl

pub logout-saves :
    (urls : Urls) (v : Visit) (endpoint back url : String) (saved : Session)
    → logout urls v endpoint back ≡ redirected url (some saved)
    → (saved.uid ≡ none) × (saved.oidc_state ≡ none)
unfolding logout
logout-saves urls v endpoint back url saved h = elim (Result-cases v.session) [
  | inr (e, lost) ↦ cc (rw (lost, logout) at h)
  | inl (session, known) ↦
      let e = save_and_redirect-saves v _ saved _ url (rw (known, logout) at h) in
      (sym (ap (λ (x : Session). x.uid) e), sym (ap (λ (x : Session). x.oidc_state) e))
]

-- After a logout that saves a session, every page that needs a session sends a browser with the
-- saved session to sign-in, and a callback with it is refused.
pub logout_ends :
    (just : Just) (users : UsersProviderOidc) (urls : Urls) (v later : Visit)
    (endpoint back url : String) (saved : Session) (path : String) (encode : Values → String)
    (code received : String)
    → logout urls v endpoint back ≡ redirected url (some saved)
    → later.session ≡ ok saved
    → is_open path ≡ false
    → (check_session later path ≡ redirected "/auth" none)
      × (get_auth_callback just users later encode code received
          ≡ failed (plain "no state found in session - possible CSRF attack"))
unfolding check_session get_auth_callback
logout_ends just users urls v later endpoint back url saved path encode code received h same
      closed =
    let (no_user, no_state) = logout-saves urls v endpoint back url saved h in
    (rw (closed, same, no_user, check_session) refl, rw (same, no_state, get_auth_callback) refl)
