-- ===== src/Facade/Sessions/Issued.antt =====
-- The sessions that the service has issued: a browser can hold one of these, and no other, since a
-- cookie is signed.
use database_gateway.Common.{◌≡◌, String, none, some, Result, ok}
use database_gateway.Common.Just.{Just}
use database_gateway.Config.{UsersProviderOidc}
use database_gateway.App.Users.{User, IdToken, Token}
use database_gateway.App.Users.Laws.{IsAuthenticated}
use database_gateway.App.Oidc.{Urls, Values}
use database_gateway.Facade.Sessions.{
  Held, held, Session, Answer, redirected, Visit, get_auth, get_auth_callback, logout,
}

-- The requests that may save a session, with what they are given.
pub data Request : Type 0 where
  auth : Result (String × String) → Request
  callback : (Values → String) → String → String → Request
  log_out : String → String → Request

module _ (just : Just) (users : UsersProviderOidc) (urls : Urls) where
  abbrev pub respond : Visit → Request → Answer
  respond v (auth init_oidc) = get_auth v init_oidc
  respond v (callback encode code state) = get_auth_callback just users v encode code state
  respond v (log_out endpoint back) = logout urls v endpoint back

  -- A session that `session.Get` makes for a browser with no cookie, or that an answer has saved to
  -- a browser with an issued session.
  pub data Issued : Session → Type 0 where
    fresh : (s : Session) → s.uid ≡ none → s.oidc_state ≡ none → Issued s
    saved :
        {before : Session} (s : Session) (v : Visit) (request : Request) (url : String)
        → Issued before
        → v.session ≡ ok before
        → respond v request ≡ redirected url (some s)
        → Issued s

  -- The user has signed in: in some callback, a code was exchanged for an id token that was verified
  -- and whose claims name the user.
  abbrev pub IsSignedIn : User → Type 0
  IsSignedIn user =
      (v : Visit) × (code : String) × (token : Token) × (raw : String) × (t : IdToken) × (v.exchange
          code
        ≡ ok token)
      × (token.id_token ≡ some raw)
      × (v.verify raw ≡ ok t)
      × IsAuthenticated users t user

  -- A session whose user, if it has one, has signed in.
  abbrev pub IsSound : Session → Type 0
  IsSound s =
      (held_user : Held User)
      → s.uid ≡ some held_user
      → (user : User) × (held_user ≡ held user) × IsSignedIn user
