-- ===== src/Facade/Sessions/Tests.antt =====
-- Runs of sign-in, logout and pages.
use database_gateway.App.Users.{complete_oidc}
use database_gateway.Common.{◌≡◌, refl, String, none, some, [], ok, plain}
use database_gateway.Common.Just.{sample_just}
use database_gateway.Config.Samples.{sample_users}
use database_gateway.App.Values.{pos, negsuc}
use database_gateway.App.Samples.{anna, sample_verify, sample_exchange}
use database_gateway.App.Oidc.{Urls, Values}
use database_gateway.Facade.Sessions.{
  Session, held, redirected, failed, Visit, get_auth_callback, logout, check_session, seconds_until,
}
use database_gateway.Facade.Sessions.Laws.{logout_ends}
use database_gateway.Facade.Sessions.Issued.{Issued}

abbrev no_session : Session
no_session = record { uid = none; oidc_state = none; max_age = pos 2592000 }

abbrev visit : Session → Visit
visit session = record {
  session = ok session;
  save = λ s. ok tt;
  exchange = sample_exchange;
  verify = sample_verify;
  now = 1000000000;
}

abbrev waiting : Session
waiting = record { uid = none; oidc_state = some (held "state-1"); max_age = pos 300 }

abbrev annas_session : Session
annas_session = record { uid = some (held anna); oidc_state = none; max_age = pos 900 }

abbrev ended : Session
ended = record { uid = none; oidc_state = none; max_age = negsuc 0 }

abbrev plain_urls : Urls
plain_urls = record {
  Url = String;
  parse = λ text. ok text;
  query = λ url. [];
  with_query = λ url values. url;
  print = λ url. url;
}

abbrev encoded : Values → String
encoded values = "access_token=access"

another_state :
    get_auth_callback sample_just sample_users (visit waiting) encoded "code" "state-2"
    ≡ failed (plain "invalid state parameter - possible CSRF attack")
unfolding get_auth_callback complete_oidc
another_state = refl

leaves :
    logout plain_urls (visit annas_session) "https://issuer/logout" "https://gateway/auth"
    ≡ redirected "https://issuer/logout" (some ended)
unfolding logout
leaves = refl

past_expiry : seconds_until 2500000000 1000000000 ≡ negsuc 0
unfolding seconds_until
past_expiry = refl

logout_ends_example :
    (check_session (visit ended) "/ui" ≡ redirected "/auth" none)
    × (get_auth_callback sample_just sample_users (visit ended) encoded "code" "state-1"
        ≡ failed (plain "no state found in session - possible CSRF attack"))
logout_ends_example =
    logout_ends sample_just sample_users plain_urls (visit annas_session) (visit ended)
      "https://issuer/logout" "https://gateway/auth" "https://issuer/logout" ended "/ui" encoded
      "code" "state-1" leaves refl refl
