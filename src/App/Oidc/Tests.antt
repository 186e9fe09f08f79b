-- ===== src/App/Oidc/Tests.antt =====
-- Runs of a revocation and of a logout URL.
use database_gateway.Common.{◌≡◌, refl, [], ◌∷◌, ok}
use database_gateway.App.Oidc.{Values, Urls, build_oidc_logout_url, Revocation}

abbrev listed_urls : Urls
listed_urls = record {
  Url = Values;
  parse = λ text. ok (("client", "gateway" ∷ []) ∷ []);
  query = λ url. url;
  with_query = λ url values. values;
  print = λ url. "https://issuer/logout?encoded";
}

logout_url :
    build_oidc_logout_url listed_urls "https://issuer/logout" "" "https://gateway"
    ≡ ok "https://issuer/logout?encoded"
unfolding build_oidc_logout_url
logout_url = refl

abbrev revocation : Revocation
revocation = record {
  oidc_revoke_ep = "https://issuer/revoke";
  client_id = "gateway";
  client_secret = "secret";
  post = λ endpoint form. ok 503;
}
