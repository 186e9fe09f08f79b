-- ===== src/Config/Samples.antt =====
-- A configuration that the tests share.
use database_gateway.Common.{false, [], ◌∷◌}
use database_gateway.Config.{Config, Target, UsersProviderOidc}

abbrev pub shop_target : Target
shop_target = record {
  id = "shop";
  description = "the shop";
  tags = "prod" ∷ [];
  type = "postgres";
  connection = record {
    host = "db";
    port = 5432;
    user = "pg";
    password = "secret";
    db = "shop";
    use_ssl = false;
    max_pool_size = 4;
  };
  default_schema = "public";
  tables =
      record { table = "public.users"; fields = "id" ∷ "name" ∷ [] }
      ∷ record { table = "public.orders"; fields = "user_id" ∷ "total" ∷ [] }
      ∷ [];
}

abbrev pub sample_users : UsersProviderOidc
sample_users = record {
  client_id = "gateway";
  client_secret = "secret";
  issuer_url = "https://issuer";
  redirect_url = "https://gateway/callback";
  scopes = "email" ∷ [];
  access_token_audience = "gateway";
  role_claim = "groups";
  role_mapping = ("admins", "admin") ∷ ("staff", "user") ∷ [];
}

abbrev pub sample_config : Config
sample_config = record {
  targets = shop_target ∷ [];
  users = sample_users;
  policy_path = "policy.rego";
}
