-- ===== src/Policy/Opa/Tests.antt =====
-- Runs of the authorizer.
use database_gateway.Common.{◌≡◌, refl, true, some, [], ◌∷◌}
use database_gateway.Policy.Opa.{PolicyInput, bool, no_bool, PreparedQuery, eval_bool}

abbrev allowing : PreparedQuery
allowing input = some (bool true ∷ no_bool ∷ [])

abbrev question : PolicyInput
question = record {
  subjects = "role:user" ∷ [];
  target = "shop";
  op = "select";
  table = "public.users";
}

allowing_allows : eval_bool allowing question ≡ true
unfolding eval_bool
allowing_allows = refl
