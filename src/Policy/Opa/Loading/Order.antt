-- ===== src/Policy/Opa/Loading/Order.antt =====
-- The order of the loaded modules does not matter.
use mathlib.Core.List.{Permᴰ}
use database_gateway.Common.{◌≡◌, refl, String, List, [], ◌∷◌, map, Map, lookup, keys}
use database_gateway.Common.Sorting.{sort-Perm}
use database_gateway.Policy.Opa.Loading.{
  module_option, query_allow_target, query_allow_query, Prepare, prepare_query, new,
}

module _ (prepare : Prepare) where
  map_same :
      (a b : Map String) (names : List String)
      → ((name : String) → lookup name a ≡ lookup name b)
      → map (module_option a) names ≡ map (module_option b) names
  unfolding module_option
  map_same a b [] same = refl
  map_same a b (name ∷ names) same = rw (same name, map_same a b names same) refl

  prepare_query_same :
      (a b : Map String) (query : String)
      → Permᴰ (keys a) (keys b)
      → ((name : String) → lookup name a ≡ lookup name b)
      → prepare_query prepare a query ≡ prepare_query prepare b query
  unfolding prepare_query
  prepare_query_same a b query order same =
      rw (sort-Perm (keys a) (keys b) order, map_same a b _ same) refl

  -- The order in which Go ranges over the map of modules does not matter: maps with the same keys,
  -- in any order, and the same values make the same authorizer.
  pub new-Perm :
      (a b : Map String)
      → Permᴰ (keys a) (keys b)
      → ((name : String) → lookup name a ≡ lookup name b)
      → new prepare a ≡ new prepare b
  unfolding new
  new-Perm a b order same =
      rw
        (
          prepare_query_same a b query_allow_target order same,
          prepare_query_same a b query_allow_query order same,
          new,
        )
        refl
