-- ===== src/Policy.antt =====
-- internal/policy: the interface `Authorizer`, and its implementation by OPA.
pub mod Opa
use database_gateway.Common.{String, Bool, List}

-- `policy.Authorizer`
pub record Authorizer : Type 0 where
  pub allow_target : List String → String → Bool
  pub allow_query : List String → String → String → String → Bool
