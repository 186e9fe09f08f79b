-- ===== src/Config/Laws.antt =====
-- What a configuration that passes `Validate` looks like.
use database_gateway.Common.{
  ◌≡◌, refl, ◌↔◌, Bool, true, false, List, [], ◌∷◌, Map, All, arith, reject_if, plain,
}
use database_gateway.Common.{ok, >>-eq-ok, reject_if-eq-ok}
use database_gateway.Common.Text.{is_empty, contains_dot, trim_space}
use database_gateway.Config.{
  TargetTable, Target, Role, Config, is_valid_role, validate_tables, validate_targets,
  validate_roles, validate,
}

-- The tables of a target are written with their schema.
abbrev pub IsQualified : List TargetTable → Type 0
IsQualified = All (λ t. contains_dot t.table ≡ true)

pub record IsValid (c : Config) : Type 0 where
  pub qualified : All (λ t. IsQualified t.tables) c.targets
  pub roles : All (λ (attr, role). is_valid_role role ≡ true) c.users.role_mapping
  pub path : is_empty (trim_space c.policy_path) ≡ false

reject_if_iff : (b : Bool) → (reject_if b (plain "") ≡ ok tt) ↔ (b ≡ false)
reject_if_iff b = ground arith

validate_tables_iff : (ts : List TargetTable) → (validate_tables ts ≡ ok tt) ↔ IsQualified ts
unfolding validate_tables
validate_tables_iff [] = ((λ h. tt), (λ h. refl))
validate_tables_iff (t ∷ ts) = ground (arith, validate_tables_iff ts)

validate_targets_iff :
    (ts : List Target) → (validate_targets ts ≡ ok tt) ↔ All (λ t. IsQualified t.tables) ts
unfolding validate_targets
validate_targets_iff [] = ((λ h. tt), (λ h. refl))
validate_targets_iff (t ∷ ts) = (
  (λ h.
      let (e, k) = >>-eq-ok (validate_tables t.tables) (validate_targets ts) h in
      ((validate_tables_iff t.tables).0 e, (validate_targets_iff ts).0 k)),
  (λ (q, qs). rw ((validate_tables_iff t.tables).1 q, (validate_targets_iff ts).1 qs)),
)

validate_roles_iff :
    (m : Map Role) → (validate_roles m ≡ ok tt) ↔ All (λ (attr, role). is_valid_role role ≡ true) m
unfolding validate_roles
validate_roles_iff [] = ((λ h. tt), (λ h. refl))
validate_roles_iff ((attr, role) ∷ m) = ground (arith, validate_roles_iff m)

-- Validate accepts a configuration exactly when every table of every target is written with its
-- schema, every mapped role is `admin` or `user`, and the policy's path is not blank.
pub validate_iff : (c : Config) → (validate c ≡ ok tt) ↔ IsValid c
unfolding validate
validate_iff c = (
  (λ h.
      let (a, h1) = >>-eq-ok (validate_targets c.targets) _ h in
      let (b, h2) = >>-eq-ok (validate_roles c.users.role_mapping) _ h1 in
      record {
        qualified = (validate_targets_iff c.targets).0 a;
        roles = (validate_roles_iff c.users.role_mapping).0 b;
        path = reject_if-eq-ok _ _ h2;
      }),
  (λ v. rw (
    (validate_targets_iff c.targets).1 v.qualified,
    (validate_roles_iff c.users.role_mapping).1 v.roles,
    v.path,
  )),
)
