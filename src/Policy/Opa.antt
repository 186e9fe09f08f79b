-- ===== src/Policy/Opa.antt =====
-- internal/policy/opa/authorizer.go. The evaluation of a prepared query belongs to the library
-- github.com/open-policy-agent/opa: a prepared query is the function that it evaluates.
pub mod Laws
pub mod Loading
mod Tests
use database_gateway.Common.{String, ◌<>◌, Bool, true, false, Option, none, some, List, [], ◌∷◌}
use database_gateway.Common.Text.{trim_space}
use database_gateway.Policy.{Authorizer}

pub record PolicyInput : Type 0 where
  pub subjects : List String
  pub target : String
  pub op : String
  pub table : String

-- What is bound to `x` in a result: a Boolean, or anything else.
pub data Binding : Type 0 where
  bool : Bool → Binding
  no_bool : Binding

-- `PreparedEvalQuery.Eval`: an error, or the results.
abbrev pub PreparedQuery : Type 0
PreparedQuery = PolicyInput → Option (List Binding)

pub record OpaAuthorizer : Type 0 where
  pub target_query : PreparedQuery
  pub query_query : PreparedQuery

unfoldable pub eval_bool : PreparedQuery → PolicyInput → Bool
eval_bool query input = elim (query input) [
  | none ↦ false
  | some [] ↦ false
  | some (bool value ∷ _) ↦ value
  | some (no_bool ∷ _) ↦ false
]

unfoldable pub allow_target : OpaAuthorizer → List String → String → Bool
unfolding eval_bool
allow_target a subjects target =
    eval_bool a.target_query (record { subjects = subjects; target = target; op = ""; table = "" })

unfoldable pub allow_query : OpaAuthorizer → List String → String → String → String → Bool
unfolding eval_bool
allow_query a subjects target op table =
    eval_bool a.query_query
      (record { subjects = subjects; target = target; op = op; table = table })

-- `var _ policy.Authorizer = (*Authorizer)(nil)`
unfoldable pub authorizer : OpaAuthorizer → Authorizer
authorizer a = record { allow_target = allow_target a; allow_query = allow_query a }

unfoldable pub subject_user : String → String
unfolding trim_space
subject_user user_id = "user:" <> trim_space user_id

unfoldable pub subject_role : String → String
unfolding trim_space
subject_role role = "role:" <> trim_space role
