-- ===== src/Policy/Opa/Laws.antt =====
-- The authorizer denies by default, and subjects of the two kinds do not meet.
use Prim.Native.Char.{code}
use database_gateway.Common.{
  ℕ, ap, ◌≡◌, refl, ◌≢◌, String, ◌<>◌, Bool, true, false, Option, none, some, List, [], ◌∷◌, arith,
}
use database_gateway.Common.Text.{is_empty, trim_space}
use text.Mathlib.TextLemmas.{cons-append}
use database_gateway.Policy.Opa.{
  PolicyInput, Binding, bool, no_bool, PreparedQuery, eval_bool, subject_user, subject_role,
}

-- A query allows only by a first result that is true: an error of the evaluation, no result or a
-- value that is no Boolean denies.
pub eval_bool-eq-true :
    (query : PreparedQuery) (input : PolicyInput)
    → eval_bool query input ≡ true
    → (rest : List Binding) × (query input ≡ some (bool true ∷ rest))
unfolding eval_bool
eval_bool-eq-true query input h = go (query input) refl h
  where
    go :
        (o : Option (List Binding))
        → query input ≡ o
        → elim o as (λ x. Bool) [
          | none ↦ false
          | some [] ↦ false
          | some (bool value ∷ _) ↦ value
          | some (no_bool ∷ _) ↦ false
        ]
          ≡ true
        → (rest : List Binding) × (query input ≡ some (bool true ∷ rest))
    go none e k = cc
    go (some []) e k = cc
    go (some (bool true ∷ rest)) e k = (rest, e)
    go (some (bool false ∷ rest)) e k = cc
    go (some (no_bool ∷ rest)) e k = cc

head_code : String → ℕ
head_code String.[] = 0
head_code (String.◌∷◌ c s) = code c

head_code-append : (s t : String) → is_empty s ≡ false → head_code (s <> t) ≡ head_code s
unfolding head_code
head_code-append String.[] t h = cc
head_code-append (String.◌∷◌ c s) t h = rw cons-append

-- No user is the subject of a role, whatever the names.
pub subject_user-ne-subject_role : (u r : String) → subject_user u ≢ subject_role r
unfolding subject_user subject_role head_code
subject_user-ne-subject_role u r h =
    let e : head_code ("user:" <> trim_space u) ≡ head_code ("role:" <> trim_space r) =
      ap head_code h in
    omega (
      arith,
      e,
      head_code-append "user:" (trim_space u) refl,
      head_code-append "role:" (trim_space r) refl,
    )
