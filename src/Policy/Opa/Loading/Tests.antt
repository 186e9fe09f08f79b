-- ===== src/Policy/Opa/Loading/Tests.antt =====
-- Runs of the loading of policies.
use mathlib.Core.List.{Permᴰ}
use database_gateway.Common.{
  ◌≡◌, refl, ◌↔◌, inl, String, true, false, some, List, [], ◌∷◌, Map, lookup, insert, ok, err,
  plain, Some, ◌==◌, Bool-cases, inr, if◌then◌else◌,
}
use database_gateway.Policy.Opa.{bool}
use database_gateway.Policy.Opa.Loading.{DirEntry, Files, load_modules, is_none, Prepare, new}
use database_gateway.Policy.Opa.Loading.Laws.{IsPolicyFile, load_modules_iff}
use database_gateway.Policy.Opa.Loading.Order.{new-Perm}

abbrev file : String → DirEntry
file name = record { name = name; is_dir = false }

abbrev entries : List DirEntry
entries =
    file "targets.rego"
    ∷ file "README.md"
    ∷ record { name = "old.rego"; is_dir = true }
    ∷ file "queries.rego"
    ∷ []

abbrev policies : Files
policies = record { read_dir = λ dir. ok entries; read_file = λ dir name. ok "package gateway" }

abbrev loaded : Map String
loaded = ("targets.rego", "package gateway") ∷ ("queries.rego", "package gateway") ∷ []

loads : load_modules policies "policies" ≡ ok loaded
unfolding load_modules insert
loads = refl

abbrev no_policies : Files
no_policies = record policies { read_dir = λ dir. ok (file "README.md" ∷ []) }

finds_none : load_modules no_policies "policies" ≡ err (plain "no .rego files found")
unfolding load_modules
finds_none = refl

load_modules_iff_example :
    (is_none loaded ≡ false)
    × ((name text : String)
        → (lookup name loaded ≡ some text) ↔ (
            Some (IsPolicyFile policies "policies" name) entries
            × (ok "package gateway" ≡ ok text)))
load_modules_iff_example = load_modules_iff policies "policies" entries loaded refl loads

-- Wants two modules in the order of their names.
abbrev sample_prepare : Prepare
sample_prepare query ((name, _) ∷ _ ∷ []) =
    if name == "queries.rego"
    then ok (λ input. some (bool true ∷ []))
    else err (plain "the modules are not in order")
sample_prepare query _ = err (plain "the modules are not in order")

abbrev other_order : Map String
other_order = ("queries.rego", "package gateway") ∷ ("targets.rego", "package gateway") ∷ []

same_texts : (name : String) → lookup name loaded ≡ lookup name other_order
unfolding lookup
same_texts name = elim (Bool-cases ("targets.rego" == name)) [
  | inl first ↦ elim (Bool-cases ("queries.rego" == name)) [
    | inl second ↦ rw (first, second) refl
    | inr other ↦ rw (first, other) refl
  ]
  | inr later ↦ elim (Bool-cases ("queries.rego" == name)) [
    | inl second ↦ rw (later, second) refl
    | inr other ↦ rw (later, other) refl
  ]
]

new-Perm_example : new sample_prepare loaded ≡ new sample_prepare other_order
new-Perm_example = new-Perm sample_prepare loaded other_order (Permᴰ.swap refl refl) same_texts
