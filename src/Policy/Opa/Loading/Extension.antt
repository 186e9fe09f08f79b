-- ===== src/Policy/Opa/Loading/Extension.antt =====
-- When a name has an extension.
use database_gateway.Common.{◌≡◌, refl, sym, ap, ◌∙◌, inl, inr, String, Bool-cases, not, ◌&&◌, ◌<>◌}
use text.Mathlib.TextLemmas.{nil-append, cons-append, append-nil}
use Prim.Native.Char.{code}
use database_gateway.Common.Text.{is_empty, ◌=ℕ◌}
use database_gateway.Policy.Opa.Loading.{file_ext, contains_slash}

pub file_ext-ends : (name : String) → (stem : String) × (name ≡ stem <> file_ext name)
unfolding file_ext
file_ext-ends String.[] = ("", refl)
file_ext-ends (String.◌∷◌ c s) = elim (Bool-cases (is_empty (file_ext s))) [
  | inr later ↦
      let (stem, e) = file_ext-ends s in
      (
        String.◌∷◌ c stem,
        rw later (ap (λ x. String.◌∷◌ c x) e ∙ sym (cons-append c stem (file_ext s))),
      )
  | inl none_ ↦ elim (Bool-cases (code c =ℕ b'.' && not (contains_slash s))) [
    | inl dot ↦ ("", rw (none_, dot) (sym (nil-append (String.◌∷◌ c s))))
    | inr other ↦ (String.◌∷◌ c s, rw (none_, other) (sym (append-nil (String.◌∷◌ c s))))
  ]
]

pub file_ext-append : (stem : String) → file_ext (stem <> ".rego") ≡ ".rego"
unfolding file_ext
file_ext-append String.[] = refl
file_ext-append (String.◌∷◌ c s) =
    ap file_ext (cons-append c s ".rego") ∙ rw (file_ext-append s) refl
