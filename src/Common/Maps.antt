-- ===== src/Common/Maps.antt =====
-- Go's maps with string keys, as association lists in the order of the first insertions. A Go map
-- is ranged over in any order, so statements about the lists that come of it are about membership.
use Prim.Native.String.{String}
use mathlib.Core.Path.{◌≡◌, refl, sym, ◌∙◌}
use mathlib.Core.Logic.{inl, inr}
use mathlib.Core.Option.{Option, none, some, some-injective}
use mathlib.Core.List.{List, [], ◌∷◌, map}
use native.Mathlib.Omega.{arith}
use text.Mathlib.Text.{◌==◌}
use text.Mathlib.TextEquality.{eq_iff}
use package.database_gateway.Common.Results.{if◌then◌else◌, Bool-cases}
use package.database_gateway.Common.Lists.{All, Some}

abbrev pub Map {ℓ} : Type ℓ → Type ℓ
Map V = List (String × V)

abbrev pub keys {ℓ} : {V : Type ℓ} → Map V → List String
keys = map (λ (k, _). k)

module _ {ℓ} {V : Type ℓ} where
  unfoldable pub lookup : String → Map V → Option V
  lookup key [] = none
  lookup key ((name, value) ∷ rest) = if name == key then some value else lookup key rest

  -- `m[key] = value`
  unfoldable pub insert : String → V → Map V → Map V
  insert key value [] = (key, value) ∷ []
  insert key value ((name, old) ∷ rest) =
      if name == key then (key, value) ∷ rest else (name, old) ∷ insert key value rest

  pub lookup-insert :
      (key other : String) (value : V) (rest : Map V)
      → lookup other (insert key value rest)
        ≡ (if key == other then some value else lookup other rest)
  unfolding lookup insert
  lookup-insert key other value [] = refl
  lookup-insert key other value ((name, old) ∷ rest) =
      let later = lookup-insert key other value rest in
      ground (arith, eq_iff name key, eq_iff name other, eq_iff key other, later)

module _ {V : Type 0} where
  pub lookup-Some :
      (k : String) (v : V) (m : Map V) → lookup k m ≡ some v → Some (λ (j, w). (j ≡ k) × (w ≡ v)) m
  unfolding lookup
  lookup-Some k v [] h = cc
  lookup-Some k v ((j, w) ∷ m) h = elim (Bool-cases (j == k)) [
    | inl same ↦ inl ((eq_iff j k).0 same, some-injective _ _ (rw same at h))
    | inr other ↦ inr (lookup-Some k v m (rw other at h))
  ]

  pub All-insert :
      (P : String × V → Type 0) (k : String) (v : V) (m : Map V)
      → P (k, v)
      → All P m
      → All P (insert k v m)
  unfolding insert
  All-insert P k v [] p _ = (p, tt)
  All-insert P k v ((j, w) ∷ m) p (q, h) = elim (Bool-cases (j == k)) [
    | inl same ↦ rw same (p, h)
    | inr other ↦ rw other (q, All-insert P k v m p h)
  ]

  pub Some-insert_self : (k : String) (v : V) (m : Map V) → Some (λ (j, w). j ≡ k) (insert k v m)
  unfolding insert
  Some-insert_self k v [] = inl refl
  Some-insert_self k v ((j, w) ∷ m) = elim (Bool-cases (j == k)) [
    | inl same ↦ rw same (inl refl)
    | inr other ↦ rw other (inr (Some-insert_self k v m))
  ]

  pub Some-insert :
      (i k : String) (v : V) (m : Map V)
      → Some (λ (j, w). j ≡ i) m
      → Some (λ (j, w). j ≡ i) (insert k v m)
  unfolding insert
  Some-insert i k v [] h = elim h [ ]
  Some-insert i k v ((j, w) ∷ m) h = elim (Bool-cases (j == k)) [
    | inl same ↦
        rw same (elim h [ inl e ↦ inl (sym ((eq_iff j k).0 same) ∙ e) | inr later ↦ inr later ])
    | inr other ↦ rw other (elim h [ inl e ↦ inl e | inr later ↦ inr (Some-insert i k v m later) ])
  ]
