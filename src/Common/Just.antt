-- ===== src/Common/Just.antt =====
-- The functions of the package `github.com/kazhuravlev/just` that the program calls, which are not
-- part of the repository: operations with the behaviour that their documentation states.
use Prim.Native.String.{String}
use mathlib.Core.Path.{◌≡◌, refl}
use mathlib.Core.Logic.{◌↔◌}
use mathlib.Core.Bool.{Bool}
use mathlib.Core.List.{List, [], ◌∷◌, map}
use package.database_gateway.Common.Results.{if◌then◌else◌}
use package.database_gateway.Common.Lists.{In, all, contains}
use package.database_gateway.Common.Maps.{Map, keys}

-- The items that satisfy a test, in their order.
abbrev pub keep : {A : Type 0} → List A → (A → Bool) → List A
keep [] p = []
keep (x ∷ xs) p = let rest = keep xs p in if p x then x ∷ rest else rest

pub record Just : Type 1 where
  -- `SliceUniq`: each item once, in no stated order.
  pub slice_uniq : List String → List String
  pub slice_uniq_in : (xs : List String) (x : String) → In x (slice_uniq xs) ↔ In x xs
  -- `SliceAll`
  pub slice_all : (A : Type 0) → List A → (A → Bool) → Bool
  pub slice_all_all : (A : Type 0) (xs : List A) (p : A → Bool) → slice_all A xs p ≡ all p xs
  -- `SliceFilter`
  pub slice_filter : (A : Type 0) → List A → (A → Bool) → List A
  pub slice_filter_keep :
      (A : Type 0) (xs : List A) (p : A → Bool) → slice_filter A xs p ≡ keep xs p
  -- `SliceMap`
  pub slice_map : (A B : Type 0) → List A → (A → B) → List B
  pub slice_map_map : (A B : Type 0) (xs : List A) (f : A → B) → slice_map A B xs f ≡ map f xs
  -- `Slice2Map` and `MapContainsKey`
  pub slice_to_map : List String → Map (Unit {0})
  pub map_contains_key : Map (Unit {0}) → String → Bool
  pub slice_to_map_keys :
      (xs : List String) (x : String) → map_contains_key (slice_to_map xs) x ≡ contains x xs
  -- `If`
  pub if_else : Bool → String → String → String
  pub if_else_if : (b : Bool) (x y : String) → if_else b x y ≡ (if b then x else y)

abbrev pub with_unit : List String → Map (Unit {0})
with_unit xs = map (λ x. (x, tt)) xs

pub contains-with_unit :
    (xs : List String) (x : String) → contains x (keys (with_unit xs)) ≡ contains x xs
contains-with_unit [] x = refl
contains-with_unit (y ∷ ys) x = rw (contains-with_unit ys x)

-- An implementation that meets the statements.
abbrev pub sample_just : Just
sample_just = record {
  slice_uniq = λ xs. xs;
  slice_uniq_in = λ xs x. ((λ h. h), (λ h. h));
  slice_all = λ A xs p. all p xs;
  slice_all_all = λ A xs p. refl;
  slice_filter = λ A xs p. keep xs p;
  slice_filter_keep = λ A xs p. refl;
  slice_map = λ A B xs f. map f xs;
  slice_map_map = λ A B xs f. refl;
  slice_to_map = with_unit;
  map_contains_key = λ m x. contains x (keys m);
  slice_to_map_keys = contains-with_unit;
  if_else = λ b x y. if b then x else y;
  if_else_if = λ b x y. refl;
}
