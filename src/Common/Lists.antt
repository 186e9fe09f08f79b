-- ===== src/Common/Lists.antt =====
-- Lists: measured by native numbers, tested, and predicates on them by recursion.
use Prim.Native.Nat.{ℕ, suc}
use Prim.Native.String.{String}
use mathlib.Core.Path.{◌≡◌, refl, sym, ap, subst}
use mathlib.Core.Logic.{◌⊎◌, inl, inr}
use mathlib.Core.Bool.{Bool, true, false, ◌&&◌, ◌||◌}
use mathlib.Core.List.{List, [], ◌∷◌, ◌++◌, map}
use native.Mathlib.Omega.{arith}
use text.Mathlib.Text.{◌==◌}
use text.Mathlib.TextEquality.{eq_iff}

module _ {ℓ} {A : Type ℓ} where
  abbrev pub length : List A → ℕ
  length [] = 0
  length (x ∷ xs) = suc (length xs)

  abbrev pub is_nil : List A → Bool
  is_nil [] = true
  is_nil (x ∷ xs) = false

  abbrev pub all : (A → Bool) → List A → Bool
  all p [] = true
  all p (x ∷ xs) = p x && all p xs

module _ {ℓ} {A : Type ℓ} (P : A → Type 0) where
  abbrev pub All : List A → Type 0
  All [] = Unit
  All (x ∷ xs) = P x × All xs

  -- Some item satisfies `P`.
  abbrev pub Some : List A → Type 0
  Some [] = ⊥
  Some (x ∷ xs) = P x ⊎ Some xs

  pub All-append : (xs ys : List A) → All xs → All ys → All (xs ++ ys)
  All-append [] ys _ k = k
  All-append (x ∷ xs) ys (p, h) k = (p, All-append xs ys h k)

  pub All-append_left : (xs ys : List A) → All (xs ++ ys) → All xs
  All-append_left [] ys _ = tt
  All-append_left (x ∷ xs) ys (p, h) = (p, All-append_left xs ys h)

  pub All-append_right : (xs ys : List A) → All (xs ++ ys) → All ys
  All-append_right [] ys h = h
  All-append_right (x ∷ xs) ys (p, h) = All-append_right xs ys h

abbrev pub contains : String → List String → Bool
contains x [] = false
contains x (y ∷ ys) = y == x || contains x ys

-- `x` is listed.
abbrev pub In : {A : Type 0} → A → List A → Type 0
In x xs = Some (λ y. y ≡ x) xs

module _ {ℓ} {A : Type ℓ} {P Q : A → Type 0} where
  pub All-map_to : (f : (a : A) → P a → Q a) (xs : List A) → All P xs → All Q xs
  All-map_to f [] _ = tt
  All-map_to f (x ∷ xs) (p, h) = (f x p, All-map_to f xs h)

  pub Some-map_to : (f : (a : A) → P a → Q a) (xs : List A) → Some P xs → Some Q xs
  Some-map_to f [] h = elim h [ ]
  Some-map_to f (x ∷ xs) (inl p) = inl (f x p)
  Some-map_to f (x ∷ xs) (inr h) = inr (Some-map_to f xs h)

pub In-All : {A : Type 0} {P : A → Type 0} (xs : List A) → ((x : A) → In x xs → P x) → All P xs
In-All [] h = tt
In-All (x ∷ xs) h = (h x (inl refl), In-All xs (λ y i. h y (inr i)))

pub contains-In : (x : String) (xs : List String) → contains x xs ≡ true → In x xs
contains-In x [] h = cc
contains-In x (y ∷ ys) h = ground (arith, eq_iff y x, contains-In x ys)

pub In-contains : (x : String) (xs : List String) → In x xs → contains x xs ≡ true
In-contains x [] h = elim h [ ]
In-contains x (y ∷ ys) (inl e) = ground (arith, eq_iff y x)
In-contains x (y ∷ ys) (inr h) = ground (arith, In-contains x ys h)

module _ {ℓ} {A : Type ℓ} (P : A → Type 0) where
  pub Some-append_left : (xs ys : List A) → Some P xs → Some P (xs ++ ys)
  Some-append_left [] ys h = elim h [ ]
  Some-append_left (x ∷ xs) ys (inl p) = inl p
  Some-append_left (x ∷ xs) ys (inr h) = inr (Some-append_left xs ys h)

  pub Some-append_right : (xs ys : List A) → Some P ys → Some P (xs ++ ys)
  Some-append_right [] ys h = h
  Some-append_right (x ∷ xs) ys h = inr (Some-append_right xs ys h)

  pub Some-append_cases : (xs ys : List A) → Some P (xs ++ ys) → Some P xs ⊎ Some P ys
  Some-append_cases [] ys h = inr h
  Some-append_cases (x ∷ xs) ys (inl p) = inl (inl p)
  Some-append_cases (x ∷ xs) ys (inr h) = elim (Some-append_cases xs ys h) [
    | inl i ↦ inl (inr i)
    | inr i ↦ inr i
  ]

pub All-In : {A : Type 0} (P : A → Type 0) (xs : List A) {x : A} → All P xs → In x xs → P x
All-In P [] h i = elim i [ ]
All-In P (y ∷ ys) (p, h) (inl e) = subst P e p
All-In P (y ∷ ys) (p, h) (inr i) = All-In P ys h i

pub Some-map {κ} :
    {A : Type 0} {B : Type κ} (P : B → Type 0) (f : A → B) (xs : List A)
    → Some (λ a. P (f a)) xs
    → Some P (map f xs)
Some-map P f [] h = elim h [ ]
Some-map P f (x ∷ xs) (inl p) = inl p
Some-map P f (x ∷ xs) (inr h) = inr (Some-map P f xs h)

pub Some-map_inv {κ} :
    {A : Type 0} {B : Type κ} (P : B → Type 0) (f : A → B) (xs : List A)
    → Some P (map f xs)
    → Some (λ a. P (f a)) xs
Some-map_inv P f [] h = elim h [ ]
Some-map_inv P f (x ∷ xs) (inl p) = inl p
Some-map_inv P f (x ∷ xs) (inr h) = inr (Some-map_inv P f xs h)

pub All-map {κ} :
    {A : Type 0} {B : Type κ} (P : B → Type 0) (f : A → B) (xs : List A)
    → All (λ a. P (f a)) xs
    → All P (map f xs)
All-map P f [] h = tt
All-map P f (x ∷ xs) (p, h) = (p, All-map P f xs h)

-- An item that satisfies two predicates, one of which all items satisfy.
pub Some-All :
    {A : Type 0} (P Q : A → Type 0) (xs : List A) → Some P xs → All Q xs → (a : A) × P a × Q a
Some-All P Q [] h _ = elim h [ ]
Some-All P Q (x ∷ xs) (inl p) (q, _) = (x, p, q)
Some-All P Q (x ∷ xs) (inr h) (_, k) = Some-All P Q xs h k

-- An item that is listed and satisfies a predicate.
pub Some_witness : {A : Type 0} (P : A → Type 0) (xs : List A) → Some P xs → (a : A) × In a xs × P a
Some_witness P [] h = elim h [ ]
Some_witness P (x ∷ xs) (inl p) = (x, inl refl, p)
Some_witness P (x ∷ xs) (inr h) = let (a, i, p) = Some_witness P xs h in (a, inr i, p)

pub Some-of_In : {A : Type 0} (P : A → Type 0) (xs : List A) (a : A) → In a xs → P a → Some P xs
Some-of_In P [] a i p = elim i [ ]
Some-of_In P (x ∷ xs) a (inl e) p = inl (subst P (sym e) p)
Some-of_In P (x ∷ xs) a (inr i) p = inr (Some-of_In P xs a i p)

pub length-map {ℓ κ} :
    {A : Type ℓ} {B : Type κ} (f : A → B) (xs : List A) → length (map f xs) ≡ length xs
length-map f [] = refl
length-map f (x ∷ xs) = ap suc (length-map f xs)
