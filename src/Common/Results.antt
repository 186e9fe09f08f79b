-- ===== src/Common/Results.antt =====
-- Go's `(value, error)` results. An error is the sentinels that `errors.Is` finds in it, with the
-- text of the innermost message; the texts that `fmt.Errorf` puts in front are left out.
use Prim.Native.String.{String}
use mathlib.Core.Path.{◌≡◌, refl}
use mathlib.Core.Logic.{◌⊎◌, inl, inr}
use mathlib.Core.Bool.{Bool, true, false, not}
use mathlib.Core.Option.{Option, none, some}
use mathlib.Core.List.{List, [], ◌∷◌}

infix 1 if◌then◌else◌
abbrev pub if◌then◌else◌ {ℓ} : {A : Type ℓ} → Bool → A → A → A
if true then x else y = x
if false then x else y = y

pub Bool-cases : (b : Bool) → (b ≡ true) ⊎ (b ≡ false)
Bool-cases true = inl refl
Bool-cases false = inr refl

pub not-eq-false : (b : Bool) → not b ≡ false → b ≡ true
not-eq-false true h = refl
not-eq-false false h = cc

pub Option-cases {ℓ} : {A : Type ℓ} (o : Option A) → (o ≡ none) ⊎ ((a : A) × (o ≡ some a))
Option-cases none = inl refl
Option-cases (some a) = inr (a, refl)

-- The sentinel errors of the packages `parser`, `validator`, `app`, `storage` and `facade`.
pub data Sentinel : Type 0 where
  not_implemented relation_empty invalid_table_mapping : Sentinel
  bad_query complicated_query access_denied unknown_table unknown_column : Sentinel
  not_found forbidden : Sentinel
  no_record integrity_violation : Sentinel
  bad_input bad_token_format bad_token_signature bad_export_format token_expired : Sentinel
  no_session_user : Sentinel

pub record Error : Type 0 where
  pub wraps : List Sentinel
  pub text : String

-- `errors.New`, and `fmt.Errorf` with no `%w`.
abbrev pub plain : String → Error
plain text = record { wraps = []; text = text }

-- `fmt.Errorf("…: %w", sentinel)`.
abbrev pub wrapping : Sentinel → String → Error
wrapping s text = record { wraps = s ∷ []; text = text }

-- A value, or the error that took its place.
pub data Result {ℓ} (V : Type ℓ) : Type ℓ where
  err : Error → Result V
  ok : V → Result V

infixl 5 ◌>>=◌
abbrev pub ◌>>=◌ {ℓ κ} : {V : Type ℓ} {W : Type κ} → Result V → (V → Result W) → Result W
err failure >>= follow = err failure
ok value >>= follow = follow value

infixl 5 ◌>>◌
abbrev pub ◌>>◌ {κ} : {W : Type κ} → Result (Unit {0}) → Result W → Result W
check >> rest = check >>= λ done. rest

-- `if bad { return err }`
abbrev pub reject_if : Bool → Error → Result (Unit {0})
reject_if true e = err e
reject_if false e = ok tt

-- A chain that succeeds has a first step that does.
pub >>=-eq-ok {ℓ κ} :
    {V : Type ℓ} {W : Type κ} (first : Result V) (follow : V → Result W) {out : W}
    → (first >>= follow) ≡ ok out
    → (value : V) × (first ≡ ok value) × (follow value ≡ ok out)
>>=-eq-ok (err failure) follow h = cc
>>=-eq-ok (ok value) follow h = (value, refl, h)

-- A failing step leaves nothing to succeed.
pub >>-eq-ok {ℓ} :
    {B : Type ℓ} (m : Result (Unit {0})) (k : Result B) {b : B}
    → (m >> k) ≡ ok b
    → (m ≡ ok tt) × (k ≡ ok b)
>>-eq-ok (ok tt) k h = (refl, h)
>>-eq-ok (err e) k h = cc

pub reject_if-eq-ok : (b : Bool) (e : Error) → reject_if b e ≡ ok tt → b ≡ false
reject_if-eq-ok true e h = cc
reject_if-eq-ok false e h = refl

pub Result-cases {ℓ} :
    {A : Type ℓ} (r : Result A) → ((a : A) × (r ≡ ok a)) ⊎ ((e : Error) × (r ≡ err e))
Result-cases (ok a) = inl (a, refl)
Result-cases (err e) = inr (e, refl)

pub ok_injective {ℓ} : {A : Type ℓ} {a b : A} → ok a ≡ ok b → a ≡ b
ok_injective h = cc

pub err_injective {ℓ} : {A : Type ℓ} {a b : Error} → ◌≡◌ {A = Result A} (err a) (err b) → a ≡ b
err_injective h = cc
