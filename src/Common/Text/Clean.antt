-- ===== src/Common/Text/Clean.antt =====
-- Texts whose code points all satisfy a predicate, and what `strings.TrimSpace` leaves of them.
use Prim.Native.Char.{code}
use Prim.Native.String.{String, [], ◌∷◌, ◌++◌}
use Prim.Native.Nat.{ℕ}
use mathlib.Core.Path.{◌≡◌, refl}
use mathlib.Core.Bool.{false}
use native.Mathlib.Omega.{arith}
use text.Mathlib.TextLemmas.{nil-append, cons-append}
use package.database_gateway.Common.Text.{is_space, trim_left, trim_right, trim_space}

-- Every code point satisfies `P`.
abbrev pub AllCodes : (ℕ → Type 0) → String → Type 0
AllCodes P [] = Unit
AllCodes P (c ∷ s) = P (code c) × AllCodes P s

pub AllCodes-append :
    (P : ℕ → Type 0) (s t : String) → AllCodes P s → AllCodes P t → AllCodes P (s ++ t)
AllCodes-append P [] t h k = rw (nil-append t) k
AllCodes-append P (c ∷ s) t (p, h) k = rw (cons-append c s t) (p, AllCodes-append P s t h k)

pub AllCodes-map_to :
    (P Q : ℕ → Type 0) (s : String) → ((c : ℕ) → P c → Q c) → AllCodes P s → AllCodes Q s
AllCodes-map_to P Q [] f h = tt
AllCodes-map_to P Q (c ∷ s) f (p, h) = (f (code c) p, AllCodes-map_to P Q s f h)

abbrev pub IsVisible : ℕ → Type 0
IsVisible c = is_space c ≡ false

trim_left_visible : (s : String) → AllCodes IsVisible s → trim_left s ≡ s
unfolding trim_left
trim_left_visible [] h = refl
trim_left_visible (c ∷ s) (p, h) = rw p

trim_right_visible : (s : String) → AllCodes IsVisible s → trim_right s ≡ s
unfolding trim_right
trim_right_visible [] h = refl
trim_right_visible (c ∷ s) (p, h) = rw (trim_right_visible s h, p) (ground arith)

-- TrimSpace keeps a text with no white space.
pub trim_space_visible : (s : String) → AllCodes IsVisible s → trim_space s ≡ s
unfolding trim_space
trim_space_visible s h = rw (trim_left_visible s h) (trim_right_visible s h)
