-- ===== src/Common/Text.antt =====
-- What the program uses of Go's `strings`.
pub mod Clean
use Prim.Native.Nat.{ℕ, ◌+◌, compare, Ordering}
use Prim.Native.Char.{code}
use Prim.Native.String.{String, [], ◌∷◌, ◌++◌}
use mathlib.Core.Bool.{Bool, true, false, ◌&&◌, ◌||◌}
use mathlib.Core.List
use mathlib.Core.List.{List}
use package.database_gateway.Common.Results.{if◌then◌else◌}

abbrev pub leb : ℕ → ℕ → Bool
leb a b = elim (compare a b) [ Ordering.gt ↦ false | _ ↦ true ]

infix 50 ◌=ℕ◌
abbrev pub ◌=ℕ◌ : ℕ → ℕ → Bool
a =ℕ b = elim (compare a b) [ Ordering.eq ↦ true | _ ↦ false ]

abbrev pub is_empty : String → Bool
is_empty [] = true
is_empty (c ∷ s) = false

-- `strings.Contains(s, ".")`
unfoldable pub contains_dot : String → Bool
contains_dot [] = false
contains_dot (c ∷ s) = code c =ℕ b'.' || contains_dot s

-- The code points of a text.
abbrev pub codes : String → List ℕ
codes [] = List.[]
codes (c ∷ s) = List.◌∷◌ (code c) (codes s)

-- `unicode.IsSpace`
unfoldable pub is_space : ℕ → Bool
is_space c =
    (leb 9 c && leb c 13)
    || c =ℕ 32
    || c =ℕ 0x85
    || c =ℕ 0xa0
    || c =ℕ 0x1680
    || (leb 0x2000 c && leb c 0x200a)
    || c =ℕ 0x2028
    || c =ℕ 0x2029
    || c =ℕ 0x202f
    || c =ℕ 0x205f
    || c =ℕ 0x3000

trim_left : String → String
unfolding is_space
trim_left [] = []
trim_left (c ∷ s) = let rest = trim_left s in if is_space (code c) then rest else c ∷ s

trim_right : String → String
unfolding is_space
trim_right [] = []
trim_right (c ∷ s) =
    let rest = trim_right s in if is_empty rest && is_space (code c) then [] else c ∷ rest

-- `strings.TrimSpace`
unfoldable pub trim_space : String → String
unfolding trim_left trim_right
trim_space s = trim_right (trim_left s)

-- `strings.Join(parts, ".")`
unfoldable pub join_dot : List String → String
join_dot List.[] = []
join_dot (List.◌∷◌ p List.[]) = p
join_dot (List.◌∷◌ p (List.◌∷◌ q rest)) = p ++ ("." ++ join_dot (List.◌∷◌ q rest))

-- `strings.ToLower`, one code point at a time and only as far as a comparison with ASCII text can
-- tell: the two letters outside ASCII whose lower case is ASCII, and no other, are taken along.
unfoldable pub lower_code : ℕ → ℕ
lower_code c =
    if leb b'A' c && leb c b'Z'
    then c + 32
    else if c =ℕ 0x130
    then b'i'
    else if c =ℕ 0x212a
    then b'k'
    else c

codes_eq : List ℕ → List ℕ → Bool
codes_eq List.[] List.[] = true
codes_eq (List.◌∷◌ a s) (List.◌∷◌ b t) = a =ℕ b && codes_eq s t
codes_eq _ _ = false

-- `strings.ToLower(s) == t`, for a `t` in ASCII.
unfoldable pub lowers_to : String → String → Bool
unfolding codes_eq lower_code
lowers_to s t = codes_eq (List.map lower_code (codes s)) (codes t)
