-- ===== src/App/Values.antt =====
-- internal/app/adapters.go: how values of PostgreSQL are shown. A value is what the library shows of
-- it: `fmt.Sprint` for most types, `MarshalJSON` for a numeric, which may fail.
use Prim.Native.Nat.{◌/◌, ◌%◌, ◌^◌, ◌+◌, ◌-◌}
use Prim.Native.Char.{code}
use database_gateway.Common.{
  ℕ, zero, suc, String, ◌<>◌, ◌&&◌, Option, none, some, List, if◌then◌else◌,
}
use database_gateway.Common.Text.{leb, ◌=ℕ◌, is_empty}

pub data PgValue : Type 0 where
  numeric : Option String → PgValue
  printed : String → PgValue

trim_quotes_left : String → String
trim_quotes_left String.[] = String.[]
trim_quotes_left (String.◌∷◌ c s) =
    let rest = trim_quotes_left s in if code c =ℕ b'"' then rest else String.◌∷◌ c s

trim_quotes_right : String → String
trim_quotes_right String.[] = String.[]
trim_quotes_right (String.◌∷◌ c s) =
    let rest = trim_quotes_right s in
    if is_empty rest && code c =ℕ b'"' then String.[] else String.◌∷◌ c rest

-- ``bytes.Trim(res, `"`)``
unfoldable pub trim_quotes : String → String
unfolding trim_quotes_left trim_quotes_right
trim_quotes s = trim_quotes_right (trim_quotes_left s)

unfoldable pub adapt_pg_type : PgValue → String
unfolding trim_quotes
adapt_pg_type (printed text) = text
adapt_pg_type (numeric none) = "--bad payload--"
adapt_pg_type (numeric (some res)) = trim_quotes res

-- The item at an index, of texts.
at_index : List String → ℕ → String
at_index List.[] n = ""
at_index (List.◌∷◌ d ds) zero = d
at_index (List.◌∷◌ d ds) (suc n) = at_index ds n

abbrev digit_names : List String
digit_names = List.◌∷◌ "0" (
    List.◌∷◌ "1" (
      List.◌∷◌ "2" (
        List.◌∷◌ "3" (
          List.◌∷◌ "4"
            (List.◌∷◌ "5" (List.◌∷◌ "6" (List.◌∷◌ "7" (List.◌∷◌ "8" (List.◌∷◌ "9" List.[])))))))))

digit : ℕ → String
unfolding at_index
digit n = at_index digit_names n

-- The last `k` digits.
digits : ℕ → ℕ → String
unfolding digit
digits zero n = ""
digits (suc k) n =
    let rest = digits k (n / 10) in if leb n 9 then digit n else rest <> digit (n % 10)

-- `%d` of a number that is not negative. An `int` has at most 19 digits.
unfoldable pub decimal : ℕ → String
unfolding digits
decimal n = digits 19 n

-- Numbers with a sign: `negsuc n` is -(n + 1).
pub data ℤ : Type 0 where
  pos : ℕ → ℤ
  negsuc : ℕ → ℤ

-- The `int64` that a natural number is cut to.
unfoldable pub to_int64 : ℕ → ℤ
to_int64 n =
    let low = n % 2 ^ 64 in
    if leb 9223372036854775808 low then negsuc (2 ^ 64 - (low + 1)) else pos low

-- `if n <= 0 { n = d }`
unfoldable pub positive_or : ℤ → ℕ → ℕ
positive_or (pos zero) d = d
positive_or (pos (suc n)) d = suc n
positive_or (negsuc n) d = d
