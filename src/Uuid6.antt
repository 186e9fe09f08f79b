-- ===== src/Uuid6.antt =====
-- internal/uuid6/uuid_v6.go: an identifier is the 16 bytes of a ULID, stored as a UUID. What
-- oklog/ulid and google/uuid do is an argument.
pub mod Laws
mod Tests
use database_gateway.Common.{
  ℕ, zero, suc, String, Bool, true, false, ◌&&◌, Option, none, some, List, [], ◌∷◌, Result, ok, err,
  Error, plain, if◌then◌else◌,
}
use database_gateway.Common.Text.{codes, ◌=ℕ◌}

-- Bytes, and an array of 16 of them.
abbrev pub Bytes : Type 0
Bytes = List ℕ

abbrev pub nil_uuid : Bytes
nil_uuid = 0 ∷ 0 ∷ 0 ∷ 0 ∷ 0 ∷ 0 ∷ 0 ∷ 0 ∷ 0 ∷ 0 ∷ 0 ∷ 0 ∷ 0 ∷ 0 ∷ 0 ∷ 0 ∷ []

-- `bytes.Equal`
unfoldable pub bytes_equal : Bytes → Bytes → Bool
bytes_equal [] [] = true
bytes_equal (a ∷ s) (b ∷ t) = a =ℕ b && bytes_equal s t
bytes_equal _ _ = false

-- `copy(to, from)`: the array `to` afterwards.
unfoldable pub copy : Bytes → Bytes → Bytes
copy [] from = []
copy (a ∷ to) [] = a ∷ to
copy (a ∷ to) (b ∷ from) = b ∷ copy to from

unfoldable pub to_uuid : Bytes → Bytes
unfolding copy
to_uuid u = copy nil_uuid u

unfoldable pub from_uuid : Bytes → Bytes
unfolding copy
from_uuid id = copy nil_uuid id

-- `ulid.Make`, `ULID.String`, `ULID.Compare` with the nil ULID, `ulid.Parse`, `UUID.String`, which
-- `UUID.Value` gives, and `uuid.Parse` of the text of some bytes.
pub record Formats : Type 0 where
  pub make : Bytes
  pub print_ulid : Bytes → String
  pub is_nil_ulid : Bytes → Bool
  pub parse_ulid : String → Result Bytes
  pub print_uuid : Bytes → String
  pub parse_uuid : Bytes → Result Bytes

-- What a driver gives to `Scan`.
pub data Value : Type 0 where
  nil_value other_value : Value
  bytes_value : Bytes → Value
  text_value : String → Value

module _ (f : Formats) where
  unfoldable pub new : Bytes
  new = f.make

  unfoldable pub s : Bytes → String
  s u = f.print_ulid u

  unfoldable pub is_nil : Bytes → Bool
  is_nil u = f.is_nil_ulid u

  unfoldable pub scan_to : Bytes → Result Bytes
  unfolding bytes_equal from_uuid
  scan_to buf =
      if bytes_equal buf nil_uuid
      then ok nil_uuid
      else elim (f.parse_uuid buf) [ err e ↦ err e | ok uid ↦ ok (from_uuid uid) ]

  -- A text is ASCII, so that its bytes are its code points.
  unfoldable pub scan : Value → Result Bytes
  unfolding scan_to
  scan nil_value = err (plain "bad ulid")
  scan other_value = err (plain "bad input type")
  scan (bytes_value val) = scan_to val
  scan (text_value val) = scan_to (codes val)

  unfoldable pub value : Bytes → String
  unfolding to_uuid
  value u = f.print_uuid (to_uuid u)

  -- `MustParse` panics where `Parse` fails: none.
  unfoldable pub from_str : String → Option Bytes
  from_str id = elim (f.parse_ulid id) [ err e ↦ none | ok u ↦ some u ]

  unfoldable pub parse_str : String → Result Bytes
  parse_str in_ = elim (f.parse_ulid in_) [ err e ↦ err e | ok id ↦ ok id ]
