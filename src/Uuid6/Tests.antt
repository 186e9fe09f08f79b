-- ===== src/Uuid6/Tests.antt =====
-- Runs of identifiers through the database.
use database_gateway.Common.{◌≡◌, refl, false, [], ◌∷◌, ok, err, plain}
use database_gateway.Common.Text.{codes}
use database_gateway.Uuid6.{
  Bytes, nil_uuid, Formats, text_value, bytes_value, other_value, scan, value,
}
use database_gateway.Uuid6.Laws.{scan-value}

abbrev seven : Bytes
seven = 0 ∷ 0 ∷ 0 ∷ 0 ∷ 0 ∷ 0 ∷ 0 ∷ 0 ∷ 0 ∷ 0 ∷ 0 ∷ 0 ∷ 0 ∷ 0 ∷ 0 ∷ 7 ∷ []

-- The formats at one identifier.
abbrev formats : Formats
formats = record {
  make = seven;
  print_ulid = λ u. "00000000000000000000000007";
  is_nil_ulid = λ u. false;
  parse_ulid = λ text. ok seven;
  print_uuid = λ id. "00000000-0000-0000-0000-000000000007";
  parse_uuid = λ text. ok seven;
}

scan_nil : scan formats (bytes_value nil_uuid) ≡ ok nil_uuid
unfolding scan
scan_nil = refl

scan_other : scan formats other_value ≡ err (plain "bad input type")
unfolding scan
scan_other = refl

scan-value_example :
    (scan formats (text_value (value formats seven)) ≡ ok seven)
    × (scan formats (bytes_value (codes (value formats seven))) ≡ ok seven)
scan-value_example = scan-value formats seven refl refl refl
