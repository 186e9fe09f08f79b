-- ===== src/Uuid6/Laws.antt =====
-- Identifiers survive the database.
use database_gateway.Common.{
  ◌≡◌, refl, sym, ap, ◌∙◌, inl, inr, ℕ, true, [], ◌∷◌, length, ok, arith, Bool-cases,
}
use database_gateway.Common.Text.{codes}
use database_gateway.Uuid6.{
  Bytes, nil_uuid, bytes_equal, copy, to_uuid, from_uuid, Formats, bytes_value, text_value, scan_to,
  scan, value,
}

copy_all : (to from : Bytes) → length to ≡ length from → copy to from ≡ from
unfolding copy
copy_all [] [] h = refl
copy_all [] (b ∷ from) h = absurd (omega arith)
copy_all (a ∷ to) [] h = absurd (omega arith)
copy_all (a ∷ to) (b ∷ from) h = ap (λ (t : Bytes). b ∷ t) (copy_all to from (omega arith))

-- ToUUID and FromUUID keep the 16 bytes.
pub from_uuid-to_uuid : (u : Bytes) → length u ≡ 16 → (to_uuid u ≡ u) × (from_uuid u ≡ u)
unfolding to_uuid from_uuid
from_uuid-to_uuid u h = (copy_all nil_uuid u (sym h), copy_all nil_uuid u (sym h))

bytes_equal-length : (s t : Bytes) → bytes_equal s t ≡ true → length s ≡ length t
unfolding bytes_equal
bytes_equal-length [] [] h = refl
bytes_equal-length [] (b ∷ t) h = cc
bytes_equal-length (a ∷ s) [] h = cc
bytes_equal-length (a ∷ s) (b ∷ t) h = ground (arith, h, bytes_equal-length s t)

not_both : {n : ℕ} → n ≡ 36 → n ≡ 16 → ⊥
not_both a b = omega arith

scan_to-print :
    (f : Formats) (u : Bytes)
    → length u ≡ 16
    → length (codes (f.print_uuid u)) ≡ 36
    → f.parse_uuid (codes (f.print_uuid u)) ≡ ok u
    → scan_to f (codes (f.print_uuid u)) ≡ ok u
unfolding scan_to
scan_to-print f u h long_text parsed =
    let text = codes (f.print_uuid u) in
    elim (Bool-cases (bytes_equal text nil_uuid)) [
      | inl short ↦ absurd (not_both long_text (bytes_equal-length text nil_uuid short))
      | inr long ↦ rw (long, parsed, scan_to) (ap ok (from_uuid-to_uuid u h).1)
    ]

-- An identifier of 16 bytes that is written to the database by Value is read back by Scan, as text
-- or as bytes, if google/uuid prints it in 36 characters of ASCII and parses what it has printed.
pub scan-value :
    (f : Formats) (u : Bytes)
    → length u ≡ 16
    → length (codes (f.print_uuid u)) ≡ 36
    → f.parse_uuid (codes (f.print_uuid u)) ≡ ok u
    → (scan f (text_value (value f u)) ≡ ok u) × (scan f (bytes_value (codes (value f u))) ≡ ok u)
unfolding scan value
scan-value f u h long_text parsed =
    let read = scan_to-print f u h long_text parsed in
    let same : codes (f.print_uuid (to_uuid u)) ≡ codes (f.print_uuid u) =
      ap (λ (id : Bytes). codes (f.print_uuid id)) (from_uuid-to_uuid u h).0 in
    let whole : scan_to f (codes (f.print_uuid (to_uuid u))) ≡ ok u = ap (scan_to f) same ∙ read in
    (whole, whole)
