-- ===== src/Parser/Tables/Masking.antt =====
-- What `Put` does to the names of the tables put before.
use database_gateway.Common.{
  suc, ◌+◌, Bool-cases, ◌≡◌, ◌∙◌, ap, sym, String, true, false, some, arith,
}
use database_gateway.Common.{lookup, contains, ok, if◌then◌else◌, ◌==◌, eq_iff}
use database_gateway.Common.{◌⊎◌, inl, inr}
use database_gateway.Parser.Tables.{Tables, put, get, resolved}
use database_gateway.Parser.Tables.Resolution.{put_names, put-IsRemap, resolve_hit, resolve_next}

module _ (t t' : Tables) (c s r a : String) {f : String} (step : put t c s r a ≡ ok (f, t')) where
  pub lookup-put :
      (j : String)
      → lookup j t'.m
        ≡ (if contains j (put_names t.default_schema s r a f) then some f else lookup j t.m)
  lookup-put = (put-IsRemap t c s r a step).looked

  -- After a successful Put each of its names resolves to the full name of the table. Its names are
  -- the relation, the full name, the relation in the default schema if no schema is given and
  -- there is a default, and the alias if one is given.
  pub get-put :
      (j : String) → contains j (put_names t.default_schema s r a f) ≡ true → get t' j ≡ resolved f
  unfolding get
  get-put j listed =
      let fuel : t'.sources + 2 ≡ suc (suc t'.sources) = omega arith in
      let found : lookup j t'.m ≡ some f = lookup-put j ∙ rw listed in
      let fixed = (put-IsRemap t c s r a step).fixed in
      rw fuel (elim (Bool-cases (f == j)) [
        | inl same ↦
            let q : f ≡ j = (eq_iff f j).0 same in
            resolve_hit t'.m j (suc t'.sources) (found ∙ ap some q) ∙ ap resolved (sym q)
        | inr other ↦
            resolve_next t'.m j (suc t'.sources) f found other ∙ resolve_hit t'.m f t'.sources fixed
      ])

  -- A table put before stays one of the tables if no name of the Put is spelled like it.
  pub put_keeps :
      (j : String)
      → lookup j t.m ≡ some j
      → (contains j (put_names t.default_schema s r a f) ≡ false) ⊎ (f ≡ j)
      → lookup j t'.m ≡ some j
  put_keeps j old (inl free) = lookup-put j ∙ rw free old
  put_keeps j old (inr same) = rw same at (put-IsRemap t c s r a step).fixed
