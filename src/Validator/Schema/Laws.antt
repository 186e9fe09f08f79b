-- ===== src/Validator/Schema/Laws.antt =====
-- Which table a name stands for.
use database_gateway.Common.{
  ◌≡◌, refl, ◌∙◌, ap, sym, String, ◌<>◌, true, false, none, some, List, [], ◌∷◌, contains, ◌==◌,
  eq_iff, In, All-In, contains-In, Bool-cases, Option-cases, inl, inr, ◌⊎◌, some-injective,
}
use database_gateway.Common.Text.{contains_dot}
use database_gateway.Config.{TargetTable}
use database_gateway.Config.Laws.{IsQualified}
use database_gateway.Validator.Schema.{
  DbSchema, names_for_lookup, first_named, get_table, canonical_table,
}

first_named-some :
    (names : List String) (ts : List TargetTable) (t : TargetTable)
    → first_named names ts ≡ some t
    → In t ts × In t.table names
unfolding first_named
first_named-some names [] t h = cc
first_named-some names (u ∷ us) t h = elim (Bool-cases (contains u.table names)) [
  | inl hit ↦
      let same : u ≡ t = some-injective _ _ (rw hit at h) in
      (inl same, rw same at (contains-In u.table names hit))
  | inr miss ↦ let (i, j) = first_named-some names us t (rw miss at h) in (inr i, j)
]

-- A table that is listed under its name has a first entry of that name.
first_named-listed :
    (name : String) (ts : List TargetTable) (t : TargetTable)
    → In t ts
    → t.table ≡ name
    → (u : TargetTable) × (first_named (name ∷ []) ts ≡ some u) × (u.table ≡ name)
unfolding first_named
first_named-listed name [] t i e = elim i [ ]
first_named-listed name (u ∷ us) t i e = elim (Bool-cases (name == u.table)) [
  | inl hit ↦ (u, rw hit, sym ((eq_iff name u.table).0 hit))
  | inr miss ↦ elim i [
    | inl same ↦
        cc (miss, (eq_iff name u.table).1 (sym e ∙ ap (λ (x : TargetTable). x.table) (sym same)))
    | inr later ↦ let (w, f, g) = first_named-listed name us t later e in (w, rw miss f, g)
  ]
]

-- A table that GetTable finds is one of the schema's tables, under the name itself or, if the name
-- has no dot, under the name in the default schema.
pub get_table-some :
    (s : DbSchema) (name : String) (t : TargetTable)
    → get_table s name ≡ some t
    → In t s.tables
      × ((t.table ≡ name)
          ⊎ ((contains_dot name ≡ false) × (t.table ≡ s.default_schema <> ("." <> name))))
unfolding get_table names_for_lookup
get_table-some s name t h = elim (Bool-cases (contains_dot name)) [
  | inl dotted ↦
      let (i, j) = first_named-some (name ∷ []) s.tables t (rw dotted at h) in
      (i, elim j [ inl e ↦ inl (sym e) | inr more ↦ elim more [ ] ])
  | inr bare ↦
      let (i, j) =
        first_named-some (name ∷ (s.default_schema <> ("." <> name)) ∷ []) s.tables t
          (rw bare at h) in
      (
        i,
        elim j [
          | inl e ↦ inl (sym e)
          | inr (inl e) ↦ inr (bare, sym e)
          | inr (inr more) ↦ elim more [ ]
        ],
      )
]

get_table_again :
    (s : DbSchema) (name : String) (t : TargetTable)
    → get_table s name ≡ some t
    → IsQualified s.tables
    → (u : TargetTable) × (get_table s t.table ≡ some u) × (u.table ≡ t.table)
unfolding get_table names_for_lookup
get_table_again s name t h q =
    let (i, _) = get_table-some s name t h in
    let (u, e, same) = first_named-listed t.table s.tables t i refl in
    let dotted : contains_dot t.table ≡ true =
      All-In (λ t. contains_dot t.table ≡ true) s.tables q i in
    (u, rw dotted e, same)

canonical_table-unknown :
    (s : DbSchema) (name : String) → get_table s name ≡ none → canonical_table s name ≡ name
unfolding canonical_table
canonical_table-unknown s name h = rw (h, canonical_table)

pub canonical_table-found :
    (s : DbSchema) (name : String) (t : TargetTable)
    → get_table s name ≡ some t
    → canonical_table s name ≡ t.table
unfolding canonical_table
canonical_table-found s name t h = rw (h, canonical_table)

-- Where all tables of the schema are written with their schema, as Validate of the configuration
-- wants, the canonical name of a canonical name is that name, also for unknown tables.
pub canonical_table_idempotent :
    (s : DbSchema) (name : String)
    → IsQualified s.tables
    → canonical_table s (canonical_table s name) ≡ canonical_table s name
canonical_table_idempotent s name q = elim (Option-cases (get_table s name)) [
  | inl unknown ↦ ap (canonical_table s) (canonical_table-unknown s name unknown)
  | inr (t, found) ↦
      let (u, e, same) = get_table_again s name t found q in
      let own = canonical_table-found s name t found in
      ap (canonical_table s) own ∙ (canonical_table-found s t.table u e ∙ (same ∙ sym own))
]
