-- ===== src/Validator/Checks/Laws.antt =====
-- What the checks accept, and how they refuse.
use database_gateway.Common.{
  ◌≡◌, refl, ◌∙◌, sym, ◌↔◌, String, Bool, true, false, not, Option, some, List, [], ◌∷◌, arith,
  contains, In, All, all, contains-In, In-contains,
}
use database_gateway.Common.{
  Result, ok, err, ◌>>◌, >>=-eq-ok, >>-eq-ok, reject_if, reject_if-eq-ok, Error, Sentinel,
  Bool-cases, Option-cases, inl, inr, some-injective,
}
use database_gateway.Common.Just.{Just}
use database_gateway.Config.{TargetTable}
use database_gateway.Parser.Ast.{Stmt}
use database_gateway.Validator.Schema.{DbSchema, get_table}
use database_gateway.Validator.Vecs.{Vec, make_vectors}
use database_gateway.Validator.Checks.{
  validate_columns, validate_vec, validate_schema, validate_access, is_allowed, unknown_table_error,
  unknown_column_error, denied_error,
}

-- The table is known, and each column is one of its fields.
abbrev pub IsKnown : DbSchema → Vec → Type 0
IsKnown schema vec =
    (tbl : TargetTable) × (get_table schema vec.tbl ≡ some tbl)
    × All (λ col. In col tbl.fields) vec.cols

validate_columns_iff :
    (just : Just) (fields cols : List String)
    → (validate_columns just (just.slice_to_map fields) cols ≡ ok tt)
      ↔ All (λ col. In col fields) cols
unfolding validate_columns
validate_columns_iff just fields [] = ((λ h. tt), (λ h. refl))
validate_columns_iff just fields (col ∷ cols) = elim (Bool-cases (contains col fields)) [
  | inl has ↦
      rw (just.slice_to_map_keys fields col, has)
        (
          (λ h. (contains-In col fields has, (validate_columns_iff just fields cols).0 h)),
          (λ (i, k). (validate_columns_iff just fields cols).1 k),
        )
  | inr lacks ↦
      rw (just.slice_to_map_keys fields col, lacks)
        ((λ h. cc), (λ (i, k). cc (lacks, In-contains col fields i)))
]

validate_vec_iff :
    (just : Just) (schema : DbSchema) (vec : Vec)
    → (validate_vec just schema vec ≡ ok tt) ↔ IsKnown schema vec
unfolding validate_vec
validate_vec_iff just schema vec = elim (Option-cases (get_table schema vec.tbl)) [
  | inl unknown ↦ ((λ h. cc (rw (unknown, validate_vec) at h)), (λ (tbl, e, k). cc (unknown, e)))
  | inr (tbl, found) ↦ (
    (λ h. (
      tbl,
      found,
      (validate_columns_iff just tbl.fields vec.cols).0 (rw (found, validate_vec) at h),
    )),
    (λ (u, e, k).
        let same : u ≡ tbl = some-injective _ _ (sym e ∙ found) in
        rw (found, validate_vec)
          ((validate_columns_iff just tbl.fields vec.cols).1 (rw same at k))),
  )
]

-- ValidateSchema accepts vectors exactly when each is about a table that GetTable finds, and lists
-- only fields of that table. The order of the vectors plays no part.
pub validate_schema_iff :
    (just : Just) (vectors : List Vec) (schema : DbSchema)
    → (validate_schema just vectors schema ≡ ok tt) ↔ All (IsKnown schema) vectors
unfolding validate_schema
validate_schema_iff just [] schema = ((λ h. tt), (λ h. refl))
validate_schema_iff just (vec ∷ vectors) schema = (
  (λ h.
      let (e, k) =
        >>-eq-ok (validate_vec just schema vec) (validate_schema just vectors schema) h in
      ((validate_vec_iff just schema vec).0 e, (validate_schema_iff just vectors schema).0 k)),
  (λ (known, rest). rw (
    (validate_vec_iff just schema vec).1 known,
    (validate_schema_iff just vectors schema).1 rest,
  )),
)

all_iff : (p : Vec → Bool) (vs : List Vec) → (all p vs ≡ true) ↔ All (λ v. p v ≡ true) vs
all_iff p [] = ((λ h. tt), (λ h. refl))
all_iff p (v ∷ vs) = ground (arith, all_iff p vs)

module _ (just : Just) where
  -- ValidateAccess accepts vectors exactly when the test allows each of them.
  pub validate_access_iff :
      (vectors : List Vec) (have_access : Vec → Bool)
      → (validate_access just vectors have_access ≡ ok tt) ↔ All (λ v. have_access v ≡ true) vectors
  unfolding validate_access
  validate_access_iff vectors have_access = rw (just.slice_all_all Vec vectors have_access) (
    (λ h. (all_iff have_access vectors).0 (ground (arith, reject_if-eq-ok _ _ h))),
    (λ h. rw ((all_iff have_access vectors).1 h)),
  )

  -- IsAllowed accepts a query exactly when the query is parsed into vectors each of which is about
  -- a known table, lists only known columns and is allowed by the test.
  pub is_allowed_iff :
      (pg_parse : String → Option (List Stmt)) (schema : DbSchema) (have_access : Vec → Bool)
      (query : String)
      → (is_allowed just pg_parse schema have_access query ≡ ok tt) ↔ (
          (vectors : List Vec) × (make_vectors just pg_parse query ≡ ok vectors)
          × All (IsKnown schema) vectors
          × All (λ v. have_access v ≡ true) vectors)
  unfolding is_allowed
  is_allowed_iff pg_parse schema have_access query = (
    (λ h.
        let (vectors, e, h1) = >>=-eq-ok (make_vectors just pg_parse query) _ h in
        let (a, b) = >>-eq-ok (validate_schema just vectors schema) _ h1 in
        (
          vectors,
          e,
          (validate_schema_iff just vectors schema).0 a,
          (validate_access_iff vectors have_access).0 b,
        )),
    (λ (vectors, e, known, allowed). rw e (
        rw ((validate_schema_iff just vectors schema).1 known)
          ((validate_access_iff vectors have_access).1 allowed))),
  )

-- A result whose errors are all access-denied errors.
abbrev Denies : Result (Unit {0}) → Type 0
Denies r = (e : Error) → r ≡ err e → In Sentinel.access_denied e.wraps

err_injective : {e d : Error} → ◌≡◌ {A = Result (Unit {0})} (err e) (err d) → e ≡ d
err_injective h = cc

Denies-err : (d : Error) → In Sentinel.access_denied d.wraps → Denies (err d)
Denies-err d i = λ e h. rw (err_injective h) at i

Denies-reject_if :
    (b : Bool) (d : Error) → In Sentinel.access_denied d.wraps → Denies (reject_if b d)
Denies-reject_if true d i = Denies-err d i
Denies-reject_if false d i = λ e h. cc

Denies->> : (m k : Result (Unit {0})) → Denies m → Denies k → Denies (m >> k)
Denies->> (ok tt) k dm dk = dk
Denies->> (err d) k dm dk = dm

validate_columns-Denies :
    (just : Just) (fields cols : List String)
    → Denies (validate_columns just (just.slice_to_map fields) cols)
unfolding validate_columns
validate_columns-Denies just fields [] = λ e h. cc
validate_columns-Denies just fields (col ∷ cols) =
    Denies->>
      (reject_if (not (just.map_contains_key (just.slice_to_map fields) col)) unknown_column_error)
      (validate_columns just (just.slice_to_map fields) cols)
      (Denies-reject_if _ unknown_column_error (inr (inl refl)))
      (validate_columns-Denies just fields cols)

validate_vec-Denies :
    (just : Just) (schema : DbSchema) (vec : Vec) → Denies (validate_vec just schema vec)
unfolding validate_vec
validate_vec-Denies just schema vec e h = elim (Option-cases (get_table schema vec.tbl)) [
  | inl unknown ↦
      Denies-err unknown_table_error (inr (inl refl)) e (rw (unknown, validate_vec) at h)
  | inr (tbl, found) ↦
      validate_columns-Denies just tbl.fields vec.cols e (rw (found, validate_vec) at h)
]

validate_schema-Denies :
    (just : Just) (vectors : List Vec) (schema : DbSchema)
    → Denies (validate_schema just vectors schema)
unfolding validate_schema
validate_schema-Denies just [] schema = λ e h. cc
validate_schema-Denies just (vec ∷ vectors) schema =
    Denies->> (validate_vec just schema vec) (validate_schema just vectors schema)
      (validate_vec-Denies just schema vec) (validate_schema-Denies just vectors schema)

-- Whatever ValidateSchema or ValidateAccess refuses is refused with ErrAccessDenied, whatever the
-- other sentinels.
pub validate-denied :
    (just : Just) (vectors : List Vec) (schema : DbSchema) (have_access : Vec → Bool) (e : Error)
    → (validate_schema just vectors schema >> validate_access just vectors have_access) ≡ err e
    → In Sentinel.access_denied e.wraps
unfolding validate_access
validate-denied just vectors schema have_access =
    Denies->> (validate_schema just vectors schema) (validate_access just vectors have_access)
      (validate_schema-Denies just vectors schema) (Denies-reject_if _ denied_error (inl refl))
