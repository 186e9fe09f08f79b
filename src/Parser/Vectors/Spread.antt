-- ===== src/Parser/Vectors/Spread.antt =====
-- What the loop over all columns does to the map of columns by table.
use database_gateway.Common.{◌≡◌, refl, sym, subst, inl, inr, String, List, [], ◌∷◌}
use database_gateway.Common.{
  ◌++◌, All, Some, In, Some-append_left, Some-append_right, All-append, Some-insert,
}
use database_gateway.Common.{Map, lookup, insert, lookup-insert, All-insert, ◌==◌, eq_iff, eq_refl}
use database_gateway.Common.{ok, >>=-eq-ok, ok_injective, Bool-cases, if◌then◌else◌}
use database_gateway.Parser.Tables.{Tables, get, resolved}
use database_gateway.Parser.Tables.Totality.{Found-cases}
use database_gateway.Parser.Columns.{Column, table_of}
use database_gateway.Parser.Vectors.{columns_at, assign, distribute}

-- The column `c` stands in the entry of the table `tbl`.
abbrev pub Holds : String → Column → Map (List Column) → Type 0
Holds tbl c m = In c (columns_at tbl m)

-- The columns that an entry holds were distributed, or stood there before.
abbrev pub AllFrom : Tables → (Column → Type 0) → Map (List Column) → Type 0
AllFrom t P = All (λ (tbl, cols). All (λ c. (get t (table_of c) ≡ resolved tbl) × P c) cols)

assign-eq-ok :
    (t : Tables) (c : Column) (m : Map (List Column)) {m' : Map (List Column)}
    → assign t c m ≡ ok m'
    → (tbl : String) × (get t (table_of c) ≡ resolved tbl)
      × (m' ≡ insert tbl (columns_at tbl m ++ (c ∷ [])) m)
unfolding assign
assign-eq-ok t c m h = elim (Found-cases (get t (table_of c))) [
  | inl (tbl, e) ↦ (tbl, e, sym (ok_injective (rw (e, assign) at h)))
  | inr (inl e) ↦ cc (rw (e, assign) at h)
  | inr (inr e) ↦ cc (rw (e, assign) at h)
]

pub columns_at-cons :
    (j tbl : String) (cols : List Column) (m : Map (List Column))
    → columns_at tbl ((j, cols) ∷ m) ≡ (if j == tbl then cols else columns_at tbl m)
unfolding columns_at lookup
columns_at-cons j tbl cols m = elim (Bool-cases (j == tbl)) [
  | inl same ↦ rw (same, columns_at, lookup)
  | inr other ↦ rw (other, columns_at, lookup)
]

columns_at-insert :
    (tbl : String) (cols : List Column) (m : Map (List Column)) (j : String)
    → columns_at j (insert tbl cols m) ≡ (if tbl == j then cols else columns_at j m)
unfolding columns_at
columns_at-insert tbl cols m j = elim (Bool-cases (tbl == j)) [
  | inl same ↦ rw (lookup-insert, columns_at) (rw same)
  | inr other ↦ rw (lookup-insert, columns_at) (rw other)
]

module _ (t : Tables) (c : Column) (m m' : Map (List Column)) (h : assign t c m ≡ ok m') where
  assign-Holds : (tbl : String) → get t (table_of c) ≡ resolved tbl → Holds tbl c m'
  assign-Holds tbl e =
      let (own, found, q) = assign-eq-ok t c m h in
      let same : own ≡ tbl = cc in
      rw q (
        rw same (
          rw (columns_at-insert tbl (columns_at tbl m ++ (c ∷ [])) m tbl)
            (rw eq_refl (Some-append_right (λ y. y ≡ c) (columns_at tbl m) (c ∷ []) (inl refl)))))

  assign_keeps : (tbl : String) (d : Column) → Holds tbl d m → Holds tbl d m'
  assign_keeps tbl d old =
      let (own, found, q) = assign-eq-ok t c m h in
      rw q (
        rw (columns_at-insert own (columns_at own m ++ (c ∷ [])) m tbl)
          (elim (Bool-cases (own == tbl)) [
            | inl same ↦ rw same (
                Some-append_left (λ y. y ≡ d) (columns_at own m) (c ∷ [])
                  (rw ((eq_iff own tbl).0 same) old))
            | inr other ↦ rw other old
          ]))

distribute_keeps :
    (t : Tables) (cs : List Column) (m m' : Map (List Column))
    → distribute t cs m ≡ ok m'
    → (tbl : String) (d : Column) → Holds tbl d m
    → Holds tbl d m'
unfolding distribute
distribute_keeps t [] m m' h tbl d old = subst (Holds tbl d) (ok_injective h) old
distribute_keeps t (c ∷ cs) m m' h tbl d old =
    let (m1, e, h') = >>=-eq-ok (assign t c m) (distribute t cs) h in
    distribute_keeps t cs m1 m' h' tbl d (assign_keeps t c m m1 e tbl d old)

pub distribute-Holds :
    (t : Tables) (cs : List Column) (m m' : Map (List Column))
    → distribute t cs m ≡ ok m'
    → All (λ c. (tbl : String) × (get t (table_of c) ≡ resolved tbl) × Holds tbl c m') cs
unfolding distribute
distribute-Holds t [] m m' h = tt
distribute-Holds t (c ∷ cs) m m' h =
    let (m1, e, h') = >>=-eq-ok (assign t c m) (distribute t cs) h in
    let (tbl, found, q) = assign-eq-ok t c m e in
    (
      (tbl, found, distribute_keeps t cs m1 m' h' tbl c (assign-Holds t c m m1 e tbl found)),
      distribute-Holds t cs m1 m' h',
    )

module _ (t : Tables) (P : Column → Type 0) where
  columns_at-AllFrom :
      (tbl : String) (m : Map (List Column))
      → AllFrom t P m
      → All (λ c. (get t (table_of c) ≡ resolved tbl) × P c) (columns_at tbl m)
  unfolding columns_at lookup
  columns_at-AllFrom tbl [] _ = tt
  columns_at-AllFrom tbl ((j, cols) ∷ m) (p, h) =
      rw (columns_at-cons j tbl cols m) (elim (Bool-cases (j == tbl)) [
        | inl same ↦ rw same (rw ((eq_iff j tbl).0 same) at p)
        | inr other ↦ rw other (columns_at-AllFrom tbl m h)
      ])

  pub distribute-AllFrom :
      (cs : List Column) (m m' : Map (List Column))
      → All P cs
      → AllFrom t P m
      → distribute t cs m ≡ ok m'
      → AllFrom t P m'
  unfolding distribute
  distribute-AllFrom [] m m' _ old h = subst (AllFrom t P) (ok_injective h) old
  distribute-AllFrom (c ∷ cs) m m' (p, ps) old h =
      let (m1, e, h') = >>=-eq-ok (assign t c m) (distribute t cs) h in
      let (tbl, found, q) = assign-eq-ok t c m e in
      let grown : All (λ c. (get t (table_of c) ≡ resolved tbl) × P c)
          (columns_at tbl m ++ (c ∷ [])) =
        All-append _ (columns_at tbl m) (c ∷ []) (columns_at-AllFrom tbl m old) ((found, p), tt) in
      distribute-AllFrom cs m1 m' ps
        (rw q (
          All-insert (λ (tbl, cols). All (λ c. (get t (table_of c) ≡ resolved tbl) × P c) cols) tbl
            (columns_at tbl m ++ (c ∷ [])) m grown old))
        h'

module _ (t : Tables) (Q : String → Type 0)
    (sound : (j r : String) → get t j ≡ resolved r → Q r) where
  -- All tables of the map are ones that names resolve to.
  pub distribute-tables :
      (cs : List Column) (m m' : Map (List Column))
      → All (λ (k, w). Q k) m
      → distribute t cs m ≡ ok m'
      → All (λ (k, w). Q k) m'
  unfolding distribute
  distribute-tables [] m m' old h = subst (All (λ (k, w). Q k)) (ok_injective h) old
  distribute-tables (c ∷ cs) m m' old h =
      let (m1, e, h') = >>=-eq-ok (assign t c m) (distribute t cs) h in
      let (tbl, found, q) = assign-eq-ok t c m e in
      distribute-tables cs m1 m'
        (rw q (
          All-insert (λ (k, w). Q k) tbl (columns_at tbl m ++ (c ∷ [])) m
            (sound (table_of c) tbl found) old))
        h'

-- A table of the map stays there.
pub distribute_keeps_table :
    (t : Tables) (i : String) (cs : List Column) (m m' : Map (List Column))
    → Some (λ (k, w). k ≡ i) m
    → distribute t cs m ≡ ok m'
    → Some (λ (k, w). k ≡ i) m'
unfolding distribute
distribute_keeps_table t i [] m m' old h = subst (Some (λ (k, w). k ≡ i)) (ok_injective h) old
distribute_keeps_table t i (c ∷ cs) m m' old h =
    let (m1, e, h') = >>=-eq-ok (assign t c m) (distribute t cs) h in
    let (tbl, found, q) = assign-eq-ok t c m e in
    distribute_keeps_table t i cs m1 m'
      (rw q (Some-insert i tbl (columns_at tbl m ++ (c ∷ [])) m old)) h'
