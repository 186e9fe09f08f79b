-- ===== src/Parser/Vectors/Grouping.antt =====
-- The vectors of the handlers hold every column that was distributed, under the table that it
-- resolves to, and no other column.
use database_gateway.Common.{◌≡◌, ◌∙◌, sym, subst, inl, inr, String, List, [], ◌∷◌}
use database_gateway.Common.{All, Some, In, Some-map, All-map, Some-map_to, All-map_to, In-All, ap}
use database_gateway.Common.{Map, lookup, ◌==◌, eq_iff}
use database_gateway.Common.{ok, Bool-cases}
use database_gateway.Parser.Tables.{Tables, get, resolved}
use database_gateway.Parser.Columns.{Column, table_of, list_names}
use database_gateway.Parser.Vectors.{Vector, tbl_of, target_of, columns_at, distribute, vectors_of}
use database_gateway.Parser.Vectors.Spread.{
  Holds, AllFrom, columns_at-cons, distribute-Holds, distribute-AllFrom,
}

-- Some vector is about the table and lists the column.
abbrev pub HasColumn : List Vector → String → String → Type 0
HasColumn vs tbl name = Some (λ v. (tbl_of v ≡ tbl) × In name (target_of v)) vs

-- The vectors list the columns `cs`, each under the table that it resolves to, and nothing else.
pub record IsAccount (t : Tables) (cs : List Column) (vs : List Vector) : Type 0 where
  pub every :
      All (λ c. (tbl : String) × (get t (table_of c) ≡ resolved tbl) × HasColumn vs tbl c.column) cs
  pub only :
      All
        (λ v.
          All
            (λ name. Some (λ c. (c.column ≡ name) × (get t (table_of c) ≡ resolved (tbl_of v))) cs)
            (target_of v))
        vs

abbrev pub IsMaker : (String → List String → Vector) → Type 0
IsMaker make =
    (tbl : String) (cols : List String)
    → (tbl_of (make tbl cols) ≡ tbl) × (target_of (make tbl cols) ≡ cols)

none_at : (tbl : String) (c : Column) → ¬ Holds tbl c []
unfolding columns_at lookup
none_at tbl c h = elim h [ ]

module _ (make : String → List String → Vector) (made : IsMaker make) where
  Holds-HasColumn :
      (tbl : String) (c : Column) (m : Map (List Column))
      → Holds tbl c m
      → HasColumn (vectors_of make m) tbl c.column
  unfolding vectors_of
  Holds-HasColumn tbl c [] h = absurd (none_at tbl c h)
  Holds-HasColumn tbl c ((j, cols) ∷ m) h' =
      let h = rw (columns_at-cons j tbl cols m) at h' in
      elim (Bool-cases (j == tbl)) [
        | inl same ↦
            let listed =
              Some-map (λ y. y ≡ c.column) (λ c. c.column) cols
                (Some-map_to (λ d e. ap (λ (c : Column). c.column) e) cols (rw same at h)) in
            inl (
              (made j (list_names cols)).0 ∙ (eq_iff j tbl).0 same,
              subst (In c.column) (sym (made j (list_names cols)).1) listed,
            )
        | inr other ↦ inr (Holds-HasColumn tbl c m (rw other at h))
      ]

  pub vectors_of-All :
      (P : String → List String → Type 0) (m : Map (List Column))
      → All (λ (tbl, cols). P tbl (list_names cols)) m
      → All (λ v. P (tbl_of v) (target_of v)) (vectors_of make m)
  unfolding vectors_of
  vectors_of-All P [] _ = tt
  vectors_of-All P ((tbl, cols) ∷ m) (p, h) =
      let (a, b) = made tbl (list_names cols) in (rw (a, b) p, vectors_of-All P m h)

  pub vectors_of-Some :
      (i : String) (m : Map (List Column))
      → Some (λ (k, w). k ≡ i) m
      → Some (λ v. tbl_of v ≡ i) (vectors_of make m)
  unfolding vectors_of
  vectors_of-Some i [] h = elim h [ ]
  vectors_of-Some i ((k, cols) ∷ m) (inl e) = inl ((made k (list_names cols)).0 ∙ e)
  vectors_of-Some i (_ ∷ m) (inr h) = inr (vectors_of-Some i m h)

  pub distribute-IsAccount :
      (t : Tables) (cs : List Column) (m m' : Map (List Column))
      → AllFrom t (λ c. In c cs) m
      → distribute t cs m ≡ ok m'
      → IsAccount t cs (vectors_of make m')
  unfolding list_names
  distribute-IsAccount t cs m m' start h = record {
    every =
        All-map_to (λ c (tbl, e, held). (tbl, e, Holds-HasColumn tbl c m' held)) cs
          (distribute-Holds t cs m m' h);
    only =
        vectors_of-All
          (λ tbl cols.
            All (λ name. Some (λ c. (c.column ≡ name) × (get t (table_of c) ≡ resolved tbl)) cs)
              cols)
          m'
          (All-map_to
            (λ (tbl, cols) from.
              All-map _ (λ c. c.column) cols
                (All-map_to
                  (λ c (e, i).
                    Some-map_to (λ d same. (ap (λ (c : Column). c.column) same, rw same e)) cs i)
                  cols from))
            m' (distribute-AllFrom t (λ c. In c cs) cs m m' (In-All cs (λ c i. i)) start h));
  }
