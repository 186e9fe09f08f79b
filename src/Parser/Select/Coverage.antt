-- ===== src/Parser/Select/Coverage.antt =====
-- What the vectors of an accepted `SELECT` are about.
use database_gateway.Common.{
  ◌≡◌, refl, ◌≢◌, ◌∙◌, ap, sym, inl, inr, ◌↔◌, String, true, false, some, List, [], ◌∷◌, ◌++◌, ◌&&◌,
}
use database_gateway.Common.{
  contains, lookup, In, In-All, All, All-map_to, Some, Some-map_to, Some-All, Map, Some-insert,
  Some-insert_self, All-insert, not,
}
use database_gateway.Common.{ok, >>=-eq-ok, >>-eq-ok, ok_injective, reject_if, reject_if-eq-ok}
use database_gateway.Common.Text.{is_empty, leb}
use database_gateway.Parser.Ast.{Node, Nodes, nil, cons, SelectStmt, RangeVar}
use database_gateway.Parser.Tables.{Tables, new_tables, get_all, finalize}
use database_gateway.Parser.Tables.Resolution.{Built, finalized}
use database_gateway.Parser.Tables.Totality.{AllSettled-Built, get_all-In, get-resolved_fixed}
use database_gateway.Parser.Columns.{Column, table_of}
use database_gateway.Parser.Vectors.{Vector, tbl_of, assign, distribute, vectors_of, make_select}
use database_gateway.Parser.Vectors.Grouping.{
  IsAccount, IsMaker, distribute-IsAccount, vectors_of-All, vectors_of-Some,
}
use database_gateway.Parser.Vectors.Spread.{distribute-tables, distribute_keeps_table}
use database_gateway.Parser.Select.{
  collect_select_from_tables, select_all_columns, select_distribute, empty_targets, single_from,
  select_from, handle_select, has_unknown_clause,
}
use database_gateway.Parser.Select.Sources.{
  range_vars, full_name_of, IsUnmasked, collect-Collected, names_of,
}
use database_gateway.Parser.Select.Kept.{from_only, from_fixed, from_masked}

-- The values that an accepted statement goes through.
pub record IsSelected (sel : SelectStmt) (vs : List Vector) : Type 0 where
  pub from : Node
  pub c : Tables
  pub t : Tables
  pub cs : List Column
  pub tables : List String
  pub m : Map (List Column)
  pub known : has_unknown_clause sel ≡ false
  pub single : sel.from_clause ≡ cons from nil
  pub collecting : collect_select_from_tables (new_tables "public") from ≡ ok c
  pub finalizing : finalize c ≡ ok t
  pub columns : select_all_columns sel from ≡ ok cs
  pub listing : get_all t ≡ ok tables
  pub distributing : select_distribute t cs (empty_targets tables) ≡ ok m
  pub vectors : vs ≡ vectors_of make_select m

select_from-IsSelected :
    (sel : SelectStmt) (from : Node) (vs : List Vector)
    → has_unknown_clause sel ≡ false
    → sel.from_clause ≡ cons from nil
    → select_from sel from ≡ ok vs
    → IsSelected sel vs
unfolding select_from
select_from-IsSelected sel from vs known single h =
    let (c, e1, h1) = >>=-eq-ok (collect_select_from_tables (new_tables "public") from) _ h in
    let (t, e2, h2) = >>=-eq-ok (finalize c) _ h1 in
    let (cs, e3, h3) = >>=-eq-ok (select_all_columns sel from) _ h2 in
    let (tables, e4, h4) = >>=-eq-ok (get_all t) _ h3 in
    let (m, e5, h5) = >>=-eq-ok (select_distribute t cs (empty_targets tables)) _ h4 in
    record {
      from = from;
      c = c;
      t = t;
      cs = cs;
      tables = tables;
      m = m;
      known = known;
      single = single;
      collecting = e1;
      finalizing = e2;
      columns = e3;
      listing = e4;
      distributing = e5;
      vectors = sym (ok_injective h5);
    }

single_from-eq-ok : (ns : Nodes) (n : Node) → single_from ns ≡ ok n → ns ≡ cons n nil
unfolding single_from
single_from-eq-ok (cons from nil) n h = ap (λ x. cons x nil) (ok_injective h)
single_from-eq-ok _ n h = cc

pub handle_select-IsSelected :
    (sel : SelectStmt) (vs : List Vector) → handle_select sel ≡ ok vs → IsSelected sel vs
unfolding handle_select
handle_select-IsSelected sel vs h =
    let (e, h1) = >>-eq-ok (reject_if (has_unknown_clause sel) _) _ h in
    let (from, single, h2) = >>=-eq-ok (single_from sel.from_clause) (select_from sel) h1 in
    select_from-IsSelected sel from vs (reject_if-eq-ok _ _ e) (single_from-eq-ok _ from single) h2

select_distribute-distribute :
    (t : Tables) (cs : List Column) (m m' : Map (List Column))
    → select_distribute t cs m ≡ ok m'
    → distribute t cs m ≡ ok m'
unfolding select_distribute distribute
select_distribute-distribute t [] m m' h = h
select_distribute-distribute t (c ∷ cs) m m' h =
    let (_, h1) = >>-eq-ok (reject_if (is_empty (table_of c) && not (leb t.sources 1)) _) _ h in
    let (m1, e, h2) = >>=-eq-ok (assign t c m) (select_distribute t cs) h1 in
    rw e (select_distribute-distribute t cs m1 m' h2)

empty_targets-Some :
    (tables : List String) (x : String)
    → In x tables
    → Some (λ (k, w). k ≡ x) (empty_targets tables)
unfolding empty_targets
empty_targets-Some [] x i = elim i [ ]
empty_targets-Some (y ∷ ys) x (inl e) = rw e (Some-insert_self x [] (empty_targets ys))
empty_targets-Some (y ∷ ys) x (inr i) =
    Some-insert x y [] (empty_targets ys) (empty_targets-Some ys x i)

empty_targets-All :
    (P : String → List Column → Type 0) (tables : List String)
    → All (λ k. P k []) tables
    → All (λ (k, w). P k w) (empty_targets tables)
unfolding empty_targets
empty_targets-All P [] _ = tt
empty_targets-All P (k ∷ ks) (p, h) =
    All-insert (λ (k, w). P k w) k [] (empty_targets ks) p (empty_targets-All P ks h)

made : IsMaker make_select
made tbl cols = (refl, refl)

module _ (sel : SelectStmt) (vs : List Vector) (s : IsSelected sel vs) where
  built : Built s.t
  built = finalized (collect-Collected s.from s.c s.collecting) s.finalizing

  spread : distribute s.t s.cs (empty_targets s.tables) ≡ ok s.m
  spread = select_distribute-distribute s.t s.cs (empty_targets s.tables) s.m s.distributing

  pub selected-IsAccount : IsAccount s.t s.cs vs
  selected-IsAccount = rw s.vectors (
      distribute-IsAccount make_select made s.t s.cs (empty_targets s.tables) s.m
        (empty_targets-All _ s.tables (In-All s.tables (λ x i. tt))) spread)

  listed : (x : String) → In x s.tables ↔ (lookup x s.t.m ≡ some x)
  listed x = get_all-In s.t (AllSettled-Built built) s.tables x s.listing

  -- There is a vector for each table that is mapped to itself, and for no other name.
  pub selected-tables : (x : String) → Some (λ v. tbl_of v ≡ x) vs ↔ (lookup x s.t.m ≡ some x)
  selected-tables x = (to, from)
    where
      all_fixed : All (λ v. lookup (tbl_of v) s.t.m ≡ some (tbl_of v)) vs
      all_fixed = rw s.vectors (
          vectors_of-All make_select made (λ k cols. lookup k s.t.m ≡ some k) s.m
            (distribute-tables s.t (λ k. lookup k s.t.m ≡ some k)
              (get-resolved_fixed s.t (AllSettled-Built built)) s.cs (empty_targets s.tables) s.m
              (empty_targets-All (λ k w. lookup k s.t.m ≡ some k) s.tables
                (In-All s.tables (λ k i. (listed k).0 i)))
              spread))

      to : Some (λ v. tbl_of v ≡ x) vs → lookup x s.t.m ≡ some x
      to h = let (v, e, own) = Some-All _ _ vs h all_fixed in rw e at own

      from : lookup x s.t.m ≡ some x → Some (λ v. tbl_of v ≡ x) vs
      from e = rw s.vectors (
          vectors_of-Some make_select made x s.m (
            distribute_keeps_table s.t x s.cs (empty_targets s.tables) s.m
              (empty_targets-Some s.tables x ((listed x).1 e)) spread))

  pub selected-sources : All (λ v. Some (λ r. full_name_of r ≡ tbl_of v) (range_vars s.from)) vs
  selected-sources = In-All vs λ v i.
      from_only s.from s.c s.t s.collecting s.finalizing (tbl_of v)
        ((selected-tables (tbl_of v)).0 (Some-map_to (λ w e. ap tbl_of e) vs i))

from_of :
    {sel : SelectStmt} {vs : List Vector} (s : IsSelected sel vs) (from : Node)
    → sel.from_clause ≡ cons from nil
    → s.from ≡ from
from_of s from e = cons_injective (sym s.single ∙ e)
  where
    cons_injective : {a b : Node} → cons a nil ≡ cons b nil → a ≡ b
    cons_injective h = cc

-- Every vector of an accepted SELECT is about a table of its FROM clause, by its full name.
pub handle_select-sources :
    (sel : SelectStmt) (from : Node) (vs : List Vector)
    → sel.from_clause ≡ cons from nil
    → handle_select sel ≡ ok vs
    → All (λ v. Some (λ r. full_name_of r ≡ tbl_of v) (range_vars from)) vs
handle_select-sources sel from vs e h =
    let s = handle_select-IsSelected sel vs h in
    rw (from_of s from e) at (selected-sources sel vs s)

-- If no table of the FROM clause takes a name that is spelled like the full name of an earlier
-- other table, an accepted SELECT has a vector for each table of its FROM clause.
pub handle_select-covers :
    (sel : SelectStmt) (from : Node) (vs : List Vector)
    → sel.from_clause ≡ cons from nil
    → IsUnmasked (range_vars from)
    → handle_select sel ≡ ok vs
    → All (λ r. Some (λ v. tbl_of v ≡ full_name_of r) vs) (range_vars from)
handle_select-covers sel from vs e free h =
    let s = handle_select-IsSelected sel vs h in
    let q = from_of s from e in
    rw q at (
      All-map_to (λ r own. (selected-tables sel vs s (full_name_of r)).1 own) (range_vars s.from)
        (from_fixed s.from s.c s.t s.collecting s.finalizing (rw q free)))

-- A name that the last table of the FROM clause takes, other than its own full name, has no vector
-- in an accepted SELECT: where it is the full name of an earlier table, as in
-- `FROM secrets x JOIN users secrets`, nothing of that table is ever checked.
pub handle_select-masks :
    (sel : SelectStmt) (from : Node) (rs : List RangeVar) (q : RangeVar) (x : String)
    (vs : List Vector)
    → sel.from_clause ≡ cons from nil
    → range_vars from ≡ rs ++ (q ∷ [])
    → contains x (names_of q) ≡ true
    → full_name_of q ≢ x
    → handle_select sel ≡ ok vs
    → ¬ Some (λ v. tbl_of v ≡ x) vs
handle_select-masks sel from rs q x vs e ends taken other h there =
    let s = handle_select-IsSelected sel vs h in
    from_masked s.from s.c s.t s.collecting s.finalizing rs q
      (ap range_vars (from_of s from e) ∙ ends) x taken other ((selected-tables sel vs s x).0 there)
