-- ===== src/Parser/Write/Own.antt =====
-- The vectors of an accepted `INSERT`, `UPDATE` or `DELETE` are about the statement's own table.
use database_gateway.Common.{◌≡◌, ◌∙◌, ap, sym, inl, inr, String, some, List}
use database_gateway.Common.{lookup, In, All, Some, Map, Result, ok, ◌>>=◌, >>=-eq-ok, ok_injective}
use database_gateway.Parser.Ast.{range_var, RangeVar}
use database_gateway.Parser.Tables.{Tables, new_tables, put, finalize}
use database_gateway.Parser.Tables.Resolution.{put-IsPut, Built, finalized}
use database_gateway.Parser.Tables.Totality.{AllSettled-Built, get-resolved_fixed}
use database_gateway.Parser.Columns.{Column}
use database_gateway.Parser.Vectors.{Vector, tbl_of, distribute, vectors_of}
use database_gateway.Parser.Vectors.Grouping.{
  IsAccount, IsMaker, distribute-IsAccount, vectors_of-All, vectors_of-Some,
}
use database_gateway.Parser.Vectors.Spread.{AllFrom, distribute-tables, distribute_keeps_table}
use database_gateway.Parser.Select.{alias_name, collect_select_from_tables}
use database_gateway.Parser.Select.Sources.{range_vars, full_name_of, collect-Collected}
use database_gateway.Parser.Select.Kept.{from_only}
use database_gateway.Parser.Write.{own_vectors, own_table}

-- What `own_table` gives: the full name, and tables in which nothing else is mapped to itself.
pub record IsOwn (rel : RangeVar) (name : String) (t : Tables) : Type 0 where
  pub full : name ≡ full_name_of rel
  pub built : Built t
  pub only : (x : String) → lookup x t.m ≡ some x → x ≡ full_name_of rel

collect-put :
    (rel : RangeVar) (f : String) (c : Tables)
    → put (new_tables "public") rel.catalogname rel.schemaname rel.relname (alias_name rel)
      ≡ ok (f, c)
    → collect_select_from_tables (new_tables "public") (range_var rel) ≡ ok c
unfolding collect_select_from_tables
collect-put rel f c e = rw e

own_table-IsOwn :
    (rel : RangeVar) (name : String) (t : Tables) → own_table rel ≡ ok (name, t) → IsOwn rel name t
unfolding own_table range_vars
own_table-IsOwn rel name t h =
    let step =
      put (new_tables "public") rel.catalogname rel.schemaname rel.relname (alias_name rel) in
    let ((f, c), e, h1) = >>=-eq-ok step (λ (f, c). finalize c >>= λ t'. ok (f, t')) h in
    let (t', e2, q) = >>=-eq-ok (finalize c) (λ t'. ok (f, t')) h1 in
    let p =
      put-IsPut (new_tables "public") rel.catalogname rel.schemaname rel.relname (alias_name rel)
        e in
    let collecting = collect-put rel f c e in
    let same_name : f ≡ name = ap (λ p. p.0) (ok_injective q) in
    let same : t' ≡ t = ap (λ p. p.1) (ok_injective q) in
    record {
      full = sym same_name ∙ p.full;
      built = rw (← same) (finalized (collect-Collected (range_var rel) c collecting) e2);
      only = λ x fixed. elim (from_only (range_var rel) c t' collecting e2 x (rw same fixed)) [
        | inl own ↦ sym own
        | inr other ↦ elim other [ ]
      ];
    }

-- What a writing statement that is accepted has gone through.
pub record IsWritten (make : String → List String → Vector) (rel : RangeVar)
    (columns : String → Result (List Column)) (start : String → Map (List Column))
    (vs : List Vector) : Type 0 where
  pub t : Tables
  pub cs : List Column
  pub m : Map (List Column)
  pub own : IsOwn rel (full_name_of rel) t
  pub reading : columns (full_name_of rel) ≡ ok cs
  pub spread : distribute t cs (start (full_name_of rel)) ≡ ok m
  pub vectors : vs ≡ vectors_of make m

module _ (make : String → List String → Vector) (made : IsMaker make) (rel : RangeVar)
    (columns : String → Result (List Column)) (start : String → Map (List Column))
    (vs : List Vector) where
  pub own_vectors-IsWritten :
      own_vectors make rel columns start ≡ ok vs → IsWritten make rel columns start vs
  unfolding own_vectors
  own_vectors-IsWritten h =
      let ((name, t), e1, h1) = >>=-eq-ok (own_table rel) _ h in
      let (cs, e2, h2) = >>=-eq-ok (columns name) _ h1 in
      let (m, e3, q) = >>=-eq-ok (distribute t cs (start name)) _ h2 in
      let own = own_table-IsOwn rel name t e1 in
      record {
        t = t;
        cs = cs;
        m = m;
        own = rw own.full at own;
        reading = rw own.full at e2;
        spread = rw own.full at e3;
        vectors = sym (ok_injective q);
      }

  module _ (w : IsWritten make rel columns start vs) where
    -- Every vector is about the table.
    pub written-own :
        All (λ (k, u). k ≡ full_name_of rel) (start (full_name_of rel))
        → All (λ v. tbl_of v ≡ full_name_of rel) vs
    written-own first = rw w.vectors (
        vectors_of-All make made (λ k cols. k ≡ full_name_of rel) w.m
          (distribute-tables w.t (λ k. k ≡ full_name_of rel)
            (λ j r e. w.own.only r (get-resolved_fixed w.t (AllSettled-Built w.own.built) j r e))
            w.cs (start (full_name_of rel)) w.m first w.spread))

    -- The vectors list the columns.
    pub written-IsAccount :
        AllFrom w.t (λ c. In c w.cs) (start (full_name_of rel)) → IsAccount w.t w.cs vs
    written-IsAccount first =
        rw w.vectors
          (distribute-IsAccount make made w.t w.cs (start (full_name_of rel)) w.m first w.spread)

    -- An entry at the start makes a vector.
    pub written-Some :
        Some (λ (k, u). k ≡ full_name_of rel) (start (full_name_of rel))
        → Some (λ v. tbl_of v ≡ full_name_of rel) vs
    written-Some first = rw w.vectors (
        vectors_of-Some make made (full_name_of rel) w.m (
          distribute_keeps_table w.t (full_name_of rel) w.cs (start (full_name_of rel)) w.m first
            w.spread))
