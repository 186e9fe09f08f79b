-- ===== src/Validator/Checks/Guards.antt =====
-- What an accepted query has been checked for.
use database_gateway.Common.{
  ◌≡◌, subst, refl, ◌∙◌, ap, sym, String, Bool, true, Option, some, List, [], ◌∷◌, In, All,
  All-map_to, Some-map, Some-map_to, Some-All, Map, map, ok_injective,
}
use database_gateway.Common.{ok, Result-cases, inl, inr, In-All, All-In}
use database_gateway.Common.Just.{Just}
use database_gateway.Config.{Op, op_select, op_insert, op_update, op_delete}
use database_gateway.Parser.Statement.Written.{written}
use database_gateway.Parser.Ast.{
  Node, nil, cons, RangeVar, SelectStmt, Stmt, select_stmt, insert_stmt, update_stmt, delete_stmt,
  other_stmt,
}
use database_gateway.Parser.Columns.{Column}
use database_gateway.Parser.Vectors.{
  Vector, select_vec, insert_vec, update_vec, delete_vec, tbl_of, vectors_of, make_select,
  make_insert, make_update, make_delete,
}
use database_gateway.Parser.Select.Coverage.{handle_select-IsSelected, handle_select-covers}
use database_gateway.Parser.Select.Sources.{range_vars, full_name_of, IsUnmasked}
use database_gateway.Parser.Statement.{handle, parse}
use database_gateway.Parser.Statement.Written.{
  Assigns, handle-checks, insert-IsWritten, update-IsWritten, delete-IsWritten,
}
use database_gateway.Validator.Schema.{DbSchema}
use database_gateway.Validator.Vecs.{Vec, make_vec, make_vectors}
use database_gateway.Validator.Checks.{is_allowed}
use database_gateway.Validator.Checks.Laws.{IsKnown, is_allowed_iff}

-- The operation that a vector, and a statement, stands for.
abbrev pub op_of : Vector → Op
op_of (select_vec v) = op_select
op_of (insert_vec v) = op_insert
op_of (update_vec v) = op_update
op_of (delete_vec v) = op_delete

abbrev pub stmt_op : Stmt → Op
stmt_op (select_stmt sel) = op_select
stmt_op (insert_stmt req) = op_insert
stmt_op (update_stmt req) = op_update
stmt_op (delete_stmt req) = op_delete
stmt_op other_stmt = ""

vectors_of-op :
    (make : String → List String → Vector) (op : Op) (m : Map (List Column))
    → ((tbl : String) (cols : List String) → op_of (make tbl cols) ≡ op)
    → All (λ v. op_of v ≡ op) (vectors_of make m)
unfolding vectors_of
vectors_of-op make op [] h = tt
vectors_of-op make op ((tbl, cols) ∷ m) h = (h tbl _, vectors_of-op make op m h)

-- All vectors of an accepted statement carry the operation of the statement.
pub handle-op :
    (st : Stmt) (vs : List Vector) → handle st ≡ ok vs → All (λ v. op_of v ≡ stmt_op st) vs
unfolding handle
handle-op (select_stmt sel) vs h =
    let s = handle_select-IsSelected sel vs h in
    rw s.vectors (vectors_of-op make_select op_select s.m (λ tbl cols. refl))
handle-op (insert_stmt req) vs h =
    let w = insert-IsWritten req vs h in
    rw w.vectors (vectors_of-op make_insert op_insert w.m (λ tbl cols. refl))
handle-op (update_stmt req) vs h =
    let w = update-IsWritten req vs h in
    rw w.vectors (vectors_of-op make_update op_update w.m (λ tbl cols. refl))
handle-op (delete_stmt req) vs h =
    let w = delete-IsWritten req vs h in
    rw w.vectors (vectors_of-op make_delete op_delete w.m (λ tbl cols. refl))
handle-op other_stmt vs h = cc

module _ (just : Just) where
  make_vec-tbl : (v : Vector) → (make_vec just v).tbl ≡ tbl_of v
  unfolding make_vec
  make_vec-tbl (select_vec v) = refl
  make_vec-tbl (insert_vec v) = refl
  make_vec-tbl (update_vec v) = refl
  make_vec-tbl (delete_vec v) = refl

  make_vec-op : (v : Vector) → (make_vec just v).op ≡ op_of v
  unfolding make_vec
  make_vec-op (select_vec v) = refl
  make_vec-op (insert_vec v) = refl
  make_vec-op (update_vec v) = refl
  make_vec-op (delete_vec v) = refl

In-map : (f : Vector → Vec) (vs : List Vector) (v : Vector) → In v vs → In (f v) (map f vs)
In-map f vs v i = Some-map (λ w. w ≡ f v) f vs (Some-map_to (λ w e. ap f e) vs i)

-- What has been checked of a vector: its table is known, and the test allows the statement's
-- operation on it.
abbrev pub IsChecked : Stmt → DbSchema → (Vec → Bool) → String → Type 0
IsChecked st schema have_access tbl =
    (cols : List String) × IsKnown schema (record { op = stmt_op st; tbl = tbl; cols = cols })
    × (have_access (record { op = stmt_op st; tbl = tbl; cols = cols }) ≡ true)

module _ (just : Just) (pg_parse : String → Option (List Stmt)) (query : String) where
  parse-single : (st : Stmt) → pg_parse query ≡ some (st ∷ []) → parse pg_parse query ≡ handle st
  unfolding parse
  parse-single st p = rw (p, parse)

  make_vectors-ok :
      (st : Stmt) (vectors : List Vec)
      → parse pg_parse query ≡ handle st
      → make_vectors just pg_parse query ≡ ok vectors
      → (vs : List Vector) × (handle st ≡ ok vs) × (vectors ≡ map (make_vec just) vs)
  unfolding make_vectors
  make_vectors-ok st vectors p h = elim (Result-cases (handle st)) [
    | inl (vs, e) ↦ (vs, e, sym (ok_injective (rw (p, e, make_vectors) at h)))
    | inr (e, q) ↦ cc (rw (p, q, make_vectors) at h)
  ]

  vec-IsChecked :
      (st : Stmt) (schema : DbSchema) (have_access : Vec → Bool) (v : Vec)
      → v.op ≡ stmt_op st
      → IsKnown schema v
      → have_access v ≡ true
      → IsChecked st schema have_access v.tbl
  vec-IsChecked st schema have_access v e known allowed = (v.cols, known, rw (← e) allowed)

  -- The vectors of an accepted query, with what was checked of each.
  checked :
      (st : Stmt) (schema : DbSchema) (have_access : Vec → Bool)
      → pg_parse query ≡ some (st ∷ [])
      → is_allowed just pg_parse schema have_access query ≡ ok tt
      → (vs : List Vector) × (handle st ≡ ok vs)
        × All (λ v. IsChecked st schema have_access (tbl_of v)) vs
  checked st schema have_access p h =
      let (vectors, e, known, allowed) =
        (is_allowed_iff just pg_parse schema have_access query).0 h in
      let (vs, handled, same) = make_vectors-ok st vectors (parse-single st p) e in
      let known' : All (IsKnown schema) (map (make_vec just) vs) = rw same at known in
      let allowed' : All (λ v. have_access v ≡ true) (map (make_vec just) vs) =
        rw same at allowed in
      (
        vs,
        handled,
        In-All vs λ v i.
            let k : IsKnown schema (make_vec just v) =
              All-In (IsKnown schema) _ known' (In-map (make_vec just) vs v i) in
            let a : have_access (make_vec just v) ≡ true =
              All-In (λ w. have_access w ≡ true) _ allowed' (In-map (make_vec just) vs v i) in
            rw (make_vec-tbl just v) at (
              vec-IsChecked st schema have_access (make_vec just v)
                (make_vec-op just v ∙ All-In _ vs (handle-op st vs handled) i) k a),
      )

  -- A query that is one SELECT and that IsAllowed accepts has been checked for every table of its
  -- FROM clause, if no table there takes a name that is spelled like the full name of an earlier
  -- other table: the table is known to the schema, and the test allows `select` on it.
  pub select_guarded :
      (sel : SelectStmt) (from : Node) (schema : DbSchema) (have_access : Vec → Bool)
      → pg_parse query ≡ some (select_stmt sel ∷ [])
      → sel.from_clause ≡ cons from nil
      → IsUnmasked (range_vars from)
      → is_allowed just pg_parse schema have_access query ≡ ok tt
      → All (λ r. IsChecked (select_stmt sel) schema have_access (full_name_of r)) (range_vars from)
  unfolding handle
  select_guarded sel from schema have_access p single free h =
      let st = select_stmt sel in
      let (vs, handled, safe) = checked st schema have_access p h in
      All-map_to
        (λ r there.
          let (v, e, c) =
            Some-All _ (λ v. IsChecked st schema have_access (tbl_of v)) vs there safe in
          subst (IsChecked st schema have_access) e c)
        (range_vars from) (handle_select-covers sel from vs single free handled)

  -- A query that is one INSERT, DELETE, or UPDATE that assigns to some column, and that IsAllowed
  -- accepts, has been checked for the table that it writes to: the table is known to the schema, and
  -- the test allows the statement's operation on it.
  pub write_guarded :
      (st : Stmt) (rel : RangeVar) (schema : DbSchema) (have_access : Vec → Bool)
      → pg_parse query ≡ some (st ∷ [])
      → written st ≡ some rel
      → Assigns st
      → is_allowed just pg_parse schema have_access query ≡ ok tt
      → IsChecked st schema have_access (full_name_of rel)
  write_guarded st rel schema have_access p w other h =
      let (vs, handled, safe) = checked st schema have_access p h in
      let (v, e, c) =
        Some-All _ (λ v. IsChecked st schema have_access (tbl_of v)) vs
          (handle-checks st rel vs w other handled) safe in
      subst (IsChecked st schema have_access) e c
