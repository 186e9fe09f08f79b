-- ===== src/Parser/Statement/Written.antt =====
-- What a statement that writes may mention: its own table, and the columns that its vectors list.
use database_gateway.Common.{subst, String, true, Some-append_left, All-In, In, reject_if}
use database_gateway.Parser.Ast.{nil, cons, index_elem, res_target}
use database_gateway.Parser.Expr.{p_index_elem, own_column}
use database_gateway.Parser.Write.{assigned_columns}
use database_gateway.Common.{◌≡◌, refl, inl, some, none, Option, List, [], ◌∷◌, ◌++◌, ◌||◌}
use database_gateway.Common.{
  All, Some, In, ok, >>=-eq-ok, >>-eq-ok, ok_injective, reject_if, some-injective,
}
use database_gateway.Parser.Ast.{
  Nodes, RangeVar, InsertStmt, UpdateStmt, DeleteStmt, Stmt, select_stmt, insert_stmt, update_stmt,
  delete_stmt, other_stmt, nonempty,
}
use database_gateway.Parser.Columns.{Column}
use database_gateway.Parser.Expr.{p_nodes_to_columns, parse_where_clause}
use database_gateway.Parser.Vectors.{Vector, tbl_of, make_insert, make_update, make_delete}
use database_gateway.Parser.Vectors.Grouping.{IsMaker}
use database_gateway.Parser.Select.Sources.{full_name_of}
use database_gateway.Parser.Write.{
  own_entry, handle_insert, insert_all_columns, handle_update, update_all_columns, update_targets,
  handle_delete, delete_all_columns,
}
use database_gateway.Parser.Write.Own.{
  IsWritten, own_vectors-IsWritten, written-own, written-Some, written-IsAccount,
}
use database_gateway.Parser.Statement.{handle}

-- The table that a writing statement names.
abbrev pub written : Stmt → Option RangeVar
written (insert_stmt req) = some req.relation
written (update_stmt req) = some req.relation
written (delete_stmt req) = some req.relation
written _ = none

made_insert : IsMaker make_insert
made_insert tbl cols = (refl, refl)

pub made_update : IsMaker make_update
made_update tbl cols = (refl, refl)

pub made_delete : IsMaker make_delete
made_delete tbl cols = (refl, refl)

pub insert-IsWritten :
    (req : InsertStmt) (vs : List Vector)
    → handle_insert req ≡ ok vs
    → IsWritten make_insert req.relation (insert_all_columns req) own_entry vs
unfolding handle_insert
insert-IsWritten req vs h =
    let (_, h1) = >>-eq-ok (reject_if (req.with_clause || req.override) _) _ h in
    own_vectors-IsWritten make_insert made_insert req.relation (insert_all_columns req) own_entry vs
      h1

pub update-IsWritten :
    (req : UpdateStmt) (vs : List Vector)
    → handle_update req ≡ ok vs
    → IsWritten make_update req.relation (update_all_columns req) (λ table. []) vs
unfolding handle_update
update-IsWritten req vs h =
    let (_, h1) = >>-eq-ok (reject_if (nonempty req.from_clause || req.with_clause) _) _ h in
    own_vectors-IsWritten make_update made_update req.relation (update_all_columns req)
      (λ table. []) vs h1

pub delete-IsWritten :
    (req : DeleteStmt) (vs : List Vector)
    → handle_delete req ≡ ok vs
    → IsWritten make_delete req.relation (delete_all_columns req) own_entry vs
unfolding handle_delete
delete-IsWritten req vs h =
    let (_, h1) = >>-eq-ok (reject_if (nonempty req.using_clause || req.with_clause) _) _ h in
    own_vectors-IsWritten make_delete made_delete req.relation (delete_all_columns req) own_entry vs
      h1

update_targets-Some :
    (ns : Nodes) (table : String) (cs : List Column)
    → nonempty ns ≡ true
    → update_targets ns table ≡ ok cs
    → (c : Column) × In c cs
unfolding update_targets
update_targets-Some nil table cs filled h = cc
update_targets-Some (cons (index_elem name expr options) rest) table cs filled h =
    let (c, e, h1) = >>=-eq-ok (p_index_elem name expr options table) _ h in
    let (more, e2, q) = >>=-eq-ok (update_targets rest table) (λ more. ok (c ∷ more)) h1 in
    (c, subst (In c) (ok_injective q) (inl refl))
update_targets-Some (cons (res_target name indirection val) rest) table cs filled h =
    let (_, h1) = >>-eq-ok (reject_if (nonempty indirection) _) _ h in
    let (columns, e, h2) = >>=-eq-ok (assigned_columns val) _ h1 in
    let own = own_column table name in
    let (more, e2, q) =
      >>=-eq-ok (update_targets rest table) (λ more. ok (own ∷ (columns ++ more))) h2 in
    (own, subst (In own) (ok_injective q) (inl refl))
update_targets-Some (cons _ rest) table cs filled h = cc

-- Where some vector is there and all are alike, some vector is like them.
Some-of_All : (P Q : Vector → Type 0) (vs : List Vector) → Some P vs → All Q vs → Some Q vs
Some-of_All P Q [] h _ = elim h [ ]
Some-of_All P Q (v ∷ vs) _ (q, _) = inl q

-- An UPDATE assigns to some column, as the grammar has it.
abbrev pub Assigns : Stmt → Type 0
Assigns (update_stmt req) = nonempty req.target_list ≡ true
Assigns _ = Unit

update-Some :
    (req : UpdateStmt) (vs : List Vector)
    → nonempty req.target_list ≡ true
    → handle_update req ≡ ok vs
    → Some (λ v. tbl_of v ≡ full_name_of req.relation) vs
unfolding update_all_columns
update-Some req vs filled h =
    let w = update-IsWritten req vs h in
    let account =
      written-IsAccount make_update made_update req.relation (update_all_columns req) (λ table. [])
        vs w tt in
    let (as1, e1, h1) =
      >>=-eq-ok (update_targets req.target_list (full_name_of req.relation)) _ w.reading in
    let (bs, e2, h2) =
      >>=-eq-ok (p_nodes_to_columns req.returning_list (full_name_of req.relation)) _ h1 in
    let (ds, e3, q) =
      >>=-eq-ok (parse_where_clause req.where_clause) (λ ds. ok (as1 ++ (bs ++ ds))) h2 in
    let (c, i) = update_targets-Some req.target_list (full_name_of req.relation) as1 filled e1 in
    let listed : In c w.cs =
      subst (In c) (ok_injective q) (Some-append_left (λ d. d ≡ c) as1 (bs ++ ds) i) in
    let (tbl, _, has) = All-In _ w.cs account.every listed in
    Some-of_All _ _ vs has (
      written-own make_update made_update req.relation (update_all_columns req) (λ table. []) vs w
        tt)

-- An accepted INSERT, UPDATE or DELETE has a vector for its table, an INSERT or DELETE also if it
-- mentions no column, and an UPDATE if it assigns to some column.
pub handle-checks :
    (st : Stmt) (rel : RangeVar) (vs : List Vector)
    → written st ≡ some rel
    → Assigns st
    → handle st ≡ ok vs
    → Some (λ v. tbl_of v ≡ full_name_of rel) vs
unfolding handle
handle-checks (select_stmt req) rel vs w u h = cc
handle-checks other_stmt rel vs w u h = cc
handle-checks (update_stmt req) rel vs w u h = rw (some-injective _ _ w) at (update-Some req vs u h)
handle-checks (insert_stmt req) rel vs w u h = rw (some-injective _ _ w) at (
    written-Some make_insert made_insert req.relation (insert_all_columns req) own_entry vs
      (insert-IsWritten req vs h) (inl refl))
handle-checks (delete_stmt req) rel vs w u h = rw (some-injective _ _ w) at (
    written-Some make_delete made_delete req.relation (delete_all_columns req) own_entry vs
      (delete-IsWritten req vs h) (inl refl))
