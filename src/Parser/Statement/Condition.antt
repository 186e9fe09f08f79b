-- ===== src/Parser/Statement/Condition.antt =====
-- What the condition of a statement that writes may hold.
use database_gateway.Common.{In}
use database_gateway.Common.{◌≡◌, refl, ◌∙◌, false, List, [], ◌∷◌, ◌++◌}
use database_gateway.Common.{
  All, All-append_right, map, All-map_to, Some, Some-map_to, In, ok, >>=-eq-ok, ok_injective,
}
use database_gateway.Parser.Ast.{Node, Nodes, absent, Stmt, update_stmt, delete_stmt}
use database_gateway.Parser.References.{node_refs, has_other}
use database_gateway.Parser.Columns.{Column, p_node_column_ref}
use database_gateway.Parser.Expr.{p_nodes_to_columns, parse_where_clause}
use database_gateway.Parser.Expr.Reading.{Reads, parse_where_clause-IsRead}
use database_gateway.Parser.Vectors.{Vector, target_of, make_update, make_delete}
use database_gateway.Parser.Select.Sources.{full_name_of}
use mathlib.Core.List.{append_assoc}
use database_gateway.Parser.Write.{
  own_entry, update_all_columns, update_targets, delete_all_columns,
}
use database_gateway.Parser.Write.Own.{written-IsAccount}
use database_gateway.Parser.Statement.{handle}
use database_gateway.Parser.Statement.Written.{
  made_update, made_delete, update-IsWritten, delete-IsWritten,
}

-- The condition of a statement that writes, if it has one.
abbrev pub condition : Stmt → Node
condition (update_stmt req) = req.where_clause
condition (delete_stmt req) = req.where_clause
condition _ = absent

Reads-All :
    (P : Column → Type 0) (refs : List Nodes) (cs : List Column)
    → Reads refs cs
    → All P cs
    → All (λ fields. (c : Column) × (p_node_column_ref fields ≡ ok c) × P c) refs
Reads-All P [] cs h _ = tt
Reads-All P (fields ∷ refs) [] h _ = cc
Reads-All P (fields ∷ refs) (c ∷ cs) h (p, ps) =
    let own : p_node_column_ref fields ≡ ok c = cc in
    let later : map p_node_column_ref refs ≡ map ok cs = cc in
    ((c, own, p), Reads-All P refs cs later ps)

-- The references of the condition, where the columns of the condition are among those read.
condition-listed :
    (n : Node) (as1 bs cs : List Column) (vs : List Vector)
    → parse_where_clause n ≡ ok bs
    → as1 ++ bs ≡ cs
    → All (λ c. Some (λ v. In c.column (target_of v)) vs) cs
    → All
        (λ fields.
          (c : Column) × (p_node_column_ref fields ≡ ok c)
          × Some (λ v. In c.column (target_of v)) vs)
        (node_refs n)
      × (has_other n ≡ false)
condition-listed n as1 bs cs vs parsed joined listed =
    let (reads, plain) = parse_where_clause-IsRead n bs parsed in
    let own = All-append_right _ as1 bs (rw (← joined) at listed) in
    (Reads-All _ (node_refs n) bs reads own, plain)

-- The condition of an accepted UPDATE or DELETE holds no node of an unknown kind, so no subquery,
-- at any depth, and each column reference in it is read as a column that some vector lists.
pub handle-condition :
    (st : Stmt) (vs : List Vector)
    → handle st ≡ ok vs
    → All
        (λ fields.
          (c : Column) × (p_node_column_ref fields ≡ ok c)
          × Some (λ v. In c.column (target_of v)) vs)
        (node_refs (condition st))
      × (has_other (condition st) ≡ false)
unfolding handle update_all_columns delete_all_columns node_refs has_other
handle-condition (update_stmt req) vs h =
    let w = update-IsWritten req vs h in
    let account =
      written-IsAccount make_update made_update req.relation (update_all_columns req) (λ table. [])
        vs w tt in
    let (as1, e1, h1) =
      >>=-eq-ok (update_targets req.target_list (full_name_of req.relation)) _ w.reading in
    let (bs, e2, h2) =
      >>=-eq-ok (p_nodes_to_columns req.returning_list (full_name_of req.relation)) _ h1 in
    let (ds, e3, q) =
      >>=-eq-ok (parse_where_clause req.where_clause) (λ ds. ok (as1 ++ (bs ++ ds))) h2 in
    condition-listed req.where_clause (as1 ++ bs) ds w.cs vs e3
      (append_assoc as1 bs ds ∙ ok_injective q)
      (All-map_to (λ c place. Some-map_to (λ v p. p.1) vs place.2) w.cs account.every)
handle-condition (delete_stmt req) vs h =
    let w = delete-IsWritten req vs h in
    let account =
      written-IsAccount make_delete made_delete req.relation (delete_all_columns req) own_entry vs w
        (tt, tt) in
    let (as1, e1, h1) =
      >>=-eq-ok (p_nodes_to_columns req.returning_list (full_name_of req.relation)) _ w.reading in
    let (bs, e2, q) = >>=-eq-ok (parse_where_clause req.where_clause) (λ bs. ok (as1 ++ bs)) h1 in
    condition-listed req.where_clause as1 bs w.cs vs e2 (ok_injective q)
      (All-map_to (λ c place. Some-map_to (λ v p. p.1) vs place.2) w.cs account.every)
handle-condition _ vs h = (tt, refl)
