-- ===== src/Parser/Write/Values.antt =====
-- The values of named result targets, which `pNodes2Columns` never looks at.
use database_gateway.Common.{
  ◌≡◌, refl, String, Option, none, some, Bool-cases, inl, inr, if◌then◌else◌,
}
use database_gateway.Common.Text.{is_empty}
use database_gateway.Parser.Ast.{
  Node, Nodes, nil, cons, absent, res_target, index_elem, InsertStmt, DeleteStmt, OnConflict,
}
use database_gateway.Parser.Expr.{p_node_to_column, p_nodes_to_columns}
use database_gateway.Parser.Write.{
  handle_insert, handle_delete, insert_all_columns, delete_all_columns, conflict_columns,
}

-- The list with the values of its named targets taken out.
unfoldable pub without_values : Nodes → Nodes
without_values nil = nil
without_values (cons (res_target name indirection val) rest) =
    cons (res_target name indirection (if is_empty name then val else absent)) (without_values rest)
without_values (cons n rest) = cons n (without_values rest)

p_node-without_value :
    (name table : String) (indirection : Nodes) (val : Node)
    → p_node_to_column (res_target name indirection (if is_empty name then val else absent)) table
      ≡ p_node_to_column (res_target name indirection val) table
unfolding p_node_to_column
p_node-without_value name table indirection val = elim (Bool-cases (is_empty name)) [
  | inl bare ↦ rw bare
  | inr named ↦ rw named
]

pub p_nodes-without_values :
    (ns : Nodes) (table : String)
    → p_nodes_to_columns (without_values ns) table ≡ p_nodes_to_columns ns table
unfolding p_nodes_to_columns without_values
p_nodes-without_values nil table = refl
p_nodes-without_values (cons (res_target name indirection val) rest) table =
    rw (p_node-without_value name table indirection val, p_nodes-without_values rest table)
p_nodes-without_values (cons (index_elem name expr options) rest) table =
    rw (p_nodes-without_values rest table)
p_nodes-without_values (cons _ rest) table = refl

-- A DELETE is read alike whatever expressions stand under the names of its RETURNING list: a
-- subquery there, `RETURNING (SELECT …) AS id`, is neither refused nor checked.
pub handle_delete-without_values :
    (req : DeleteStmt)
    → handle_delete (record req { returning_list = without_values req.returning_list })
      ≡ handle_delete req
unfolding handle_delete delete_all_columns
handle_delete-without_values req = simp p_nodes-without_values

abbrev pub conflict_without_values : Option OnConflict → Option OnConflict
conflict_without_values none = none
conflict_without_values (some confl) =
    some (record confl { target_list = without_values confl.target_list })

conflict_columns-without_values :
    (confl : Option OnConflict) (table : String)
    → conflict_columns (conflict_without_values confl) table ≡ conflict_columns confl table
unfolding conflict_columns
conflict_columns-without_values none table = refl
conflict_columns-without_values (some confl) table = simp p_nodes-without_values

-- An INSERT is read alike whatever expressions stand under the names of its RETURNING list and
-- whatever its ON CONFLICT clause assigns: a subquery in `DO UPDATE SET note = (SELECT …)` is
-- neither refused nor checked.
pub handle_insert-without_values :
    (req : InsertStmt)
    → handle_insert (record req {
      returning_list = without_values req.returning_list;
      on_conflict = conflict_without_values req.on_conflict;
    })
      ≡ handle_insert req
unfolding handle_insert insert_all_columns
handle_insert-without_values req = simp (p_nodes-without_values, conflict_columns-without_values)
