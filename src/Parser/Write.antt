-- ===== src/Parser/Write.antt =====
-- internal/parser/op_insert.go, op_update.go and op_delete.go: the three handlers that write.
pub mod Own
pub mod Values
use database_gateway.Common.{
  String, Bool, true, false, ◌||◌, not, List, [], ◌∷◌, ◌++◌, Option, none,
}
use database_gateway.Common.{some, Map, Result, ok, err, ◌>>=◌, ◌>>◌, reject_if, wrapping, Sentinel}
use database_gateway.Common.Text.{is_empty}
use database_gateway.Parser.Ast.{Node, Nodes, nil, cons, a_const, set_to_default, list, column_ref}
use database_gateway.Parser.Ast.{a_expr, index_elem, res_target, RangeVar, SelectStmt, InsertSource}
use database_gateway.Parser.Ast.{default_values, select_source, other_source, ConflictAction}
use database_gateway.Parser.Ast.{conflict_undefined, OnConflict, InsertStmt, UpdateStmt, DeleteStmt}
use database_gateway.Parser.Ast.{present, nonempty}
use database_gateway.Parser.Tables.{Tables, new_tables, put, finalize}
use database_gateway.Parser.Columns.{Column, p_node_column_ref}
use database_gateway.Parser.Expr.{
  parse_a_expr, parse_where_clause, p_index_elem, p_nodes_to_columns,
}
use database_gateway.Parser.Expr.{own_column}
use database_gateway.Parser.Vectors.{Vector, distribute, vectors_of, make_insert, make_update}
use database_gateway.Parser.Vectors.{make_delete}
use database_gateway.Parser.Select.{alias_name}

-- The table of the statement: its full name, and the names for it.
unfoldable pub own_table : RangeVar → Result (String × Tables)
own_table rel = do
  (name, t) ← put (new_tables "public") rel.catalogname rel.schemaname rel.relname (alias_name rel)
  t' ← finalize t
  ok (name, t')

-- What the three handlers do once the unsupported clauses are ruled out: `columns` reads the columns
-- of the statement, and `start` is `table2target` before the loop, both given the table's full name.
unfoldable pub own_vectors :
    (String → List String → Vector)
    → RangeVar
    → (String → Result (List Column))
    → (String → Map (List Column))
    → Result (List Vector)
unfolding own_table distribute vectors_of
own_vectors make rel columns start = do
  (table, t) ← own_table rel
  all_columns ← columns table
  table2target ← distribute t all_columns (start table)
  ok (vectors_of make table2target)

-- `table2target[fqTableName] = nil`
abbrev pub own_entry : String → Map (List Column)
own_entry table = (table, []) ∷ []

-- One item of a row of `VALUES`: a constant or `DEFAULT`.
unfoldable pub check_row : Nodes → Result (Unit {0})
check_row nil = ok tt
check_row (cons set_to_default rest) = check_row rest
check_row (cons a_const rest) = check_row rest
check_row (cons _ rest) = err (wrapping Sentinel.not_implemented "unknown node list node type")

-- The loop over the rows of `VALUES`.
unfoldable pub check_values : Nodes → Result (Unit {0})
unfolding check_row
check_values nil = ok tt
check_values (cons (list row) rest) = do check_row row; check_values rest
check_values (cons _ rest) = err (wrapping Sentinel.not_implemented "unknown node type")

-- Any clause beside the values.
abbrev has_select_clause : SelectStmt → Bool
has_select_clause sel =
    sel.distinct_clause
    || sel.into_clause
    || nonempty sel.target_list
    || nonempty sel.from_clause
    || present sel.where_clause
    || nonempty sel.group_clause
    || sel.group_distinct
    || sel.having_clause
    || sel.window_clause
    || nonempty sel.sort_clause
    || present sel.limit_offset
    || present sel.limit_count
    || sel.limit_option
    || sel.locking_clause
    || sel.with_clause
    || sel.op
    || sel.all
    || sel.larg
    || sel.rarg

unfoldable pub check_source : InsertSource → Result (Unit {0})
unfolding check_values
check_source default_values = ok tt
check_source (select_source sel) = do
  reject_if (has_select_clause sel) (wrapping Sentinel.not_implemented "unknown clause")
  reject_if (nonempty sel.from_clause) (wrapping Sentinel.not_implemented "insert from select")
  check_values sel.values_lists
check_source other_source = err (wrapping Sentinel.not_implemented "target select type")

abbrev is_known_action : ConflictAction → Bool
is_known_action conflict_undefined = false
is_known_action _ = true

-- The columns of `ON CONFLICT`.
unfoldable pub conflict_columns : Option OnConflict → String → Result (List Column)
conflict_columns none table = ok []
conflict_columns (some confl) table = do
  reject_if (not (is_known_action confl.action))
      (wrapping Sentinel.not_implemented "unknown action on conflict")
  reject_if
      (present confl.where_clause
        || present confl.infer_where
        || not (is_empty confl.infer_conname))
      (wrapping Sentinel.not_implemented "unknown on-conflict clause")
  conflicts ← p_nodes_to_columns confl.infer_index_elems table
  targets ← p_nodes_to_columns confl.target_list table
  ok (conflicts ++ targets)

-- The columns of an `INSERT`, with the tests in the order of the code.
unfoldable pub insert_all_columns : InsertStmt → String → Result (List Column)
unfolding check_source conflict_columns
insert_all_columns req table = do
  targets ← p_nodes_to_columns req.cols table
  check_source req.source
  returned ← p_nodes_to_columns req.returning_list table
  conflicts ← conflict_columns req.on_conflict table
  ok ((targets ++ returned) ++ conflicts)

unfoldable pub handle_insert : InsertStmt → Result (List Vector)
unfolding own_vectors insert_all_columns
handle_insert req = do
  reject_if (req.with_clause || req.override) (wrapping Sentinel.not_implemented "unknown clause")
  own_vectors make_insert req.relation (insert_all_columns req) own_entry

-- The value of an assignment in `SET`.
unfoldable pub assigned_columns : Node → Result (List Column)
assigned_columns a_const = ok []
assigned_columns set_to_default = ok []
assigned_columns (a_expr kind name l r) = parse_a_expr kind name l r
assigned_columns (column_ref fields) = do column ← p_node_column_ref fields; ok (column ∷ [])
assigned_columns _ = err (wrapping Sentinel.not_implemented "resTarget type")

-- The loop over the assignments of `SET`.
unfoldable pub update_targets : Nodes → String → Result (List Column)
unfolding assigned_columns
update_targets nil table = ok []
update_targets (cons (index_elem name expr options) rest) table = do
  column ← p_index_elem name expr options table
  more ← update_targets rest table
  ok (column ∷ more)
update_targets (cons (res_target name indirection val) rest) table = do
  reject_if (nonempty indirection) (wrapping Sentinel.not_implemented "resTarget field")
  columns ← assigned_columns val
  more ← update_targets rest table
  ok (own_column table name ∷ (columns ++ more))
update_targets (cons _ rest) table = err (wrapping Sentinel.not_implemented "col type")

unfoldable pub update_all_columns : UpdateStmt → String → Result (List Column)
unfolding update_targets
update_all_columns req table = do
  targets ← update_targets req.target_list table
  returned ← p_nodes_to_columns req.returning_list table
  wheres ← parse_where_clause req.where_clause
  ok (targets ++ (returned ++ wheres))

unfoldable pub handle_update : UpdateStmt → Result (List Vector)
unfolding own_vectors update_all_columns
handle_update req = do
  reject_if (nonempty req.from_clause || req.with_clause)
      (wrapping Sentinel.not_implemented "unknown clause")
  own_vectors make_update req.relation (update_all_columns req) (λ table. [])

unfoldable pub delete_all_columns : DeleteStmt → String → Result (List Column)
delete_all_columns req table = do
  returned ← p_nodes_to_columns req.returning_list table
  wheres ← parse_where_clause req.where_clause
  ok (returned ++ wheres)

unfoldable pub handle_delete : DeleteStmt → Result (List Vector)
unfolding own_vectors delete_all_columns
handle_delete req = do
  reject_if (nonempty req.using_clause || req.with_clause)
      (wrapping Sentinel.not_implemented "unknown clause")
  own_vectors make_delete req.relation (delete_all_columns req) own_entry
