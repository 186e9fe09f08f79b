-- ===== src/Parser/Expr.antt =====
-- The expressions that internal/parser reads: `parseAexpr` and `parseWhereClause` of op_update.go
-- and `pNodes2Columns` of op_insert.go.
pub mod Reading
use database_gateway.Common.{String, Bool, true, false, ◌||◌, not, List, [], ◌∷◌, ◌++◌, contains}
use database_gateway.Common.{Result, ok, err, ◌>>=◌, ◌>>◌, reject_if, plain, wrapping, Sentinel}
use database_gateway.Common.{if◌then◌else◌}
use database_gateway.Common.Text.{is_empty}
use database_gateway.Parser.Ast.{
  Node, Nodes, nil, cons, absent, string, a_const, column_ref, a_expr,
}
use database_gateway.Parser.Ast.{bool_expr, null_test, list, res_target, index_elem, IndexOptions}
use database_gateway.Parser.Ast.{AExprKind, aexpr_other, present, nonempty}
use database_gateway.Parser.Columns.{Column, p_node_column_ref}

abbrev pub allowed_operators : List String
allowed_operators =
    "*" ∷ "-" ∷ "+" ∷ "=" ∷ ">" ∷ "<" ∷ "<=" ∷ ">=" ∷ "!=" ∷ "<>" ∷ "~~" ∷ "||" ∷ "BETWEEN" ∷ []

-- The tests of `parseAexpr` on the kind and on the name of the operator.
unfoldable pub check_operator : AExprKind → Nodes → Result (Unit {0})
check_operator aexpr_other name = err (wrapping Sentinel.not_implemented "aexpr clause kind")
check_operator _ (cons (string s) nil) =
    reject_if (not (contains s allowed_operators))
      (wrapping Sentinel.not_implemented "aexpr clause operator")
check_operator _ (cons _ nil) = err (wrapping Sentinel.not_implemented "aexpr clause name")
check_operator _ _ = err (plain "clause aexpr name len should be 1")

-- The items of a list on the right side have to be constants.
unfoldable pub check_constants : Nodes → Result (Unit {0})
check_constants nil = ok tt
check_constants (cons a_const rest) = check_constants rest
check_constants (cons _ rest) = err (wrapping Sentinel.not_implemented "node item in aexpr filter")

unfoldable pub parse_right : Node → Result (List Column)
unfolding check_constants p_node_column_ref
parse_right a_const = ok []
parse_right (column_ref fields) = do column ← p_node_column_ref fields; ok (column ∷ [])
parse_right (list nodes) = do check_constants nodes; ok []
parse_right _ = err (wrapping Sentinel.not_implemented "aexpr clause right expr")

-- `parseAexpr` around the result for its left side.
abbrev a_expr_columns : AExprKind → Nodes → Result (List Column) → Node → Result (List Column)
a_expr_columns kind name left r = do
  check_operator kind name
  left_columns ← left
  right_columns ← parse_right r
  ok (left_columns ++ right_columns)

-- The switch of `parseAexpr` on its left side.
unfoldable pub parse_left : Node → Result (List Column)
unfolding check_operator parse_right p_node_column_ref
parse_left (a_expr kind name l r) = a_expr_columns kind name (parse_left l) r
parse_left (column_ref fields) = do column ← p_node_column_ref fields; ok (column ∷ [])
parse_left _ = err (wrapping Sentinel.not_implemented "aexpr clause left expr")

unfoldable pub parse_a_expr : AExprKind → Nodes → Node → Node → Result (List Column)
unfolding parse_left
parse_a_expr kind name l r = a_expr_columns kind name (parse_left l) r

-- The switch of `parseWhereClause` on the argument of `IS NULL`.
unfoldable pub parse_null_test : Node → Result (List Column)
unfolding p_node_column_ref parse_a_expr
parse_null_test (column_ref fields) = do column ← p_node_column_ref fields; ok (column ∷ [])
parse_null_test (a_expr kind name l r) = parse_a_expr kind name l r
parse_null_test _ = err (wrapping Sentinel.not_implemented "null test arg")

abbrev is_bool_argument : Node → Bool
is_bool_argument (null_test arg) = true
is_bool_argument (bool_expr args) = true
is_bool_argument (a_expr kind name l r) = true
is_bool_argument _ = false

unfoldable mutual
  unfolding parse_a_expr parse_null_test

  pub parse_where_clause : Node → Result (List Column)
  parse_where_clause absent = ok []
  parse_where_clause (bool_expr args) = parse_bool_args args
  parse_where_clause (a_expr kind name l r) = parse_a_expr kind name l r
  parse_where_clause (null_test arg) = parse_null_test arg
  parse_where_clause _ = err (wrapping Sentinel.not_implemented "where clause not supported")

  pub parse_bool_args : Nodes → Result (List Column)
  parse_bool_args nil = ok []
  parse_bool_args (cons node rest) = do
    reject_if (not (is_bool_argument node)) (wrapping Sentinel.not_implemented "bool expr argument")
    columns ← parse_where_clause node
    more ← parse_bool_args rest
    ok (columns ++ more)

-- Some option of an index element is set.
abbrev has_index_options : Node → IndexOptions → Bool
has_index_options expr o =
    present expr
    || not (is_empty o.indexcolname)
    || o.collation
    || o.opclass
    || o.opclassopts
    || o.ordering
    || o.nulls_ordering

-- A column of the statement's own table.
abbrev pub own_column : String → String → Column
own_column table name = record { table = table ∷ []; column = name }

unfoldable pub p_index_elem : String → Node → IndexOptions → String → Result Column
p_index_elem name expr options table = do
  reject_if (has_index_options expr options)
      (wrapping Sentinel.not_implemented "unknown index elem")
  ok (own_column table name)

-- The value of a result target that has no name.
unfoldable pub p_unnamed_target : Node → Result Column
unfolding p_node_column_ref
p_unnamed_target (column_ref fields) = p_node_column_ref fields
p_unnamed_target _ = err (wrapping Sentinel.not_implemented "resTarget type")

unfoldable pub p_node_to_column : Node → String → Result Column
unfolding p_index_elem p_unnamed_target
p_node_to_column (index_elem name expr options) table = p_index_elem name expr options table
p_node_to_column (res_target name indirection val) table = do
  reject_if (nonempty indirection) (wrapping Sentinel.not_implemented "resTarget field")
  if is_empty name then p_unnamed_target val else ok (own_column table name)
p_node_to_column _ table = err (wrapping Sentinel.not_implemented "col type")

unfoldable pub p_nodes_to_columns : Nodes → String → Result (List Column)
unfolding p_node_to_column
p_nodes_to_columns nil table = ok []
p_nodes_to_columns (cons node rest) table = do
  column ← p_node_to_column node table
  more ← p_nodes_to_columns rest table
  ok (column ∷ more)
