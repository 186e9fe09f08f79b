-- ===== src/Parser/Select.antt =====
-- internal/parser/op_select.go
pub mod Sources
pub mod Kept
pub mod Coverage
pub mod Reading
pub mod Seen
use database_gateway.Common.{String, Bool, false, ◌&&◌, ◌||◌, not, List, [], ◌∷◌}
use database_gateway.Common.{◌++◌, none, some, Map, Result, ok, err, ◌>>=◌, ◌>>◌, reject_if}
use database_gateway.Common.{plain, wrapping, Sentinel, if◌then◌else◌, insert}
use database_gateway.Common.Text.{is_empty, lowers_to, leb}
use database_gateway.Parser.Ast.{Node, Nodes, nil, cons, string, column_ref, func_call, res_target}
use database_gateway.Parser.Ast.{range_var, join_expr, sort_by, RangeVar, JoinOptions, SelectStmt}
use database_gateway.Parser.Ast.{present, nonempty}
use database_gateway.Parser.Tables.{Tables, new_tables, put, finalize, get_all}
use database_gateway.Parser.Columns.{Column, table_of, p_node_column_ref, is_function_star_arg}
use database_gateway.Parser.Expr.{parse_where_clause}
use database_gateway.Parser.Vectors.{Vector, assign, vectors_of, make_select}

abbrev pub allowed_select_functions : List String
allowed_select_functions = "count" ∷ "lower" ∷ "upper" ∷ "sum" ∷ "min" ∷ "max" ∷ []

-- `allowedSelectFunctions[strings.ToLower(name)]`
unfoldable pub is_allowed_function : List String → String → Bool
is_allowed_function [] name = false
is_allowed_function (f ∷ fs) name = lowers_to name f || is_allowed_function fs name

-- `GetAlias().GetAliasname()`
abbrev pub alias_name : RangeVar → String
alias_name tbl = elim (tbl.alias) [ none ↦ "" | some name ↦ name ]

unfoldable pub add_range_var : Tables → RangeVar → Result Tables
add_range_var t tbl = do
  (fqtn, t') ← put t tbl.catalogname tbl.schemaname tbl.relname (alias_name tbl)
  ok t'

abbrev pub has_join_options : JoinOptions → Bool
has_join_options o = o.is_natural || o.using_clause || o.join_using_alias || o.alias

unfoldable pub collect_select_from_tables : Tables → Node → Result Tables
unfolding add_range_var
collect_select_from_tables t (range_var tbl) = add_range_var t tbl
collect_select_from_tables t (join_expr options larg rarg quals) = do
  reject_if (has_join_options options) (wrapping Sentinel.not_implemented "join expression")
  t' ← collect_select_from_tables t larg
  collect_select_from_tables t' rarg
collect_select_from_tables t _ = err (wrapping Sentinel.not_implemented "from type")

unfoldable pub parse_select_join_columns : Node → Result (List Column)
parse_select_join_columns (range_var tbl) = ok []
parse_select_join_columns (join_expr options larg rarg quals) = do
  left ← parse_select_join_columns larg
  right ← parse_select_join_columns rarg
  join ← parse_where_clause quals
  ok (left ++ (right ++ join))
parse_select_join_columns _ = err (wrapping Sentinel.not_implemented "from type")

-- The tests on the name of a called function.
unfoldable pub check_function : Nodes → Result (Unit {0})
unfolding is_allowed_function
check_function (cons (string name) nil) =
    reject_if (not (is_allowed_function allowed_select_functions name))
      (wrapping Sentinel.not_implemented "unknown function name")
check_function (cons _ nil) = err (wrapping Sentinel.not_implemented "unknown function name type")
check_function _ = err (wrapping Sentinel.not_implemented "only one function call")

-- The loop over a function's arguments. A `*` among them is passed over.
unfoldable pub function_columns : Nodes → Result (List Column)
unfolding is_function_star_arg p_node_column_ref
function_columns nil = ok []
function_columns (cons (column_ref fields) rest) =
    let more = function_columns rest in
    if is_function_star_arg fields
    then more
    else do column ← p_node_column_ref fields; columns ← more; ok (column ∷ columns)
function_columns (cons _ rest) = err (plain "unknown function argument type")

-- The value of a target.
unfoldable pub target_value : Node → Result (List Column)
unfolding check_function function_columns p_node_column_ref
target_value (column_ref fields) = do column ← p_node_column_ref fields; ok (column ∷ [])
target_value (func_call name args over agg_filter agg_order) = do
  reject_if (present over || present agg_filter || nonempty agg_order)
      (wrapping Sentinel.not_implemented "window functions")
  check_function name
  function_columns args
target_value _ = err (wrapping Sentinel.not_implemented "resTarget type")

-- The loop over the target list.
unfoldable pub target_columns : Nodes → Result (List Column)
unfolding target_value
target_columns nil = ok []
target_columns (cons (res_target name indirection val) rest) = do
  reject_if (nonempty indirection) (wrapping Sentinel.not_implemented "resTarget field")
  columns ← target_value val
  more ← target_columns rest
  ok (columns ++ more)
target_columns (cons _ rest) = err (wrapping Sentinel.not_implemented "target type")

-- The loop over the sort clause.
unfoldable pub sort_columns : Nodes → Result (List Column)
unfolding p_node_column_ref
sort_columns nil = ok []
sort_columns (cons (sort_by use_op (column_ref fields)) rest) = do
  reject_if (nonempty use_op) (wrapping Sentinel.not_implemented "sort useOp")
  column ← p_node_column_ref fields
  more ← sort_columns rest
  ok (column ∷ more)
sort_columns (cons (sort_by use_op _) rest) = do
  reject_if (nonempty use_op) (wrapping Sentinel.not_implemented "sort useOp")
  err (wrapping Sentinel.not_implemented "sort clause expression")
sort_columns (cons _ rest) = err (wrapping Sentinel.not_implemented "sort clause")

-- The loop over the group clause.
unfoldable pub group_columns : Nodes → Result (List Column)
unfolding p_node_column_ref
group_columns nil = ok []
group_columns (cons (column_ref fields) rest) = do
  column ← p_node_column_ref fields
  more ← group_columns rest
  ok (column ∷ more)
group_columns (cons _ rest) = err (wrapping Sentinel.not_implemented "group by node")

-- The clauses that are refused outright.
abbrev has_unknown_clause : SelectStmt → Bool
has_unknown_clause sel =
    sel.distinct_clause
    || sel.into_clause
    || sel.having_clause
    || sel.window_clause
    || sel.group_distinct
    || sel.op
    || sel.locking_clause
    || sel.with_clause
    || nonempty sel.values_lists
    || sel.larg
    || sel.rarg
    || sel.all

-- All columns that the statement mentions, in the order of the code.
unfoldable pub select_all_columns : SelectStmt → Node → Result (List Column)
unfolding target_columns parse_select_join_columns sort_columns group_columns
select_all_columns sel from = do
  targets ← target_columns sel.target_list
  wheres ← parse_where_clause sel.where_clause
  joins ← parse_select_join_columns from
  sorts ← sort_columns sel.sort_clause
  groups ← group_columns sel.group_clause
  ok (targets ++ (wheres ++ (joins ++ (sorts ++ groups))))

-- `table2target[tableName] = nil`, for each table.
unfoldable pub empty_targets : List String → Map (List Column)
empty_targets [] = []
empty_targets (table ∷ tables) = insert table [] (empty_targets tables)

-- The loop over all columns: a column with no table is refused where there are several tables.
unfoldable pub select_distribute :
    Tables → List Column → Map (List Column) → Result (Map (List Column))
unfolding assign table_of
select_distribute t [] m = ok m
select_distribute t (c ∷ cs) m = do
  reject_if (is_empty (table_of c) && not (leb t.sources 1))
      (wrapping Sentinel.not_implemented "ambiguous column reference")
  m' ← assign t c m
  select_distribute t cs m'

-- `handleSelect` once the `FROM` clause is known to be one item.
unfoldable pub select_from : SelectStmt → Node → Result (List Vector)
unfolding collect_select_from_tables finalize select_all_columns get_all empty_targets
    select_distribute vectors_of
select_from sel from = do
  collected ← collect_select_from_tables (new_tables "public") from
  t ← finalize collected
  all_columns ← select_all_columns sel from
  all_tables ← get_all t
  table2target ← select_distribute t all_columns (empty_targets all_tables)
  ok (vectors_of make_select table2target)

-- `len(sel.GetFromClause()) != 1`
unfoldable pub single_from : Nodes → Result Node
single_from (cons from nil) = ok from
single_from _ = err (plain "from clause must contains only one expression")

unfoldable pub handle_select : SelectStmt → Result (List Vector)
unfolding single_from select_from
handle_select sel = do
  reject_if (has_unknown_clause sel) (wrapping Sentinel.not_implemented "unknown clause")
  from ← single_from sel.from_clause
  select_from sel from
