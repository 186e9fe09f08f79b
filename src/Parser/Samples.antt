-- ===== src/Parser/Samples.antt =====
-- Statements that the tests of the parser, the validator and the service share.
use database_gateway.Common.{String, false, some}
use database_gateway.Parser.Ast.{
  Node, Nodes, nil, cons, absent, a_const, string, column_ref, a_expr, AExprKind, res_target,
  range_var, RangeVar, join_expr, other, SelectStmt, InsertStmt, DeleteStmt, default_values,
  ConflictAction,
}

abbrev pub one : Node → Nodes
one n = cons n nil

abbrev pub column : String → String → Nodes
column table name = cons (string table) (one (string name))

abbrev pub equals : Node → Node → Node
equals l r = a_expr AExprKind.aexpr_op (one (string "=")) l r

-- `users u`, `public.orders o`
abbrev pub users : RangeVar
users = record { catalogname = ""; schemaname = ""; relname = "users"; alias = some "u" }

abbrev pub orders : RangeVar
orders = record { catalogname = ""; schemaname = "public"; relname = "orders"; alias = some "o" }

abbrev pub inner_join : Node → Node → Node → Node
inner_join l r quals =
    join_expr
      (record { is_natural = false; using_clause = false; join_using_alias = false; alias = false })
      l r quals

abbrev pub select_of : Nodes → Node → Node → SelectStmt
select_of targets from condition = record {
  distinct_clause = false;
  into_clause = false;
  target_list = targets;
  from_clause = one from;
  where_clause = condition;
  group_clause = nil;
  group_distinct = false;
  having_clause = false;
  window_clause = false;
  values_lists = nil;
  sort_clause = nil;
  limit_offset = absent;
  limit_count = absent;
  limit_option = false;
  locking_clause = false;
  with_clause = false;
  op = false;
  all = false;
  larg = false;
  rarg = false;
}

-- `users u JOIN public.orders o ON u.id = o.user_id`
abbrev pub joined : Node
joined =
    inner_join (range_var users) (range_var orders)
      (equals (column_ref (column "u" "id")) (column_ref (column "o" "user_id")))

-- `SELECT u.name FROM … WHERE o.total = 1`
abbrev pub select_joined : SelectStmt
select_joined =
    select_of (one (res_target "" nil (column_ref (column "u" "name")))) joined
      (equals (column_ref (column "o" "total")) a_const)

-- `secrets x JOIN users secrets ON x.id = secrets.id`
abbrev pub secrets : RangeVar
secrets = record { catalogname = ""; schemaname = ""; relname = "secrets"; alias = some "x" }

abbrev pub users_as_secrets : RangeVar
users_as_secrets = record {
  catalogname = "";
  schemaname = "";
  relname = "users";
  alias = some "secrets";
}

abbrev pub masking_join : Node
masking_join =
    inner_join (range_var secrets) (range_var users_as_secrets)
      (equals (column_ref (column "x" "id")) (column_ref (column "secrets" "id")))

-- `SELECT x.id FROM …`
abbrev pub select_masked : SelectStmt
select_masked =
    select_of (one (res_target "" nil (column_ref (column "x" "id")))) masking_join absent

-- `DELETE FROM users u WHERE u.id = 1 RETURNING (SELECT …) AS name`
abbrev pub delete_users : DeleteStmt
delete_users = record {
  relation = users;
  using_clause = nil;
  where_clause = equals (column_ref (column "u" "id")) a_const;
  returning_list = one (res_target "name" nil (other nil));
  with_clause = false;
}

-- `INSERT INTO users (name) DEFAULT VALUES ON CONFLICT DO UPDATE SET name = (SELECT …)`
abbrev pub insert_users : InsertStmt
insert_users = record {
  relation = users;
  cols = one (res_target "name" nil absent);
  source = default_values;
  on_conflict = some (record {
    action = ConflictAction.conflict_update;
    where_clause = absent;
    infer_where = absent;
    infer_conname = "";
    infer_index_elems = nil;
    target_list = one (res_target "name" nil (other nil));
  });
  returning_list = nil;
  with_clause = false;
  override = false;
}
