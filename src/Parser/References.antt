-- ===== src/Parser/References.antt =====
-- What a tree holds, read off it with no regard to what the parser supports.
use database_gateway.Common.{Bool, true, false, ◌||◌, List, [], ◌∷◌, ◌++◌}
use database_gateway.Parser.Ast.{
  Node, Nodes, nil, cons, column_ref, a_expr, bool_expr, null_test, list, func_call, res_target,
  index_elem, join_expr, sort_by, other,
}

unfoldable mutual
  -- The fields of all column references, from left to right, at any depth.
  pub node_refs : Node → List Nodes
  node_refs (column_ref fields) = fields ∷ []
  node_refs (a_expr kind name l r) = nodes_refs name ++ (node_refs l ++ node_refs r)
  node_refs (bool_expr args) = nodes_refs args
  node_refs (null_test arg) = node_refs arg
  node_refs (list ns) = nodes_refs ns
  node_refs (func_call name args over agg_filter agg_order) =
      nodes_refs name
      ++ (nodes_refs args ++ (node_refs over ++ (node_refs agg_filter ++ nodes_refs agg_order)))
  node_refs (res_target name indirection val) = nodes_refs indirection ++ node_refs val
  node_refs (index_elem name expr options) = node_refs expr
  node_refs (join_expr options larg rarg quals) =
      node_refs larg ++ (node_refs rarg ++ node_refs quals)
  node_refs (sort_by use_op n) = nodes_refs use_op ++ node_refs n
  node_refs (other ns) = nodes_refs ns
  node_refs _ = []

  pub nodes_refs : Nodes → List Nodes
  nodes_refs nil = []
  nodes_refs (cons n ns) = node_refs n ++ nodes_refs ns

unfoldable mutual
  -- Some node, at any depth, is of a kind that the parser does not know, such as a subquery.
  pub has_other : Node → Bool
  has_other (other ns) = true
  has_other (a_expr kind name l r) = some_other name || (has_other l || has_other r)
  has_other (bool_expr args) = some_other args
  has_other (null_test arg) = has_other arg
  has_other (list ns) = some_other ns
  has_other (func_call name args over agg_filter agg_order) =
      some_other name
      || (some_other args || (has_other over || (has_other agg_filter || some_other agg_order)))
  has_other (res_target name indirection val) = some_other indirection || has_other val
  has_other (index_elem name expr options) = has_other expr
  has_other (join_expr options larg rarg quals) =
      has_other larg || (has_other rarg || has_other quals)
  has_other (sort_by use_op n) = some_other use_op || has_other n
  has_other _ = false

  pub some_other : Nodes → Bool
  some_other nil = false
  some_other (cons n ns) = has_other n || some_other ns
