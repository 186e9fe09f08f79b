-- ===== src/Parser/Ast.antt =====
-- The syntax tree of github.com/pganalyze/pg_query_go/v6, as far as internal/parser reads it.
-- `absent` is a nil pointer, which the generated getters take as well as a node with no content.
-- A kind of node that the parser never accepts is `other`, with the nodes below it.
use database_gateway.Common.{String, Bool, List, [], ◌∷◌, Option}

-- `pg.A_Expr_Kind`: the kinds that `parseAexpr` names, and the rest.
pub data AExprKind : Type 0 where
  aexpr_op aexpr_in aexpr_like aexpr_ilike aexpr_between aexpr_other : AExprKind

-- `pg.RangeVar`; `alias` is the name of the alias node, if there is one.
pub record RangeVar : Type 0 where
  pub catalogname : String
  pub schemaname : String
  pub relname : String
  pub alias : Option String

-- The options of `pg.IndexElem` that the parser wants unset: each flag says that one is set.
pub record IndexOptions : Type 0 where
  pub indexcolname : String
  pub collation : Bool
  pub opclass : Bool
  pub opclassopts : Bool
  pub ordering : Bool
  pub nulls_ordering : Bool

-- The options of `pg.JoinExpr` that the parser wants unset.
pub record JoinOptions : Type 0 where
  pub is_natural : Bool
  pub using_clause : Bool
  pub join_using_alias : Bool
  pub alias : Bool

mutual
  pub data Node : Type 0 where
    absent a_const a_star set_to_default : Node
    string : String → Node
    column_ref : Nodes → Node
    -- kind, name, left and right operand
    a_expr : AExprKind → Nodes → Node → Node → Node
    bool_expr : Nodes → Node
    null_test : Node → Node
    list : Nodes → Node
    -- name, arguments, `over`, `agg_filter`, `agg_order`
    func_call : Nodes → Nodes → Node → Node → Nodes → Node
    -- name, indirection, value
    res_target : String → Nodes → Node → Node
    -- name, expression, options
    index_elem : String → Node → IndexOptions → Node
    range_var : RangeVar → Node
    -- options, left and right side, condition
    join_expr : JoinOptions → Node → Node → Node → Node
    -- the operator of `USING`, the expression
    sort_by : Nodes → Node → Node
    other : Nodes → Node

  pub data Nodes : Type 0 where
    nil : Nodes
    cons : Node → Nodes → Nodes

abbrev pub items : Nodes → List Node
items nil = []
items (cons n ns) = n ∷ items ns

-- `node != nil` for a field that points to a node.
abbrev pub present : Node → Bool
present absent = Bool.false
present _ = Bool.true

-- `nodes != nil` for a repeated field, which the library leaves nil when it has no item.
abbrev pub nonempty : Nodes → Bool
nonempty nil = Bool.false
nonempty (cons n ns) = Bool.true

-- `pg.SelectStmt`. The clauses that the parser only compares with nil or with a default are flags
-- that say whether they differ.
pub record SelectStmt : Type 0 where
  pub distinct_clause : Bool
  pub into_clause : Bool
  pub target_list : Nodes
  pub from_clause : Nodes
  pub where_clause : Node
  pub group_clause : Nodes
  pub group_distinct : Bool
  pub having_clause : Bool
  pub window_clause : Bool
  pub values_lists : Nodes
  pub sort_clause : Nodes
  pub limit_offset : Node
  pub limit_count : Node
  pub limit_option : Bool
  pub locking_clause : Bool
  pub with_clause : Bool
  pub op : Bool
  pub all : Bool
  pub larg : Bool
  pub rarg : Bool

-- What stands under `InsertStmt.SelectStmt`.
pub data InsertSource : Type 0 where
  default_values : InsertSource
  select_source : SelectStmt → InsertSource
  other_source : InsertSource

-- `pg.OnConflictAction`
pub data ConflictAction : Type 0 where
  conflict_none conflict_nothing conflict_update conflict_undefined : ConflictAction

-- `pg.OnConflictClause`, with the fields of its `Infer`.
pub record OnConflict : Type 0 where
  pub action : ConflictAction
  pub where_clause : Node
  pub infer_where : Node
  pub infer_conname : String
  pub infer_index_elems : Nodes
  pub target_list : Nodes

pub record InsertStmt : Type 0 where
  pub relation : RangeVar
  pub cols : Nodes
  pub source : InsertSource
  pub on_conflict : Option OnConflict
  pub returning_list : Nodes
  pub with_clause : Bool
  pub override : Bool

pub record UpdateStmt : Type 0 where
  pub relation : RangeVar
  pub target_list : Nodes
  pub from_clause : Nodes
  pub where_clause : Node
  pub returning_list : Nodes
  pub with_clause : Bool

pub record DeleteStmt : Type 0 where
  pub relation : RangeVar
  pub using_clause : Nodes
  pub where_clause : Node
  pub returning_list : Nodes
  pub with_clause : Bool

-- The node of a `pg.RawStmt`.
pub data Stmt : Type 0 where
  select_stmt : SelectStmt → Stmt
  insert_stmt : InsertStmt → Stmt
  update_stmt : UpdateStmt → Stmt
  delete_stmt : DeleteStmt → Stmt
  other_stmt : Stmt
