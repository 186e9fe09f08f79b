-- ===== src/Parser/Expr/Reading.antt =====
-- What the expressions that `parseAexpr` and `parseWhereClause` accept consist of.
use database_gateway.Common.{◌≡◌, refl, ◌∙◌, sym, ap, subst, false, List, [], ◌∷◌, ◌++◌, map}
use database_gateway.Common.{Result, ok, ◌>>=◌, >>=-eq-ok, >>-eq-ok, reject_if, ok_injective, not}
use mathlib.Core.List.{map-append}
use database_gateway.Parser.Ast.{
  Node, Nodes, nil, cons, absent, a_const, string, column_ref, a_expr, bool_expr, null_test, list,
  AExprKind,
}
use database_gateway.Parser.Ast.{aexpr_other}
use database_gateway.Parser.References.{node_refs, nodes_refs, has_other, some_other}
use database_gateway.Parser.Columns.{Column, p_node_column_ref}
use database_gateway.Parser.Expr.{
  a_expr_columns, check_operator, check_constants, parse_right, parse_left, parse_a_expr,
  parse_null_test, parse_where_clause, parse_bool_args, is_bool_argument,
}

-- The columns are what the references stand for, one for each and in the same order.
abbrev pub Reads : List Nodes → List Column → Type 0
Reads refs cs = map p_node_column_ref refs ≡ map ok cs

-- An accepted expression: its references are read, and it holds nothing unknown.
abbrev pub IsRead : Node → List Column → Type 0
IsRead n cs = Reads (node_refs n) cs × (has_other n ≡ false)

Reads-append :
    (r s : List Nodes) (cs ds : List Column) → Reads r cs → Reads s ds → Reads (r ++ s) (cs ++ ds)
Reads-append r s cs ds h k =
    map-append p_node_column_ref r s ∙ ((λ i. h i ++ k i) ∙ sym (map-append ok cs ds))

Reads-one :
    (fields : Nodes) (c : Column) → p_node_column_ref fields ≡ ok c → Reads (fields ∷ []) (c ∷ [])
Reads-one fields c h = λ i. h i ∷ []

-- A reference alone.
column_ref-IsRead :
    (fields : Nodes) (cs : List Column)
    → (p_node_column_ref fields >>= λ c. ok (c ∷ [])) ≡ ok cs
    → IsRead (column_ref fields) cs
unfolding node_refs has_other
column_ref-IsRead fields cs h =
    let (c, e, q) = >>=-eq-ok (p_node_column_ref fields) (λ c. ok (c ∷ [])) h in
    (subst (Reads (fields ∷ [])) (ok_injective q) (Reads-one fields c e), refl)

check_operator-refs :
    (kind : AExprKind) (name : Nodes)
    → check_operator kind name ≡ ok tt
    → (nodes_refs name ≡ []) × (some_other name ≡ false)
unfolding check_operator nodes_refs some_other
check_operator-refs aexpr_other name h = cc
check_operator-refs _ (cons (string s) nil) h = (refl, refl)
check_operator-refs _ (cons _ nil) h = cc
check_operator-refs _ (cons (string s) (cons _ _)) h = cc
check_operator-refs _ (cons _ (cons _ _)) h = cc
check_operator-refs _ nil h = cc

check_constants-refs :
    (ns : Nodes) → check_constants ns ≡ ok tt → (nodes_refs ns ≡ []) × (some_other ns ≡ false)
unfolding check_constants nodes_refs some_other
check_constants-refs nil h = (refl, refl)
check_constants-refs (cons a_const rest) h = check_constants-refs rest h
check_constants-refs (cons _ rest) h = cc

-- A right side.
parse_right-IsRead : (r : Node) (cs : List Column) → parse_right r ≡ ok cs → IsRead r cs
unfolding parse_right node_refs has_other
parse_right-IsRead a_const cs h = (ap (map ok) (ok_injective h), refl)
parse_right-IsRead (column_ref fields) cs h = column_ref-IsRead fields cs h
parse_right-IsRead (list ns) cs h =
    let (e, q) = >>-eq-ok (check_constants ns) (ok []) h in
    let (none, plain) = check_constants-refs ns e in (rw none (ap (map ok) (ok_injective q)), plain)
parse_right-IsRead _ cs h = cc

-- The name, a left side that is read, and a right side.
a_expr-IsRead :
    (kind : AExprKind) (name : Nodes) (l r : Node) (left : Result (List Column)) (cs : List Column)
    → ((ls : List Column) → left ≡ ok ls → IsRead l ls)
    → a_expr_columns kind name left r ≡ ok cs
    → IsRead (a_expr kind name l r) cs
unfolding node_refs has_other
a_expr-IsRead kind name l r left cs ih h =
    let (e, h1) = >>-eq-ok (check_operator kind name) _ h in
    let (ls, e1, h2) = >>=-eq-ok left _ h1 in
    let (rs, e2, q) = >>=-eq-ok (parse_right r) (λ rs. ok (ls ++ rs)) h2 in
    let (none, plain) = check_operator-refs kind name e in
    let (reads_l, plain_l) = ih ls e1 in
    let (reads_r, plain_r) = parse_right-IsRead r rs e2 in
    (
      rw none (
          subst (Reads (node_refs l ++ node_refs r)) (ok_injective q)
            (Reads-append (node_refs l) (node_refs r) ls rs reads_l reads_r)),
      rw (plain, plain_l, plain_r),
    )

parse_left-IsRead : (l : Node) (cs : List Column) → parse_left l ≡ ok cs → IsRead l cs
unfolding parse_left
parse_left-IsRead (a_expr kind name l r) cs h =
    a_expr-IsRead kind name l r (parse_left l) cs (parse_left-IsRead l) h
parse_left-IsRead (column_ref fields) cs h = column_ref-IsRead fields cs h
parse_left-IsRead _ cs h = cc

pub parse_a_expr-IsRead :
    (kind : AExprKind) (name : Nodes) (l r : Node) (cs : List Column)
    → parse_a_expr kind name l r ≡ ok cs
    → IsRead (a_expr kind name l r) cs
unfolding parse_a_expr
parse_a_expr-IsRead kind name l r cs h =
    a_expr-IsRead kind name l r (parse_left l) cs (parse_left-IsRead l) h

parse_null_test-IsRead :
    (arg : Node) (cs : List Column) → parse_null_test arg ≡ ok cs → IsRead arg cs
unfolding parse_null_test
parse_null_test-IsRead (column_ref fields) cs h = column_ref-IsRead fields cs h
parse_null_test-IsRead (a_expr kind name l r) cs h = parse_a_expr-IsRead kind name l r cs h
parse_null_test-IsRead _ cs h = cc

mutual
  unfolding parse_where_clause node_refs has_other

  parse_where-IsRead : (n : Node) (cs : List Column) → parse_where_clause n ≡ ok cs → IsRead n cs
  parse_where-IsRead absent cs h = (ap (map ok) (ok_injective h), refl)
  parse_where-IsRead (bool_expr args) cs h = parse_bool_args-IsRead args cs h
  parse_where-IsRead (a_expr kind name l r) cs h = parse_a_expr-IsRead kind name l r cs h
  parse_where-IsRead (null_test arg) cs h = parse_null_test-IsRead arg cs h
  parse_where-IsRead _ cs h = cc

  parse_bool_args-IsRead :
      (ns : Nodes) (cs : List Column)
      → parse_bool_args ns ≡ ok cs
      → Reads (nodes_refs ns) cs × (some_other ns ≡ false)
  parse_bool_args-IsRead nil cs h = (ap (map ok) (ok_injective h), refl)
  parse_bool_args-IsRead (cons n ns) cs h =
      let (_, h1) = >>-eq-ok (reject_if (not (is_bool_argument n)) _) _ h in
      let (as1, e1, h2) = >>=-eq-ok (parse_where_clause n) _ h1 in
      let (bs, e2, q) = >>=-eq-ok (parse_bool_args ns) (λ bs. ok (as1 ++ bs)) h2 in
      let (reads_n, plain_n) = parse_where-IsRead n as1 e1 in
      let (reads_ns, plain_ns) = parse_bool_args-IsRead ns bs e2 in
      (
        subst (Reads (node_refs n ++ nodes_refs ns)) (ok_injective q)
            (Reads-append (node_refs n) (nodes_refs ns) as1 bs reads_n reads_ns),
        rw (plain_n, plain_ns),
      )

-- An accepted WHERE or JOIN condition holds no node of an unknown kind, so no subquery, at any
-- depth, and its columns are exactly the column references that stand anywhere in it, in order.
pub parse_where_clause-IsRead :
    (n : Node) (cs : List Column) → parse_where_clause n ≡ ok cs → IsRead n cs
parse_where_clause-IsRead n cs h = parse_where-IsRead n cs h
