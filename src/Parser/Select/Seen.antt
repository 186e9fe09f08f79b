-- ===== src/Parser/Select/Seen.antt =====
-- The column references that the loops of handleSelect read.
use database_gateway.Common.{
  ◌≡◌, refl, subst, ◌⊎◌, inl, inr, Bool, true, false, ◌||◌, List, [], ◌∷◌, ◌++◌, map, arith,
}
use database_gateway.Common.{
  ok, ◌>>=◌, >>=-eq-ok, >>-eq-ok, reject_if, ok_injective, Bool-cases, reject_if-eq-ok,
}
use database_gateway.Common.{All, All-append, All-map_to, Some, Some-append_left, Some-append_right}
use mathlib.Core.List.{append-nil}
use database_gateway.Parser.Ast.{
  Node, Nodes, nil, cons, absent, string, column_ref, func_call, res_target, range_var, join_expr,
  sort_by, present, nonempty,
}
use database_gateway.Parser.References.{node_refs, nodes_refs, has_other, some_other}
use database_gateway.Parser.Columns.{Column, p_node_column_ref, is_function_star_arg}
use database_gateway.Parser.Expr.{parse_where_clause}
use database_gateway.Parser.Expr.Reading.{Reads, parse_where_clause-IsRead}
use database_gateway.Parser.Select.{
  check_function, function_columns, target_value, target_columns, sort_columns, group_columns,
  parse_select_join_columns,
}

-- The references are a star each, as in `count(*)`, or stand for one of the columns.
abbrev pub Seen : List Column → List Nodes → Type 0
Seen cs = All (λ fields.
    (is_function_star_arg fields ≡ true) ⊎ Some (λ c. p_node_column_ref fields ≡ ok c) cs)

Seen-left : (cs ds : List Column) (refs : List Nodes) → Seen cs refs → Seen (cs ++ ds) refs
Seen-left cs ds refs h =
    All-map_to
      (λ fields s. elim s [ inl star ↦ inl star | inr read ↦ inr (Some-append_left _ cs ds read) ])
      refs h

Seen-right : (cs ds : List Column) (refs : List Nodes) → Seen ds refs → Seen (cs ++ ds) refs
Seen-right cs ds refs h =
    All-map_to
      (λ fields s. elim s [ inl star ↦ inl star | inr read ↦ inr (Some-append_right _ cs ds read) ])
      refs h

pub Seen-append :
    (cs ds : List Column) (r s : List Nodes) → Seen cs r → Seen ds s → Seen (cs ++ ds) (r ++ s)
Seen-append cs ds r s h k = All-append _ r s (Seen-left cs ds r h) (Seen-right cs ds s k)

pub Reads-Seen : (refs : List Nodes) (cs : List Column) → Reads refs cs → Seen cs refs
Reads-Seen [] cs h = tt
Reads-Seen (fields ∷ refs) [] h = cc
Reads-Seen (fields ∷ refs) (c ∷ cs) h =
    let own : p_node_column_ref fields ≡ ok c = cc in
    let later : map p_node_column_ref refs ≡ map ok cs = cc in
    (inr (inl own), Seen-right (c ∷ []) cs refs (Reads-Seen refs cs later))

-- Nodes whose references are seen, and that hold nothing unknown.
abbrev IsSeen : Nodes → List Column → Type 0
IsSeen ns cs = Seen cs (nodes_refs ns) × (some_other ns ≡ false)

function_columns-IsSeen :
    (ns : Nodes) (cs : List Column) → function_columns ns ≡ ok cs → IsSeen ns cs
unfolding function_columns nodes_refs some_other
function_columns-IsSeen nil cs h = (tt, refl)
function_columns-IsSeen (cons (column_ref fields) rest) cs h =
    elim (Bool-cases (is_function_star_arg fields)) [
      | inl star ↦
          let (seen, plain) = function_columns-IsSeen rest cs (rw star at h) in
          ((inl star, seen), plain)
      | inr other ↦
          let (c, e, h1) = >>=-eq-ok (p_node_column_ref fields) _ (rw other at h) in
          let (ds, e2, q) = >>=-eq-ok (function_columns rest) (λ ds. ok (c ∷ ds)) h1 in
          let (seen, plain) = function_columns-IsSeen rest ds e2 in
          (
            subst (λ x. Seen x (fields ∷ nodes_refs rest)) (ok_injective q)
                (inr (inl e), Seen-right (c ∷ []) ds (nodes_refs rest) seen),
            plain,
          )
    ]
function_columns-IsSeen (cons _ rest) cs h = cc

check_function-refs :
    (name : Nodes)
    → check_function name ≡ ok tt
    → (nodes_refs name ≡ []) × (some_other name ≡ false)
unfolding check_function nodes_refs some_other
check_function-refs (cons (string s) nil) h = (refl, refl)
check_function-refs (cons _ nil) h = cc
check_function-refs (cons (string s) (cons _ _)) h = cc
check_function-refs (cons _ (cons _ _)) h = cc
check_function-refs nil h = cc

present-absent : (n : Node) → present n ≡ false → n ≡ absent
present-absent absent h = refl
present-absent _ h = cc

nonempty-nil : (ns : Nodes) → nonempty ns ≡ false → ns ≡ nil
nonempty-nil nil h = refl
nonempty-nil (cons n ns) h = cc

column_ref-Seen :
    (fields : Nodes) (cs : List Column)
    → (p_node_column_ref fields >>= λ c. ok (c ∷ [])) ≡ ok cs
    → Seen cs (fields ∷ [])
column_ref-Seen fields cs h =
    let (c, e, q) = >>=-eq-ok (p_node_column_ref fields) (λ c. ok (c ∷ [])) h in
    subst (λ x. Seen x (fields ∷ [])) (ok_injective q) (inr (inl e), tt)

or3_false : (a b c : Bool) → (a || b || c) ≡ false → (a ≡ false) × (b ≡ false) × (c ≡ false)
or3_false a b c h = ground arith

target_value-Seen :
    (n : Node) (cs : List Column)
    → target_value n ≡ ok cs
    → Seen cs (node_refs n) × (has_other n ≡ false)
unfolding target_value node_refs has_other
target_value-Seen (column_ref fields) cs h = (column_ref-Seen fields cs h, refl)
target_value-Seen (func_call name args over agg_filter agg_order) cs h =
    let (e, h1) =
      >>-eq-ok (reject_if (present over || present agg_filter || nonempty agg_order) _) _ h in
    let (e2, h2) = >>-eq-ok (check_function name) (function_columns args) h1 in
    let (a, b, c) = or3_false _ _ _ (reject_if-eq-ok _ _ e) in
    let (none, plain) = check_function-refs name e2 in
    let (seen, plain_args) = function_columns-IsSeen args cs h2 in
    (
      rw (none, present-absent over a, present-absent agg_filter b, nonempty-nil agg_order c)
          (rw (append-nil (nodes_refs args)) seen),
      rw (
        plain,
        plain_args,
        present-absent over a,
        present-absent agg_filter b,
        nonempty-nil agg_order c,
      ),
    )
target_value-Seen _ cs h = cc

pub target_columns-IsSeen :
    (ns : Nodes) (cs : List Column) → target_columns ns ≡ ok cs → IsSeen ns cs
unfolding target_columns nodes_refs some_other
target_columns-IsSeen nil cs h = (tt, refl)
target_columns-IsSeen (cons (res_target name indirection val) rest) cs h =
    let (e, h1) = >>-eq-ok (reject_if (nonempty indirection) _) _ h in
    let (as1, e1, h2) = >>=-eq-ok (target_value val) _ h1 in
    let (bs, e2, q) = >>=-eq-ok (target_columns rest) (λ bs. ok (as1 ++ bs)) h2 in
    let (seen, plain) = target_value-Seen val as1 e1 in
    let (seen_rest, plain_rest) = target_columns-IsSeen rest bs e2 in
    let bare = nonempty-nil indirection (reject_if-eq-ok _ _ e) in
    (
      rw bare (
          subst (λ x. Seen x (node_refs val ++ nodes_refs rest)) (ok_injective q)
            (Seen-append as1 bs (node_refs val) (nodes_refs rest) seen seen_rest)),
      rw (bare, plain, plain_rest),
    )
target_columns-IsSeen (cons _ rest) cs h = cc

pub sort_columns-IsSeen : (ns : Nodes) (cs : List Column) → sort_columns ns ≡ ok cs → IsSeen ns cs
unfolding sort_columns nodes_refs some_other
sort_columns-IsSeen nil cs h = (tt, refl)
sort_columns-IsSeen (cons (sort_by use_op (column_ref fields)) rest) cs h =
    let (e, h1) = >>-eq-ok (reject_if (nonempty use_op) _) _ h in
    let (c, e1, h2) = >>=-eq-ok (p_node_column_ref fields) _ h1 in
    let (ds, e2, q) = >>=-eq-ok (sort_columns rest) (λ ds. ok (c ∷ ds)) h2 in
    let (seen, plain) = sort_columns-IsSeen rest ds e2 in
    let bare = nonempty-nil use_op (reject_if-eq-ok _ _ e) in
    (
      rw bare (
          subst (λ x. Seen x (fields ∷ nodes_refs rest)) (ok_injective q)
            (inr (inl e1), Seen-right (c ∷ []) ds (nodes_refs rest) seen)),
      rw (bare, plain),
    )
sort_columns-IsSeen (cons (sort_by use_op _) rest) cs h =
    cc ((>>-eq-ok (reject_if (nonempty use_op) _) _ h).1)
sort_columns-IsSeen (cons _ rest) cs h = cc

pub group_columns-IsSeen : (ns : Nodes) (cs : List Column) → group_columns ns ≡ ok cs → IsSeen ns cs
unfolding group_columns nodes_refs some_other
group_columns-IsSeen nil cs h = (tt, refl)
group_columns-IsSeen (cons (column_ref fields) rest) cs h =
    let (c, e1, h2) = >>=-eq-ok (p_node_column_ref fields) _ h in
    let (ds, e2, q) = >>=-eq-ok (group_columns rest) (λ ds. ok (c ∷ ds)) h2 in
    let (seen, plain) = group_columns-IsSeen rest ds e2 in
    (
      subst (λ x. Seen x (fields ∷ nodes_refs rest)) (ok_injective q)
          (inr (inl e1), Seen-right (c ∷ []) ds (nodes_refs rest) seen),
      plain,
    )
group_columns-IsSeen (cons _ rest) cs h = cc

pub join_columns-Seen :
    (n : Node) (cs : List Column)
    → parse_select_join_columns n ≡ ok cs
    → Seen cs (node_refs n) × (has_other n ≡ false)
unfolding parse_select_join_columns node_refs has_other
join_columns-Seen (range_var tbl) cs h = (tt, refl)
join_columns-Seen (join_expr options larg rarg quals) cs h =
    let (as1, e1, h1) = >>=-eq-ok (parse_select_join_columns larg) _ h in
    let (bs, e2, h2) = >>=-eq-ok (parse_select_join_columns rarg) _ h1 in
    let (ds, e3, q) = >>=-eq-ok (parse_where_clause quals) (λ ds. ok (as1 ++ (bs ++ ds))) h2 in
    let (seen_l, plain_l) = join_columns-Seen larg as1 e1 in
    let (seen_r, plain_r) = join_columns-Seen rarg bs e2 in
    let (reads, plain_q) = parse_where_clause-IsRead quals ds e3 in
    (
      subst (λ x. Seen x (node_refs larg ++ (node_refs rarg ++ node_refs quals))) (ok_injective q)
          (Seen-append as1 (bs ++ ds) (node_refs larg) (node_refs rarg ++ node_refs quals) seen_l (
            Seen-append bs ds (node_refs rarg) (node_refs quals) seen_r
              (Reads-Seen (node_refs quals) ds reads))),
      rw (plain_l, plain_r, plain_q),
    )
join_columns-Seen _ cs h = cc
