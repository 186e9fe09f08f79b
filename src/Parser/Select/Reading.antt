-- ===== src/Parser/Select/Reading.antt =====
-- Every column reference of an accepted `SELECT` is among the columns of its vectors.
use database_gateway.Common.{Bool, ◌||◌, List, ◌++◌}
use database_gateway.Parser.Ast.{Nodes, SelectStmt}
use database_gateway.Parser.References.{node_refs, nodes_refs, has_other, some_other}
use database_gateway.Parser.Select.Seen.{Seen}

-- The parts of a `SELECT` that its columns are read from: targets, condition, `FROM`, sort and
-- group clause. The limits are no part of it.
abbrev pub select_refs : SelectStmt → List Nodes
select_refs sel =
    nodes_refs sel.target_list
    ++ (node_refs sel.where_clause
        ++ (nodes_refs sel.from_clause
            ++ (nodes_refs sel.sort_clause ++ nodes_refs sel.group_clause)))

abbrev pub select_has_other : SelectStmt → Bool
select_has_other sel =
    some_other sel.target_list
    || has_other sel.where_clause
    || some_other sel.from_clause
    || some_other sel.sort_clause
    || some_other sel.group_clause
