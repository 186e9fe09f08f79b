-- ===== src/Parser/Statement.antt =====
-- `Parse` of internal/parser/parser.go. The parser of PostgreSQL's grammar is a library: it is the
-- argument `pg_parse`, which gives the statements of a text, or none if the text is refused.
pub mod Written
pub mod Condition
use database_gateway.Common.{
  String, List, [], ◌∷◌, Option, none, some, Result, err, plain, wrapping,
}
use database_gateway.Common.{Sentinel}
use database_gateway.Parser.Ast.{
  Stmt, select_stmt, insert_stmt, update_stmt, delete_stmt, other_stmt,
}
use database_gateway.Parser.Vectors.{Vector}
use database_gateway.Parser.Select.{handle_select}
use database_gateway.Parser.Write.{handle_insert, handle_update, handle_delete}

-- The switch on the root node.
unfoldable pub handle : Stmt → Result (List Vector)
unfolding handle_select handle_insert handle_update handle_delete
handle (select_stmt node) = handle_select node
handle (insert_stmt node) = handle_insert node
handle (update_stmt node) = handle_update node
handle (delete_stmt node) = handle_delete node
handle other_stmt = err (wrapping Sentinel.not_implemented "unsupported root node type")

unfoldable pub parse : (String → Option (List Stmt)) → String → Result (List Vector)
unfolding handle
parse pg_parse query = elim (pg_parse query) [
  | none ↦ err (plain "parse error")
  | some (root ∷ []) ↦ handle root
  | some _ ↦ err (plain "expected 1 statement")
]
