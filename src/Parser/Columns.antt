-- ===== src/Parser/Columns.antt =====
-- internal/parser/parser.go, `Column` and `Columns`, and `pNodeColumnRef` of op_select.go.
use database_gateway.Common.{String, Bool, true, false, List, [], ◌∷◌, map, length}
use database_gateway.Common.{Result, ok, err, ◌>>=◌, plain, wrapping, Sentinel, if◌then◌else◌}
use database_gateway.Common.Text.{join_dot, leb}
use database_gateway.Parser.Ast.{Nodes, nil, cons, string, a_star, a_const}

pub record Column : Type 0 where
  pub table : List String
  pub column : String

-- `Column.Table`
unfoldable pub table_of : Column → String
unfolding join_dot
table_of c = join_dot c.table

-- `tokens[:len(tokens)-1]` and `tokens[len(tokens)-1]` of the tokens `t ∷ ts`.
unfoldable pub split_last : String → List String → Column
split_last t [] = record { table = []; column = t }
split_last t (u ∷ us) =
    let rest = split_last u us in record { table = t ∷ rest.table; column = rest.column }

unfoldable pub parse_column : List String → Result Column
unfolding split_last
parse_column [] = err (plain "expected 0-4 tokens")
parse_column (t ∷ ts) =
    if leb (length ts) 3 then ok (split_last t ts) else err (plain "expected 0-4 tokens")

-- `Columns.ListNames`
unfoldable pub list_names : List Column → List String
list_names = map (λ c. c.column)

-- The loop of `pNodeColumnRef` over the fields.
unfoldable pub field_names : Nodes → Result (List String)
field_names nil = ok []
field_names (cons (string s) rest) = do more ← field_names rest; ok (s ∷ more)
field_names (cons a_star rest) = err (wrapping Sentinel.not_implemented "star expressions")
field_names (cons a_const rest) = err (wrapping Sentinel.not_implemented "constant target field")
field_names (cons _ rest) = err (wrapping Sentinel.not_implemented "columnRef field")

unfoldable pub p_node_column_ref : Nodes → Result Column
unfolding field_names parse_column
p_node_column_ref fields = do tokens ← field_names fields; parse_column tokens

-- The last field is a star: the `*` of `count(*)`.
unfoldable pub is_function_star_arg : Nodes → Bool
is_function_star_arg nil = false
is_function_star_arg (cons a_star nil) = true
is_function_star_arg (cons _ nil) = false
is_function_star_arg (cons _ (cons n ns)) = is_function_star_arg (cons n ns)
