-- ===== src/Validator/Vecs.antt =====
-- internal/validator/vecs.go
use database_gateway.Common.{String, Bool, true, false, Option, List, [], ◌∷◌, map}
use database_gateway.Common.{Result, ok, err, Error, Sentinel, not_implemented, complicated_query}
use database_gateway.Common.Just.{Just}
use database_gateway.Config.{Op, op_select, op_insert, op_update, op_delete}
use database_gateway.Parser.Ast.{Stmt}
use database_gateway.Parser.Vectors.{Vector, select_vec, insert_vec, update_vec, delete_vec}
use database_gateway.Parser.Vectors.{select_columns, insert_columns, update_columns, delete_columns}
use database_gateway.Parser.Statement.{parse}

pub record Vec : Type 0 where
  pub op : Op
  pub tbl : String
  pub cols : List String

-- `errors.Is(err, parser2.ErrNotImplemented)`, over the sentinels of an error.
abbrev pub is_not_implemented : List Sentinel → Bool
is_not_implemented [] = false
is_not_implemented (not_implemented ∷ _) = true
is_not_implemented (_ ∷ rest) = is_not_implemented rest

-- `errors.Join(err, ErrComplicatedQuery)` for what is not implemented.
unfoldable pub parse_error : Error → Error
parse_error e = elim (is_not_implemented e.wraps) [
  | true ↦ record e { wraps = complicated_query ∷ e.wraps }
  | false ↦ e
]

module _ (just : Just) where
  -- One round of the loop. The default of the switch is for no vector that the parser makes.
  unfoldable pub make_vec : Vector → Vec
  unfolding select_columns insert_columns update_columns delete_columns
  make_vec (select_vec v) = record { op = op_select; tbl = v.tbl; cols = select_columns just v }
  make_vec (insert_vec v) = record { op = op_insert; tbl = v.tbl; cols = insert_columns just v }
  make_vec (update_vec v) = record { op = op_update; tbl = v.tbl; cols = update_columns just v }
  make_vec (delete_vec v) = record { op = op_delete; tbl = v.tbl; cols = delete_columns just v }

  unfoldable pub make_vectors : (String → Option (List Stmt)) → String → Result (List Vec)
  unfolding make_vec parse_error
  make_vectors pg_parse query = elim (parse pg_parse query) [
    | err e ↦ err (parse_error e)
    | ok res ↦ ok (map make_vec res)
  ]
