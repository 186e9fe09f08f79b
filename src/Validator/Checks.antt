-- ===== src/Validator/Checks.antt =====
-- internal/validator/validator.go
pub mod Laws
pub mod Guards
use database_gateway.Common.{
  String, Bool, true, false, not, ◌&&◌, Option, none, some, List, [], ◌∷◌,
}
use database_gateway.Common.{Map, Result, ok, err, ◌>>=◌, ◌>>◌, Error, Sentinel, reject_if}
use database_gateway.Common.{if◌then◌else◌}
use database_gateway.Common.Just.{Just}
use database_gateway.Config.{TargetTable}
use database_gateway.Parser.Ast.{Stmt}
use database_gateway.Validator.Schema.{DbSchema, get_table}
use database_gateway.Validator.Vecs.{Vec, make_vectors}

-- `errors.Join(ErrUnknownTable, ErrAccessDenied)` and its like for columns, wrapped.
abbrev pub unknown_table_error : Error
unknown_table_error = record {
  wraps = Sentinel.unknown_table ∷ Sentinel.access_denied ∷ [];
  text = "not known table";
}

abbrev pub unknown_column_error : Error
unknown_column_error = record {
  wraps = Sentinel.unknown_column ∷ Sentinel.access_denied ∷ [];
  text = "unable to access column";
}

abbrev pub denied_error : Error
denied_error = record { wraps = Sentinel.access_denied ∷ []; text = "denied operation" }

module _ (just : Just) where
  -- The loop over the columns of a vector, against the map of the table's fields.
  unfoldable pub validate_columns : Map (Unit {0}) → List String → Result (Unit {0})
  validate_columns f_map [] = ok tt
  validate_columns f_map (col ∷ cols) = do
    reject_if (not (just.map_contains_key f_map col)) unknown_column_error
    validate_columns f_map cols

  -- One round of the loop over the vectors.
  unfoldable pub validate_vec : DbSchema → Vec → Result (Unit {0})
  unfolding validate_columns
  validate_vec schema vec = elim (get_table schema vec.tbl) [
    | none ↦ err unknown_table_error
    | some tbl ↦ validate_columns (just.slice_to_map tbl.fields) vec.cols
  ]

  unfoldable pub validate_schema : List Vec → DbSchema → Result (Unit {0})
  unfolding validate_vec
  validate_schema [] schema = ok tt
  validate_schema (vec ∷ vectors) schema = do
    validate_vec schema vec
    validate_schema vectors schema

  unfoldable pub validate_access : List Vec → (Vec → Bool) → Result (Unit {0})
  validate_access vectors have_access =
      reject_if (not (just.slice_all Vec vectors have_access)) denied_error

  unfoldable pub is_allowed :
      (String → Option (List Stmt)) → DbSchema → (Vec → Bool) → String → Result (Unit {0})
  unfolding validate_schema validate_access
  is_allowed pg_parse schema have_access query = do
    vectors ← make_vectors just pg_parse query
    validate_schema vectors schema
    validate_access vectors have_access
