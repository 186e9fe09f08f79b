-- ===== src/Validator/Tests.antt =====
-- Runs of the validator.
use database_gateway.Parser.Tables.{full_name}
use database_gateway.Parser.Expr.{parse_where_clause}
use database_gateway.Parser.Expr.{p_nodes_to_columns}
use database_gateway.Common.{lookup}
use database_gateway.Parser.Tables.{new_tables}
use database_gateway.Common.{insert}
use database_gateway.Parser.Tables.{put}
use database_gateway.Common.{◌≡◌, refl, ◌↔◌, inl, Bool, true, List, [], ◌∷◌, All, ok, err, ◌>>◌}
use database_gateway.Common.Just.{sample_just}
use database_gateway.Common.Text.{contains_dot}
use database_gateway.Config.{op_select, op_delete}
use database_gateway.Parser.Samples.{joined}
use database_gateway.Parser.Select.Sources.{range_vars, IsUnmasked}
use database_gateway.Parser.Statement.{handle, parse}
use database_gateway.Validator.Schema.{get_table}
use database_gateway.Validator.Vecs.{Vec, make_vectors}
use database_gateway.Validator.Checks.{
  validate_schema, validate_access, is_allowed, unknown_table_error,
}
use database_gateway.Validator.Checks.Laws.{IsKnown, is_allowed_iff}
use database_gateway.Validator.Samples.{shop_schema, sample_parse}

abbrev everything : Vec → Bool
everything v = true

qualified_users : contains_dot "public.users" ≡ true
unfolding contains_dot
qualified_users = refl

qualified_orders : contains_dot "public.orders" ≡ true
unfolding contains_dot
qualified_orders = refl

abbrev user_vecs : List Vec
user_vecs =
    record { op = op_select; tbl = "users"; cols = "id" ∷ "name" ∷ [] }
    ∷ record { op = op_delete; tbl = "public.orders"; cols = "total" ∷ [] }
    ∷ []

is_allowed_example :
    (is_allowed sample_just sample_parse shop_schema everything "select" ≡ ok tt) ↔ (
      (vectors : List Vec) × (make_vectors sample_just sample_parse "select" ≡ ok vectors)
      × All (IsKnown shop_schema) vectors
      × All (λ v. everything v ≡ true) vectors)
is_allowed_example = is_allowed_iff sample_just sample_parse shop_schema everything "select"

abbrev strange_vecs : List Vec
strange_vecs = record { op = op_select; tbl = "secrets"; cols = [] } ∷ []

refused_secrets :
    (validate_schema sample_just strange_vecs shop_schema
      >> validate_access sample_just strange_vecs everything)
    ≡ err unknown_table_error
unfolding validate_schema validate_access get_table
refused_secrets = refl

select_allowed : is_allowed sample_just sample_parse shop_schema everything "select" ≡ ok tt
unfolding is_allowed make_vectors parse handle put insert new_tables lookup parse_where_clause
    get_table
select_allowed = refl

IsUnmasked-joined : IsUnmasked (range_vars joined)
unfolding range_vars full_name
IsUnmasked-joined = ((inl refl, tt), (tt, tt))

delete_allowed : is_allowed sample_just sample_parse shop_schema everything "delete" ≡ ok tt
unfolding is_allowed make_vectors parse handle put insert new_tables lookup p_nodes_to_columns
    parse_where_clause get_table
delete_allowed = refl
