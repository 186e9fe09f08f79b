-- ===== src/Parser/Tests.antt =====
-- Runs of the parser.
use database_gateway.Parser.Expr.{p_nodes_to_columns}
use database_gateway.Parser.Tables.{full_name}
use database_gateway.Common.{insert}
use database_gateway.Common.{
  ◌≡◌, refl, ◌≢◌, String, true, false, List, [], ◌∷◌, In, inl, lookup, ok, All, Some, contains,
}
use database_gateway.Parser.Ast.{Node, a_const, column_ref, delete_stmt}
use database_gateway.Parser.Columns.{Column, p_node_column_ref}
use database_gateway.Parser.References.{node_refs, has_other}
use database_gateway.Parser.Samples.{
  column, equals, users, joined, select_joined, secrets, users_as_secrets, masking_join,
  select_masked, delete_users, insert_users,
}
use database_gateway.Parser.Tables.{Tables, new_tables, full_name, put, get, finalize, diverges}
use database_gateway.Parser.Tables.Resolution.{Collected, fresh, another, finalized, put_names}
use database_gateway.Parser.Tables.Totality.{get-ne-diverges_of_Built}
use database_gateway.Parser.Expr.{parse_where_clause}
use database_gateway.Parser.Vectors.{
  Vector, tbl_of, target_of, make_select, make_insert, make_delete,
}
use database_gateway.Parser.Select.{handle_select}
use database_gateway.Parser.Select.Sources.{range_vars, full_name_of, names_of, IsUnmasked}
use database_gateway.Parser.Select.Coverage.{handle_select-covers, handle_select-masks}
use database_gateway.Parser.Write.{handle_insert}
use database_gateway.Parser.Write.Values.{
  without_values, conflict_without_values, handle_insert-without_values,
}
use database_gateway.Parser.Statement.{handle}
use database_gateway.Parser.Statement.Written.{handle-checks}
use database_gateway.Parser.Statement.Condition.{handle-condition, condition}

-- The tables of `FROM users u`.
abbrev users_tables : Tables
users_tables = record {
  m = ("users", "users") ∷ ("public.users", "users") ∷ ("u", "users") ∷ [];
  default_schema = "public";
  sources = 1;
}

put_users : put (new_tables "public") "" "" "users" "u" ≡ ok ("users", users_tables)
unfolding put new_tables insert
put_users = refl

users-Collected : Collected users_tables
users-Collected = another "" "" "users" "u" (fresh "public") put_users

abbrev users_final : Tables
users_final = record {
  m = ("users", "users") ∷ ("public.users", "users") ∷ ("u", "users") ∷ ("", "users") ∷ [];
  default_schema = "public";
  sources = 1;
}

finalize_users : finalize users_tables ≡ ok users_final
unfolding finalize lookup insert
finalize_users = refl

get-ne-diverges_example : get users_final "nobody" ≢ diverges
get-ne-diverges_example =
    get-ne-diverges_of_Built (finalized users-Collected finalize_users) "nobody"

u-listed :
    contains "u" (put_names (new_tables "public").default_schema "" "users" "u" "users") ≡ true
unfolding put_names new_tables
u-listed = refl

-- `u.id = 1`
abbrev by_id : Node
by_id = equals (column_ref (column "u" "id")) a_const

abbrev id_column : Column
id_column = record { table = "u" ∷ []; column = "id" }

parse_by_id : parse_where_clause by_id ≡ ok (id_column ∷ [])
unfolding parse_where_clause
parse_by_id = refl

abbrev joined_vectors : List Vector
joined_vectors =
    make_select "users" ("name" ∷ "id" ∷ [])
    ∷ make_select "public.orders" ("total" ∷ "user_id" ∷ [])
    ∷ []

joined_read : handle_select select_joined ≡ ok joined_vectors
unfolding handle_select put insert new_tables lookup parse_where_clause
joined_read = refl

joined-IsUnmasked : IsUnmasked (range_vars joined)
unfolding range_vars full_name
joined-IsUnmasked = ((inl refl, tt), (tt, tt))

handle_select-covers_example :
    All (λ r. Some (λ v. tbl_of v ≡ full_name_of r) joined_vectors) (range_vars joined)
handle_select-covers_example =
    handle_select-covers select_joined joined joined_vectors refl joined-IsUnmasked joined_read

abbrev masked_vectors : List Vector
masked_vectors = make_select "users" ("id" ∷ "id" ∷ "id" ∷ []) ∷ []

masked_read : handle_select select_masked ≡ ok masked_vectors
unfolding handle_select put insert new_tables lookup parse_where_clause
masked_read = refl

masking_vars : range_vars masking_join ≡ secrets ∷ users_as_secrets ∷ []
unfolding range_vars
masking_vars = refl

names-masked : contains "secrets" (names_of users_as_secrets) ≡ true
unfolding full_name
names-masked = refl

users-ne-secrets : full_name_of users_as_secrets ≢ "secrets"
unfolding full_name
users-ne-secrets e = let h : ◌≡◌ {A = String} "users" "secrets" = e in cc

handle_select-masks_example : ¬ Some (λ v. tbl_of v ≡ "secrets") masked_vectors
handle_select-masks_example =
    handle_select-masks select_masked masking_join (secrets ∷ []) users_as_secrets "secrets"
      masked_vectors refl masking_vars names-masked users-ne-secrets masked_read

handle_insert-without_values_example :
    handle_insert (record insert_users {
      returning_list = without_values insert_users.returning_list;
      on_conflict = conflict_without_values insert_users.on_conflict;
    })
    ≡ handle_insert insert_users
handle_insert-without_values_example = handle_insert-without_values insert_users

abbrev deleted_vectors : List Vector
deleted_vectors = make_delete "users" ("name" ∷ "id" ∷ []) ∷ []

deleted_read : handle (delete_stmt delete_users) ≡ ok deleted_vectors
unfolding handle put insert new_tables lookup p_nodes_to_columns parse_where_clause
deleted_read = refl

handle-checks_example : Some (λ v. tbl_of v ≡ full_name_of users) deleted_vectors
handle-checks_example =
    handle-checks (delete_stmt delete_users) users deleted_vectors refl tt deleted_read

handle-condition_example :
    All
      (λ fields.
        (c : Column) × (p_node_column_ref fields ≡ ok c)
        × Some (λ v. In c.column (target_of v)) deleted_vectors)
      (node_refs (condition (delete_stmt delete_users)))
    × (has_other (condition (delete_stmt delete_users)) ≡ false)
handle-condition_example = handle-condition (delete_stmt delete_users) deleted_vectors deleted_read

-- A subquery under a name of RETURNING, or assigned on a conflict, passes.
insert_passes : handle_insert insert_users ≡ ok (make_insert "users" ("name" ∷ "name" ∷ []) ∷ [])
unfolding handle_insert put finalize insert new_tables lookup p_nodes_to_columns
insert_passes = refl
