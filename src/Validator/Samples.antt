-- ===== src/Validator/Samples.antt =====
-- A target, its schema and an access test that the tests share.
use database_gateway.Common.{String, ◌==◌, Option, none, some, List, [], ◌∷◌, if◌then◌else◌}
use database_gateway.Config.{TargetTable}
use database_gateway.Parser.Ast.{Stmt, select_stmt, delete_stmt}
use database_gateway.Parser.Samples.{select_joined, delete_users}
use database_gateway.Validator.Schema.{DbSchema}

abbrev pub users_table : TargetTable
users_table = record { table = "public.users"; fields = "id" ∷ "name" ∷ [] }

abbrev pub orders_table : TargetTable
orders_table = record { table = "public.orders"; fields = "user_id" ∷ "total" ∷ [] }

abbrev pub shop_schema : DbSchema
shop_schema = record { default_schema = "public"; tables = users_table ∷ orders_table ∷ [] }

-- What the tests' texts are parsed into.
abbrev pub sample_parse : String → Option (List Stmt)
sample_parse query =
    if query == "select"
    then some (select_stmt select_joined ∷ [])
    else if query == "delete"
    then some (delete_stmt delete_users ∷ [])
    else none
