-- ===== src/Validator/Schema.antt =====
-- internal/validator/schema.go
pub mod Laws
use database_gateway.Common.{String, ◌<>◌, Bool, Option, none, some, List, [], ◌∷◌, contains}
use database_gateway.Common.{if◌then◌else◌}
use database_gateway.Common.Text.{contains_dot}
use database_gateway.Config.{TargetTable}

pub record DbSchema : Type 0 where
  pub default_schema : String
  pub tables : List TargetTable

-- `tblNamesForLookup`
unfoldable pub names_for_lookup : DbSchema → String → List String
unfolding contains_dot
names_for_lookup s tbl_name =
    if contains_dot tbl_name
    then tbl_name ∷ []
    else tbl_name ∷ (s.default_schema <> ("." <> tbl_name)) ∷ []

-- The loop over the tables: the first one with a name of the list.
unfoldable pub first_named : List String → List TargetTable → Option TargetTable
first_named names [] = none
first_named names (t ∷ ts) = if contains t.table names then some t else first_named names ts

unfoldable pub get_table : DbSchema → String → Option TargetTable
unfolding names_for_lookup first_named
get_table s tbl_name = first_named (names_for_lookup s tbl_name) s.tables

unfoldable pub canonical_table : DbSchema → String → String
unfolding get_table
canonical_table s tbl_name = elim (get_table s tbl_name) [ none ↦ tbl_name | some tbl ↦ tbl.table ]
