-- ===== src/Parser/Vectors.antt =====
-- The vectors of internal/parser, their `Columns`, and the last loops of the four handlers, which
-- group the columns by table.
pub mod Grouping
pub mod Spread
use database_gateway.Common.{String, List, [], ◌∷◌, ◌++◌, none, some, Map, lookup}
use database_gateway.Common.{insert, Result, ok, err, ◌>>=◌, plain, map}
use database_gateway.Common.Just.{Just}
use database_gateway.Parser.Tables.{Tables, get, resolved, missing, diverges}
use database_gateway.Parser.Columns.{Column, table_of, list_names}

pub record SelectVec : Type 0 where
  pub tbl : String
  pub target : List String
  pub filter : List String
  pub group : List String
  pub sort : List String

pub record InsertVec : Type 0 where
  pub tbl : String
  pub target : List String

pub record UpdateVec : Type 0 where
  pub tbl : String
  pub target : List String
  pub filter : List String

pub record DeleteVec : Type 0 where
  pub tbl : String
  pub target : List String
  pub filter : List String

pub data Vector : Type 0 where
  select_vec : SelectVec → Vector
  insert_vec : InsertVec → Vector
  update_vec : UpdateVec → Vector
  delete_vec : DeleteVec → Vector

-- The two fields that every vector has.
abbrev pub tbl_of : Vector → String
tbl_of (select_vec v) = v.tbl
tbl_of (insert_vec v) = v.tbl
tbl_of (update_vec v) = v.tbl
tbl_of (delete_vec v) = v.tbl

abbrev pub target_of : Vector → List String
target_of (select_vec v) = v.target
target_of (insert_vec v) = v.target
target_of (update_vec v) = v.target
target_of (delete_vec v) = v.target

module _ (just : Just) where
  unfoldable pub select_columns : SelectVec → List String
  select_columns s = just.slice_uniq (s.target ++ (s.group ++ (s.sort ++ s.filter)))

  unfoldable pub insert_columns : InsertVec → List String
  insert_columns s = just.slice_uniq s.target

  unfoldable pub update_columns : UpdateVec → List String
  update_columns s = just.slice_uniq (s.target ++ s.filter)

  unfoldable pub delete_columns : DeleteVec → List String
  delete_columns s = just.slice_uniq (s.target ++ s.filter)

-- `table2target[tbl]`, nil if there is no entry.
unfoldable pub columns_at : String → Map (List Column) → List Column
columns_at tbl m = elim (lookup tbl m) [ none ↦ [] | some columns ↦ columns ]

-- `table2target[tbl] = append(table2target[tbl], column)`, with `tbl` found for the column.
unfoldable pub assign : Tables → Column → Map (List Column) → Result (Map (List Column))
unfolding columns_at table_of
assign t c m = elim (get t (table_of c)) [
  | resolved tbl ↦ ok (insert tbl (columns_at tbl m ++ (c ∷ [])) m)
  | missing ↦ err (plain "table not found")
  | diverges ↦ err (plain "no end")
]

-- The loop of `handleInsert`, `handleUpdate` and `handleDelete` over all columns.
unfoldable pub distribute : Tables → List Column → Map (List Column) → Result (Map (List Column))
unfolding assign
distribute t [] m = ok m
distribute t (c ∷ cs) m = do m' ← assign t c m; distribute t cs m'

-- The loop of the handlers that makes the vectors.
unfoldable pub vectors_of : (String → List String → Vector) → Map (List Column) → List Vector
unfolding list_names
vectors_of make = map (λ (tbl, cols). make tbl (list_names cols))

abbrev pub make_select : String → List String → Vector
make_select tbl cols =
    select_vec (record { tbl = tbl; target = cols; filter = []; group = []; sort = [] })

abbrev pub make_insert : String → List String → Vector
make_insert tbl cols = insert_vec (record { tbl = tbl; target = cols })

abbrev pub make_update : String → List String → Vector
make_update tbl cols = update_vec (record { tbl = tbl; target = cols; filter = [] })

abbrev pub make_delete : String → List String → Vector
make_delete tbl cols = delete_vec (record { tbl = tbl; target = cols; filter = [] })
