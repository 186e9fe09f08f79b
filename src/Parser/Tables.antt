-- ===== src/Parser/Tables.antt =====
-- internal/parser/parser.go, `Tables`: the names under which a statement can mention its tables.
-- `Get` recurs with no bound, so it runs here on fuel: two more than the tables put.
pub mod Resolution
pub mod Totality
pub mod Masking
use database_gateway.Common.{ℕ, zero, suc, ◌+◌, String, ◌<>◌, Bool, not, ◌&&◌, Option, none, some}
use database_gateway.Common.{List, [], ◌∷◌, Map, keys, lookup, insert, contains, length, ◌==◌}
use database_gateway.Common.{Result, ok, err, ◌>>=◌, wrapping, Sentinel, if◌then◌else◌}
use database_gateway.Common.Text.{is_empty, ◌=ℕ◌}

pub record Tables : Type 0 where
  pub m : Map String
  pub default_schema : String
  pub sources : ℕ

unfoldable pub new_tables : String → Tables
new_tables default_schema = record { m = []; default_schema = default_schema; sources = 0 }

-- The name with its catalog and schema in front, as far as they are written.
unfoldable pub full_name : String → String → String → String
full_name catalog schema relation =
    (if is_empty catalog then "" else catalog <> ".")
    <> ((if is_empty schema then "" else schema <> ".") <> relation)

-- The writes of `Put` to the map.
unfoldable pub map_names : Map String → String → String → String → String → String → Map String
map_names m default_schema schema relation alias fqtn =
    let m1 = insert relation fqtn m in
    let m2 = insert fqtn fqtn m1 in
    let m3 =
      if is_empty schema && not (is_empty default_schema)
      then insert (default_schema <> ("." <> relation)) fqtn m2
      else m2 in
    if is_empty alias then m3 else insert alias fqtn m3

unfoldable pub put : Tables → String → String → String → String → Result (String × Tables)
unfolding full_name map_names
put t catalog schema relation alias =
    if is_empty relation
    then err (wrapping Sentinel.relation_empty "relation cannot be empty")
    else let fqtn = full_name catalog schema relation in
      ok (
        fqtn,
        record t {
          m = map_names t.m t.default_schema schema relation alias fqtn;
          sources = t.sources + 1;
        },
      )

-- What `Get` returns; `diverges` is a recursion that does not end.
pub data Found : Type 0 where
  diverges missing : Found
  resolved : String → Found

unfoldable pub resolve : ℕ → Map String → String → Found
resolve zero m name = diverges
resolve (suc fuel) m name = elim (lookup name m) [
  | none ↦ missing
  | some res ↦ let rest = resolve fuel m res in if res == name then resolved res else rest
]

unfoldable pub get : Tables → String → Found
unfolding resolve
get t name = resolve (t.sources + 2) t.m name

-- `final[res] = struct{}{}`
unfoldable pub add_unique : String → List String → List String
add_unique x xs = if contains x xs then xs else x ∷ xs

-- The loop of `GetAll` over the keys.
unfoldable pub get_each : Tables → List String → List String → Result (List String)
unfolding get add_unique
get_each t [] final = ok final
get_each t (k ∷ ks) final = elim (get t k) [
  | resolved res ↦ get_each t ks (add_unique res final)
  | missing ↦ err (wrapping Sentinel.invalid_table_mapping "invalid table mapping")
  | diverges ↦ err (wrapping Sentinel.invalid_table_mapping "no end")
]

unfoldable pub get_all : Tables → Result (List String)
unfolding get_each
get_all t = get_each t (keys t.m) []

-- `t.m[""] = all[0]`, if there is one source and one table.
unfoldable pub default_to : Tables → List String → Tables
default_to t (table ∷ []) = if t.sources =ℕ 1 then record t { m = insert "" table t.m } else t
default_to t _ = t

unfoldable pub finalize : Tables → Result Tables
unfolding get_all default_to
finalize t = do tables ← get_all t; ok (default_to t tables)

unfoldable pub len : Tables → Result ℕ
unfolding get_all
len t = do tables ← get_all t; ok (length tables)
