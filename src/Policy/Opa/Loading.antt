-- ===== src/Policy/Opa/Loading.antt =====
-- `New`, `LoadModules` and `prepareQuery` of internal/policy/opa/authorizer.go: from a directory of
-- policy files to the two prepared queries. What os reads and what OPA prepares are arguments.
mod Extension
pub mod Laws
pub mod Order
mod Tests
use database_gateway.Common.{
  String, Bool, true, false, not, ◌&&◌, ◌||◌, ◌==◌, Option, none, some, List, [], ◌∷◌, map, Map,
  keys, lookup, insert, Result, ok, err, plain, ◌>>=◌, ◌>>◌, reject_if, if◌then◌else◌,
}
use Prim.Native.Char.{code}
use Prim.Native.String
use database_gateway.Common.Text.{is_empty, ◌=ℕ◌}
use database_gateway.Common.Sorting.{sort}
use database_gateway.Policy.Opa.{PreparedQuery, OpaAuthorizer}

abbrev pub contains_slash : String → Bool
contains_slash String.[] = false
contains_slash (String.◌∷◌ c s) = code c =ℕ b'/' || contains_slash s

-- `filepath.Ext`: from the last dot of the last part of the path.
unfoldable pub file_ext : String → String
file_ext String.[] = ""
file_ext (String.◌∷◌ c s) =
    let rest = file_ext s in
    if not (is_empty rest)
    then rest
    else if code c =ℕ b'.' && not (contains_slash s)
    then String.◌∷◌ c s
    else ""

-- `os.DirEntry`
pub record DirEntry : Type 0 where
  pub name : String
  pub is_dir : Bool

-- `os.ReadDir`, and `os.ReadFile` of the path that joins a directory and a name.
pub record Files : Type 0 where
  pub read_dir : String → Result (List DirEntry)
  pub read_file : String → String → Result String

unfoldable pub is_policy : DirEntry → Bool
unfolding file_ext
is_policy entry = not (entry.is_dir || not (file_ext entry.name == ".rego"))

-- `len(modules) == 0`
abbrev pub is_none : Map String → Bool
is_none [] = true
is_none (_ ∷ _) = false

module _ (files : Files) where
  -- The loop over the entries.
  unfoldable pub load_entries : String → List DirEntry → Map String → Result (Map String)
  unfolding is_policy
  load_entries dir [] modules = ok modules
  load_entries dir (entry ∷ entries) modules =
      let skipped = load_entries dir entries modules in
      let loaded = do
        buf ← files.read_file dir entry.name
        load_entries dir entries (insert entry.name buf modules)
      in if is_policy entry then loaded else skipped

  unfoldable pub load_modules : String → Result (Map String)
  unfolding load_entries
  load_modules dir = do
    entries ← files.read_dir dir
    modules ← load_entries dir entries []
    reject_if (is_none modules) (plain "no .rego files found")
    ok modules

abbrev pub query_allow_target : String
query_allow_target = "x = data.gateway.allow_target"

abbrev pub query_allow_query : String
query_allow_query = "x = data.gateway.allow_query"

-- `oparego.Module(name, modules[name])`; a missing key reads as "".
unfoldable pub module_option : Map String → String → String × String
module_option modules name = (name, elim (lookup name modules) [ none ↦ "" | some text ↦ text ])

-- `oparego.New` with the query and the modules, and `PrepareForEval`.
abbrev pub Prepare : Type 0
Prepare = String → List (String × String) → Result PreparedQuery

module _ (prepare : Prepare) where
  unfoldable pub prepare_query : Map String → String → Result PreparedQuery
  unfolding module_option
  prepare_query modules query = prepare query (map (module_option modules) (sort (keys modules)))

  unfoldable pub new : Map String → Result OpaAuthorizer
  unfolding prepare_query
  new modules = do
    target_query ← prepare_query modules query_allow_target
    query_query ← prepare_query modules query_allow_query
    ok (record { target_query = target_query; query_query = query_query })
