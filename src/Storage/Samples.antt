-- ===== src/Storage/Samples.antt =====
-- A database in memory.
pub mod Laws
use database_gateway.Common.{
  ◌≡◌, refl, sym, ap, ◌∙◌, subst, ◌⊎◌, inl, inr, ◌↔◌, ℕ, zero, suc, ◌≤◌, String, Bool, true, false,
  not, Option, none, some, some-injective, List, [], ◌∷◌, length, In, arith, Bool-cases,
  if◌then◌else◌,
}
use database_gateway.Common.Just.{keep}
use database_gateway.App.Values.{ℤ, pos, negsuc}
use database_gateway.App.Requests.{take}
use database_gateway.Storage.Failures.{DbError, Answer, answered, broken, Affected}
use database_gateway.Storage.Database.{
  QueryResultsRow, BookmarksRow, Condition, of_results, of_bookmarks, Select, Statement,
  insert_results, insert_bookmarks, delete_bookmarks, Database, SqlTables,
}

abbrev pub Rows : Type 0
Rows = List QueryResultsRow × List BookmarksRow

abbrev pub not_under : Condition → BookmarksRow → Bool
not_under c r = not (of_bookmarks c r)

abbrev pub run : Statement → Rows → Answer Affected × Rows
run (insert_results r) db = (answered (answered 1), (r ∷ db.0, db.1))
run (insert_bookmarks b) db = (answered (answered 1), (db.0, b ∷ db.1))
run (delete_bookmarks c) db =
    (answered (answered (length (keep db.1 (of_bookmarks c)))), (db.0, keep db.1 (not_under c)))

abbrev pub limited : {A : Type 0} → Option ℤ → List A → List A
limited none rows = rows
limited (some (pos n)) rows = take n rows
limited (some (negsuc n)) rows = []

abbrev pub first_row : List QueryResultsRow → Answer QueryResultsRow
first_row [] = broken (record { is_no_rows = true; pq_code = none; text = "no rows in result set" })
first_row (r ∷ rs) = answered r

abbrev pub memory : Database
memory = record {
  Db = Rows;
  exec = run;
  select_one = λ s db. first_row (keep db.0 (of_results s.where_));
  select_results = λ s db. answered (limited s.limit (keep db.0 (of_results s.where_)));
  select_bookmarks = λ s db. answered (limited s.limit (keep db.1 (of_bookmarks s.where_)));
}
