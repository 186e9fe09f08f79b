-- ===== src/Storage/Database.antt =====
-- The statements that internal/storage/api.go builds with go-jet, and the database that runs them.
-- The database is a parameter: operations with the behaviour that SQL documents, stated of the rows
-- that its two tables hold. Identifiers are opaque: `ToUUID` and `FromUUID` keep their bytes.
use database_gateway.Common.{
  ◌≡◌, ◌↔◌, ◌⊎◌, ℕ, suc, ◌≤◌, String, ◌==◌, Bool, true, false, ◌&&◌, Option, none, some, List, In,
  length,
}
use database_gateway.App.Values.{ℤ, pos}
use database_gateway.Storage.Failures.{DbError, Answer, answered, broken, Affected}

-- `model.QueryResults`
pub record QueryResultsRow : Type 0 where
  pub id : String
  pub user_id : String
  pub target_id : String
  pub created_at : ℕ
  pub query : String
  pub response : String

-- `model.Bookmarks`
pub record BookmarksRow : Type 0 where
  pub id : String
  pub user_id : String
  pub target_id : String
  pub title : String
  pub query : String
  pub created_at : ℕ

-- The conditions of WHERE.
pub data Condition : Type 0 where
  always : Condition
  id_eq user_id_eq target_id_eq : String → Condition
  both : Condition → Condition → Condition

-- What a condition says of a row's identifier, user and target.
abbrev pub holds : Condition → String → String → String → Bool
holds always id user_id target_id = true
holds (id_eq x) id user_id target_id = id == x
holds (user_id_eq x) id user_id target_id = user_id == x
holds (target_id_eq x) id user_id target_id = target_id == x
holds (both c d) id user_id target_id = holds c id user_id target_id && holds d id user_id target_id

abbrev pub of_results : Condition → QueryResultsRow → Bool
of_results c r = holds c r.id r.user_id r.target_id

abbrev pub of_bookmarks : Condition → BookmarksRow → Bool
of_bookmarks c r = holds c r.id r.user_id r.target_id

-- A SELECT of all columns, the newest rows first if it is ordered.
pub record Select : Type 0 where
  pub where_ : Condition
  pub newest_first : Bool
  pub limit : Option ℤ
  pub offset : Option ℤ

pub data Statement : Type 0 where
  insert_results : QueryResultsRow → Statement
  insert_bookmarks : BookmarksRow → Statement
  delete_bookmarks : Condition → Statement

pub record Database : Type 1 where
  pub Db : Type 0
  pub exec : Statement → Db → Answer Affected × Db
  -- a SELECT into one row, and into a list of rows
  pub select_one : Select → Db → Answer QueryResultsRow
  pub select_results : Select → Db → Answer (List QueryResultsRow)
  pub select_bookmarks : Select → Db → Answer (List BookmarksRow)

-- What SQL promises: the rows of the two tables, which a SELECT reads and a statement changes.
pub record SqlTables (d : Database) : Type 0 where
  pub results : d.Db → List QueryResultsRow
  pub bookmarks : d.Db → List BookmarksRow
  -- a SELECT gives rows of the table under its condition, all of them if it has no limit
  pub select_results_only :
      (s : Select) (db : d.Db) (rows : List QueryResultsRow) (r : QueryResultsRow)
      → d.select_results s db ≡ answered rows
      → In r rows
      → In r (results db) × (of_results s.where_ r ≡ true)
  pub select_results_limit :
      (s : Select) (db : d.Db) (rows : List QueryResultsRow) (n : ℕ)
      → d.select_results s db ≡ answered rows
      → s.limit ≡ some (pos n)
      → length rows ≤ n
  pub select_bookmarks_all :
      (s : Select) (db : d.Db) (rows : List BookmarksRow) (r : BookmarksRow)
      → d.select_bookmarks s db ≡ answered rows
      → s.limit ≡ none
      → s.offset ≡ none
      → In r rows ↔ (In r (bookmarks db) × (of_bookmarks s.where_ r ≡ true))
  -- a SELECT into one row gives such a row, or fails with no rows where there is none
  pub select_one_only :
      (s : Select) (db : d.Db) (r : QueryResultsRow)
      → d.select_one s db ≡ answered r
      → In r (results db) × (of_results s.where_ r ≡ true)
  pub select_one_none :
      (s : Select) (db : d.Db) (e : DbError) (r : QueryResultsRow)
      → d.select_one s db ≡ broken e
      → e.is_no_rows ≡ true
      → In r (results db)
      → of_results s.where_ r ≡ false
  -- an INSERT adds its row, a DELETE takes the rows under its condition, and counts them
  pub insert_bookmarks_adds :
      (b r : BookmarksRow) (db db' : d.Db) (n : Affected)
      → d.exec (insert_bookmarks b) db ≡ (answered n, db')
      → In r (bookmarks db') ↔ (In r (bookmarks db) ⊎ (r ≡ b))
  pub delete_bookmarks_takes :
      (c : Condition) (r : BookmarksRow) (db db' : d.Db) (n : Affected)
      → d.exec (delete_bookmarks c) db ≡ (answered n, db')
      → In r (bookmarks db') ↔ (In r (bookmarks db) × (of_bookmarks c r ≡ false))
  pub delete_bookmarks_some :
      (c : Condition) (db db' : d.Db) (n : ℕ)
      → d.exec (delete_bookmarks c) db ≡ (answered (answered (suc n)), db')
      → (r : BookmarksRow) × In r (bookmarks db) × (of_bookmarks c r ≡ true)
  pub delete_bookmarks_none :
      (c : Condition) (db db' : d.Db) (r : BookmarksRow)
      → d.exec (delete_bookmarks c) db ≡ (answered (answered 0), db')
      → In r (bookmarks db)
      → of_bookmarks c r ≡ false
  -- a statement that fails changes nothing
  pub broken_keeps :
      (st : Statement) (db db' : d.Db) (e : DbError) → d.exec st db ≡ (broken e, db') → db' ≡ db
