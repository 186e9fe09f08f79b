-- ===== src/App/Effects.antt =====
-- What a request does beyond its own values: the pools that the service keeps (`conns`), and its
-- calls of the target databases and of the storage, in their order. Requests come one after
-- another; Concurrent of Queries is about requests at the same time.
pub mod Laws
pub mod Adds
use database_gateway.Common.{ℕ, String, Option, List, [], ◌∷◌, ◌++◌, Map, Result, ok, err}
use database_gateway.Config.{UserId, TargetId}
use database_gateway.Parser.Ast.{Stmt}
use database_gateway.App.Values.{PgValue, ℤ}

-- A pointer to a `pgxpool.Pool`.
abbrev pub Pool : Type 0
Pool = ℕ

pub record QTable : Type 0 where
  pub headers : List String
  pub rows : List (List String)

pub record QMeta : Type 0 where
  pub execution_time_ms : ℕ
  pub parsing_time_ms : ℕ
  pub network_round_trip_ms : ℕ
  pub rows_count : ℕ
  pub columns_count : ℕ
  pub vectors_count : ℕ

pub record StoredQueryResultPayload : Type 0 where
  pub table : QTable
  pub meta : QMeta

pub record InsertQueryResultsReq : Type 0 where
  pub id : String
  pub user_id : UserId
  pub target_id : TargetId
  pub created_at : ℕ
  pub query : String
  pub response : String

-- `storage.InsertBookmarkReq`
pub record InsertBookmarkReq : Type 0 where
  pub id : String
  pub user_id : UserId
  pub target_id : TargetId
  pub title : String
  pub query : String
  pub created_at : ℕ

-- `storage.Bookmark`
pub record StoredBookmark : Type 0 where
  pub id : String
  pub user_id : UserId
  pub target_id : TargetId
  pub title : String
  pub query : String
  pub created_at : ℕ

-- A row of the table of results, `storage.QueryResult`.
pub record StoredResult : Type 0 where
  pub id : String
  pub user_id : UserId
  pub target_id : TargetId
  pub created_at : ℕ
  pub query : String
  pub response : String

-- A call, whether it succeeds or not.
pub data Event : Type 0 where
  opened : String → Event
  queried : Pool → String → Event
  stored : InsertQueryResultsReq → Event
  bookmarked : InsertBookmarkReq → Event
  unbookmarked : UserId → String → Event

pub record World : Type 0 where
  pub conns : Map Pool
  pub log : List Event

pub record FieldDescription : Type 0 where
  pub name : String

-- The rows of a query, which `pgx.CollectRows` reads, and the descriptions of the fields.
pub record Rows : Type 0 where
  pub collected : Result (List (List PgValue))
  pub field_descriptions : List FieldDescription

-- The readings of the clock in a run of a query, in nanoseconds and in the order of the source.
pub record Clock : Type 0 where
  pub full_round_trip_started_at : ℕ
  pub parsing_started_at : ℕ
  pub parsed_at : ℕ
  pub query_started_at : ℕ
  pub queried_at : ℕ
  pub finished_at : ℕ

-- The answers of the libraries, which may depend on the calls before: the parser of PostgreSQL's
-- grammar, pgxpool.New, Pool.Query, encoding/json, uuid6.New, time.Now and the storage.
pub record Outside : Type 0 where
  pub pg_parse : String → Option (List Stmt)
  pub new_pool : List Event → String → Result Pool
  pub pool_query : List Event → Pool → String → Result Rows
  pub marshal : StoredQueryResultPayload → Result String
  pub new_id : List Event → String
  pub insert_query_results : List Event → InsertQueryResultsReq → Result (Unit {0})
  pub clock : Clock
  pub now : List Event → ℕ
  -- `Format("2006-01-02 15:04:05")`, in the location of the time.
  pub format_time : ℕ → String
  pub unmarshal : String → Result StoredQueryResultPayload
  pub get_query_results_by_id : List Event → String → Result StoredResult
  pub insert_bookmark : List Event → InsertBookmarkReq → Result (Unit {0})
  pub delete_bookmark : List Event → UserId → String → Result (Unit {0})
  pub list_bookmarks : List Event → UserId → TargetId → Result (List StoredBookmark)
  pub list_query_results : List Event → ℤ → ℤ → Result (List StoredResult)
  pub list_query_results_by_user : List Event → UserId → ℤ → Result (List StoredResult)
  pub list_bookmarks_by_user : List Event → UserId → Result (List StoredBookmark)

abbrev pub Run : Type 0 → Type 0
Run A = World → Result A × World

-- After a step: an error ends the run in the state that the step leaves.
abbrev pub next : {A B : Type 0} → Result A × World → (A → Run B) → Result B × World
next (ok a, w) f = f a w
next (err e, w) f = (err e, w)

infixl 5 ◌>>◌ ◌>>=◌
abbrev pub ◌>>=◌ : {A B : Type 0} → Run A → (A → Run B) → Run B
m >>= f = λ w. next (m w) f

abbrev pub ◌>>◌ : {B : Type 0} → Run (Unit {0}) → Run B → Run B
m >> k = m >>= λ _. k

-- A step that calls nothing.
abbrev pub pure_step : {A : Type 0} → Result A → Run A
pure_step r = λ w. (r, w)

-- A value that is new each time, such as an identifier.
abbrev pub asking : {A : Type 0} → (List Event → A) → Run A
asking f = λ w. (ok (f w.log), w)

-- A read of what the storage has.
abbrev pub reading : {A : Type 0} → (List Event → Result A) → Run A
reading f = λ w. (f w.log, w)

-- A call, whose answer depends on the calls before.
abbrev pub calling : {A : Type 0} → Event → (List Event → Result A) → Run A
calling event answer = λ w. (answer w.log, record w { log = w.log ++ (event ∷ []) })
