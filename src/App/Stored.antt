-- ===== src/App/Stored.antt =====
-- The stored results and the bookmarks of internal/app/service.go. The storage answers in
-- `Outside`, according to the calls before.
pub mod Laws
mod Tests
use database_gateway.Common.{
  ℕ, String, Bool, true, false, not, ◌||◌, List, [], ◌∷◌, Result, ok, err, Error, Sentinel, plain,
  wrapping, reject_if,
}
use database_gateway.Common.Just.{Just}
use database_gateway.Common.Text.{is_empty, trim_space}
use database_gateway.Config.{UserId, TargetId, Target}
use database_gateway.Policy.{Authorizer}
use database_gateway.App.Users.{User, can_read_query_results}
use database_gateway.App.Targets.{get_target_by_id}
use database_gateway.App.Effects.{
  QTable, QMeta, Event, bookmarked, unbookmarked, InsertBookmarkReq, StoredBookmark, StoredResult,
  Outside, Run, ◌>>=◌, ◌>>◌, pure_step, asking, calling,
}

pub record QueryResults : Type 0 where
  pub id : String
  pub user_id : UserId
  pub target_id : TargetId
  pub created_at : ℕ
  pub query : String
  pub q_table : QTable
  pub meta : QMeta

-- `structs.Bookmark`
pub record Bookmark : Type 0 where
  pub id : String
  pub target_id : TargetId
  pub title : String
  pub query : String

-- `errors.Is(err, storage.ErrNotFound)`, over the sentinels of an error.
abbrev pub is_no_record : List Sentinel → Bool
is_no_record [] = false
is_no_record (Sentinel.no_record ∷ _) = true
is_no_record (_ ∷ rest) = is_no_record rest

-- The error for a storage's error.
unfoldable pub lookup_error : Error → Error
lookup_error e = elim (is_no_record e.wraps) [
  | true ↦ wrapping Sentinel.not_found "unknown result id"
  | false ↦ e
]

abbrev pub no_access : Error
no_access = wrapping Sentinel.not_found "user does not have access to this query result"

module _ (outside : Outside) where
  -- A result that the storage has.
  unfoldable pub show_result : User → StoredResult → Result QueryResults
  unfolding can_read_query_results
  show_result user res = elim (can_read_query_results user res.user_id) [
    | false ↦ err no_access
    | true ↦ elim (outside.unmarshal res.response) [
      | err e ↦ err e
      | ok payload ↦ ok (record {
        id = res.id;
        user_id = res.user_id;
        target_id = res.target_id;
        created_at = res.created_at;
        query = res.query;
        q_table = payload.table;
        meta = payload.meta;
      })
    ]
  ]

  unfoldable pub get_query_results : List Event → User → String → Result QueryResults
  unfolding show_result lookup_error
  get_query_results log user qid = elim (outside.get_query_results_by_id log qid) [
    | err e ↦ err (lookup_error e)
    | ok res ↦ show_result user res
  ]

  unfoldable pub delete_bookmark : UserId → String → Run (Unit {0})
  delete_bookmark uid bookmark_id =
      calling (unbookmarked uid bookmark_id) (λ log. outside.delete_bookmark log uid bookmark_id)

  module _ (authorizer : Authorizer) (targets : List Target) where
    unfoldable pub add_bookmark : User → TargetId → String → String → Run (Unit {0})
    add_bookmark user target_id title query = do
      let trimmed_title = trim_space title
      let trimmed_query = trim_space query
      pure_step (
          reject_if (is_empty trimmed_title || is_empty trimmed_query)
            (plain "title and query are required"))
      (target, schema) ← pure_step (get_target_by_id authorizer targets user target_id)
      id ← asking outside.new_id
      created_at ← asking outside.now
      let req : InsertBookmarkReq = record {
        id = id;
        user_id = user.id;
        target_id = target_id;
        title = trimmed_title;
        query = trimmed_query;
        created_at = created_at;
      }
      calling (bookmarked req) (λ log. outside.insert_bookmark log req)

module _ (just : Just) (outside : Outside) where
  unfoldable pub show_bookmark : StoredBookmark → Bookmark
  show_bookmark item = record {
    id = item.id;
    target_id = item.target_id;
    title = item.title;
    query = item.query;
  }

  unfoldable pub list_bookmarks :
      Authorizer → List Target → List Event → User → TargetId → Result (List Bookmark)
  unfolding show_bookmark
  list_bookmarks authorizer targets log user target_id =
      elim (get_target_by_id authorizer targets user target_id) [
        | err e ↦ err e
        | ok found ↦ elim (outside.list_bookmarks log user.id target_id) [
          | err e ↦ err e
          | ok items ↦ ok (just.slice_map StoredBookmark Bookmark items show_bookmark)
        ]
      ]

  unfoldable pub list_all_bookmarks : List Event → UserId → Result (List Bookmark)
  unfolding show_bookmark
  list_all_bookmarks log uid = elim (outside.list_bookmarks_by_user log uid) [
    | err e ↦ err e
    | ok items ↦ ok (just.slice_map StoredBookmark Bookmark items show_bookmark)
  ]
