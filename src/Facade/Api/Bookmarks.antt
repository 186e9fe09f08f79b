-- ===== src/Facade/Api/Bookmarks.antt =====
-- The calls about bookmarks of internal/facade/api_lrpc.go.
use database_gateway.Common.{
  String, ◌||◌, Option, List, Result, ok, wrapping, Sentinel, reject_if, if◌then◌else◌,
}
use database_gateway.Common.Just.{Just}
use database_gateway.Common.Text.{is_empty, trim_space}
use database_gateway.Config.{TargetId, Target}
use database_gateway.Policy.{Authorizer}
use database_gateway.App.Users.{User}
use database_gateway.App.Effects.{Outside, Run, ◌>>=◌, ◌>>◌, pure_step, reading}
use database_gateway.App.Stored.{
  Bookmark, add_bookmark, delete_bookmark, list_bookmarks, list_all_bookmarks,
}
use database_gateway.Facade.Api.Caller.{user_from_api_token, parse_id}

-- `Bookmark` of internal/facade/api_lrpc.go
pub record ApiBookmark : Type 0 where
  pub id : String
  pub target_id : TargetId
  pub title : String
  pub query : String

pub record BookmarksAddReq : Type 0 where
  pub target_id : String
  pub title : String
  pub query : String

unfoldable pub bookmarks_delete :
    Outside → (String → Result String) → Option User → String → Run (Unit {0})
unfolding user_from_api_token parse_id
bookmarks_delete outside parse_ulid caller id = do
  user ← pure_step (user_from_api_token caller)
  bookmark_id ← pure_step (parse_id parse_ulid "bad bookmark id" (trim_space id))
  delete_bookmark outside user.id bookmark_id

unfoldable pub show_api_bookmark : Bookmark → ApiBookmark
show_api_bookmark bookmark = record {
  id = bookmark.id;
  target_id = bookmark.target_id;
  title = bookmark.title;
  query = bookmark.query;
}

module _ (just : Just) (outside : Outside) (authorizer : Authorizer) (targets : List Target) where
  unfoldable pub bookmarks_list : Option User → String → Run (List ApiBookmark)
  unfolding user_from_api_token show_api_bookmark
  bookmarks_list caller target_id = do
    user ← pure_step (user_from_api_token caller)
    let trimmed = trim_space target_id
    bookmarks ← reading (λ log.
        if is_empty trimmed
        then list_all_bookmarks just outside log user.id
        else list_bookmarks just outside authorizer targets log user trimmed)
    pure_step (ok (just.slice_map Bookmark ApiBookmark bookmarks show_api_bookmark))

module _ (outside : Outside) (authorizer : Authorizer) (targets : List Target) where
  unfoldable pub bookmarks_add : Option User → BookmarksAddReq → Run (Unit {0})
  unfolding user_from_api_token
  bookmarks_add caller req = do
    user ← pure_step (user_from_api_token caller)
    let target_id = trim_space req.target_id
    let title = trim_space req.title
    let query = trim_space req.query
    pure_step (
        reject_if (is_empty target_id || (is_empty title || is_empty query))
          (wrapping Sentinel.bad_input "target_id, title and query are required"))
    add_bookmark outside authorizer targets user target_id title query
