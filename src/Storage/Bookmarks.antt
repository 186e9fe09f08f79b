-- ===== src/Storage/Bookmarks.antt =====
-- The operations on bookmarks of internal/storage/api.go.
pub mod Laws
use database_gateway.Common.{String, true, Option, none, some, List, map, Result, ok, err}
use database_gateway.Config.{UserId, TargetId}
use database_gateway.App.Effects.{InsertBookmarkReq, StoredBookmark}
use database_gateway.Storage.Failures.{Answer, answered, broken, Affected, handle_error, handled}
use database_gateway.Storage.Database.{
  BookmarksRow, Condition, id_eq, user_id_eq, target_id_eq, both, Select, Statement,
  insert_bookmarks, delete_bookmarks, Database,
}

unfoldable pub bookmarks_row : InsertBookmarkReq → BookmarksRow
bookmarks_row req = record {
  id = req.id;
  user_id = req.user_id;
  target_id = req.target_id;
  title = req.title;
  query = req.query;
  created_at = req.created_at;
}

-- One round of the loop over the rows.
unfoldable pub stored_bookmark : BookmarksRow → StoredBookmark
stored_bookmark item = record {
  id = item.id;
  user_id = item.user_id;
  target_id = item.target_id;
  title = item.title;
  query = item.query;
  created_at = item.created_at;
}

-- What `handleError` makes of a statement's answer.
unfoldable pub checked {ℓ} : {D : Type ℓ} → Answer Affected × D → Result (Unit {0}) × D
unfolding handle_error
checked (broken e, db) = (handle_error (some e) none, db)
checked (answered res, db) = (handle_error none (some res), db)

module _ (d : Database) where
  unfoldable pub insert_bookmark : InsertBookmarkReq → d.Db → Result (Unit {0}) × d.Db
  unfolding checked bookmarks_row
  insert_bookmark req db = checked (d.exec (insert_bookmarks (bookmarks_row req)) db)

  unfoldable pub delete_bookmark : UserId → String → d.Db → Result (Unit {0}) × d.Db
  unfolding checked
  delete_bookmark uid bookmark_id db =
      checked (d.exec (delete_bookmarks (both (id_eq bookmark_id) (user_id_eq uid))) db)

  abbrev pub newest : Condition → Select
  newest c = record { where_ = c; newest_first = true; limit = none; offset = none }

  unfoldable pub list_bookmarks : UserId → TargetId → d.Db → Result (List StoredBookmark)
  unfolding handled stored_bookmark
  list_bookmarks uid target_id db =
      handled (d.select_bookmarks (newest (both (user_id_eq uid) (target_id_eq target_id))) db)
        (map stored_bookmark)

  unfoldable pub list_bookmarks_by_user : UserId → d.Db → Result (List StoredBookmark)
  unfolding handled stored_bookmark
  list_bookmarks_by_user uid db =
      handled (d.select_bookmarks (newest (user_id_eq uid)) db) (map stored_bookmark)
