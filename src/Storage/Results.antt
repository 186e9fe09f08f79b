-- ===== src/Storage/Results.antt =====
-- The operations on stored results of internal/storage/api.go.
pub mod Laws
use database_gateway.Common.{String, true, false, Option, none, some, List, map, Result}
use database_gateway.Config.{UserId}
use database_gateway.App.Values.{ℤ, pos}
use database_gateway.App.Effects.{InsertQueryResultsReq, StoredResult}
use database_gateway.Storage.Failures.{handled}
use database_gateway.Storage.Bookmarks.{checked}
use database_gateway.Storage.Database.{
  QueryResultsRow, Condition, always, id_eq, user_id_eq, Select, Statement, insert_results,
  Database,
}

unfoldable pub results_row : InsertQueryResultsReq → QueryResultsRow
results_row req = record {
  id = req.id;
  user_id = req.user_id;
  target_id = req.target_id;
  created_at = req.created_at;
  query = req.query;
  response = req.response;
}

-- One round of the loop over the rows.
unfoldable pub stored_result : QueryResultsRow → StoredResult
stored_result item = record {
  id = item.id;
  user_id = item.user_id;
  target_id = item.target_id;
  created_at = item.created_at;
  query = item.query;
  response = item.response;
}

module _ (d : Database) where
  unfoldable pub insert_query_results : InsertQueryResultsReq → d.Db → Result (Unit {0}) × d.Db
  unfolding checked results_row
  insert_query_results req db = checked (d.exec (insert_results (results_row req)) db)

  unfoldable pub get_query_results_by_id : String → d.Db → Result StoredResult
  unfolding handled stored_result
  get_query_results_by_id query_id db =
      handled
        (d.select_one
          (record {
            where_ = id_eq query_id;
            newest_first = false;
            limit = some (pos 1);
            offset = none;
          })
          db)
        stored_result

  unfoldable pub list_query_results_by_user : UserId → ℤ → d.Db → Result (List StoredResult)
  unfolding handled stored_result
  list_query_results_by_user uid limit db =
      handled
        (d.select_results
          (record {
            where_ = user_id_eq uid;
            newest_first = true;
            limit = some limit;
            offset = none;
          })
          db)
        (map stored_result)

  unfoldable pub list_query_results : ℤ → ℤ → d.Db → Result (List StoredResult)
  unfolding handled stored_result
  list_query_results limit offset db =
      handled
        (d.select_results
          (record {
            where_ = always;
            newest_first = true;
            limit = some limit;
            offset = some offset;
          })
          db)
        (map stored_result)
