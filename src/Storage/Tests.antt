-- ===== src/Storage/Tests.antt =====
-- Runs of the storage.
use database_gateway.App.Requests.{take}
use database_gateway.Common.{
  ◌≡◌, ◌≢◌, refl, ◌↔◌, ℕ, ◌≤◌, String, none, [], ◌∷◌, length, In, All, Result, ok, err, Sentinel,
  wrapping, plain,
}
use database_gateway.App.Values.{pos}
use database_gateway.App.Samples.{anna, sample_outside}
use database_gateway.App.Effects.{InsertBookmarkReq, StoredBookmark, StoredResult, Outside}
use database_gateway.App.Stored.{QueryResults, get_query_results}
use database_gateway.App.Stored.Laws.{IsReader}
use database_gateway.Storage.Failures.{no_record_found, no_rows_affected}
use database_gateway.Storage.Database.{QueryResultsRow, BookmarksRow}
use database_gateway.Storage.Samples.{Rows, memory}
use database_gateway.Storage.Samples.Laws.{memory_tables}
use database_gateway.Storage.Bookmarks.{stored_bookmark, delete_bookmark, list_bookmarks}
use database_gateway.Storage.Bookmarks.Laws.{IsNamed, delete_bookmark-takes, list_bookmarks_iff}
use database_gateway.Storage.Results.{
  stored_result, get_query_results_by_id, list_query_results_by_user,
}
use database_gateway.Storage.Results.Laws.{
  list_query_results_by_user-own, get_query_results-row, get_query_results-missing,
}
use database_gateway.Storage.Transactions.{Transactions}

abbrev bookmark_of : String → String → BookmarksRow
bookmark_of id user_id = record {
  id = id;
  user_id = user_id;
  target_id = "shop";
  title = "all";
  query = "select";
  created_at = 1;
}

abbrev result_of : String → String → QueryResultsRow
result_of id user_id = record {
  id = id;
  user_id = user_id;
  target_id = "shop";
  created_at = 1;
  query = "select";
  response = "{}";
}

abbrev two_users : Rows
two_users = (
  result_of "r-1" "anna@shop" ∷ result_of "r-2" "boris@shop" ∷ [],
  bookmark_of "b-1" "anna@shop" ∷ bookmark_of "b-2" "boris@shop" ∷ [],
)

abbrev without_annas : Rows
without_annas = (two_users.0, bookmark_of "b-2" "boris@shop" ∷ [])

deleted : delete_bookmark memory "anna@shop" "b-1" two_users ≡ (ok tt, without_annas)
unfolding delete_bookmark
deleted = refl

delete_bookmark-takes_example :
    ((r : BookmarksRow) × In r (memory_tables.bookmarks two_users)
      × IsNamed memory memory_tables "anna@shop" "b-1" r)
    × ((r : BookmarksRow)
        → In r (memory_tables.bookmarks without_annas) ↔ (
            In r (memory_tables.bookmarks two_users)
            × ¬ IsNamed memory memory_tables "anna@shop" "b-1" r))
delete_bookmark-takes_example =
    delete_bookmark-takes memory memory_tables "anna@shop" "b-1" two_users without_annas deleted

not_annas : delete_bookmark memory "anna@shop" "b-2" two_users ≡ (err no_rows_affected, two_users)
unfolding delete_bookmark
not_annas = refl

abbrev annas_bookmark : StoredBookmark
annas_bookmark = record {
  id = "b-1";
  user_id = "anna@shop";
  target_id = "shop";
  title = "all";
  query = "select";
  created_at = 1;
}

annas_list : list_bookmarks memory "anna@shop" "shop" two_users ≡ ok (annas_bookmark ∷ [])
unfolding list_bookmarks
annas_list = refl

list_bookmarks_iff_example : In annas_bookmark (annas_bookmark ∷ []) ↔ (
    (r : BookmarksRow) × In r (memory_tables.bookmarks two_users)
    × (stored_bookmark r ≡ annas_bookmark)
    × (r.user_id ≡ "anna@shop")
    × (r.target_id ≡ "shop"))
list_bookmarks_iff_example =
    list_bookmarks_iff memory memory_tables "anna@shop" "shop" two_users (annas_bookmark ∷ [])
      annas_bookmark annas_list

abbrev req : InsertBookmarkReq
req = record {
  id = "b-1";
  user_id = "anna@shop";
  target_id = "shop";
  title = "all";
  query = "select";
  created_at = 1;
}

abbrev annas_result : StoredResult
annas_result = record {
  id = "r-1";
  user_id = "anna@shop";
  target_id = "shop";
  created_at = 1;
  query = "select";
  response = "{}";
}

annas_results :
    list_query_results_by_user memory "anna@shop" (pos 5) two_users ≡ ok (annas_result ∷ [])
unfolding list_query_results_by_user take
annas_results = refl

list_query_results_by_user-own_example :
    All
      (λ b.
        (b.user_id ≡ "anna@shop")
        × ((r : QueryResultsRow) × In r (memory_tables.results two_users) × (stored_result r ≡ b)))
      (annas_result ∷ [])
    × (length (annas_result ∷ []) ≤ 5)
list_query_results_by_user-own_example =
    list_query_results_by_user-own memory memory_tables "anna@shop" 5 two_users (annas_result ∷ [])
      annas_results

abbrev backed_outside : Outside
backed_outside = record sample_outside {
  get_query_results_by_id = λ log id. get_query_results_by_id memory id two_users;
}

missing : get_query_results_by_id memory "r-3" two_users ≡ err no_record_found
unfolding get_query_results_by_id
missing = refl

get_query_results-missing_example :
    ((r : QueryResultsRow) → In r (memory_tables.results two_users) → r.id ≢ "r-3")
    × (get_query_results backed_outside [] anna "r-3"
        ≡ err (wrapping Sentinel.not_found "unknown result id"))
get_query_results-missing_example =
    get_query_results-missing memory memory_tables backed_outside [] two_users (λ id. refl) anna
      "r-3" no_record_found missing refl

abbrev shown : QueryResults
shown = record {
  id = "r-1";
  user_id = "anna@shop";
  target_id = "shop";
  created_at = 1;
  query = "select";
  q_table = record { headers = []; rows = [] };
  meta = record {
    execution_time_ms = 0;
    parsing_time_ms = 0;
    network_round_trip_ms = 0;
    rows_count = 0;
    columns_count = 0;
    vectors_count = 0;
  };
}

anna_sees : get_query_results backed_outside [] anna "r-1" ≡ ok shown
unfolding get_query_results get_query_results_by_id
anna_sees = refl

get_query_results-row_example :
    (r : QueryResultsRow) × In r (memory_tables.results two_users)
    × (r.id ≡ "r-1")
    × IsReader anna r.user_id
    × (shown.user_id ≡ r.user_id)
    × (shown.query ≡ r.query)
get_query_results-row_example =
    get_query_results-row memory memory_tables backed_outside [] two_users (λ id. refl) anna "r-1"
      shown anna_sees

abbrev always_commits : Transactions ℕ
always_commits = record {
  begin = λ db. none;
  commit = λ before own. (none, own);
  rollback = λ before own. (none, before);
}

abbrev refusing : ℕ → Result (Unit {0}) × ℕ
refusing db = (err (plain "refused"), 7)
