-- ===== src/App/Requests/Tests.antt =====
-- Runs on the lists of past requests.
use database_gateway.Common.{◌≡◌, refl, ◌+◌, ◌*◌, false, not, [], ◌∷◌, length, map, ok, arith}
use database_gateway.Common.Text.{leb}
use database_gateway.App.Users.{User}
use database_gateway.App.Values.{pos}
use database_gateway.App.Requests.{take, show_request, list_admin_requests}
use database_gateway.App.Requests.Laws.{drop, IsPaging, list_admin_requests-page}
use database_gateway.App.Samples.{sample_outside, past_results}

abbrev admin : User
admin = record { id = "root@shop"; username = "root"; role = "admin" }

sample-IsPaging : IsPaging sample_outside [] past_results
sample-IsPaging limit offset = refl

list_admin_requests_example :
    list_admin_requests sample_outside [] admin (pos 2) (pos 2)
    ≡ ok (
      map (show_request sample_outside) (take 2 (drop (1 * 2) past_results)),
      not (leb (length past_results) (1 * 2 + 2)),
    )
list_admin_requests_example =
    list_admin_requests-page sample_outside [] admin past_results 1 1 refl sample-IsPaging
      (omega arith) (omega arith)

-- The second page of size two has the one row that is left, and no page follows.
second_page :
    list_admin_requests sample_outside [] admin (pos 2) (pos 2)
    ≡ ok (
      record {
        id = "1";
        user_id = "anna@shop";
        target_id = "shop";
        query = "select";
        created_at = "2024-01-01 00:00:00";
      }
          ∷ [],
      false,
    )
unfolding list_admin_requests
second_page = refl
