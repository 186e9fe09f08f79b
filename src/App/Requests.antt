-- ===== src/App/Requests.antt =====
-- The lists of past requests of internal/app/service.go. A page and a size are `int64`.
pub mod Laws
mod Tests
use database_gateway.Common.{
  ℕ, zero, suc, ◌+◌, ◌-◌, ◌*◌, String, Bool, not, ◌==◌, List, [], ◌∷◌, length, Result, ok, err,
  ◌>>=◌, ◌>>◌, reject_if, wrapping, Sentinel, if◌then◌else◌, map,
}
use database_gateway.Common.Text.{leb}
use database_gateway.Config.{UserId, TargetId, role_admin}
use database_gateway.App.Users.{User}
use database_gateway.App.Values.{ℤ, pos, to_int64, positive_or}
use database_gateway.App.Effects.{Event, StoredResult, Outside}

-- `structs.Query`
pub record Query : Type 0 where
  pub id : String
  pub target_id : TargetId
  pub query : String
  pub created_at : String

pub record AdminRequest : Type 0 where
  pub id : String
  pub user_id : UserId
  pub target_id : TargetId
  pub query : String
  pub created_at : String

-- `items[:n]`
unfoldable pub take {ℓ} : {A : Type ℓ} → ℕ → List A → List A
take zero xs = []
take (suc n) [] = []
take (suc n) (x ∷ xs) = x ∷ take n xs

module _ (outside : Outside) where
  -- The loop over the results: one that cannot be decoded is passed over.
  unfoldable pub show_queries : List StoredResult → List Query
  show_queries [] = []
  show_queries (item ∷ items) =
      let rest = show_queries items in
      elim (outside.unmarshal item.response) [
        | err e ↦ rest
        | ok payload ↦
            record {
              id = item.id;
              target_id = item.target_id;
              query = item.query;
              created_at = outside.format_time item.created_at;
            }
            ∷ rest
      ]

  unfoldable pub list_recent_queries : List Event → UserId → ℤ → Result (List Query)
  unfolding positive_or show_queries
  list_recent_queries log uid limit = do
    items ← outside.list_query_results_by_user log uid (pos (positive_or limit 50))
    ok (show_queries items)

  -- One round of the loop over the results.
  unfoldable pub show_request : StoredResult → AdminRequest
  show_request item = record {
    id = item.id;
    user_id = item.user_id;
    target_id = item.target_id;
    query = item.query;
    created_at = outside.format_time item.created_at;
  }

  -- The page of the items, and whether there is a next one.
  unfoldable pub cut_page : ℕ → List StoredResult → List AdminRequest × Bool
  unfolding show_request take
  cut_page size items =
      let has_next = not (leb (length items) size) in
      (map show_request (if has_next then take size items else items), has_next)

  unfoldable pub list_admin_requests : List Event → User → ℤ → ℤ → Result (List AdminRequest × Bool)
  unfolding positive_or to_int64 cut_page
  list_admin_requests log user page page_size = do
    reject_if (not (user.role == role_admin)) (wrapping Sentinel.forbidden "forbidden")
    let page = positive_or page 1
    let size = positive_or page_size 50
    items ← outside.list_query_results log (to_int64 (size + 1)) (to_int64 ((page - 1) * size))
    ok (cut_page size items)
