-- ===== src/Facade/Api/Requests/Tests.antt =====
-- Runs of calls about past requests.
use database_gateway.Common.{◌≡◌, refl, String, false, [], ◌∷◌, ◌≤◌, not, some, length, ok}
use database_gateway.Common.Just.{sample_just}
use database_gateway.Common.Text.{leb}
use database_gateway.Config.{role_admin}
use database_gateway.App.Users.{User}
use database_gateway.App.Values.{negsuc}
use database_gateway.App.Samples.{start, sample_outside}
use database_gateway.App.Requests.{list_admin_requests}
use database_gateway.Facade.Api.Requests.{
  ApiAdminRequest, AdminRequestsListResp, admin_requests_list,
}
use database_gateway.Facade.Api.Requests.Bounds.{admin_requests_list-bounds}

abbrev clara : User
clara = record { id = "clara@shop"; username = "clara"; role = "admin" }

abbrev past : String → ApiAdminRequest
past id = record {
  id = id;
  user_id = "anna@shop";
  target_id = "shop";
  query = "select";
  created_at = "2024-01-01 00:00:00";
}

abbrev first_page : AdminRequestsListResp
first_page = record {
  requests = past "3" ∷ past "2" ∷ past "1" ∷ [];
  page = 1;
  has_prev = false;
  has_next = false;
}

clara_lists :
    admin_requests_list sample_just sample_outside (some clara) (negsuc 3) start
    ≡ (ok first_page, start)
unfolding admin_requests_list list_admin_requests
clara_lists = refl

admin_requests_list-bounds_example :
    (clara.role ≡ role_admin)
    × (length first_page.requests ≤ 50)
    × (1 ≤ first_page.page)
    × (first_page.has_prev ≡ not (leb first_page.page 1))
admin_requests_list-bounds_example =
    admin_requests_list-bounds sample_outside sample_just clara (negsuc 3) start start first_page
      clara_lists
