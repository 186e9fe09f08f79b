-- ===== src/Facade/Api/Calls/History.antt =====
-- The states that the service goes through as it answers requests of `/api/v1`.
use database_gateway.Common.{ℕ, ◌≡◌, String, [], Result, ok}
use database_gateway.App.Users.{User}
use database_gateway.App.Effects.{Event, World}
use database_gateway.Facade.Export.{extract_bearer_token}
use database_gateway.Facade.Api.Calls.{Call, Service, serve_call}
use database_gateway.Facade.Api.Calls.Owners.{Permits}

abbrev pub started_world : World
started_world = record { conns = []; log = [] }

-- What a request meets: the clock, and the tokens that are accepted at the time.
pub record Moment : Type 0 where
  pub now : ℕ
  pub accepts : String → Result User

abbrev pub meanwhile : Service → Moment → Service
meanwhile s moment = record s {
  surroundings = record s.surroundings { now = moment.now; auth_by_access_token = moment.accepts };
}

-- A state after some requests, each at its own moment. Requests come one after another.
pub data History (s : Service) : World → Type 0 where
  started : (w : World) → w ≡ started_world → History s w
  answered :
      {v : World} (w : World) (moment : Moment) (auth_header : String) (call : Call)
      → History s v
      → (serve_call (meanwhile s moment) auth_header call v).1 ≡ w
      → History s w

module _ (s : Service) where
  -- A call of another system has a request of a user whose token was accepted behind it, which
  -- permits the user that call.
  abbrev pub IsJustified : Event → Type 0
  IsJustified event =
      (moment : Moment) × (auth_header : String) × (user : User) × (call : Call) × (moment.accepts
          (extract_bearer_token auth_header)
        ≡ ok user)
      × Permits (meanwhile s moment) user call event
