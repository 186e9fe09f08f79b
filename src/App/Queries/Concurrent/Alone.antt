-- ===== src/App/Queries/Concurrent/Alone.antt =====
-- `getConnection` as one step and in its steps.
use database_gateway.Common.{zero, ◌≡◌, refl, inl, inr, [], ◌∷◌, lookup, Option-cases, Result-cases}
use database_gateway.Common.Just.{Just}
use database_gateway.Config.{Target}
use database_gateway.App.Effects.{World, Outside}
use database_gateway.App.Queries.{connection_url, get_connection}
use database_gateway.App.Queries.Concurrent.{looking, finished, advance, turn, schedule}

module _ (just : Just) (outside : Outside) where
  -- One call alone, with three turns, does what getConnection does as one step.
  pub schedule-get_connection :
      (target : Target) (w : World)
      → schedule just outside
          (zero ∷ zero ∷ zero ∷ [])
          (record { target = target; stage = looking } ∷ [])
          w
        ≡ (let (r, w') = get_connection just outside target w in
            (record { target = target; stage = finished r } ∷ [], w'))
  unfolding schedule turn advance get_connection
  schedule-get_connection target w = elim (Option-cases (lookup target.id w.conns)) [
    | inr (pool, known) ↦ rw (known, schedule, turn, advance, get_connection) refl
    | inl unknown ↦
        elim (Result-cases (outside.new_pool w.log (connection_url just target.connection))) [
          | inl (pool, new) ↦ rw (unknown, new, schedule, turn, advance, get_connection) refl
          | inr (e, new) ↦ rw (unknown, new, schedule, turn, advance, get_connection) refl
        ]
  ]
