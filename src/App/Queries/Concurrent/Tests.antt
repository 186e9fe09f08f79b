-- ===== src/App/Queries/Concurrent/Tests.antt =====
-- Runs of connections at the same time.
use database_gateway.Common.{ℕ, ◌≡◌, refl, length, inl, List, [], ◌∷◌, lookup, insert, ok, All}
use database_gateway.Common.{String}
use database_gateway.Common.Just.{sample_just}
use database_gateway.Config.{Target}
use database_gateway.Config.Samples.{shop_target}
use database_gateway.App.Samples.{start, sample_outside}
use database_gateway.App.Effects.{opened, World, Outside}
use database_gateway.App.Queries.Concurrent.{finished, Connecting, schedule}
use database_gateway.App.Queries.Concurrent.Laws.{HoldsOwn, KeepsOwn, calling_for, schedule-IsOwn}

abbrev shop : List Target
shop = shop_target ∷ []

-- Each pool is another.
abbrev numbered : Outside
numbered = record sample_outside { new_pool = λ log url. ok (length log) }

abbrev two_calls : List Connecting
two_calls = calling_for sample_just numbered shop (shop_target ∷ shop_target ∷ [])

-- The calls take turns.
abbrev by_turns : List ℕ
by_turns = 0 ∷ 1 ∷ 0 ∷ 1 ∷ 0 ∷ 1 ∷ []

abbrev shop_url : String
shop_url = "postgres://pg:secret@db:5432/shop?sslmode=disable"

-- Two calls that look before either saves open a pool each, and the second pool takes the place of
-- the first in `conns`, which nothing holds once its call is over.
abbrev both : List Connecting × World
both = (
  record { target = shop_target; stage = finished (ok 0) }
      ∷ record { target = shop_target; stage = finished (ok 1) }
      ∷ [],
  record { conns = ("shop", 1) ∷ []; log = opened shop_url ∷ opened shop_url ∷ [] },
)

two_pools : schedule sample_just numbered by_turns two_calls start ≡ both
unfolding schedule lookup insert
two_pools = refl

no_pools : KeepsOwn sample_just numbered shop start
unfolding lookup
no_pools id pool h = let absurd : ⊥ = cc h in elim absurd [ ]

schedule-IsOwn_example :
    let (calls, w) = schedule sample_just numbered by_turns two_calls start in
    All (λ c. HoldsOwn sample_just numbered shop w.log c.target.id c.stage) calls
    × KeepsOwn sample_just numbered shop w
schedule-IsOwn_example =
    schedule-IsOwn sample_just numbered shop by_turns (shop_target ∷ shop_target ∷ []) start
      (inl refl, (inl refl, tt)) no_pools
