-- ===== src/App/Queries/Concurrent.antt =====
-- `getConnection` of internal/app/private.go for requests that run at the same time. What it does to
-- the state that requests share is three steps: the lookup under the read lock, `pgxpool.New`, and
-- the assignment under the lock. The steps of the requests come in any order.
pub mod Laws
mod Alone
mod Tests
use database_gateway.Common.{
  ℕ, zero, suc, none, some, List, [], ◌∷◌, ◌++◌, insert, lookup, Result, ok, err,
}
use database_gateway.Common.Just.{Just}
use database_gateway.Config.{Target}
use database_gateway.App.Effects.{Pool, opened, World, Outside}
use database_gateway.App.Queries.{connection_url}

-- Where a call of getConnection stands.
pub data Stage : Type 0 where
  looking : Stage
  connecting : Stage
  saving : Pool → Stage
  finished : Result Pool → Stage

pub record Connecting : Type 0 where
  pub target : Target
  pub stage : Stage

module _ (just : Just) (outside : Outside) where
  -- A step of a call.
  unfoldable pub advance : Target → Stage → World → Stage × World
  unfolding connection_url
  advance target looking w = elim (lookup target.id w.conns) [
    | some pool ↦ (finished (ok pool), w)
    | none ↦ (connecting, w)
  ]
  advance target connecting w =
      let url = connection_url just target.connection in
      let w' = record w { log = w.log ++ (opened url ∷ []) } in
      elim (outside.new_pool w.log url) [
        | err e ↦ (finished (err e), w')
        | ok pool ↦ (saving pool, w')
      ]
  advance target (saving pool) w =
      (finished (ok pool), record w { conns = insert target.id pool w.conns })
  advance target (finished r) w = (finished r, w)

  -- The next step of the call at some place.
  unfoldable pub turn : ℕ → List Connecting → World → List Connecting × World
  unfolding advance
  turn n [] w = ([], w)
  turn zero (c ∷ cs) w =
      let (stage, w') = advance c.target c.stage w in
      (record { target = c.target; stage = stage } ∷ cs, w')
  turn (suc n) (c ∷ cs) w = let (cs', w') = turn n cs w in (c ∷ cs', w')

  -- The steps of calls, whose turns come in an order.
  unfoldable pub schedule : List ℕ → List Connecting → World → List Connecting × World
  unfolding turn
  schedule [] cs w = (cs, w)
  schedule (n ∷ turns) cs w = let (cs', w') = turn n cs w in schedule turns cs' w'
