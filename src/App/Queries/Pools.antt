-- ===== src/App/Queries/Pools.antt =====
-- The pools that the service keeps, over the runs of queries.
use mathlib.Core.List.{append-nil}
use database_gateway.Common.{
  ℕ, ◌≡◌, refl, sym, ap, ◌∙◌, String, none, some, List, [], ◌∷◌, ◌++◌, length,
}
use database_gateway.Common.{
  lookup, insert, lookup-insert, eq_iff, eq_refl, Result, ok, Option-cases, Result-cases,
  ok_injective, ◌==◌, Bool-cases, inl, inr, ◌⊎◌,
}
use database_gateway.Common.Just.{Just}
use database_gateway.Config.{Target, TargetId}
use database_gateway.Policy.{Authorizer}
use database_gateway.Validator.Vecs.{make_vectors}
use database_gateway.Validator.Checks.{validate_schema, validate_access}
use database_gateway.App.Users.{User}
use database_gateway.App.Targets.{get_target_by_id}
use database_gateway.App.Values.{PgValue}
use database_gateway.App.Effects.{
  Pool, InsertQueryResultsReq, ◌>>◌, Event, StoredQueryResultPayload, opened, queried, stored,
  World, Outside, pure_step, calling,
}
use database_gateway.App.Effects.Laws.{KeepsPools, KeepsPools->>=}
use database_gateway.App.Queries.{
  connection_url, get_connection, make_table, make_meta, store_results, execute, have_access,
  run_query,
}

-- What a call of getConnection that gives a pool has done.
pub record IsConnected (url : String) (target_id : TargetId) (w : World) (pool : Pool) (w1 : World)
    : Type 0 where
  pub opening : List Event
  pub is_opening :
      ((opening ≡ []) × (w1 ≡ w))
      ⊎ ((opening ≡ opened url ∷ []) × (lookup target_id w.conns ≡ none))
  pub log : w1.log ≡ w.log ++ opening
  pub kept : lookup target_id w1.conns ≡ some pool

module _ (just : Just) (outside : Outside) where
  get_connection-known :
      (target : Target) (w : World) (pool : Pool)
      → lookup target.id w.conns ≡ some pool
      → get_connection just outside target w ≡ (ok pool, w)
  unfolding get_connection
  get_connection-known target w pool known = rw (known, get_connection)

  opened_world : Target → World → Pool → World
  opened_world target w pool = record {
    conns = insert target.id pool w.conns;
    log = w.log ++ (opened (connection_url just target.connection) ∷ []);
  }

  get_connection-new :
      (target : Target) (w : World) (pool : Pool)
      → lookup target.id w.conns ≡ none
      → outside.new_pool w.log (connection_url just target.connection) ≡ ok pool
      → get_connection just outside target w ≡ (ok pool, opened_world target w pool)
  unfolding get_connection opened_world
  get_connection-new target w pool unknown new = rw (unknown, new, get_connection)

  insert-keeps :
      (target : Target) (w : World) (pool p : Pool) (k : String)
      → lookup target.id w.conns ≡ none
      → lookup k w.conns ≡ some p
      → lookup k (insert target.id pool w.conns) ≡ some p
  insert-keeps target w pool p k unknown known = elim (Bool-cases (target.id == k)) [
    | inl same ↦ cc (unknown, known, (eq_iff target.id k).0 same)
    | inr other ↦ lookup-insert target.id k pool w.conns ∙ rw other known
  ]

  insert_self :
      (target : Target) (w : World) (pool : Pool)
      → lookup target.id (insert target.id pool w.conns) ≡ some pool
  insert_self target w pool =
      lookup-insert target.id target.id pool w.conns ∙ rw (eq_refl target.id) refl

  -- The outcomes of getConnection.
  get_connection-KeepsPools : (target : Target) → KeepsPools (get_connection just outside target)
  unfolding get_connection
  get_connection-KeepsPools target w k p known = elim (Option-cases (lookup target.id w.conns)) [
    | inr (pool, have) ↦ rw (have, get_connection) known
    | inl unknown ↦
        elim (Result-cases (outside.new_pool w.log (connection_url just target.connection))) [
          | inl (pool, new) ↦
              rw (unknown, new, get_connection) (insert-keeps target w pool p k unknown known)
          | inr (e, new) ↦ rw (unknown, new, get_connection) known
        ]
  ]

  pub get_connection-IsConnected :
      (target : Target) (w w1 : World) (pool : Pool)
      → get_connection just outside target w ≡ (ok pool, w1)
      → IsConnected (connection_url just target.connection) target.id w pool w1
  unfolding get_connection opened_world
  get_connection-IsConnected target w w1 pool h = elim (Option-cases (lookup target.id w.conns)) [
    | inr (p, have) ↦
        let e = sym (get_connection-known target w p have) ∙ h in
        let same : w ≡ w1 = ap (λ r. r.1) e in
        let own : p ≡ pool = ok_injective (ap (λ r. r.0) e) in
        record {
          opening = [];
          is_opening = inl (refl, sym same);
          log = rw (← same) (sym (append-nil w.log));
          kept = rw (← same, ← own) have;
        }
    | inl unknown ↦
        let url = connection_url just target.connection in
        elim (Result-cases (outside.new_pool w.log url)) [
          | inl (p, new) ↦
              let e = sym (get_connection-new target w p unknown new) ∙ h in
              let same : opened_world target w p ≡ w1 = ap (λ r. r.1) e in
              let own : p ≡ pool = ok_injective (ap (λ r. r.0) e) in
              record {
                opening = opened url ∷ [];
                is_opening = inr (refl, unknown);
                log = rw (← same) refl;
                kept = rw (← same, ← own) (insert_self target w p);
              }
          | inr (e, new) ↦ cc (rw (unknown, new, get_connection) at h)
        ]
  ]

  calling-conns :
      {B : Type 0} (event : Event) (answer : List Event → Result (Unit {0})) (r : Result B)
      (w : World)
      → ((calling event answer >> pure_step r) w).1.conns ≡ w.conns
  calling-conns event answer r w = elim (Result-cases (answer w.log)) [
    | inl (u, e) ↦ rw e refl
    | inr (d, e) ↦ rw e refl
  ]

  store_results-conns :
      (user : User) (srv_id : TargetId) (query : String) (vectors : ℕ) (cols : List String)
      (rows : List (List PgValue)) (w : World)
      → (store_results just outside user srv_id query vectors cols rows w).1.conns ≡ w.conns
  unfolding store_results
  store_results-conns user srv_id query vectors cols rows w =
      let payload : StoredQueryResultPayload = record {
        table = make_table just outside cols rows;
        meta = make_meta just outside (length rows) (length cols) vectors;
      } in
      elim (Result-cases (outside.marshal payload)) [
        | inl (buf, e) ↦
            let req : InsertQueryResultsReq = record {
              id = outside.new_id w.log;
              user_id = user.id;
              target_id = srv_id;
              created_at = outside.clock.query_started_at;
              query = query;
              response = buf;
            } in
            rw e (
              calling-conns (stored req) (λ log. outside.insert_query_results log req)
                (ok (req.id, make_table just outside cols rows)) w)
        | inr (d, e) ↦ rw e refl
      ]

  execute-KeepsPools :
      (user : User) (srv : Target) (srv_id : TargetId) (query : String) (vectors : ℕ)
      → KeepsPools (execute just outside user srv srv_id query vectors)
  unfolding execute
  execute-KeepsPools user srv srv_id query vectors =
      KeepsPools->>= (get_connection just outside srv) _ (get_connection-KeepsPools srv) λ conn.
        KeepsPools->>= (calling (queried conn query) (λ log. outside.pool_query log conn query)) _
          (λ w k p h. h)
          λ res.
            KeepsPools->>= (pure_step res.collected) _ (λ w k p h. h)
              λ rows w k p h. rw (store_results-conns user srv_id query vectors _ rows w) h

  module _ (authorizer : Authorizer) (targets : List Target) where
    pub run_query-KeepsPools :
        (user : User) (srv_id : TargetId) (query : String)
        → KeepsPools (run_query just outside authorizer targets user srv_id query)
    unfolding run_query
    run_query-KeepsPools user srv_id query =
        KeepsPools->>= (pure_step (get_target_by_id authorizer targets user srv_id)) _
          (λ w k p h. h)
          λ found.
            KeepsPools->>= (pure_step (make_vectors just outside.pg_parse query)) _ (λ w k p h. h)
              λ vectors.
                KeepsPools->>= (pure_step (validate_schema just vectors found.1)) _ (λ w k p h. h)
                  λ _.
                    KeepsPools->>=
                      (pure_step (
                        validate_access just vectors
                          (have_access just outside authorizer targets user srv_id found.1)))
                      _ (λ w k p h. h)
                      λ _. execute-KeepsPools user found.0 srv_id query (length vectors)

    -- The state after some runs of queries.
    unfoldable pub after : List (User × TargetId × String) → World → World
    after [] w = w
    after ((user, srv_id, query) ∷ runs) w =
        after runs (run_query just outside authorizer targets user srv_id query w).1
