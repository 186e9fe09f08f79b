-- ===== src/App/Queries/Adds.antt =====
-- The calls that a run of a query makes, whether it succeeds or not.
use database_gateway.Common.{
  ◌≡◌, refl, String, Option-cases, Result-cases, inl, inr, List, [], ◌∷◌, Result, ok, ℕ, length,
  lookup,
}
use database_gateway.Common.Just.{Just}
use database_gateway.Config.{Target, TargetId}
use database_gateway.Policy.{Authorizer}
use database_gateway.Validator.Schema.{DbSchema}
use database_gateway.Validator.Vecs.{make_vectors}
use database_gateway.Validator.Checks.{validate_schema, validate_access}
use database_gateway.App.Users.{User}
use database_gateway.App.Targets.{get_target_by_id}
use database_gateway.App.Values.{PgValue}
use database_gateway.App.Effects.{
  Pool, InsertQueryResultsReq, Event, opened, queried, stored, QTable, Outside, pure_step,
}
use database_gateway.App.Effects.Adds.{
  Adds, adds_nothing, Adds-pure_step, Adds-calls, Adds->>=, Adds-after,
}
use database_gateway.App.Queries.Audit.{request}
use database_gateway.App.Queries.{
  connection_url, get_connection, make_table, store_results, execute, have_access, run_query,
}

-- The results are stored under the user, the target and the query.
abbrev pub IsOf : User → TargetId → String → InsertQueryResultsReq → Type 0
IsOf user srv_id query results =
    (results.user_id ≡ user.id) × (results.target_id ≡ srv_id) × (results.query ≡ query)

module _ (just : Just) (outside : Outside) (P : Event → Type 0) where
  get_connection-Adds :
      (target : Target)
      → P (opened (connection_url just target.connection))
      → Adds P (get_connection just outside target)
  unfolding get_connection
  get_connection-Adds target p w = elim (Option-cases (lookup target.id w.conns)) [
    | inr (pool, known) ↦ rw (known, get_connection) (adds_nothing P w)
    | inl unknown ↦
        let url = connection_url just target.connection in
        elim (Result-cases (outside.new_pool w.log url)) [
          | inl (pool, new) ↦ rw (unknown, new, get_connection) (opened url ∷ [], refl, (p, tt))
          | inr (e, failed) ↦ rw (unknown, failed, get_connection) (opened url ∷ [], refl, (p, tt))
        ]
  ]

  store_results-Adds :
      (user : User) (srv_id : TargetId) (query : String) (vectors : ℕ) (cols : List String)
      (rows : List (List PgValue))
      → ((results : InsertQueryResultsReq) → IsOf user srv_id query results → P (stored results))
      → Adds P (store_results just outside user srv_id query vectors cols rows)
  unfolding store_results
  store_results-Adds user srv_id query vectors cols rows p =
      Adds-after P (outside.marshal _) _ λ buf _. λ w.
        let results = request just outside user srv_id query (outside.new_id w.log) buf in
        let reply : Result (String × QTable) = ok (results.id, make_table just outside cols rows) in
        Adds-calls P (stored results) (λ log. outside.insert_query_results log results)
          (λ _. pure_step reply) (p results (refl, refl, refl)) (λ _. Adds-pure_step P reply) w

  execute-Adds :
      (user : User) (srv : Target) (srv_id : TargetId) (query : String) (vectors : ℕ)
      → P (opened (connection_url just srv.connection))
      → ((pool : Pool) → P (queried pool query))
      → ((results : InsertQueryResultsReq) → IsOf user srv_id query results → P (stored results))
      → Adds P (execute just outside user srv srv_id query vectors)
  unfolding execute
  execute-Adds user srv srv_id query vectors po pq ps =
      Adds->>= P (get_connection just outside srv) _ (get_connection-Adds srv po) λ conn.
        Adds-calls P (queried conn query) (λ log. outside.pool_query log conn query) _ (pq conn)
          λ res.
            Adds-after P res.collected _
              λ rows _. store_results-Adds user srv_id query vectors _ rows ps

  module _ (authorizer : Authorizer) (targets : List Target) where
    pub run_query-Adds :
        (user : User) (srv_id : TargetId) (query : String)
        → ((srv : Target) (schema : DbSchema)
            → get_target_by_id authorizer targets user srv_id ≡ ok (srv, schema)
            → P (opened (connection_url just srv.connection)))
        → ((pool : Pool) → P (queried pool query))
        → ((results : InsertQueryResultsReq) → IsOf user srv_id query results → P (stored results))
        → Adds P (run_query just outside authorizer targets user srv_id query)
    unfolding run_query
    run_query-Adds user srv_id query po pq ps =
        Adds-after P (get_target_by_id authorizer targets user srv_id) _ λ found is_found.
          Adds-after P (make_vectors just outside.pg_parse query) _ λ vectors _.
            Adds-after P (validate_schema just vectors found.1) _ λ _ _.
              Adds-after P
                (validate_access just vectors
                  (have_access just outside authorizer targets user srv_id found.1))
                _
                λ _ _.
                  execute-Adds user found.0 srv_id query (length vectors)
                    (po found.0 found.1 is_found) pq ps
