-- ===== src/App/Queries/Audit.antt =====
-- What a run of a query that succeeds leaves behind.
use database_gateway.Common.{
  ◌≡◌, sym, ap, ◌∙◌, String, List, [], ◌∷◌, ◌++◌, ℕ, length, Result, ok, ok_injective,
}
use database_gateway.Common.Just.{Just}
use database_gateway.Config.{Target, TargetId}
use database_gateway.Policy.{Authorizer}
use database_gateway.Validator.Vecs.{make_vectors}
use database_gateway.Validator.Schema.{DbSchema}
use database_gateway.Validator.Checks.{validate_schema, validate_access}
use database_gateway.App.Users.{User}
use database_gateway.App.Targets.{get_target_by_id}
use database_gateway.App.Values.{PgValue}
use database_gateway.App.Effects.{
  Pool, QTable, StoredQueryResultPayload, InsertQueryResultsReq, Event, queried, stored, World,
  Rows, FieldDescription, Outside, ◌>>◌, pure_step, calling,
}
use database_gateway.App.Effects.Laws.{run-eq-ok}
use database_gateway.App.Queries.{
  connection_url, get_connection, make_table, make_meta, store_results, execute, have_access,
  run_query,
}
use database_gateway.App.Queries.Pools.{IsConnected, get_connection-IsConnected}

-- A step that calls nothing leaves the state.
pub pure-ok :
    {A : Type 0} (r : Result A) (w w1 : World) (a : A)
    → pure_step r w ≡ (ok a, w1)
    → (r ≡ ok a) × (w1 ≡ w)
pure-ok r w w1 a h = (ap (λ q. q.0) h, sym (ap (λ q. q.1) h))

-- A call that succeeds leaves its mark.
pub calling-ok :
    {A : Type 0} (event : Event) (answer : List Event → Result A) (w w1 : World) (a : A)
    → calling event answer w ≡ (ok a, w1)
    → (answer w.log ≡ ok a) × (w1 ≡ record w { log = w.log ++ (event ∷ []) })
calling-ok event answer w w1 a h = (ap (λ q. q.0) h, sym (ap (λ q. q.1) h))

module _ (just : Just) (outside : Outside) where
  -- The request under which results are stored.
  abbrev pub request : User → TargetId → String → String → String → InsertQueryResultsReq
  request user srv_id query id buf = record {
    id = id;
    user_id = user.id;
    target_id = srv_id;
    created_at = outside.clock.query_started_at;
    query = query;
    response = buf;
  }

  abbrev payload_of : ℕ → List String → List (List PgValue) → StoredQueryResultPayload
  payload_of vectors cols rows = record {
    table = make_table just outside cols rows;
    meta = make_meta just outside (length rows) (length cols) vectors;
  }

  -- The state after a call.
  abbrev called : World → Event → World
  called w event = record w { log = w.log ++ (event ∷ []) }

  abbrev keep_pair : String → QTable → Result (String × QTable)
  keep_pair id table = ok (id, table)

  stored-ok :
      (user : User) (srv_id : TargetId) (query buf : String) (made : QTable) (w w2 : World)
      (id : String) (table : QTable)
      → (calling (stored (request user srv_id query (outside.new_id w.log) buf)) (λ log.
              outside.insert_query_results log
                (request user srv_id query (outside.new_id w.log) buf))
            >> pure_step (keep_pair (outside.new_id w.log) made))
          w
        ≡ (ok (id, table), w2)
      → (table ≡ made) × (w2 ≡ called w (stored (request user srv_id query id buf)))
  stored-ok user srv_id query buf made w w2 id table h =
      let req = request user srv_id query (outside.new_id w.log) buf in
      let (u, w3, e, h3) =
        run-eq-ok (calling (stored req) (λ log. outside.insert_query_results log req)) _ w h in
      let (_, after) =
        calling-ok (stored req) (λ log. outside.insert_query_results log req) w w3 u e in
      let (result, same) = pure-ok (keep_pair (outside.new_id w.log) made) w3 w2 (id, table) h3 in
      let pair = ok_injective result in
      (
        sym (ap (λ q. q.1) pair),
        same
            ∙ after
            ∙ ap (λ i. called w (stored (request user srv_id query i buf))) (ap (λ q. q.0) pair),
      )

  store_results-ok :
      (user : User) (srv_id : TargetId) (query : String) (vectors : ℕ) (cols : List String)
      (rows : List (List PgValue)) (w w2 : World) (id : String) (table : QTable)
      → store_results just outside user srv_id query vectors cols rows w ≡ (ok (id, table), w2)
      → (buf : String) × (outside.marshal (payload_of vectors cols rows) ≡ ok buf)
        × (table ≡ make_table just outside cols rows)
        × (w2 ≡ called w (stored (request user srv_id query id buf)))
  unfolding store_results
  store_results-ok user srv_id query vectors cols rows w w2 id table h =
      let (buf, w1, e1, h1) =
        run-eq-ok (pure_step (outside.marshal (payload_of vectors cols rows))) _ w h in
      let (made, same) = pure-ok (outside.marshal (payload_of vectors cols rows)) w w1 buf e1 in
      let (t, e) =
        stored-ok user srv_id query buf (make_table just outside cols rows) w1 w2 id table h1 in
      (buf, made, t, rw same at e)

  -- The columns of a result.
  abbrev pub columns : Rows → List String
  columns res = just.slice_map FieldDescription String res.field_descriptions (λ fd. fd.name)

  -- A run that succeeds has connected to the target, has sent the query, and nothing else, to its
  -- database once, and has then stored, once, what the database answered.
  pub record IsAudited (user : User) (srv : Target) (srv_id : TargetId) (query : String)
      (vectors : ℕ) (w : World) (id : String) (table : QTable) (w2 : World) : Type 0 where
    pub pool : Pool
    pub connected : World
    pub connecting : IsConnected (connection_url just srv.connection) srv.id w pool connected
    pub res : Rows
    pub rows : List (List PgValue)
    pub answered : outside.pool_query connected.log pool query ≡ ok res
    pub collected : res.collected ≡ ok rows
    pub shown : table ≡ make_table just outside (columns res) rows
    pub buf : String
    pub marshalled : outside.marshal (payload_of vectors (columns res) rows) ≡ ok buf
    pub final :
        w2
        ≡ called (called connected (queried pool query)) (stored (request user srv_id query id buf))

  execute-IsAudited :
      (user : User) (srv : Target) (srv_id : TargetId) (query : String) (vectors : ℕ) (w w2 : World)
      (id : String) (table : QTable)
      → execute just outside user srv srv_id query vectors w ≡ (ok (id, table), w2)
      → IsAudited user srv srv_id query vectors w id table w2
  unfolding execute
  execute-IsAudited user srv srv_id query vectors w w2 id table h =
      let (pool, w1, e1, h1) = run-eq-ok (get_connection just outside srv) _ w h in
      let ask : List Event → Result Rows = λ log. outside.pool_query log pool query in
      let (res, w3, e2, h2) = run-eq-ok (calling (queried pool query) ask) _ w1 h1 in
      let (answered, sent) = calling-ok (queried pool query) ask w1 w3 res e2 in
      let (rows, w4, e3, h3) = run-eq-ok (pure_step res.collected) _ w3 h2 in
      let (collected, same) = pure-ok res.collected w3 w4 rows e3 in
      let (buf, marshalled, shown, final) =
        store_results-ok user srv_id query vectors (columns res) rows w4 w2 id table h3 in
      record {
        pool = pool;
        connected = w1;
        connecting = get_connection-IsConnected just outside srv w w1 pool e1;
        res = res;
        rows = rows;
        answered = answered;
        collected = collected;
        shown = shown;
        buf = buf;
        marshalled = marshalled;
        final = rw (same ∙ sent) at final;
      }

  module _ (authorizer : Authorizer) (targets : List Target) where
    -- A run of RunQuery that gives an identifier and a table has opened at most one pool, for the
    -- target, has sent the text of the query to a database once, through the pool of the target,
    -- and has then stored the answer once, under the identifier, the user, the target and the text
    -- of the query; the table is the answer of the database.
    pub run_query-IsAudited :
        (user : User) (srv_id : TargetId) (query : String) (w w2 : World) (id : String)
        (table : QTable)
        → run_query just outside authorizer targets user srv_id query w ≡ (ok (id, table), w2)
        → (p : Target × DbSchema) × (vectors : ℕ) × (get_target_by_id authorizer targets user srv_id
            ≡ ok p)
          × IsAudited user p.0 srv_id query vectors w id table w2
    unfolding run_query
    run_query-IsAudited user srv_id query w w2 id table h =
        let find = get_target_by_id authorizer targets user srv_id in
        let (p, w1, e1, h1) = run-eq-ok (pure_step find) _ w h in
        let (found, same1) = pure-ok find w w1 p e1 in
        let make = make_vectors just outside.pg_parse query in
        let (vectors, w3, e2, h2) = run-eq-ok (pure_step make) _ w1 h1 in
        let (_, same2) = pure-ok make w1 w3 vectors e2 in
        let known = validate_schema just vectors p.1 in
        let (u, w4, e3, h3) = run-eq-ok (pure_step known) _ w3 h2 in
        let (_, same3) = pure-ok known w3 w4 u e3 in
        let allowed =
          validate_access just vectors
            (have_access just outside authorizer targets user srv_id p.1) in
        let (v, w5, e4, h4) = run-eq-ok (pure_step allowed) _ w4 h3 in
        let (_, same4) = pure-ok allowed w4 w5 v e4 in
        (
          p,
          length vectors,
          found,
          execute-IsAudited user p.0 srv_id query (length vectors) w w2 id table
              (rw (same4 ∙ same3 ∙ same2 ∙ same1) at h4),
        )
