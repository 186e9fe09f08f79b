-- ===== src/App/Queries.antt =====
-- `RunQuery` of internal/app/service.go and `getConnection` of internal/app/private.go.
pub mod Laws
pub mod Audit
pub mod Pools
pub mod Adds
pub mod Concurrent
use Prim.Native.Nat.{◌/◌}
use database_gateway.Common.{
  ℕ, length, ◌-◌, String, ◌<>◌, Bool, Option, none, some, List, [], ◌∷◌, ◌++◌, insert, lookup,
  Result, ok, err,
}
use database_gateway.Common.Just.{Just}
use database_gateway.Config.{Connection, Target, TargetId}
use database_gateway.Policy.{Authorizer}
use database_gateway.Validator.Schema.{DbSchema, canonical_table}
use database_gateway.Validator.Vecs.{Vec, make_vectors}
use database_gateway.Validator.Checks.{validate_schema, validate_access}
use database_gateway.App.Users.{User, user_subjects}
use database_gateway.App.Targets.{get_target_by_id}
use database_gateway.App.Values.{PgValue, adapt_pg_type, decimal}
use database_gateway.App.Effects.{
  Pool, QTable, QMeta, StoredQueryResultPayload, InsertQueryResultsReq, Event, opened, queried,
  stored, World, Rows, FieldDescription, Clock, Outside, Run, ◌>>=◌, ◌>>◌, pure_step, asking,
  calling,
}

-- `time.Duration.Milliseconds` of the time between two readings; a reading is not before an earlier
-- one.
unfoldable pub milliseconds : ℕ → ℕ → ℕ
milliseconds from to = (to - from) / 1000000

-- The URL of a connection.
unfoldable pub connection_url : Just → Connection → String
unfolding decimal
connection_url just c =
    "postgres://"
    <> (c.user
        <> (":"
            <> (c.password
                <> ("@"
                    <> (c.host
                        <> (":"
                            <> (decimal c.port
                                <> ("/"
                                    <> (c.db
                                        <> ("?sslmode="
                                            <> just.if_else c.use_ssl "enable" "disable"))))))))))

module _ (just : Just) (outside : Outside) where
  unfoldable pub get_connection : Target → Run Pool
  unfolding connection_url
  get_connection target w = elim (lookup target.id w.conns) [
    | some pool ↦ (ok pool, w)
    | none ↦
        let url = connection_url just target.connection in
        let log = w.log ++ (opened url ∷ []) in
        elim (outside.new_pool w.log url) [
          | err e ↦ (err e, record w { log = log })
          | ok pool ↦ (ok pool, record { conns = insert target.id pool w.conns; log = log })
        ]
  ]

  unfoldable pub make_table : List String → List (List PgValue) → QTable
  unfolding adapt_pg_type
  make_table cols rows = record {
    headers = cols;
    rows =
        just.slice_map (List PgValue) (List String) rows
          λ row. just.slice_map PgValue String row adapt_pg_type;
  }

  unfoldable pub make_meta : ℕ → ℕ → ℕ → QMeta
  unfolding milliseconds
  make_meta rows cols vectors =
      let clock = outside.clock in
      record {
        execution_time_ms = milliseconds clock.full_round_trip_started_at clock.finished_at;
        parsing_time_ms = milliseconds clock.parsing_started_at clock.parsed_at;
        network_round_trip_ms = milliseconds clock.query_started_at clock.queried_at;
        rows_count = rows;
        columns_count = cols;
        vectors_count = vectors;
      }

  -- From the answer of the database to the identifier of the stored result.
  unfoldable pub store_results :
      User → TargetId → String → ℕ → List String → List (List PgValue) → Run (String × QTable)
  unfolding make_table make_meta
  store_results user srv_id query vectors cols rows = do
    let q_table = make_table cols rows
    buf ← pure_step (
        outside.marshal
          (record { table = q_table; meta = make_meta (length rows) (length cols) vectors }))
    id ← asking outside.new_id
    let req : InsertQueryResultsReq = record {
      id = id;
      user_id = user.id;
      target_id = srv_id;
      created_at = outside.clock.query_started_at;
      query = query;
      response = buf;
    }
    calling (stored req) (λ log. outside.insert_query_results log req)
    pure_step (ok (req.id, q_table))

  -- What follows the preflight check.
  unfoldable pub execute : User → Target → TargetId → String → ℕ → Run (String × QTable)
  unfolding get_connection store_results
  execute user srv srv_id query vectors = do
    conn ← get_connection srv
    res ← calling (queried conn query) (λ log. outside.pool_query log conn query)
    rows ← pure_step res.collected
    let cols = just.slice_map FieldDescription String res.field_descriptions (λ fd. fd.name)
    store_results user srv_id query vectors cols rows

  module _ (authorizer : Authorizer) (targets : List Target) where
    unfoldable pub have_access : User → TargetId → DbSchema → Vec → Bool
    unfolding canonical_table user_subjects
    have_access user srv_id schema vec =
        authorizer.allow_query (user_subjects user) srv_id vec.op (canonical_table schema vec.tbl)

    unfoldable pub run_query : User → TargetId → String → Run (String × QTable)
    unfolding have_access execute
    run_query user srv_id query = do
      (srv, schema) ← pure_step (get_target_by_id authorizer targets user srv_id)
      vectors ← pure_step (make_vectors just outside.pg_parse query)
      pure_step (validate_schema just vectors schema)
      pure_step (validate_access just vectors (have_access user srv_id schema))
      execute user srv srv_id query (length vectors)
