-- ===== src/Lib.antt =====
-- database-gateway: a gateway in front of PostgreSQL servers. A user sends a query for a target; the
-- gateway parses it, works out which columns of which tables it touches, checks them against the
-- target's schema and against a policy, and only then runs the query and stores its results.
--
-- The program's parts, and the modules about them:
-- * internal/parser turns the syntax tree of a statement into vectors, one for each table, with the
--   operation and the columns touched. Module Parser: Ast (the syntax tree of the library
--   pg_query_go, as far as it is read), References (what a tree holds, read off it with no regard to
--   the code), Tables (`Tables` of parser.go), Columns (`Column`), Expr (`parseAexpr`,
--   `parseWhereClause`, `pNodes2Columns`), Vectors (the vectors and the loops that group columns by
--   table), Select (op_select.go), Write (op_insert.go, op_update.go, op_delete.go), Statement
--   (`Parse`).
-- * internal/config is the configuration. Module Config: the types and `Config.Validate`.
-- * internal/policy is the interface `Authorizer`, and internal/policy/opa implements it. Modules
--   Policy, Policy.Opa and Policy.Opa.Loading (`LoadModules`, `New`, `prepareQuery`).
-- * internal/validator makes vectors of a query and checks them. Module Validator: Schema
--   (schema.go), Vecs (vecs.go), Checks (validator.go).
-- * internal/app is the service. Module App: Users (roles and sign-in of service.go), Oidc (the
--   provider's URLs, `InitOIDC`, the revocation of tokens), Targets (`getTargetByID`, `GetTargets`),
--   Values (`adaptPgType`), Effects (the state, the calls of other systems), Queries
--   (`getConnection`, `RunQuery`; Concurrent, `getConnection` for requests at the same time), Stored
--   (stored results and bookmarks), Requests (the lists of past requests), with the structs of
--   internal/structs.
-- * internal/facade is the HTTP service. Module Facade: Export (the bearer token, the signed token of
--   a download and `downloadQueryResultsExport` of service.go), Sessions (the session check,
--   `/auth`, its callback and `/logout` of service.go; Issued, the sessions that these handlers give
--   out one after another), Api (api_lrpc.go: Caller, Targets, Bookmarks, Requests, Results, and
--   Calls, which puts a request's bearer token, its procedure and the service's answer together).
-- * internal/storage keeps results and bookmarks in the gateway's own database. Module Storage:
--   Failures (`handleError` and the checks of a statement's answer), Database (the statements that
--   the code builds with go-jet), Bookmarks, Results, Transactions (`DoInTx`), Samples (a database in
--   memory, which the runs use).
-- * internal/uuid6 makes and reads the identifiers. Module Uuid6.
-- * cmd/gateway is the program, internal/pgdb and internal/migrator are what it starts with. Module
--   Gateway: the commands of main.go and helpers.go as acts on other systems (Acts).
-- Module Common holds what the parts share: Results (Go's `(value, error)`), Lists, Maps (Go's maps
-- as association lists), Text (`strings`), Sorting (`slices.Sort`) and Just.
--
-- How the parts interact: a handler of Facade.Api finds the caller through App.Users, calls one
-- operation of App and turns its answer into the answer of the procedure; App.Queries calls Parser,
-- Validator and Policy, and calls the target database only after them; App.Stored and App.Requests
-- call the storage, whose answers are arguments there; Storage is about the storage itself. Gateway
-- starts the parts in the order of the code.
--
-- How the state is modelled: `Tables` is passed on and returned where the code changes it in place.
-- The service's state is `World`: the map `conns` and the calls made so far, in their order. A step
-- is a function from a state to a result and a state, so what happens before an error stays. Requests
-- come one after another there. App.Queries.Concurrent takes getConnection apart into the steps that
-- requests share, and runs the steps of several calls in any order. A command's state is the list of
-- its acts.
-- Go's maps are ranged over in any order; here they keep the order of the first insertions, and
-- theorems about vectors are about membership.
--
-- Fuel: `Tables.Get` recurs with no bound. It runs on as much fuel as tables were put, and two: each
-- table put makes a chain of names longer by one step at most, and Finalize by one more. `decimal`
-- prints up to 19 digits, which is the length of the largest `int`. Pages and sizes are `int64`, and
-- `to_int64` wraps what is computed of them around. Trimming a text runs on its length.
--
-- Libraries are arguments: the grammar of PostgreSQL (`pg_parse`), the package `just` (the record
-- Just of operations and their documented laws), the evaluation of policies (a prepared query is a
-- function), token verification, and what `Outside` holds: connection pools, queries of the target
-- databases, JSON, new identifiers, the clock and the answers of the storage; `Surroundings` holds
-- what a download uses: base64, HMAC, JSON, the clock, sign-in, the session and the stored results,
-- whose access App.Stored decides. The gateway's database is an argument of Storage, with what SQL
-- says of INSERT, SELECT, DELETE, COMMIT and ROLLBACK as the named laws of `SqlTables` and of its
-- transactions. Echo's context and its sessions are what a handler reads of them and what it answers.
-- `Machine` is what a command runs on: files, databases, goose, OPA, the provider and the server.
-- The texts that `fmt.Errorf` puts in front of a wrapped error are left out; the sentinels are kept.
--
-- Not modelled: the serving of the frontend's files, the bytes of a download, the internals of echo
-- and lrpc, the settings of connection pools, the adapters of internal/pgdb/tx.go to go-jet, the code
-- that go-jet and options-gen generate, and the frontend.
pub mod Common
pub mod Uuid6
pub mod Parser
pub mod Config
pub mod Policy
pub mod Validator
pub mod App
pub mod Storage
pub mod Facade
pub mod Gateway
