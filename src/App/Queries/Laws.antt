-- ===== src/App/Queries/Laws.antt =====
-- What a run of a query does to the state, and what it has checked before.
use database_gateway.Common.{
  ◌≡◌, refl, ◌⊎◌, inl, inr, String, true, some, List, [], ◌∷◌, All, All-map_to,
}
use database_gateway.Common.{Result, ok, err, Error}
use database_gateway.Common.Just.{Just}
use database_gateway.Config.{Target, TargetId, op_select}
use database_gateway.Policy.{Authorizer}
use database_gateway.Parser.Ast.{Stmt, select_stmt, SelectStmt, RangeVar, Node, nil, cons}
use database_gateway.Parser.Select.Sources.{range_vars, full_name_of, IsUnmasked}
use database_gateway.Parser.Statement.Written.{written, Assigns}
use database_gateway.Validator.Schema.{DbSchema, canonical_table}
use database_gateway.Validator.Vecs.{make_vectors}
use database_gateway.Validator.Checks.{validate_schema, validate_access, is_allowed}
use database_gateway.Validator.Checks.Laws.{
  is_allowed_iff, validate_schema_iff, validate_access_iff,
}
use database_gateway.Validator.Checks.Guards.{stmt_op, select_guarded, write_guarded}
use database_gateway.App.Users.{User, user_subjects}
use database_gateway.App.Targets.{get_target_by_id}
use database_gateway.App.Targets.Laws.{IsFound, get_target_by_id-IsFound}
use database_gateway.App.Effects.{World, Outside, Run, ◌>>=◌, pure_step}
use database_gateway.App.Queries.{have_access, run_query}

-- The run ends with an error, and nothing has happened.
abbrev pub IsRefused : {A : Type 0} → Result A × World → World → Type 0
IsRefused (r, w1) w = (w1 ≡ w) × ((e : Error) × (r ≡ err e))

-- A check that fails ends the run before anything happens.
gate :
    {A B : Type 0} (Q : Type 0) (r : Result A) (f : A → Run B) (w : World)
    → ((a : A) → r ≡ ok a → IsRefused (f a w) w ⊎ Q)
    → IsRefused ((pure_step r >>= f) w) w ⊎ Q
gate Q (ok a) f w k = k a refl
gate Q (err e) f w k = inl (refl, (e, refl))

module _ (just : Just) (outside : Outside) (authorizer : Authorizer) (targets : List Target) where
  -- The target is one that the user may use, and the query passes the checks against its schema.
  abbrev pub IsAdmitted : User → TargetId → String → Target × DbSchema → Type 0
  IsAdmitted user srv_id query (srv, schema) =
      IsFound authorizer (user_subjects user) srv_id targets (srv, schema)
      × (is_allowed just outside.pg_parse schema
            (have_access just outside authorizer targets user srv_id schema) query
          ≡ ok tt)

  -- RunQuery either fails with the state as it was, so that no pool is opened, nothing is sent to a
  -- database and nothing is stored, or the target is a configured one that the policy allows to
  -- the user and the query is accepted by the checks against the schema of that target.
  pub run_query-guarded :
      (user : User) (srv_id : TargetId) (query : String) (w : World)
      → IsRefused (run_query just outside authorizer targets user srv_id query w) w
        ⊎ ((p : Target × DbSchema) × IsAdmitted user srv_id query p)
  unfolding run_query
  run_query-guarded user srv_id query w =
      gate _ (get_target_by_id authorizer targets user srv_id) _ w λ p found.
        let access = have_access just outside authorizer targets user srv_id p.1 in
        gate _ (make_vectors just outside.pg_parse query) _ w λ vectors made.
          gate _ (validate_schema just vectors p.1) _ w λ _ known.
            gate _ (validate_access just vectors access) _ w λ _ allowed. inr (
              p,
              (
                get_target_by_id-IsFound authorizer targets user srv_id p found,
                (is_allowed_iff just outside.pg_parse p.1 access query).1 (
                  vectors,
                  made,
                  (validate_schema_iff just vectors p.1).0 known,
                  (validate_access_iff just vectors access).0 allowed,
                ),
              ),
            )

  -- For a query that is one SELECT with one item in its FROM clause, no table of which takes a name
  -- that is spelled like the full name of an earlier other table: RunQuery either fails with the
  -- state as it was, or the policy allows the user `select` on every table of the FROM clause, by
  -- the name that the target's schema gives the table.
  pub run_query-select :
      (user : User) (srv_id : TargetId) (query : String) (w : World) (sel : SelectStmt)
      (from : Node)
      → outside.pg_parse query ≡ some (select_stmt sel ∷ [])
      → sel.from_clause ≡ cons from nil
      → IsUnmasked (range_vars from)
      → IsRefused (run_query just outside authorizer targets user srv_id query w) w
        ⊎ ((p : Target × DbSchema) × IsFound authorizer (user_subjects user) srv_id targets p
            × All
                (λ r.
                  authorizer.allow_query
                    (user_subjects user)
                    srv_id
                    op_select
                    (canonical_table p.1 (full_name_of r))
                  ≡ true)
                (range_vars from))
  unfolding have_access
  run_query-select user srv_id query w sel from parsed single free =
      elim (run_query-guarded user srv_id query w) [
        | inl refused ↦ inl refused
        | inr (p, (found, accepted)) ↦ inr (
          p,
          found,
          All-map_to (λ r (cols, known, allowed). allowed) (range_vars from)
              (select_guarded just outside.pg_parse query sel from p.1
                (have_access just outside authorizer targets user srv_id p.1) parsed single free
                accepted),
        )
      ]

  -- For a query that is one INSERT, DELETE, or UPDATE that assigns to some column: RunQuery either
  -- fails with the state as it was, or the policy allows the user the statement's operation on the
  -- table that it writes to, by the name that the target's schema gives the table.
  pub run_query-write :
      (user : User) (srv_id : TargetId) (query : String) (w : World) (st : Stmt) (rel : RangeVar)
      → outside.pg_parse query ≡ some (st ∷ [])
      → written st ≡ some rel
      → Assigns st
      → IsRefused (run_query just outside authorizer targets user srv_id query w) w
        ⊎ ((p : Target × DbSchema) × IsFound authorizer (user_subjects user) srv_id targets p
            × (authorizer.allow_query
                  (user_subjects user)
                  srv_id
                  (stmt_op st)
                  (canonical_table p.1 (full_name_of rel))
                ≡ true))
  unfolding have_access
  run_query-write user srv_id query w st rel parsed writes other =
      elim (run_query-guarded user srv_id query w) [
        | inl refused ↦ inl refused
        | inr (p, (found, accepted)) ↦
            let (cols, known, allowed) =
              write_guarded just outside.pg_parse query st rel p.1
                (have_access just outside authorizer targets user srv_id p.1) parsed writes other
                accepted in
            inr (p, found, allowed)
      ]
