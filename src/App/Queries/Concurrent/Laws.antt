-- ===== src/App/Queries/Concurrent/Laws.antt =====
-- What holds of the calls of getConnection in every order of their steps.
use mathlib.Core.List.{append_assoc, append-nil}
use database_gateway.Common.{
  ℕ, zero, suc, ◌≡◌, refl, sym, ap, ◌∙◌, subst, String, some, inl, inr, List, [], ◌∷◌, ◌++◌, ◌==◌,
  lookup, insert, lookup-insert, eq_iff, ok, err, Option-cases, Result-cases, Bool-cases, In, All,
  All-map_to,
}
use database_gateway.Common.Just.{Just}
use database_gateway.Config.{Target, TargetId}
use database_gateway.App.Effects.{Pool, Event, opened, World, Outside}
use database_gateway.App.Queries.{connection_url}
use database_gateway.App.Queries.Concurrent.{
  Stage, looking, connecting, saving, finished, Connecting, advance, turn, schedule,
}

module _ (just : Just) (outside : Outside) where
  -- `pool` is the answer of a call of pgxpool.New for the URL.
  abbrev pub IsOpened : String → List Event → Pool → Type 0
  IsOpened url log pool =
      (before : List Event) × (after : List Event) × (log ≡ before ++ (opened url ∷ after))
      × (outside.new_pool before url ≡ ok pool)

  IsOpened-append :
      (url : String) (log es : List Event) (pool : Pool)
      → IsOpened url log pool
      → IsOpened url (log ++ es) pool
  IsOpened-append url log es pool (before, after, at, new) =
      (before, after ++ es, ap (λ l. l ++ es) at ∙ append_assoc before (opened url ∷ after) es, new)

  module _ (targets : List Target) where
    -- The pool was opened with the connection of a target with this id.
    abbrev pub IsOwn : List Event → TargetId → Pool → Type 0
    IsOwn log id pool =
        (target : Target) × In target targets
        × (target.id ≡ id)
        × IsOpened (connection_url just target.connection) log pool

    abbrev pub KeepsOwn : World → Type 0
    KeepsOwn w = (id : TargetId) (pool : Pool) → lookup id w.conns ≡ some pool → IsOwn w.log id pool

    -- What a call holds, if anything, is a pool of its target.
    abbrev pub HoldsOwn : List Event → TargetId → Stage → Type 0
    HoldsOwn log id looking = Unit
    HoldsOwn log id connecting = Unit
    HoldsOwn log id (saving pool) = IsOwn log id pool
    HoldsOwn log id (finished (ok pool)) = IsOwn log id pool
    HoldsOwn log id (finished (err e)) = Unit

    IsOwn-append :
        (log es : List Event) (id : TargetId) (pool : Pool)
        → IsOwn log id pool
        → IsOwn (log ++ es) id pool
    IsOwn-append log es id pool (target, i, own, o) =
        (target, i, own, IsOpened-append (connection_url just target.connection) log es pool o)

    HoldsOwn-append :
        (log es : List Event) (id : TargetId) (stage : Stage)
        → HoldsOwn log id stage
        → HoldsOwn (log ++ es) id stage
    HoldsOwn-append log es id looking h = tt
    HoldsOwn-append log es id connecting h = tt
    HoldsOwn-append log es id (saving pool) h = IsOwn-append log es id pool h
    HoldsOwn-append log es id (finished (ok pool)) h = IsOwn-append log es id pool h
    HoldsOwn-append log es id (finished (err e)) h = tt

    abbrev IsCall : List Event → Connecting → Type 0
    IsCall log c = In c.target targets × HoldsOwn log c.target.id c.stage

    -- What a step of a call does.
    record IsStep (target : Target) (w : World) (after : Stage × World) : Type 0 where
      grown : (es : List Event) × (after.1.log ≡ w.log ++ es)
      keeps : KeepsOwn after.1
      holds : HoldsOwn after.1.log target.id after.0

    IsStep-same :
        (target : Target) (w : World) (stage : Stage)
        → KeepsOwn w
        → HoldsOwn w.log target.id stage
        → IsStep target w (stage, w)
    IsStep-same target w stage kept held = record {
      grown = ([], sym (append-nil w.log));
      keeps = kept;
      holds = held;
    }

    insert-KeepsOwn :
        (id : TargetId) (pool : Pool) (w : World)
        → KeepsOwn w
        → IsOwn w.log id pool
        → KeepsOwn (record w { conns = insert id pool w.conns })
    insert-KeepsOwn id pool w kept own k p h = elim (Bool-cases (id == k)) [
      | inl same ↦
          let saved : some pool ≡ some p =
            sym (lookup-insert id k pool w.conns ∙ rw same refl) ∙ h in
          let e : pool ≡ p = cc saved in
          subst (λ x. IsOwn w.log x p) ((eq_iff id k).0 same) (subst (λ x. IsOwn w.log id x) e own)
      | inr other ↦ kept k p (sym (lookup-insert id k pool w.conns ∙ rw other refl) ∙ h)
    ]

    advance-IsStep :
        (target : Target) (stage : Stage) (w : World)
        → In target targets
        → KeepsOwn w
        → HoldsOwn w.log target.id stage
        → IsStep target w (advance just outside target stage w)
    unfolding advance
    advance-IsStep target looking w i kept held = elim (Option-cases (lookup target.id w.conns)) [
      | inr (pool, known) ↦
          rw (known, advance) (IsStep-same target w (finished (ok pool)) kept (kept _ pool known))
      | inl unknown ↦ rw (unknown, advance) (IsStep-same target w connecting kept tt)
    ]
    advance-IsStep target connecting w i kept held =
        let url = connection_url just target.connection in
        let es = opened url ∷ [] in
        elim (Result-cases (outside.new_pool w.log url)) [
          | inl (pool, new) ↦
              rw (new, advance)
                record {
                  grown = (es, refl);
                  keeps = λ k p h. IsOwn-append w.log es k p (kept k p h);
                  holds = (target, i, refl, (w.log, [], refl, new));
                }
          | inr (e, new) ↦
              rw (new, advance)
                record {
                  grown = (es, refl);
                  keeps = λ k p h. IsOwn-append w.log es k p (kept k p h);
                  holds = tt;
                }
        ]
    advance-IsStep target (saving pool) w i kept held = record {
      grown = ([], sym (append-nil w.log));
      keeps = insert-KeepsOwn target.id pool w kept held;
      holds = held;
    }
    advance-IsStep target (finished r) w i kept held = IsStep-same target w (finished r) kept held

    -- The state of the calls and of the service.
    record AreOwn (cs : List Connecting) (w : World) : Type 0 where
      calls : All (IsCall w.log) cs
      pools : KeepsOwn w

    turn-AreOwn :
        (n : ℕ) (cs : List Connecting) (w : World)
        → AreOwn cs w
        → (es : List Event) × ((turn just outside n cs w).1.log ≡ w.log ++ es)
          × AreOwn (turn just outside n cs w).0 (turn just outside n cs w).1
    unfolding turn
    turn-AreOwn n [] w own = ([], sym (append-nil w.log), own)
    turn-AreOwn zero (c ∷ cs) w own =
        let ((i, held), others) = own.calls in
        let step = advance-IsStep c.target c.stage w i own.pools held in
        let (es, at) = step.grown in
        (
          es,
          at,
          record {
            calls = (
              (i, step.holds),
              All-map_to
                  (λ d is_call. (
                    is_call.0,
                    subst (λ log. HoldsOwn log d.target.id d.stage) (sym at)
                        (HoldsOwn-append w.log es d.target.id d.stage is_call.1),
                  ))
                  cs others,
            );
            pools = step.keeps;
          },
        )
    turn-AreOwn (suc n) (c ∷ cs) w own =
        let ((i, held), others) = own.calls in
        let (es, at, after) = turn-AreOwn n cs w (record { calls = others; pools = own.pools }) in
        (
          es,
          at,
          record {
            calls = (
              (
                i,
                subst (λ log. HoldsOwn log c.target.id c.stage) (sym at)
                    (HoldsOwn-append w.log es c.target.id c.stage held),
              ),
              after.calls,
            );
            pools = after.pools;
          },
        )

    schedule-AreOwn :
        (turns : List ℕ) (cs : List Connecting) (w : World)
        → AreOwn cs w
        → AreOwn (schedule just outside turns cs w).0 (schedule just outside turns cs w).1
    unfolding schedule
    schedule-AreOwn [] cs w own = own
    schedule-AreOwn (n ∷ turns) cs w own =
        let (_, _, after) = turn-AreOwn n cs w own in schedule-AreOwn turns _ _ after

    abbrev pub calling_for : List Target → List Connecting
    calling_for [] = []
    calling_for (t ∷ ts) = record { target = t; stage = looking } ∷ calling_for ts

    calling_for-IsCall :
        (log : List Event) (ts : List Target)
        → All (λ t. In t targets) ts
        → All (IsCall log) (calling_for ts)
    calling_for-IsCall log [] h = tt
    calling_for-IsCall log (t ∷ ts) (i, h) = ((i, tt), calling_for-IsCall log ts h)

    -- Whatever the order of the steps of calls of getConnection for configured targets, from a
    -- state whose pools are of their targets (such as one with no pool): each call that has a pool
    -- holds one that was opened with the connection of a target with the id it asked for, and so
    -- does each entry of `conns`.
    pub schedule-IsOwn :
        (turns : List ℕ) (ts : List Target) (w : World)
        → All (λ t. In t targets) ts
        → KeepsOwn w
        → let (calls, w') = schedule just outside turns (calling_for ts) w in
          All (λ c. HoldsOwn w'.log c.target.id c.stage) calls × KeepsOwn w'
    schedule-IsOwn turns ts w configured kept =
        let own =
          schedule-AreOwn turns (calling_for ts) w
            (record { calls = calling_for-IsCall w.log ts configured; pools = kept }) in
        (All-map_to (λ c is_call. is_call.1) _ own.calls, own.pools)
