-- ===== src/Storage/Transactions.antt =====
-- `DoInTx` of internal/storage/service.go. A transaction works on a copy of the database's state;
-- what begins, commits and rolls back is a parameter.
use database_gateway.Common.{◌≡◌, ◌⊎◌, Option, none, some, Result, ok, err, Error, plain}
use database_gateway.Storage.Failures.{DbError}

-- From the state before and the transaction's own state: whether the call fails, and the state after.
pub record Transactions {ℓ} (D : Type ℓ) : Type ℓ where
  pub begin : D → Option DbError
  pub commit : D → D → Option DbError × D
  pub rollback : D → D → Option DbError × D

-- What the database promises: a commit that succeeds keeps the transaction's state, and one that
-- fails, like a rollback, keeps the state before.
pub record IsAtomic {ℓ} {D : Type ℓ} (t : Transactions D) : Type ℓ where
  pub commits : (before own after : D) → t.commit before own ≡ (none, after) → after ≡ own
  pub commit_fails :
      (before own after : D) (e : DbError) → t.commit before own ≡ (some e, after) → after ≡ before
  pub rolls_back : (before own : D) → (t.rollback before own).1 ≡ before

module _ {ℓ} {D : Type ℓ} (t : Transactions D) where
  -- After the callback. An error of the rollback is only logged.
  unfoldable pub finish_tx : D → Result (Unit {0}) × D → Result (Unit {0}) × D
  finish_tx before (err e, own) = (err e, (t.rollback before own).1)
  finish_tx before (ok _, own) =
      let (failure, after) = t.commit before own in
      (elim failure [ some e ↦ err (plain e.text) | none ↦ ok tt ], after)

  unfoldable pub do_in_tx : (D → Result (Unit {0}) × D) → D → Result (Unit {0}) × D
  unfolding finish_tx
  do_in_tx callback db = elim (t.begin db) [
    | some e ↦ (err (plain e.text), db)
    | none ↦ finish_tx db (callback db)
  ]

  module _ (atomic : IsAtomic t) where
    -- What a transaction has done that the callback would take to `own`: all of it, or nothing.
    abbrev pub IsAllOrNothing : D → Result (Unit {0}) × D → Result (Unit {0}) × D → Type ℓ
    IsAllOrNothing db own r =
        ((r.0 ≡ ok tt) × (own.0 ≡ ok tt) × (r.1 ≡ own.1))
        ⊎ (((e : Error) × (r.0 ≡ err e)) × (r.1 ≡ db))
