-- ===== src/Storage/Failures.antt =====
-- `handleError` of internal/storage/private.go. What `errors.Is` and `just.ErrAs` find in an error
-- of the libraries is a record.
use database_gateway.Common.{
  ℕ, zero, suc, String, ◌==◌, Bool, Option, none, some, Result, ok, err, Error, Sentinel, plain,
  wrapping, if◌then◌else◌,
}

pub record DbError : Type 0 where
  -- `qrm.ErrNoRows` is in it
  pub is_no_rows : Bool
  -- the code of the `pq.Error` in it
  pub pq_code : Option String
  pub text : String

-- What a call of the database gives.
pub data Answer {ℓ} (A : Type ℓ) : Type ℓ where
  answered : A → Answer A
  broken : DbError → Answer A

-- The rows that a statement affected, which the driver may not know.
abbrev pub Affected : Type 0
Affected = Answer ℕ

abbrev pub no_record_found : Error
no_record_found = wrapping Sentinel.no_record "not found"

abbrev pub no_rows_affected : Error
no_rows_affected = wrapping Sentinel.no_record "no rows affected"

abbrev pub record_exists : Error
record_exists = wrapping Sentinel.integrity_violation "record already exists"

-- The error of a call that failed.
unfoldable pub call_error : DbError → Error
call_error e = if e.is_no_rows then no_record_found else elim e.pq_code [
  | none ↦ plain e.text
  | some code ↦ if code == "23505" then record_exists else plain e.text
]

-- A call that gave a result to count by, or none.
unfoldable pub affected_error : Option Affected → Result (Unit {0})
affected_error none = ok tt
affected_error (some (broken e)) = err (plain e.text)
affected_error (some (answered zero)) = err no_rows_affected
affected_error (some (answered (suc n))) = ok tt

unfoldable pub handle_error : Option DbError → Option Affected → Result (Unit {0})
unfolding call_error affected_error
handle_error (some e) res = err (call_error e)
handle_error none res = affected_error res

-- After a call, with what it gave.
unfoldable pub handled {ℓ κ} : {A : Type ℓ} {B : Type κ} → Answer A → (A → B) → Result B
unfolding handle_error
handled (broken e) f = err (call_error e)
handled (answered a) f = ok (f a)
