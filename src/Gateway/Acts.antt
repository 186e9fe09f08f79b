-- ===== src/Gateway/Acts.antt =====
-- What a command does to other systems, in its order, as a state that its steps pass on.
pub mod Plan
use database_gateway.Common.{ℕ, String, List, [], ◌∷◌, ◌++◌, Result, ok, err}

-- Connections and migrations name the database by its DSN, discovery the issuer, and listening the
-- port.
pub data Act : Type 0 where
  connected : String → Act
  migrated_up : String → Act
  migrated_down : String → Act
  migration_created : String → Act
  generated : String → Act
  discovered : String → Act
  listened : ℕ → Act

abbrev pub Start : Type 0 → Type 0
Start A = List Act → Result A × List Act

abbrev pub next : {A B : Type 0} → Result A × List Act → (A → Start B) → Result B × List Act
next (ok a, log) f = f a log
next (err e, log) f = (err e, log)

infixl 5 ◌>>◌ ◌>>=◌
abbrev pub ◌>>=◌ : {A B : Type 0} → Start A → (A → Start B) → Start B
m >>= f = λ log. next (m log) f

abbrev pub ◌>>◌ : {B : Type 0} → Start (Unit {0}) → Start B → Start B
m >> k = m >>= λ _. k

abbrev pub pure_step : {A : Type 0} → Result A → Start A
pure_step r = λ log. (r, log)

-- An act, whose answer depends on the acts before.
abbrev pub acting : {A : Type 0} → Act → (List Act → Result A) → Start A
acting act answer = λ log. (answer log, log ++ (act ∷ []))
