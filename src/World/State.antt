-- ===== src/World/State.antt =====
-- The state, and one round trip to the database.
use asset_repayment_service.Prelude.{ℕ, suc, Bool, Option, List}
use asset_repayment_service.Prelude.Text.{Str}
use asset_repayment_service.Errors.{GoError, plain, pg_error}
use asset_repayment_service.Deployment.Clock.{Time}
use asset_repayment_service.Deployment.Contracts.{Ref}
use asset_repayment_service.Payment.Entity.{PaymentResult}
use asset_repayment_service.Database.Tables.{Db, Fetched, row, no_row, violated}

-- What the network does to a call: it works; the call does not reach the server; or the server
-- carries it out and the reply is lost. The driver then returns an error with some text.
pub data Fault : Type 0 where
  healthy : Fault
  refused : Str → Fault
  reply_lost : Str → Fault

pub record Environment : Type 0 where
  pub fault : ℕ → Fault
  pub now : ℕ → Time
  pub uuid : ℕ → Str
  -- `uuid.NewString()` in the service
  pub new_uuid : ℕ → Str
  -- how many of the newest entries the snapshot of an apply statement misses, because concurrent
  -- statements committed them after it was taken
  pub lag : ℕ → ℕ
  -- how many of the oldest entries Redis would trim from the stream, where its bound lets it
  pub trim : ℕ → ℕ
  -- which pending entries a claim hands back: the broker takes those that are idle for long enough,
  -- from a cursor and up to a count
  pub claims : ℕ → ℕ → Bool

-- An entry of the Redis stream: its number, and the field `notification`, if it has one.
pub record Message : Type 0 where
  pub id : ℕ
  pub payload : Option Str

-- The field `reason` of a dead letter: a fixed text, or `err.Error()` of the error.
pub data Reason : Type 0 where
  undecodable : Reason
  gave_up : GoError → Reason

-- The stream with its consumer group: what is pending was handed out and not acknowledged, with the
-- number of times. `dead` is the dead-letter stream, with the reason and the original.
pub record Stream : Type 0 where
  pub entries : List Message
  pub next_entry : ℕ
  -- entries below this number were handed out
  pub delivered : ℕ
  pub pending : List (Message × ℕ)
  pub dead : List (Reason × Message)

pub record World (A : Type 0) : Type 0 where
  pub db : Db A
  -- whether the cache has a client
  pub cache_on : Bool
  pub refs : List (Str × Ref A)
  pub results : List (Str × PaymentResult A)
  -- whether the queue is configured, and its stream
  pub queue_on : Bool
  pub queue_max_len : ℕ
  pub stream : Stream
  -- the number of the next call
  pub step : ℕ

-- The reply to a query for one row; `no_rows` is `sql.ErrNoRows`.
pub data Reply {ℓ} (R : Type ℓ) : Type ℓ where
  found : R → Reply R
  no_rows : Reply R
  failed : GoError → Reply R

abbrev pub reply {ℓ} : {R : Type ℓ} → Fetched R → Reply R
reply (row r) = found r
reply no_row = no_rows
reply (violated sqlstate) = failed (pg_error sqlstate)

module _ {A R : Type 0} ⦃e : Environment⦄ where
  -- `QueryRowxContext(...).StructScan(&row)` with an atomic statement.
  unfoldable pub query : (Time → Str → Db A → Fetched R × Db A) → World A → Reply R × World A
  query statement w =
      let (r, db) = statement (e.now w.step) (e.uuid w.step) w.db in
      elim (e.fault w.step) [
        | healthy ↦ (reply r, record w { db = db; step = suc w.step })
        | refused m ↦ (failed (plain m), record w { step = suc w.step })
        | reply_lost m ↦ (failed (plain m), record w { db = db; step = suc w.step })
      ]
