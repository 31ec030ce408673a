-- ===== src/Queue/Invariants.antt =====
-- What `Process` keeps, and what depends on the tables, the cache and nothing else, is kept by the
-- rounds of the workers and of the reclaimer.
use asset_repayment_service.Prelude.{ℕ, inl, inr, List, [], ◌∷◌, arith, Option-cases}
use asset_repayment_service.Errors.{Result, ok, err}
use asset_repayment_service.Money.Decimal.{Decimal}
use asset_repayment_service.Money.Currency.{Unicode}
use asset_repayment_service.Deployment.Clock.{Floats}
use asset_repayment_service.Payment.Entity.{PaymentResult, ValidatedNotification}
use asset_repayment_service.Payment.Invariants.{IsBeside}
use asset_repayment_service.Payment.Service.{Codec, process}
use asset_repayment_service.World.State.{Environment, World, Message, Reason, gave_up, undecodable}
use asset_repayment_service.Queue.Worker.{
  QueueSettings, ack, dead_letter, stream_call, deliveries, read_batch, claim_batch, decode_message,
  settle, handle, handle_new, handle_again, run_round, reclaim_round,
}

module _ {A : Type 0} ⦃e : Environment⦄ where
  ack-IsBeside : (id : ℕ) (w : World A) → IsBeside w (ack id w)
  unfolding ack stream_call
  ack-IsBeside id w = ground arith

  dead_letter-IsBeside :
      (m : Message) (reason : Reason) (w : World A) → IsBeside w (dead_letter m reason w)
  unfolding dead_letter stream_call ack
  dead_letter-IsBeside m reason w = ground arith

  deliveries-IsBeside : (id : ℕ) (w : World A) → IsBeside w (deliveries id w).1
  unfolding deliveries
  deliveries-IsBeside id w = ground arith

  read_batch-IsBeside : (n : ℕ) (w : World A) → IsBeside w (read_batch n w).1
  unfolding read_batch stream_call
  read_batch-IsBeside n w = ground arith

  claim_batch-IsBeside : (w : World A) → IsBeside w (claim_batch w).1
  unfolding claim_batch stream_call
  claim_batch-IsBeside w = ground arith

module _ {A : Type 0} ⦃d : Decimal A⦄ ⦃u : Unicode⦄ ⦃e : Environment⦄ ⦃f : Floats⦄ ⦃c : Codec A⦄
    (q : QueueSettings) where
  settle-IsBeside :
      (m : Message) (attempt : ℕ) (r : Result (PaymentResult A)) (w : World A)
      → IsBeside w (settle q m attempt r w)
  unfolding settle
  settle-IsBeside m attempt (ok x) w = ack-IsBeside m.id w
  settle-IsBeside m attempt (err cause) w = ground (arith, dead_letter-IsBeside m (gave_up cause) w)

module _ {A : Type 0} ⦃d : Decimal A⦄ ⦃u : Unicode⦄ ⦃e : Environment⦄ ⦃f : Floats⦄ ⦃c : Codec A⦄
    (q : QueueSettings) (Holds : World A → Type 0)
    (stays : (w w' : World A) → IsBeside w w' → Holds w → Holds w')
    (processed : (v : ValidatedNotification A) (w : World A)
      → Holds w
      → Holds (process v w).1) where
  handle-Holds : (m : Message) (attempt : ℕ) (w : World A) → Holds w → Holds (handle q m attempt w)
  unfolding handle
  handle-Holds m attempt w h = elim (Option-cases (decode_message ⦃c = c⦄ m)) [
    | inl torn ↦
        rw (torn, handle)
          (stays w (dead_letter m undecodable w) (dead_letter-IsBeside m undecodable w) h)
    | inr (v, decoded) ↦
        let (r, after) = process v w in
        rw (decoded, handle)
          (stays after (settle q m attempt r after) (settle-IsBeside q m attempt r after)
            (processed v w h))
  ]

  handle_new-Holds : (ms : List Message) (w : World A) → Holds w → Holds (handle_new q ms w)
  unfolding handle_new
  handle_new-Holds [] w h = h
  handle_new-Holds (m ∷ ms) w h = handle_new-Holds ms (handle q m 1 w) (handle-Holds m 1 w h)

  handle_again-Holds : (ms : List Message) (w : World A) → Holds w → Holds (handle_again q ms w)
  unfolding handle_again
  handle_again-Holds [] w h = h
  handle_again-Holds (m ∷ ms) w h =
      let (attempt, w') = deliveries m.id w in
      handle_again-Holds ms (handle q m attempt w')
        (handle-Holds m attempt w' (stays w w' (deliveries-IsBeside m.id w) h))

  pub run_round-Holds : (w : World A) → Holds w → Holds (run_round q w)
  unfolding run_round
  run_round-Holds w h =
      let read = read_batch q.batch_size w in
      handle_new-Holds read.0 read.1 (stays w read.1 (read_batch-IsBeside q.batch_size w) h)

  pub reclaim_round-Holds : (w : World A) → Holds w → Holds (reclaim_round q w)
  unfolding reclaim_round
  reclaim_round-Holds w h =
      let claimed = claim_batch w in
      handle_again-Holds claimed.0 claimed.1 (stays w claimed.1 (claim_batch-IsBeside w) h)
