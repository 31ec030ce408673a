-- ===== src/Queue/Quiet.antt =====
-- What the calls to the stream do to the tables.
use asset_repayment_service.Prelude.{ℕ, ◌≡◌, arith}
use asset_repayment_service.World.State.{Environment, World, Message, Reason}
use asset_repayment_service.Queue.Worker.{
  stream_call, ack, dead_letter, deliveries, read_batch, claim_batch,
}

module _ {A : Type 0} ⦃e : Environment⦄ where
  pub db-read_batch : (count : ℕ) (w : World A) → (read_batch count w).1.db ≡ w.db
  unfolding read_batch stream_call
  db-read_batch count w = ground arith

  pub db-claim_batch : (w : World A) → (claim_batch w).1.db ≡ w.db
  unfolding claim_batch stream_call
  db-claim_batch w = ground arith

  pub db-deliveries : (id : ℕ) (w : World A) → (deliveries id w).1.db ≡ w.db
  unfolding deliveries
  db-deliveries id w = ground arith

  pub db-ack : (id : ℕ) (w : World A) → (ack id w).db ≡ w.db
  unfolding ack stream_call
  db-ack id w = ground arith

  pub db-dead_letter :
      (m : Message) (reason : Reason) (w : World A) → (dead_letter m reason w).db ≡ w.db
  unfolding dead_letter stream_call ack
  db-dead_letter m reason w = ground arith
