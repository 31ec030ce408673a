-- ===== src/Queue/Effects.antt =====
-- What the workers do to the tables.
use asset_repayment_service.Prelude.{
  ℕ, ◌≡◌, true, ◌⊎◌, inl, inr, none, some, List, [], ◌∷◌, arith, subst, sym, ◌∙◌, Option-cases,
}
use asset_repayment_service.Errors.{Result, ok, err}
use asset_repayment_service.Money.Decimal.{Decimal}
use asset_repayment_service.Money.Currency.{Unicode}
use asset_repayment_service.Deployment.Clock.{Floats}
use asset_repayment_service.Payment.Entity.{ValidatedNotification, PaymentResult}
use asset_repayment_service.Payment.Service.{Codec, process}
use asset_repayment_service.Payment.Effects.{process-Reach}
use asset_repayment_service.Payment.Idempotency.{process_once}
use asset_repayment_service.Database.Tables.{has_reference}
use asset_repayment_service.Database.Consistency.{IsConsistent}
use asset_repayment_service.Database.Ledger.{Reach, here, Reach-trans, Reach-IsConsistent}
use asset_repayment_service.World.State.{Environment, World, Message, gave_up, undecodable}
use asset_repayment_service.Queue.Quiet.{
  db-ack, db-dead_letter, db-read_batch, db-claim_batch, db-deliveries,
}
use asset_repayment_service.Queue.Worker.{
  QueueSettings, deliveries, read_batch, claim_batch, decode_message, settle, handle, handle_new,
  handle_again, run_round, reclaim_round,
}

module _ {A : Type 0} ⦃d : Decimal A⦄ ⦃u : Unicode⦄ ⦃e : Environment⦄ ⦃f : Floats⦄ ⦃c : Codec A⦄
    (q : QueueSettings) where
  pub db-settle :
      (m : Message) (attempt : ℕ) (r : Result (PaymentResult A)) (w : World A)
      → (settle q m attempt r w).db ≡ w.db
  unfolding settle
  db-settle m attempt (ok _) w = db-ack m.id w
  db-settle m attempt (err cause) w = ground (arith, db-dead_letter m (gave_up cause) w)

  -- What `handle` does to the tables is what `Process` does, or nothing.
  pub db-handle :
      (m : Message) (attempt : ℕ) (w : World A)
      → ((decode_message ⦃c = c⦄ m ≡ none) × ((handle q m attempt w).db ≡ w.db))
        ⊎ ((v : ValidatedNotification A) × (decode_message m ≡ some v)
            × ((handle q m attempt w).db ≡ (process v w).1.db))
  unfolding handle
  db-handle m attempt w = elim (Option-cases (decode_message ⦃c = c⦄ m)) [
    | inl torn ↦ inl (torn, rw (torn, handle) (db-dead_letter m undecodable w))
    | inr (v, decoded) ↦
        inr (v, decoded, rw (decoded, handle) (db-settle m attempt (process v w).0 (process v w).1))
  ]

  pub handle-Reach :
      (m : Message) (attempt : ℕ) (w : World A) → Reach w.db (handle q m attempt w).db
  handle-Reach m attempt w = elim (db-handle m attempt w) [
    | inl (torn, same) ↦ subst (Reach w.db) (sym same) here
    | inr (v, decoded, ran) ↦ subst (Reach w.db) (sym ran) (process-Reach v w)
  ]

  -- A redelivered message whose reference is in the ledger changes no table.
  pub handle_once :
      (m : Message) (attempt : ℕ) (w : World A) (v : ValidatedNotification A)
      → decode_message m ≡ some v
      → has_reference v.reference w.db.payments ≡ true
      → (handle q m attempt w).db ≡ w.db
  handle_once m attempt w v decoded taken = elim (db-handle m attempt w) [
    | inl (torn, same) ↦ same
    | inr (v', decoded', ran) ↦ ran ∙ process_once v' w (ground arith)
  ]

  handle_new-Reach : (ms : List Message) (w : World A) → Reach w.db (handle_new q ms w).db
  unfolding handle_new
  handle_new-Reach [] w = here
  handle_new-Reach (m ∷ ms) w =
      Reach-trans (handle-Reach m 1 w) (handle_new-Reach ms (handle q m 1 w))

  handle_again-Reach : (ms : List Message) (w : World A) → Reach w.db (handle_again q ms w).db
  unfolding handle_again
  handle_again-Reach [] w = here
  handle_again-Reach (m ∷ ms) w =
      let (attempt, w') = deliveries m.id w in
      Reach-trans
        (subst (λ db. Reach db (handle q m attempt w').db) (db-deliveries m.id w)
          (handle-Reach m attempt w'))
        (handle_again-Reach ms (handle q m attempt w'))

  pub run_round-Reach : (w : World A) → Reach w.db (run_round q w).db
  unfolding run_round
  run_round-Reach w =
      let read = read_batch q.batch_size w in
      subst (λ db. Reach db (handle_new q read.0 read.1).db) (db-read_batch q.batch_size w)
        (handle_new-Reach read.0 read.1)

  pub reclaim_round-Reach : (w : World A) → Reach w.db (reclaim_round q w).db
  unfolding reclaim_round
  reclaim_round-Reach w =
      let claimed = claim_batch w in
      subst (λ db. Reach db (handle_again q claimed.0 claimed.1).db) (db-claim_batch w)
        (handle_again-Reach claimed.0 claimed.1)

  -- Consistent books stay consistent through a round of a worker and a round of the reclaimer,
  -- whatever the stream holds and whatever the network does.
  pub rounds-IsConsistent :
      (w : World A)
      → IsConsistent w.db
      → IsConsistent (run_round q w).db × IsConsistent (reclaim_round q w).db
  rounds-IsConsistent w books = (
    Reach-IsConsistent (run_round-Reach w) books,
    Reach-IsConsistent (reclaim_round-Reach w) books,
  )
