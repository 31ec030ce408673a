-- ===== src/Queue/Drains.antt =====
-- How a message leaves the pending list: by an answer, or by the dead letters at its last attempt.
use asset_repayment_service.Prelude.{
  ℕ, ◌≡◌, ◌≤◌, refl, false, inl, inr, ◌∷◌, [], arith, ◌++◌, Option-cases,
}
use asset_repayment_service.Errors.{Result, ok, err}
use asset_repayment_service.Money.Decimal.{Decimal}
use asset_repayment_service.Money.Currency.{Unicode}
use asset_repayment_service.Deployment.Clock.{Floats}
use asset_repayment_service.Payment.Entity.{PaymentResult}
use asset_repayment_service.Payment.Service.{Codec, process}
use asset_repayment_service.World.State.{
  Environment, World, Message, Reason, healthy, gave_up, undecodable,
}
use asset_repayment_service.Queue.Worker.{
  QueueSettings, Pending, without, is_pending, stream_call, ack, dead_letter, decode_message,
  settle, handle,
}

is_pending-without_itself : (id : ℕ) (ps : Pending) → is_pending id (without id ps) ≡ false
unfolding is_pending without
is_pending-without_itself id [] = refl
is_pending-without_itself id ((m, n) ∷ ps) = ground (arith, is_pending-without_itself id ps)

-- Every call of the network works.
abbrev pub IsHealthy : Environment → Type 0
IsHealthy e = (n : ℕ) → e.fault n ≡ healthy

module _ {A : Type 0} ⦃e : Environment⦄ where
  abbrev IsDrained : ℕ → World A → Type 0
  IsDrained id w = is_pending id w.stream.pending ≡ false

  ack-IsDrained : (id : ℕ) (w : World A) → e.fault w.step ≡ healthy → IsDrained id (ack id w)
  unfolding ack stream_call
  ack-IsDrained id w works =
      rw (works, ack, stream_call) (is_pending-without_itself id w.stream.pending)

  dead_letter-IsDrained :
      (m : Message) (reason : Reason) (w : World A)
      → IsHealthy e
      → IsDrained m.id (dead_letter m reason w)
  unfolding dead_letter
  dead_letter-IsDrained m reason w works =
      let copied = stream_call (λ s. record s { dead = s.dead ++ (reason, m) ∷ [] }) w in
      rw (works w.step, dead_letter) (ack-IsDrained m.id copied (works copied.step))

module _ {A : Type 0} ⦃d : Decimal A⦄ ⦃u : Unicode⦄ ⦃e : Environment⦄ ⦃f : Floats⦄
    ⦃c : Codec A⦄ where
  settle-IsDrained :
      (q : QueueSettings) (m : Message) (attempt : ℕ) (r : Result (PaymentResult A)) (w : World A)
      → IsHealthy e
      → q.max_attempts ≤ attempt
      → IsDrained m.id (settle q m attempt r w)
  unfolding settle
  settle-IsDrained q m attempt (ok x) w works last = ack-IsDrained m.id w (works w.step)
  settle-IsDrained q m attempt (err cause) w works last =
      ground (arith, dead_letter-IsDrained m (gave_up cause) w works)

  -- While the calls of the network work, handling a message at its last attempt or later takes it off the pending
  -- list, whatever its payload is and whatever `Process` answers.
  pub handle_drains :
      (q : QueueSettings) (m : Message) (attempt : ℕ) (w : World A)
      → IsHealthy e
      → q.max_attempts ≤ attempt
      → is_pending m.id (handle q m attempt w).stream.pending ≡ false
  unfolding handle
  handle_drains q m attempt w works last = elim (Option-cases (decode_message ⦃c = c⦄ m)) [
    | inl torn ↦ rw (torn, handle) (dead_letter-IsDrained m undecodable w works)
    | inr (v, decoded) ↦
        rw (decoded, handle)
          (settle-IsDrained q m attempt (process v w).0 (process v w).1 works last)
  ]
