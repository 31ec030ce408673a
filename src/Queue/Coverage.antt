-- ===== src/Queue/Coverage.antt =====
-- A message that the stream has handed out, under `handle`: pending, in the ledger or a dead letter.
use asset_repayment_service.Prelude.{
  ℕ, ◌≡◌, ◌≢◌, ◌<◌, true, false, ◌⊎◌, inl, inr, some, [], ◌∷◌, arith, subst, Bool-cases,
  Option-cases, ◌==◌,
}
use asset_repayment_service.Errors.{GoError, Result, ok, err, Result-cases}
use asset_repayment_service.Money.Decimal.{Decimal}
use asset_repayment_service.Money.Currency.{Unicode}
use asset_repayment_service.Deployment.Clock.{Floats}
use asset_repayment_service.Payment.Entity.{ValidatedNotification, PaymentResult}
use asset_repayment_service.Payment.Service.{Codec, process}
use asset_repayment_service.Payment.Idempotency.{process_keeps}
use asset_repayment_service.Database.Tables.{has_reference}
use asset_repayment_service.Database.Ledger.{has_reference-Reach}
use asset_repayment_service.World.State.{Environment, World, Message, Reason, gave_up, undecodable}
use asset_repayment_service.Payment.CacheSound.{stream-process}
use asset_repayment_service.Queue.Effects.{db-settle, handle-Reach}
use asset_repayment_service.Queue.Messages.{
  awaits, is_dead, awaits-without, is_dead-append, is_dead-last,
}
use asset_repayment_service.Queue.Worker.{
  QueueSettings, stream_call, ack, dead_letter, decode_message, permanent, settle, handle,
}

module _ {A : Type 0} ⦃e : Environment⦄ where
  -- The message stays pending, and stays a dead letter.
  abbrev Keeps : Message → World A → World A → Type 0
  Keeps x w w' =
      (awaits x w.stream.pending ≡ true → awaits x w'.stream.pending ≡ true)
      × (is_dead x w.stream.dead ≡ true → is_dead x w'.stream.dead ≡ true)

  ack-Keeps : (x : Message) (other : ℕ) (w : World A) → x.id ≢ other → Keeps x w (ack other w)
  unfolding ack stream_call
  ack-Keeps x other w ne = ground (arith, awaits-without x other w.stream.pending ne)

  dead_letter-Keeps :
      (x m : Message) (reason : Reason) (w : World A)
      → x.id ≢ m.id
      → Keeps x w (dead_letter m reason w)
  unfolding dead_letter ack stream_call
  dead_letter-Keeps x m reason w ne = ground (
    arith,
    awaits-without x m.id w.stream.pending ne,
    is_dead-append x w.stream.dead ((reason, m) ∷ []),
  )

  -- A dead letter is written before its original goes.
  dead_letter-covers :
      (m : Message) (reason : Reason) (w : World A)
      → awaits m w.stream.pending ≡ true
      → (awaits m (dead_letter m reason w).stream.pending ≡ true)
        ⊎ (is_dead m (dead_letter m reason w).stream.dead ≡ true)
  unfolding dead_letter ack stream_call
  dead_letter-covers m reason w h = ground (arith, is_dead-last m reason w.stream.dead)

  dead_letter-is_dead :
      (x m : Message) (reason : Reason) (w : World A)
      → is_dead x w.stream.dead ≡ true
      → is_dead x (dead_letter m reason w).stream.dead ≡ true
  unfolding dead_letter ack stream_call
  dead_letter-is_dead x m reason w h =
      ground (arith, is_dead-append x w.stream.dead ((reason, m) ∷ []))

module _ {A : Type 0} where
  -- The credit `v` that message `m` carries is pending, a dead letter, or in the ledger.
  abbrev pub IsCovered : Message → ValidatedNotification A → World A → Type 0
  IsCovered m v w =
      (awaits m w.stream.pending ≡ true)
      ⊎ ((is_dead m w.stream.dead ≡ true) ⊎ (has_reference v.reference w.db.payments ≡ true))

module _ {A : Type 0} ⦃d : Decimal A⦄ ⦃u : Unicode⦄ ⦃e : Environment⦄ ⦃f : Floats⦄ ⦃c : Codec A⦄
    (q : QueueSettings) where
  settle-Keeps :
      (x m : Message) (attempt : ℕ) (r : Result (PaymentResult A)) (w : World A)
      → x.id ≢ m.id
      → Keeps x w (settle q m attempt r w)
  unfolding settle
  settle-Keeps x m attempt (ok _) w ne = ack-Keeps x m.id w ne
  settle-Keeps x m attempt (err cause) w ne =
      ground (arith, dead_letter-Keeps x m (gave_up cause) w ne)

  -- After an error, the message is still pending or has become a dead letter.
  settle_error :
      (m : Message) (attempt : ℕ) (cause : GoError) (w : World A)
      → (awaits m w.stream.pending ≡ true) ⊎ (is_dead m w.stream.dead ≡ true)
      → (awaits m (settle q m attempt (err cause) w).stream.pending ≡ true)
        ⊎ (is_dead m (settle q m attempt (err cause) w).stream.dead ≡ true)
  unfolding settle
  settle_error m attempt cause w h =
      ground
        (arith, dead_letter-covers m (gave_up cause) w, dead_letter-is_dead m m (gave_up cause) w)

  answered_message :
      (m : Message) (v : ValidatedNotification A) (attempt : ℕ) (w : World A)
      → (awaits m w.stream.pending ≡ true) ⊎ (is_dead m w.stream.dead ≡ true)
      → IsCovered m v (settle q m attempt (process v w).0 (process v w).1)
  answered_message m v attempt w held =
      let after = (process v w).1 in
      elim (Result-cases (process v w).0) [
        | inl (r, answer) ↦
            inr
              (inr (rw (db-settle q m attempt (process v w).0 after) (process_keeps v w r answer)))
        | inr (cause, answer) ↦
            rw answer (ground (arith, held, stream-process v w, settle_error m attempt cause after))
      ]

  own_message :
      (m : Message) (v : ValidatedNotification A) (attempt : ℕ) (w : World A)
      → decode_message m ≡ some v
      → IsCovered m v w
      → IsCovered m v (handle q m attempt w)
  unfolding handle
  own_message m v attempt w decoded (inl held) =
      rw (decoded, handle) (answered_message m v attempt w (inl held))
  own_message m v attempt w decoded (inr (inl dead)) =
      rw (decoded, handle) (answered_message m v attempt w (inr dead))
  own_message m v attempt w decoded (inr (inr listed)) =
      inr (inr (has_reference-Reach v.reference (handle-Reach q m attempt w) listed))

  handle-Keeps :
      (x m : Message) (attempt : ℕ) (w : World A) → x.id ≢ m.id → Keeps x w (handle q m attempt w)
  unfolding handle
  handle-Keeps x m attempt w ne = elim (Option-cases (decode_message ⦃c = c⦄ m)) [
    | inl torn ↦ rw (torn, handle) (dead_letter-Keeps x m undecodable w ne)
    | inr (v, decoded) ↦
        rw (decoded, handle)
          (ground (
            arith,
            stream-process v w,
            settle-Keeps x m attempt (process v w).0 (process v w).1 ne,
          ))
  ]

  -- Handling any message `m`, with any number of attempts and under any fault of the network, keeps
  -- every credit covered that was: it is pending, it is a dead letter, or it is in the ledger. (`m`
  -- may be the credit's own message; two messages of one number are one message.)
  pub handle-IsCovered :
      (m : Message) (attempt : ℕ) (credit : Message) (v : ValidatedNotification A) (w : World A)
      → decode_message credit ≡ some v
      → (credit.id ≡ m.id → credit ≡ m)
      → IsCovered credit v w
      → IsCovered credit v (handle q m attempt w)
  handle-IsCovered m attempt credit v w decoded one covered =
      elim (Bool-cases (credit.id == m.id)) [
        | inl same ↦
            let itself = one (ground arith) in
            subst (λ (x : Message). IsCovered credit v (handle q x attempt w)) itself
              (own_message credit v attempt w decoded covered)
        | inr other ↦
            let kept = handle-Keeps credit m attempt w (ground arith) in
            elim covered [
              | inl held ↦ inl (kept.0 held)
              | inr (inl dead) ↦ inr (inl (kept.1 dead))
              | inr (inr listed) ↦
                  inr (inr (has_reference-Reach v.reference (handle-Reach q m attempt w) listed))
            ]
      ]

  -- A failure that a retry may mend leaves the stream as it is, the message pending and not
  -- acknowledged, while attempts are left.
  pub handle_retries :
      (m : Message) (attempt : ℕ) (v : ValidatedNotification A) (cause : GoError) (w : World A)
      → decode_message m ≡ some v
      → (process v w).0 ≡ err cause
      → permanent cause ≡ false
      → attempt < q.max_attempts
      → (handle q m attempt w).stream ≡ w.stream
  unfolding handle settle
  handle_retries m attempt v cause w decoded failed passing left =
      rw (decoded, handle, failed, settle, passing) (ground (arith, stream-process v w))
