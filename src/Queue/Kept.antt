-- ===== src/Queue/Kept.antt =====
-- A credit whose entry is in the stream, through the rounds of the workers and of the reclaimer.
use asset_repayment_service.Prelude.{
  ℕ, suc, ◌≡◌, ◌≤◌, ◌<◌, refl, true, ◌⊎◌, inl, inr, some, List, [], ◌∷◌, arith, sym, ◌∙◌,
  Option-cases, subst,
}
use asset_repayment_service.Prelude.Text.{Str}
use asset_repayment_service.Errors.{Result, ok, err}
use asset_repayment_service.Money.Decimal.{Decimal}
use asset_repayment_service.Money.Currency.{Unicode}
use asset_repayment_service.Deployment.Clock.{Floats}
use asset_repayment_service.Payment.Entity.{ValidatedNotification, PaymentResult}
use asset_repayment_service.Payment.Service.{Codec, process}
use asset_repayment_service.Payment.CacheSound.{stream-process}
use asset_repayment_service.World.State.{
  Environment, World, Message, Stream, Reason, gave_up, undecodable, Fault, healthy, refused,
  reply_lost,
}
use asset_repayment_service.Database.Tables.{has_reference}
use asset_repayment_service.Queue.Worker.{
  QueueSettings, has_entry, stream_call, ack, dead_letter, deliveries, unread, hand_out, read_batch,
  claim_batch, decode_message, settle, handle, handle_new, handle_again, run_round, reclaim_round,
}
use asset_repayment_service.Queue.Coverage.{IsCovered}
use asset_repayment_service.Queue.Messages.{awaits-append, awaits-batch, has_entry-has_message}
use asset_repayment_service.Queue.Rounds.{
  IsUnique, IsUniquePending, unread-IsUnique, claim-IsUnique, if_answered-IsUnique,
  handle_new-IsCovered, handle_again-IsCovered, claim_batch-IsCovered,
}
use asset_repayment_service.Queue.Order.{
  IsAscending, unread-reaches, batch-IsUniquePending, without-IsUniquePending,
  claim-IsUniquePending,
}

pub Fault-cases :
    (fault : Fault)
    → (fault ≡ healthy) ⊎ (((m : Str) × (fault ≡ refused m)) ⊎ ((m : Str) × (fault ≡ reply_lost m)))
Fault-cases healthy = inl refl
Fault-cases (refused m) = inr (inl (m, refl))
Fault-cases (reply_lost m) = inr (inr (m, refl))

-- The entries stay as they are, and no message of the credit's number joins the pending list.
pub record IsHandled (credit : Message) (s s' : Stream) : Type 0 where
  pub same_entries : s'.entries ≡ s.entries
  pub same_next : s'.next_entry ≡ s.next_entry
  pub same_delivered : s'.delivered ≡ s.delivered
  pub still_unique : IsUniquePending credit s.pending → IsUniquePending credit s'.pending

IsHandled-refl : (credit : Message) (s : Stream) → IsHandled credit s s
IsHandled-refl credit s = record {
  same_entries = refl;
  same_next = refl;
  same_delivered = refl;
  still_unique = λ h. h;
}

IsHandled-trans :
    {credit : Message} {a b c : Stream}
    → IsHandled credit a b
    → IsHandled credit b c
    → IsHandled credit a c
IsHandled-trans f g = record {
  same_entries = g.same_entries ∙ f.same_entries;
  same_next = g.same_next ∙ f.same_next;
  same_delivered = g.same_delivered ∙ f.same_delivered;
  still_unique = λ h. g.still_unique (f.still_unique h);
}

module _ {A : Type 0} ⦃e : Environment⦄ (credit : Message) where
  ack-IsHandled : (id : ℕ) (w : World A) → IsHandled credit w.stream (ack id w).stream
  unfolding ack stream_call
  ack-IsHandled id w = record {
    same_entries = ground arith;
    same_next = ground arith;
    same_delivered = ground arith;
    still_unique = λ h. ground (arith, without-IsUniquePending credit id w.stream.pending);
  }

  dead_letter-IsHandled :
      (m : Message) (reason : Reason) (w : World A)
      → IsHandled credit w.stream (dead_letter m reason w).stream
  unfolding dead_letter stream_call ack
  dead_letter-IsHandled m reason w = record {
    same_entries = ground arith;
    same_next = ground arith;
    same_delivered = ground arith;
    still_unique = λ h. ground (arith, without-IsUniquePending credit m.id w.stream.pending);
  }

module _ {A : Type 0} ⦃d : Decimal A⦄ ⦃u : Unicode⦄ ⦃e : Environment⦄ ⦃f : Floats⦄ ⦃c : Codec A⦄
    (q : QueueSettings) (credit : Message) where
  settle-IsHandled :
      (m : Message) (attempt : ℕ) (r : Result (PaymentResult A)) (w : World A)
      → IsHandled credit w.stream (settle q m attempt r w).stream
  unfolding settle
  settle-IsHandled m attempt (ok x) w = ack-IsHandled credit m.id w
  settle-IsHandled m attempt (err cause) w =
      let dead = dead_letter-IsHandled credit m (gave_up cause) w in
      let same = IsHandled-refl credit w.stream in ground (arith, dead, same)

  handle-IsHandled :
      (m : Message) (attempt : ℕ) (w : World A)
      → IsHandled credit w.stream (handle q m attempt w).stream
  unfolding handle
  handle-IsHandled m attempt w = elim (Option-cases (decode_message ⦃c = c⦄ m)) [
    | inl torn ↦ rw (torn, handle) (dead_letter-IsHandled credit m undecodable w)
    | inr (v, decoded) ↦
        rw (decoded, handle)
          (subst
            (λ s. IsHandled credit s (settle q m attempt (process v w).0 (process v w).1).stream)
            (stream-process v w) (settle-IsHandled m attempt (process v w).0 (process v w).1))
  ]

  pub handle_new-IsHandled :
      (ms : List Message) (w : World A) → IsHandled credit w.stream (handle_new q ms w).stream
  unfolding handle_new
  handle_new-IsHandled [] w = IsHandled-refl credit w.stream
  handle_new-IsHandled (m ∷ ms) w =
      IsHandled-trans (handle-IsHandled m 1 w) (handle_new-IsHandled ms (handle q m 1 w))

  stream-deliveries : (id : ℕ) (w : World A) → (deliveries id w).1.stream ≡ w.stream
  unfolding deliveries
  stream-deliveries id w = ground arith

  pub handle_again-IsHandled :
      (ms : List Message) (w : World A) → IsHandled credit w.stream (handle_again q ms w).stream
  unfolding handle_again
  handle_again-IsHandled [] w = IsHandled-refl credit w.stream
  handle_again-IsHandled (m ∷ ms) w =
      let (attempt, w') = deliveries m.id w in
      IsHandled-trans
        (subst (λ s. IsHandled credit s (handle q m attempt w').stream) (stream-deliveries m.id w)
          (handle-IsHandled m attempt w'))
        (handle_again-IsHandled ms (handle q m attempt w'))

-- The credit's message is an entry of a stream in order, alone with its number, and waits to be read
-- or is covered.
pub record IsKept {A : Type 0} (credit : Message) (v : ValidatedNotification A) (w : World A)
    : Type 0 where
  pub ascending : IsAscending 0 w.stream.entries w.stream.next_entry
  pub is_entry : has_entry credit.id w.stream.entries ≡ true
  pub is_numbered : credit.id < w.stream.next_entry
  pub is_alone : IsUnique credit w.stream.entries
  pub is_alone_pending : IsUniquePending credit w.stream.pending
  pub is_placed : (w.stream.delivered ≤ credit.id) ⊎ IsCovered credit v w

module _ {A : Type 0} (credit : Message) (v : ValidatedNotification A) where
  handled-IsKept :
      (w w' : World A)
      → IsHandled credit w.stream w'.stream
      → IsKept credit v w
      → (IsCovered credit v w → IsCovered credit v w')
      → IsKept credit v w'
  handled-IsKept w w' only kept covers = record {
    ascending = ground (arith, only, kept);
    is_entry = ground (arith, only, kept);
    is_numbered = ground (arith, only, kept);
    is_alone = ground (arith, only, kept);
    is_alone_pending = only.still_unique kept.is_alone_pending;
    is_placed = ground (arith, only, kept);
  }

  pub same_stream-IsKept :
      (w w' : World A)
      → w'.stream ≡ w.stream
      → (has_reference v.reference w.db.payments ≡ true
          → has_reference v.reference w'.db.payments ≡ true)
      → IsKept credit v w
      → IsKept credit v w'
  same_stream-IsKept w w' same grows kept =
      handled-IsKept w w'
        (subst (IsHandled credit w.stream) (sym same) (IsHandled-refl credit w.stream)) kept
        (λ covered. ground (arith, same, covered, grows))

module _ {A : Type 0} ⦃d : Decimal A⦄ ⦃u : Unicode⦄ ⦃e : Environment⦄ ⦃f : Floats⦄ ⦃c : Codec A⦄
    (q : QueueSettings) (credit : Message) (v : ValidatedNotification A) where
  hand_out-IsKept :
      (w : World A)
      → IsKept credit v w
      → IsKept credit v (record w { stream = hand_out q.batch_size w.stream; step = suc w.step })
  unfolding hand_out
  hand_out-IsKept w kept =
      let batch = unread q.batch_size w.stream.delivered w.stream.entries in
      let batch_unique =
        unread-IsUnique credit q.batch_size w.stream.delivered w.stream.entries kept.is_alone in
      record {
        ascending = kept.ascending;
        is_entry = kept.is_entry;
        is_numbered = kept.is_numbered;
        is_alone = kept.is_alone;
        is_alone_pending =
            batch-IsUniquePending credit w.stream.pending batch kept.is_alone_pending batch_unique;
        is_placed = elim kept.is_placed [
          | inl waits ↦
              elim (unread-reaches q.batch_size w.stream.delivered 0 w.stream.next_entry credit.id
                w.stream.delivered w.stream.entries kept.ascending kept.is_entry waits waits) [
                  | inl taken ↦ inr (
                      inl (
                        awaits-batch credit w.stream.pending batch
                          (has_entry-has_message credit batch batch_unique taken)))
                  | inr later ↦ inl later
                ]
          | inr (inl held) ↦ inr (inl (awaits-append credit w.stream.pending _ held))
          | inr (inr (inl dead)) ↦ inr (inr (inl dead))
          | inr (inr (inr listed)) ↦ inr (inr (inr listed))
        ];
      }

  read_batch-IsKept :
      (w : World A) → IsKept credit v w → IsKept credit v (read_batch q.batch_size w).1
  unfolding read_batch stream_call
  read_batch-IsKept w kept = elim (Fault-cases (e.fault w.step)) [
    | inl works ↦ rw (works, read_batch, stream_call) (hand_out-IsKept w kept)
    | inr (inl (m, down)) ↦
        rw (down, read_batch, stream_call)
          (same_stream-IsKept credit v w (record w { step = suc w.step }) refl (λ h. h) kept)
    | inr (inr (m, lost)) ↦ rw (lost, read_batch, stream_call) (hand_out-IsKept w kept)
  ]

  batch_alone : (w : World A) → IsKept credit v w → IsUnique credit (read_batch q.batch_size w).0
  unfolding read_batch
  batch_alone w kept =
      if_answered-IsUnique credit (e.fault w.step) _
        (unread-IsUnique credit q.batch_size w.stream.delivered w.stream.entries kept.is_alone)

  claim_alone : (w : World A) → IsKept credit v w → IsUnique credit (claim_batch w).0
  unfolding claim_batch
  claim_alone w kept = if_answered-IsUnique credit (e.fault w.step) _ (
      claim-IsUnique (e.claims w.step) w.stream.entries credit w.stream.pending
        kept.is_alone_pending)

  claim_batch-IsKept : (w : World A) → IsKept credit v w → IsKept credit v (claim_batch w).1
  unfolding claim_batch stream_call
  claim_batch-IsKept w kept = record {
    ascending = ground (arith, kept);
    is_entry = ground (arith, kept);
    is_numbered = ground (arith, kept);
    is_alone = ground (arith, kept);
    is_alone_pending = ground (
      arith,
      kept.is_alone_pending,
      claim-IsUniquePending (e.claims w.step) w.stream.entries credit w.stream.pending,
    );
    is_placed = elim kept.is_placed [
      | inl waits ↦ inl (ground arith)
      | inr covered ↦ inr (claim_batch-IsCovered q credit v w kept.is_entry covered)
    ];
  }

  -- A round of a worker keeps the credit.
  pub run_round-IsKept :
      (w : World A)
      → decode_message credit ≡ some v
      → IsKept credit v w
      → IsKept credit v (run_round q w)
  unfolding run_round
  run_round-IsKept w decoded kept =
      let read = read_batch q.batch_size w in
      handled-IsKept credit v read.1 (handle_new q read.0 read.1)
        (handle_new-IsHandled q credit read.0 read.1) (read_batch-IsKept w kept)
        (λ covered.
          handle_new-IsCovered q credit v read.0 read.1 decoded (batch_alone w kept) covered)

  -- So does a round of the reclaimer, which finds the entry still in the stream.
  pub reclaim_round-IsKept :
      (w : World A)
      → decode_message credit ≡ some v
      → IsKept credit v w
      → IsKept credit v (reclaim_round q w)
  unfolding reclaim_round
  reclaim_round-IsKept w decoded kept =
      let claimed = claim_batch w in
      handled-IsKept credit v claimed.1 (handle_again q claimed.0 claimed.1)
        (handle_again-IsHandled q credit claimed.0 claimed.1) (claim_batch-IsKept w kept)
        (λ covered.
          handle_again-IsCovered q credit v claimed.0 claimed.1 decoded (claim_alone w kept)
            covered)
