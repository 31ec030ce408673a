-- ===== src/Queue/Rounds.antt =====
-- Whole rounds of the workers and of the reclaimer.
use asset_repayment_service.Prelude.{
  ℕ, zero, suc, ◌≡◌, Bool, true, inl, inr, some, List, [], ◌∷◌, map, All, ltb, arith, Bool-cases,
}
use asset_repayment_service.Money.Decimal.{Decimal}
use asset_repayment_service.Money.Currency.{Unicode}
use asset_repayment_service.Deployment.Clock.{Floats}
use asset_repayment_service.Payment.Entity.{ValidatedNotification}
use asset_repayment_service.Payment.Service.{Codec}
use asset_repayment_service.World.State.{
  Environment, World, Message, Fault, healthy, refused, reply_lost,
}
use asset_repayment_service.Queue.Coverage.{IsCovered, handle-IsCovered}
use asset_repayment_service.Queue.Messages.{awaits-append, claim-awaits}
use asset_repayment_service.Queue.Worker.{
  QueueSettings, Pending, unread, has_entry, claim, if_answered, stream_call, hand_out, read_batch,
  claim_batch, deliveries, decode_message, handle, handle_new, handle_again, run_round,
  reclaim_round,
}

-- `m` is the credit's message if it has its number.
abbrev IsOrOther : Message → Message → Type 0
IsOrOther credit m = credit.id ≡ m.id → credit ≡ m

-- No message but the credit's has its number: in the stream, and in the pending list.
abbrev pub IsUnique : Message → List Message → Type 0
IsUnique credit ms = All (IsOrOther credit) ms

abbrev pub IsUniquePending : Message → Pending → Type 0
IsUniquePending credit ps = All (λ (p : Message × ℕ). IsOrOther credit p.0) ps

pub unread-IsUnique :
    (credit : Message) (count from : ℕ) (ms : List Message)
    → IsUnique credit ms
    → IsUnique credit (unread count from ms)
unfolding unread
unread-IsUnique credit count from [] h = tt
unread-IsUnique credit zero from (m ∷ ms) h = tt
unread-IsUnique credit (suc count) from (m ∷ ms) (first, rest) = elim (Bool-cases (ltb m.id from)) [
  | inl seen ↦ rw (seen, unread) (unread-IsUnique credit (suc count) from ms rest)
  | inr new ↦ rw (new, unread) (first, unread-IsUnique credit count from ms rest)
]

pub claim-IsUnique :
    (takes : ℕ → Bool) (entries : List Message) (credit : Message) (ps : Pending)
    → IsUniquePending credit ps
    → IsUnique credit (claim takes entries ps).0
unfolding claim
claim-IsUnique takes entries credit [] h = tt
claim-IsUnique takes entries credit ((m, n) ∷ ps) (first, rest) =
    let others = claim-IsUnique takes entries credit ps rest in
    elim (Bool-cases (takes m.id)) [
      | inr left ↦ rw (left, claim) others
      | inl taken ↦ elim (Bool-cases (has_entry m.id entries)) [
        | inl there ↦ rw (taken, there, claim) (first, others)
        | inr gone ↦ rw (taken, gone, claim) others
      ]
    ]

pub if_answered-IsUnique :
    (credit : Message) (fault : Fault) (ms : List Message)
    → IsUnique credit ms
    → IsUnique credit (if_answered fault ms)
if_answered-IsUnique credit healthy ms h = h
if_answered-IsUnique credit (refused m) ms h = tt
if_answered-IsUnique credit (reply_lost m) ms h = tt

module _ {A : Type 0} ⦃d : Decimal A⦄ ⦃u : Unicode⦄ ⦃e : Environment⦄ ⦃f : Floats⦄ ⦃c : Codec A⦄
    (q : QueueSettings) (credit : Message) (v : ValidatedNotification A) where
  pub handle_new-IsCovered :
      (ms : List Message) (w : World A)
      → decode_message credit ≡ some v
      → IsUnique credit ms
      → IsCovered credit v w
      → IsCovered credit v (handle_new q ms w)
  unfolding handle_new
  handle_new-IsCovered [] w decoded one covered = covered
  handle_new-IsCovered (m ∷ ms) w decoded (first, rest) covered =
      handle_new-IsCovered ms (handle q m 1 w) decoded rest
        (handle-IsCovered q m 1 credit v w decoded first covered)

  deliveries-IsCovered :
      (id : ℕ) (w : World A) → IsCovered credit v w → IsCovered credit v (deliveries id w).1
  unfolding deliveries
  deliveries-IsCovered id w covered = ground arith

  pub handle_again-IsCovered :
      (ms : List Message) (w : World A)
      → decode_message credit ≡ some v
      → IsUnique credit ms
      → IsCovered credit v w
      → IsCovered credit v (handle_again q ms w)
  unfolding handle_again
  handle_again-IsCovered [] w decoded one covered = covered
  handle_again-IsCovered (m ∷ ms) w decoded (first, rest) covered =
      let (attempt, w') = deliveries m.id w in
      handle_again-IsCovered ms (handle q m attempt w') decoded rest (
        handle-IsCovered q m attempt credit v w' decoded first
          (deliveries-IsCovered m.id w covered))

  pub read_batch-IsCovered :
      (w : World A) → IsCovered credit v w → IsCovered credit v (read_batch q.batch_size w).1
  unfolding read_batch stream_call hand_out
  read_batch-IsCovered w covered =
      let batch = unread q.batch_size w.stream.delivered w.stream.entries in
      ground (arith, awaits-append credit w.stream.pending (map (λ (m : Message). (m, 1)) batch))

  pub claim_batch-IsCovered :
      (w : World A)
      → has_entry credit.id w.stream.entries ≡ true
      → IsCovered credit v w
      → IsCovered credit v (claim_batch w).1
  unfolding claim_batch stream_call
  claim_batch-IsCovered w there covered =
      ground (arith, claim-awaits (e.claims w.step) w.stream.entries credit w.stream.pending there)

  -- A round of a worker keeps a credit covered.
  pub run_round-IsCovered :
      (w : World A)
      → decode_message credit ≡ some v
      → IsUnique credit w.stream.entries
      → IsCovered credit v w
      → IsCovered credit v (run_round q w)
  unfolding run_round read_batch
  run_round-IsCovered w decoded one covered =
      handle_new-IsCovered (read_batch q.batch_size w).0 (read_batch q.batch_size w).1 decoded
        (if_answered-IsUnique credit (e.fault w.step) _
          (unread-IsUnique credit q.batch_size w.stream.delivered w.stream.entries one))
        (read_batch-IsCovered w covered)

  -- A round of the reclaimer keeps a credit covered while the stream still has its message: a claim
  -- drops what was trimmed.
  pub reclaim_round-IsCovered :
      (w : World A)
      → decode_message credit ≡ some v
      → IsUniquePending credit w.stream.pending
      → has_entry credit.id w.stream.entries ≡ true
      → IsCovered credit v w
      → IsCovered credit v (reclaim_round q w)
  unfolding reclaim_round claim_batch
  reclaim_round-IsCovered w decoded one there covered =
      handle_again-IsCovered (claim_batch w).0 (claim_batch w).1 decoded
        (if_answered-IsUnique credit (e.fault w.step) _
          (claim-IsUnique (e.claims w.step) w.stream.entries credit w.stream.pending one))
        (claim_batch-IsCovered w there covered)
