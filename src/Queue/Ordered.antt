-- ===== src/Queue/Ordered.antt =====
-- The stream as a whole: its numbers ascend, and the next number is new to it.
use asset_repayment_service.Prelude.{
  ℕ, zero, suc, ◌≤◌, inl, inr, List, [], ◌∷◌, arith, ltb, Bool-cases, none,
}
use asset_repayment_service.Money.Decimal.{Decimal}
use asset_repayment_service.Money.Currency.{Unicode}
use asset_repayment_service.Deployment.Clock.{Floats}
use asset_repayment_service.Payment.Service.{Codec}
use asset_repayment_service.World.State.{Environment, World, Message, Stream}
use asset_repayment_service.Queue.Worker.{
  QueueSettings, unread, after_last, hand_out, stream_call, read_batch, claim_batch, handle_new,
  handle_again, run_round, reclaim_round,
}
use asset_repayment_service.Queue.Rounds.{IsUnique, IsUniquePending, unread-IsUnique}
use asset_repayment_service.Queue.Order.{IsAscending, batch-IsUniquePending, claim-IsUniquePending}
use asset_repayment_service.Queue.Kept.{
  Fault-cases, IsHandled, handle_new-IsHandled, handle_again-IsHandled,
}

-- Every number from `next_entry` on is new: it has no message in the pending list.
pub record IsOrdered (s : Stream) : Type 0 where
  pub ascending : IsAscending 0 s.entries s.next_entry
  pub is_read : s.delivered ≤ s.next_entry
  pub is_new : (m : Message) → s.next_entry ≤ m.id → IsUniquePending m s.pending

IsAscending-le : (low high : ℕ) (ms : List Message) → IsAscending low ms high → low ≤ high
IsAscending-le low high [] h = h
IsAscending-le low high (m ∷ ms) (first, rest) =
    omega (arith, IsAscending-le (suc m.id) high ms rest)

-- Entries with smaller numbers are other messages.
pub IsAscending-IsUnique :
    (m : Message) (low high : ℕ) (ms : List Message)
    → IsAscending low ms high
    → high ≤ m.id
    → IsUnique m ms
IsAscending-IsUnique m low high [] order h = tt
IsAscending-IsUnique m low high (x ∷ ms) (first, rest) h =
    let below = IsAscending-le (suc x.id) high ms rest in
    ((λ same. absurd (omega arith)), IsAscending-IsUnique m (suc x.id) high ms rest h)

after_last-unread :
    (count from low high last : ℕ) (ms : List Message)
    → IsAscending low ms high
    → last ≤ high
    → after_last last (unread count from ms) ≤ high
unfolding unread
after_last-unread count from low high last [] order h = h
after_last-unread zero from low high last (m ∷ ms) order h = h
after_last-unread (suc count) from low high last (m ∷ ms) (first, rest) h =
    elim (Bool-cases (ltb m.id from)) [
      | inl seen ↦
          rw (seen, unread) (after_last-unread (suc count) from (suc m.id) high last ms rest h)
      | inr new ↦
          rw (new, unread)
            (after_last-unread count from (suc m.id) high (suc m.id) ms rest
              (IsAscending-le (suc m.id) high ms rest))
    ]

handled-IsOrdered :
    (s s' : Stream) → ((m : Message) → IsHandled m s s') → IsOrdered s → IsOrdered s'
handled-IsOrdered s s' only o =
    let any = only (record { id = 0; payload = none }) in
    record {
      ascending = ground (arith, any, o);
      is_read = ground (arith, any, o);
      is_new = λ m above. (only m).still_unique (o.is_new m (ground (arith, any)));
    }

hand_out-IsOrdered :
    (q : QueueSettings) (s : Stream) → IsOrdered s → IsOrdered (hand_out q.batch_size s)
unfolding hand_out
hand_out-IsOrdered q s o =
    let batch = unread q.batch_size s.delivered s.entries in
    record {
      ascending = o.ascending;
      is_read =
          after_last-unread q.batch_size s.delivered 0 s.next_entry s.delivered s.entries
            o.ascending o.is_read;
      is_new = λ m above. batch-IsUniquePending m s.pending batch (o.is_new m above) (
          unread-IsUnique m q.batch_size s.delivered s.entries
            (IsAscending-IsUnique m 0 s.next_entry s.entries o.ascending above));
    }

module _ {A : Type 0} ⦃d : Decimal A⦄ ⦃u : Unicode⦄ ⦃e : Environment⦄ ⦃f : Floats⦄ ⦃c : Codec A⦄
    (q : QueueSettings) where
  read_batch-IsOrdered :
      (w : World A) → IsOrdered w.stream → IsOrdered (read_batch q.batch_size w).1.stream
  unfolding read_batch stream_call
  read_batch-IsOrdered w o = elim (Fault-cases (e.fault w.step)) [
    | inl works ↦ rw (works, read_batch, stream_call) (hand_out-IsOrdered q w.stream o)
    | inr (inl (m, down)) ↦ rw (down, read_batch, stream_call) o
    | inr (inr (m, lost)) ↦ rw (lost, read_batch, stream_call) (hand_out-IsOrdered q w.stream o)
  ]

  claim_batch-IsHandled :
      (w : World A) (m : Message) → IsHandled m w.stream (claim_batch w).1.stream
  unfolding claim_batch stream_call
  claim_batch-IsHandled w m = record {
    same_entries = ground arith;
    same_next = ground arith;
    same_delivered = ground arith;
    still_unique = λ h.
        ground (arith, claim-IsUniquePending (e.claims w.step) w.stream.entries m w.stream.pending);
  }

  pub run_round-IsOrdered : (w : World A) → IsOrdered w.stream → IsOrdered (run_round q w).stream
  unfolding run_round
  run_round-IsOrdered w o =
      let read = read_batch q.batch_size w in
      handled-IsOrdered read.1.stream (handle_new q read.0 read.1).stream
        (λ m. handle_new-IsHandled q m read.0 read.1) (read_batch-IsOrdered w o)

  pub reclaim_round-IsOrdered :
      (w : World A) → IsOrdered w.stream → IsOrdered (reclaim_round q w).stream
  unfolding reclaim_round
  reclaim_round-IsOrdered w o =
      let claimed = claim_batch w in
      handled-IsOrdered claimed.1.stream (handle_again q claimed.0 claimed.1).stream
        (λ m. handle_again-IsHandled q m claimed.0 claimed.1)
        (handled-IsOrdered w.stream claimed.1.stream (claim_batch-IsHandled w) o)
