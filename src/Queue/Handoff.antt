-- ===== src/Queue/Handoff.antt =====
-- From `Enqueue` to `Process`: what a worker that has caught up does with a new entry of the stream.
use asset_repayment_service.Prelude.{
  ℕ, zero, suc, ◌≡◌, ◌<◌, refl, All, true, none, some, List, [], ◌∷◌, ◌++◌, length, drop, min,
  arith, ◌-◌, ◌∙◌, ap, sym,
}
use asset_repayment_service.Prelude.Text.{Str}
use asset_repayment_service.Money.Decimal.{Decimal}
use asset_repayment_service.Money.Currency.{Unicode}
use asset_repayment_service.Deployment.Clock.{Floats}
use asset_repayment_service.Payment.Entity.{ValidatedNotification}
use asset_repayment_service.Payment.Service.{Codec, process, enqueue, append_entry, trim_to}
use asset_repayment_service.World.State.{Environment, World, Message, Stream, healthy}
use asset_repayment_service.Queue.Messages.{awaits, awaits-last}
use asset_repayment_service.Queue.Worker.{
  QueueSettings, unread, hand_out, read_batch, stream_call, decode_message, settle, handle,
  handle_new, run_round,
}

pub trim_to-none : (max_len : ℕ) (entries : List Message) → trim_to max_len 0 entries ≡ entries
trim_to-none zero entries = refl
trim_to-none (suc n) entries =
    let nothing : min 0 (length entries - suc n) ≡ 0 = omega arith in
    ap (λ k. drop k entries) nothing

unread-caught_up :
    (n delivered : ℕ) (old : List Message) (m : Message)
    → m.id ≡ delivered
    → All (λ (x : Message). x.id < delivered) old
    → unread (suc n) delivered (old ++ m ∷ []) ≡ m ∷ []
unfolding unread
unread-caught_up n delivered [] m next caught = ground arith
unread-caught_up n delivered (x ∷ old) m next (first, rest) =
    ground (arith, unread-caught_up n delivered old m next rest)

-- Every entry of the stream has been handed out, and the next one is the next to be.
abbrev pub IsCaughtUp : Stream → Type 0
IsCaughtUp s = (s.delivered ≡ s.next_entry) × All (λ (x : Message). x.id < s.delivered) s.entries

module _ {A : Type 0} ⦃d : Decimal A⦄ ⦃u : Unicode⦄ ⦃e : Environment⦄ ⦃f : Floats⦄
    ⦃c : Codec A⦄ where
  abbrev pub entry_of : Str → World A → Message
  entry_of payload w = record { id = w.stream.next_entry; payload = some payload }

  enqueue-stream :
      (v : ValidatedNotification A) (payload : Str) (w : World A)
      → c.encode v ≡ some payload
      → (enqueue v w).0 ≡ none
      → e.trim w.step ≡ 0
      → ((enqueue v w).1.stream.entries ≡ w.stream.entries ++ entry_of payload w ∷ [])
        × ((enqueue v w).1.stream.delivered ≡ w.stream.delivered)
        × ((enqueue v w).1.step ≡ suc w.step)
        × ((enqueue v w).1.db ≡ w.db)
  unfolding enqueue append_entry
  enqueue-stream v payload w encoded sent untrimmed =
      ground (arith, trim_to-none w.queue_max_len (w.stream.entries ++ entry_of payload w ∷ []))

  -- What the read of a worker leaves behind: the entry is pending and the tables are as they were.
  abbrev pub IsGiven : Message → World A → World A → Type 0
  IsGiven m before given = (given.db ≡ before.db) × (awaits m given.stream.pending ≡ true)

  read_batch-IsGiven :
      (q : QueueSettings) (n : ℕ) (old : List Message) (m : Message) (w : World A)
      → q.batch_size ≡ suc n
      → e.fault w.step ≡ healthy
      → w.stream.entries ≡ old ++ m ∷ []
      → m.id ≡ w.stream.delivered
      → All (λ (x : Message). x.id < w.stream.delivered) old
      → ((read_batch q.batch_size w).0 ≡ m ∷ []) × IsGiven m w (read_batch q.batch_size w).1
  unfolding read_batch stream_call hand_out
  read_batch-IsGiven q n old m w room works last next caught =
      let batch : unread q.batch_size w.stream.delivered w.stream.entries ≡ m ∷ [] =
        rw (room, last) (unread-caught_up n w.stream.delivered old m next caught) in
      ground (arith, batch, awaits-last m 1 w.stream.pending)

  handle_decoded :
      (q : QueueSettings) (m : Message) (attempt : ℕ) (v : ValidatedNotification A) (w : World A)
      → decode_message m ≡ some v
      → handle q m attempt w ≡ settle q m attempt (process v w).0 (process v w).1
  unfolding handle
  handle_decoded q m attempt v w decoded = rw (decoded, handle)

  -- When a notification is enqueued, its encoding decodes to it, nothing is trimmed from the stream
  -- at that moment, and a worker that has handed out every older entry reads without a fault at least
  -- one entry, then the worker's round runs `Process` on this notification, with the tables as they
  -- were when it was enqueued and its entry pending, and does with the entry what `handle` does at a
  -- first attempt after the answer of this run: it acknowledges the entry, moves it to the dead
  -- letters, or leaves it pending for a retry.
  pub enqueue_then_round :
      (q : QueueSettings) (n : ℕ) (v : ValidatedNotification A) (payload : Str) (w : World A)
      → c.encode v ≡ some payload
      → c.decode payload ≡ some v
      → (enqueue v w).0 ≡ none
      → e.trim w.step ≡ 0
      → IsCaughtUp w.stream
      → q.batch_size ≡ suc n
      → e.fault (suc w.step) ≡ healthy
      → (given : World A) × (IsGiven (entry_of payload w) w given
          × (run_round q (enqueue v w).1
              ≡ settle q (entry_of payload w) 1 (process v given).0 (process v given).1))
  unfolding run_round handle_new decode_message
  enqueue_then_round q n v payload w encoded decodes sent untrimmed (next, caught) room works =
      let m = entry_of payload w in
      let waiting = (enqueue v w).1 in
      let (entries, delivered, step, tables) = enqueue-stream v payload w encoded sent untrimmed in
      let (batch, (same, pending)) =
        read_batch-IsGiven q n w.stream.entries m waiting room (rw step works) entries
          (sym next ∙ sym delivered) (rw delivered caught) in
      let given = (read_batch q.batch_size waiting).1 in
      (
        given,
        ((same ∙ tables, pending), rw (batch, handle_new) (handle_decoded q m 1 v given decodes)),
      )
