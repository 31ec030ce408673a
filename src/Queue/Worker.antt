-- ===== src/Queue/Worker.antt =====
-- worker.go: `handle` with its acknowledgement and its dead letters, and one round of `run` and of
-- `reclaim`. Metrics and log lines have no effect on the state.
use asset_repayment_service.Prelude.{
  ℕ, zero, suc, Bool, true, false, not, ◌&&◌, Option, none, some, List, [], ◌∷◌, ◌++◌, map, ltb,
  leb, ◌==◌, if◌then◌else◌,
}
use asset_repayment_service.Errors.{GoError, DomainError, Result, ok, err, find_domain, code_of}
use asset_repayment_service.Money.Decimal.{Decimal}
use asset_repayment_service.Money.Currency.{Unicode}
use asset_repayment_service.Deployment.Clock.{Floats}
use asset_repayment_service.Payment.Entity.{ValidatedNotification, PaymentResult}
use asset_repayment_service.Payment.Service.{Codec, process}
use asset_repayment_service.World.State.{
  Environment, World, Message, Stream, Fault, healthy, refused, reply_lost, Reason, undecodable,
  gave_up,
}

-- The part of `config.Queue` that the workers read.
pub record QueueSettings : Type 0 where
  pub batch_size : ℕ
  pub max_attempts : ℕ

abbrev is_client_code : ℕ → Bool
is_client_code code = leb 400 code && ltb code 500

abbrev is_permanent_domain : Option DomainError → Bool
is_permanent_domain none = false
is_permanent_domain (some x) = is_client_code (code_of x)

-- `permanent`: a retry could not produce a different answer.
unfoldable pub permanent : GoError → Bool
unfolding find_domain
permanent e = is_permanent_domain (find_domain e)

abbrev pub Pending : Type 0
Pending = List (Message × ℕ)

-- XACK
unfoldable pub without : ℕ → Pending → Pending
without id [] = []
without id ((m, n) ∷ ps) = let rest = without id ps in if m.id == id then rest else (m, n) ∷ rest

unfoldable pub is_pending : ℕ → Pending → Bool
is_pending id [] = false
is_pending id ((m, n) ∷ ps) = if m.id == id then true else is_pending id ps

unfoldable pub times_delivered : ℕ → Pending → ℕ
times_delivered id [] = 1
times_delivered id ((m, n) ∷ ps) = if m.id == id then n else times_delivered id ps

-- XREADGROUP with `>`: the first `count` entries from number `delivered` on.
unfoldable pub unread : ℕ → ℕ → List Message → List Message
unread count delivered [] = []
unread zero delivered (m ∷ ms) = []
unread (suc count) delivered (m ∷ ms) =
    let skip = unread (suc count) delivered ms in
    let rest = unread count delivered ms in if ltb m.id delivered then skip else m ∷ rest

abbrev pub after_last : ℕ → List Message → ℕ
after_last n [] = n
after_last n (m ∷ ms) = after_last (suc m.id) ms

unfoldable pub has_entry : ℕ → List Message → Bool
has_entry id [] = false
has_entry id (m ∷ ms) = if m.id == id then true else has_entry id ms

-- XAUTOCLAIM: the claimed entries that the stream still has, and the pending list, where those have
-- one delivery more and claimed entries that were trimmed are gone.
unfoldable pub claim : (ℕ → Bool) → List Message → Pending → List Message × Pending
unfolding has_entry
claim takes entries [] = ([], [])
claim takes entries ((m, n) ∷ ps) =
    let (ms, rest) = claim takes entries ps in
    if not (takes m.id)
    then (ms, (m, n) ∷ rest)
    else if has_entry m.id entries
    then (m ∷ ms, (m, suc n) ∷ rest)
    else (ms, rest)

unfoldable pub hand_out : ℕ → Stream → Stream
unfolding unread
hand_out count s =
    let batch = unread count s.delivered s.entries in
    record s {
      delivered = after_last s.delivered batch;
      pending = s.pending ++ map (λ m. (m, 1)) batch;
    }

abbrev pub if_answered : Fault → List Message → List Message
if_answered healthy ms = ms
if_answered (refused _) ms = []
if_answered (reply_lost _) ms = []

module _ {A : Type 0} ⦃e : Environment⦄ where
  -- A call to Redis that changes the stream, if it arrives.
  unfoldable pub stream_call : (Stream → Stream) → World A → World A
  stream_call change w = elim (e.fault w.step) [
    | healthy ↦ record w { stream = change w.stream; step = suc w.step }
    | refused m ↦ record w { step = suc w.step }
    | reply_lost m ↦ record w { stream = change w.stream; step = suc w.step }
  ]

  -- `ack`; its error is only logged.
  unfoldable pub ack : ℕ → World A → World A
  unfolding stream_call without
  ack id = stream_call (λ s. record s { pending = without id s.pending })

  -- `deadLetter`: the original is acknowledged only when the copy is known to be written.
  unfoldable pub dead_letter : Message → Reason → World A → World A
  unfolding stream_call ack
  dead_letter m reason w =
      let w' = stream_call (λ s. record s { dead = s.dead ++ (reason, m) ∷ [] }) w in
      elim (e.fault w.step) [ healthy ↦ ack m.id w' | refused _ ↦ w' | reply_lost _ ↦ w' ]

  -- `deliveries`
  unfoldable pub deliveries : ℕ → World A → ℕ × World A
  unfolding times_delivered
  deliveries id w =
      let w' = record w { step = suc w.step } in
      elim (e.fault w.step) [
        | healthy ↦ (times_delivered id w.stream.pending, w')
        | refused _ ↦ (1, w')
        | reply_lost _ ↦ (1, w')
      ]

  -- The read of `run`: what it hands to `handle`.
  unfoldable pub read_batch : ℕ → World A → List Message × World A
  unfolding stream_call hand_out unread
  read_batch count w = (
    if_answered (e.fault w.step) (unread count w.stream.delivered w.stream.entries),
    stream_call (hand_out count) w,
  )

  -- The claim of `reclaim`.
  unfoldable pub claim_batch : World A → List Message × World A
  unfolding stream_call claim
  claim_batch w = (
    if_answered (e.fault w.step) (claim (e.claims w.step) w.stream.entries w.stream.pending).0,
    stream_call (λ s. record s { pending = (claim (e.claims w.step) s.entries s.pending).1 }) w,
  )

module _ {A : Type 0} ⦃c : Codec A⦄ where
  -- `decode`
  unfoldable pub decode_message : Message → Option (ValidatedNotification A)
  decode_message m = elim m.payload [ none ↦ none | some raw ↦ c.decode raw ]

module _ {A : Type 0} ⦃d : Decimal A⦄ ⦃u : Unicode⦄ ⦃e : Environment⦄ ⦃f : Floats⦄
    ⦃c : Codec A⦄ where
  -- What `handle` does once `Process` has answered.
  unfoldable pub settle : QueueSettings → Message → ℕ → Result (PaymentResult A) → World A → World A
  unfolding ack dead_letter permanent
  settle q m attempt (ok _) w = ack m.id w
  settle q m attempt (err cause) w =
      if permanent cause
      then dead_letter m (gave_up cause) w
      else if leb q.max_attempts attempt
      then dead_letter m (gave_up cause) w
      else w

  -- `handle`
  unfoldable pub handle : QueueSettings → Message → ℕ → World A → World A
  unfolding settle decode_message process dead_letter
  handle q m attempt w = elim (decode_message m) [
    | none ↦ dead_letter m undecodable w
    | some v ↦ let (r, w') = process v w in settle q m attempt r w'
  ]

  unfoldable pub handle_new : QueueSettings → List Message → World A → World A
  unfolding handle
  handle_new q [] w = w
  handle_new q (m ∷ ms) w = handle_new q ms (handle q m 1 w)

  unfoldable pub handle_again : QueueSettings → List Message → World A → World A
  unfolding handle deliveries
  handle_again q [] w = w
  handle_again q (m ∷ ms) w =
      let (attempt, w') = deliveries m.id w in handle_again q ms (handle q m attempt w')

  -- One round of `run`, and of `reclaim`.
  unfoldable pub run_round : QueueSettings → World A → World A
  unfolding read_batch handle_new
  run_round q w = let (ms, w') = read_batch q.batch_size w in handle_new q ms w'

  unfoldable pub reclaim_round : QueueSettings → World A → World A
  unfolding claim_batch handle_again
  reclaim_round q w = let (ms, w') = claim_batch w in handle_again q ms w'
