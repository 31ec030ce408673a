-- ===== src/System/Kept.antt =====
-- What becomes of a notification that the webhook has acknowledged.
use asset_repayment_service.Prelude.{
  suc, ◌≡◌, ◌≤◌, refl, true, ◌⊎◌, inl, inr, none, some, List, [], ◌∷◌, ◌++◌, All-append, arith,
  subst, sym, Bool-cases, Option-cases,
}
use asset_repayment_service.Prelude.Text.{Str}
use asset_repayment_service.Errors.{ok}
use asset_repayment_service.Money.Decimal.{Decimal}
use asset_repayment_service.Money.Currency.{Unicode}
use asset_repayment_service.Deployment.Clock.{Floats}
use asset_repayment_service.Deployment.Registration.{create-Reach}
use asset_repayment_service.Deployment.Service.{create, get_position}
use asset_repayment_service.Payment.Entity.{ValidatedNotification, Notification, PaymentResult}
use asset_repayment_service.Payment.Validate.{Calendar, validate}
use asset_repayment_service.Payment.Service.{
  Settings, Codec, enqueue, dispatch, accept_valid, accept,
}
use asset_repayment_service.Payment.Effects.{accept-Reach}
use asset_repayment_service.Payment.Idempotency.{process_keeps}
use asset_repayment_service.Payment.Acknowledged.{get_result-listed}
use asset_repayment_service.Database.Tables.{has_reference}
use asset_repayment_service.Database.Ledger.{Reach, here, Reach-trans, has_reference-Reach}
use asset_repayment_service.World.State.{Environment, World, Message}
use asset_repayment_service.World.Cache.{get_result}
use asset_repayment_service.World.Effects.{db-get_result}
use asset_repayment_service.Queue.Worker.{has_entry, decode_message}
use asset_repayment_service.Queue.Effects.{run_round-Reach, reclaim_round-Reach}
use asset_repayment_service.Queue.Messages.{has_message, awaits, is_dead, has_entry-has_message}
use asset_repayment_service.Queue.Order.{IsAscending-append}
use asset_repayment_service.Queue.Ordered.{IsOrdered, IsAscending-IsUnique}
use asset_repayment_service.Queue.Kept.{
  IsKept, Fault-cases, same_stream-IsKept, run_round-IsKept, reclaim_round-IsKept,
}
use asset_repayment_service.System.Steps.{
  Step, notify, register, inquire, work, reclaim, look, restart, Steps, started, then_step,
}
use asset_repayment_service.System.Appends.{
  NeverTrims, IsAppended, append_entry-IsAppended, stream-get_result, accept-IsWritten,
}
use asset_repayment_service.System.Life.{IsSound, appended-IsKept}
use asset_repayment_service.System.Startup.{start, start-IsUntouched}
use asset_repayment_service.System.Writes.{create-IsQuiet, get_position-IsQuiet, db-get_position}

has_entry-last : (ms : List Message) (m : Message) → has_entry m.id (ms ++ m ∷ []) ≡ true
unfolding has_entry
has_entry-last [] m = ground arith
has_entry-last (x ∷ ms) m = ground (arith, has_entry-last ms m)

module _ {A : Type 0} ⦃d : Decimal A⦄ ⦃u : Unicode⦄ ⦃e : Environment⦄ ⦃f : Floats⦄ ⦃l : Calendar⦄
    ⦃c : Codec A⦄ where
  Step-IsKept :
      {w w' : World A} (credit : Message) (v : ValidatedNotification A)
      → NeverTrims e
      → decode_message credit ≡ some v
      → Step w w'
      → IsKept credit v w
      → IsKept credit v w'
  Step-IsKept credit v untrimmed decoded (notify settings n raw w) kept =
      let after = (accept settings n raw w).1 in
      let grows = has_reference-Reach v.reference (accept-Reach settings n raw w) in
      elim (accept-IsWritten settings n raw w untrimmed) [
        | inl same ↦ same_stream-IsKept credit v w after same grows kept
        | inr (m, added) ↦ appended-IsKept credit v w after m added grows kept
      ]
  Step-IsKept credit v untrimmed decoded (register defaults input w) kept =
      same_stream-IsKept credit v w (create defaults input w).1 (create-IsQuiet defaults input w).0
        (has_reference-Reach v.reference (create-Reach defaults input w)) kept
  Step-IsKept credit v untrimmed decoded (inquire customer_id as_of w) kept =
      let same = db-get_position customer_id as_of w in
      same_stream-IsKept credit v w (get_position customer_id as_of w).1
        (get_position-IsQuiet customer_id as_of w).0 (λ listed. rw same listed) kept
  Step-IsKept credit v untrimmed decoded (work q w) kept =
      run_round-IsKept q credit v w decoded kept
  Step-IsKept credit v untrimmed decoded (reclaim q w) kept =
      reclaim_round-IsKept q credit v w decoded kept
  Step-IsKept credit v untrimmed decoded (look w) kept =
      same_stream-IsKept credit v w (record w { step = suc w.step }) refl (λ listed. listed) kept
  Step-IsKept credit v untrimmed decoded (restart ⦃m⦄ config w) kept =
      let (tables, refs, stream, results) = start-IsUntouched ⦃m = m⦄ config w in
      same_stream-IsKept credit v w (start ⦃m = m⦄ config w).1 stream (λ listed. rw tables listed)
        kept

  Steps-IsKept :
      {w w' : World A} (credit : Message) (v : ValidatedNotification A)
      → NeverTrims e
      → decode_message credit ≡ some v
      → IsKept credit v w
      → Steps w w'
      → IsKept credit v w'
  Steps-IsKept credit v untrimmed decoded kept started = kept
  Steps-IsKept credit v untrimmed decoded kept (then_step path step) =
      Step-IsKept credit v untrimmed decoded step
        (Steps-IsKept credit v untrimmed decoded kept path)

  -- What the encoding of a notification gives back.
  abbrev pub IsReadBack : ValidatedNotification A → Type 0
  IsReadBack v = (payload : Str) → c.encode v ≡ some payload → c.decode payload ≡ some v

  -- Its message is kept.
  abbrev HasEntry : ValidatedNotification A → World A → Type 0
  HasEntry v w = (m : Message) × ((decode_message m ≡ some v) × IsKept m v w)

  appended-HasEntry :
      (v : ValidatedNotification A) (w w' : World A) (m : Message)
      → decode_message m ≡ some v
      → IsOrdered w.stream
      → IsAppended w.stream w'.stream m
      → HasEntry v w'
  appended-HasEntry v w w' m decoded o added =
      let above : w.stream.next_entry ≤ m.id = omega (arith, added.next_number) in
      (
        m,
        (
          decoded,
          record {
            ascending = ground (
              arith,
              added,
              IsAscending-append 0 w.stream.next_entry w.stream.entries m added.next_number
                  o.ascending,
            );
            is_entry = rw added.last_entry (has_entry-last w.stream.entries m);
            is_numbered = omega (arith, added.next_number, added.one_more);
            is_alone = rw added.last_entry (
                All-append (λ (x : Message). m.id ≡ x.id → m ≡ x) w.stream.entries (m ∷ [])
                  (IsAscending-IsUnique m 0 w.stream.next_entry w.stream.entries o.ascending above)
                  ((λ same. refl), tt));
            is_alone_pending = rw added.same_pending (o.is_new m above);
            is_placed = inl (omega (arith, added.next_number, added.same_delivered, o.is_read));
          },
        ),
      )

  enqueue-HasEntry :
      (v : ValidatedNotification A) (w : World A)
      → NeverTrims e
      → IsReadBack v
      → IsOrdered w.stream
      → (enqueue v w).0 ≡ none
      → HasEntry v (enqueue v w).1
  unfolding enqueue decode_message
  enqueue-HasEntry v w untrimmed back o sent = elim (Option-cases (c.encode v)) [
    | inl unencodable ↦ ground arith
    | inr (payload, encoded) ↦
        let m : Message = record { id = w.stream.next_entry; payload = some payload } in
        let added = append_entry-IsAppended payload w (untrimmed w.step) in
        elim (Fault-cases (e.fault w.step)) [
          | inl works ↦
              appended-HasEntry v w (enqueue v w).1 m (back payload encoded) o
                (rw (encoded, enqueue, works) added)
          | inr (inl (reason, down)) ↦ ground arith
          | inr (inr (reason, lost)) ↦ ground arith
        ]
  ]

  -- In the ledger, or with a message that is kept.
  abbrev IsHeld : ValidatedNotification A → World A → Type 0
  IsHeld v w = (has_reference v.reference w.db.payments ≡ true) ⊎ HasEntry v w

  dispatch-IsHeld :
      (v : ValidatedNotification A) (w : World A) (r : PaymentResult A)
      → NeverTrims e
      → IsReadBack v
      → IsOrdered w.stream
      → (dispatch v w).0 ≡ ok r
      → IsHeld v (dispatch v w).1
  unfolding dispatch
  dispatch-IsHeld v w r untrimmed back o answered = elim (Bool-cases w.queue_on) [
    | inr off ↦ inl (ground (arith, process_keeps v w r))
    | inl on ↦ elim (Option-cases (enqueue v w).0) [
      | inl sent ↦
          let path : (dispatch v w).1 ≡ (enqueue v w).1 = ground arith in
          rw path (inr (enqueue-HasEntry v w untrimmed back o sent))
      | inr (cause, failed) ↦ inl (ground (arith, process_keeps v (enqueue v w).1 r))
    ]
  ]

  accept-IsHeld :
      (settings : Settings) (n : Notification) (raw : Str) (w : World A)
      (v : ValidatedNotification A) (r : PaymentResult A)
      → NeverTrims e
      → IsReadBack v
      → IsSound w
      → validate n settings.provider_location settings.default_currency raw (e.now w.step) ≡ ok v
      → (accept settings n raw w).0 ≡ ok r
      → IsHeld v (accept settings n raw w).1
  unfolding accept accept_valid
  accept-IsHeld settings n raw w v r untrimmed back sound valid answered =
      let looked = (get_result v.reference w).1 in
      elim (Option-cases (get_result v.reference w).0) [
        | inr (x, hit) ↦ inl (
            rw (valid, accept, hit, accept_valid, db-get_result v.reference w)
              (get_result-listed v.reference w x sound.results hit))
        | inl miss ↦
            let path : accept settings n raw w ≡ dispatch v looked = ground arith in
            rw path (
              dispatch-IsHeld v looked r untrimmed back
                (subst IsOrdered (sym (stream-get_result v.reference w)) sound.ordered)
                (ground arith))
      ]

  Step-Reach : {w w' : World A} → Step w w' → Reach w.db w'.db
  Step-Reach (notify settings n raw w) = accept-Reach settings n raw w
  Step-Reach (register defaults input w) = create-Reach defaults input w
  Step-Reach (inquire customer_id as_of w) =
      subst (Reach w.db) (sym (db-get_position customer_id as_of w)) here
  Step-Reach (work q w) = run_round-Reach q w
  Step-Reach (reclaim q w) = reclaim_round-Reach q w
  Step-Reach (look w) = here
  Step-Reach (restart ⦃m⦄ config w) =
      subst (Reach w.db) (sym (start-IsUntouched ⦃m = m⦄ config w).0) here

  Steps-Reach : {w w' : World A} → Steps w w' → Reach w.db w'.db
  Steps-Reach started = here
  Steps-Reach (then_step path step) = Reach-trans (Steps-Reach path) (Step-Reach step)

  -- A credit is on record: its reference is in the ledger, or a message that decodes to it is, with
  -- its content, an entry of the stream that waits to be read, pending, or a dead letter.
  abbrev pub IsOnRecord : ValidatedNotification A → World A → Type 0
  IsOnRecord v w =
      (has_reference v.reference w.db.payments ≡ true)
      ⊎ ((m : Message) × ((decode_message m ≡ some v)
            × (((has_message m w.stream.entries ≡ true) × (w.stream.delivered ≤ m.id))
                ⊎ ((awaits m w.stream.pending ≡ true) ⊎ (is_dead m w.stream.dead ≡ true)))))

  IsKept-IsOnRecord :
      (m : Message) (v : ValidatedNotification A) (w : World A)
      → decode_message m ≡ some v
      → IsKept m v w
      → IsOnRecord v w
  IsKept-IsOnRecord m v w decoded kept = elim kept.is_placed [
    | inl waits ↦ inr (
      m,
      (decoded, inl (has_entry-has_message m w.stream.entries kept.is_alone kept.is_entry, waits)),
    )
    | inr (inl held) ↦ inr (m, (decoded, inr (inl held)))
    | inr (inr (inl dead)) ↦ inr (m, (decoded, inr (inr dead)))
    | inr (inr (inr listed)) ↦ inl listed
  ]

  -- A valid notification that the webhook answers without an error is never lost: at every later
  -- moment, after any requests, rounds of workers and of the reclaimer, and restarts, under any faults of
  -- the network, its reference is in the ledger, or a message that decodes to it waits in
  -- the stream, is pending, or is a dead letter. This holds from a sound state, while Redis trims
  -- nothing from the stream and the encoding of the notification decodes to it.
  pub acknowledged_never_lost :
      (settings : Settings) (n : Notification) (raw : Str) (w later : World A)
      (v : ValidatedNotification A) (r : PaymentResult A)
      → NeverTrims e
      → IsReadBack v
      → IsSound w
      → validate n settings.provider_location settings.default_currency raw (e.now w.step) ≡ ok v
      → (accept settings n raw w).0 ≡ ok r
      → Steps (accept settings n raw w).1 later
      → IsOnRecord v later
  acknowledged_never_lost settings n raw w later v r untrimmed back sound valid answered path =
      elim (accept-IsHeld settings n raw w v r untrimmed back sound valid answered) [
        | inl listed ↦ inl (has_reference-Reach v.reference (Steps-Reach path) listed)
        | inr (m, (decoded, kept)) ↦
            IsKept-IsOnRecord m v later decoded (Steps-IsKept m v untrimmed decoded kept path)
      ]
