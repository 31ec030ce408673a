-- ===== src/Payment/Replays.antt =====
-- What a replay is answered with: the entry that the ledger holds for its reference.
use asset_repayment_service.Prelude.{
  ℕ, ◌≡◌, Bool, true, inl, inr, Option, none, some, drop, arith, sym, ◌∙◌, ap, Option-cases,
}
use mathlib.Core.Bool.{false≢true}
use mathlib.Core.Logic.{◌↔◌}
use asset_repayment_service.Prelude.Text.{Str, str_eq, str_eq→eq, str_eq_refl}
use asset_repayment_service.Errors.{ok, Result-cases}
use asset_repayment_service.Money.Decimal.{Decimal, SameValue, equal_true, equal_of_same}
use asset_repayment_service.Money.Currency.{Unicode}
use asset_repayment_service.Deployment.Clock.{Floats}
use asset_repayment_service.Deployment.Service.{resolve}
use asset_repayment_service.Payment.Entity.{
  ValidatedNotification, Payment, Outcome, duplicate, PaymentResult, ApplyResult, ApplyInput,
  RecordInput,
}
use asset_repayment_service.Payment.Service.{
  same_request, recorded_result, record_only, applied_result, apply_routed, process,
}
use asset_repayment_service.Payment.Effects.{
  stopped, recorded, moved, process-path, db-resolve, record_input, apply_input,
}
use asset_repayment_service.Payment.Once.{
  find_payment_listed, get_by_reference-some, get_by_reference-none, apply_statement-row,
  record_statement-row, record_statement-once,
}
use asset_repayment_service.Database.Rows.{PaymentModel, payment_to_domain}
use asset_repayment_service.Database.Tables.{find_payment}
use asset_repayment_service.Database.Statements.{record_statement}
use asset_repayment_service.Database.Ledger.{apply_once}
use asset_repayment_service.World.State.{Environment, World, query}
use asset_repayment_service.World.Repository.{
  get_by_reference, deployment_by_id, replay_with, replay, apply_payment, stored_duplicate,
  record_payment,
}
use asset_repayment_service.World.Effects.{Reply-cases, query_idle, query-found, applying_at}

module _ {A : Type 0} ⦃d : Decimal A⦄ ⦃u : Unicode⦄ ⦃e : Environment⦄ where
  -- The ledger holds `p` for the reference.
  abbrev Holds : Str → PaymentModel A → World A → Type 0
  Holds reference p w = find_payment reference w.db.payments ≡ some p

  abbrev IsReplayOf : PaymentModel A → ValidatedNotification A → PaymentResult A → Type 0
  IsReplayOf p v r =
      (r.outcome ≡ duplicate)
      × (r.payment ≡ some (payment_to_domain p))
      × (same_request (some (payment_to_domain p)) v ≡ none)

  replay_with-payment :
      (x : Payment A) (input : ApplyInput A) (w : World A) (r : ApplyResult A)
      → (replay_with x input w).0 ≡ ok r
      → (r.payment ≡ some x) × (r.duplicate ≡ true)
  unfolding replay_with
  replay_with-payment x input w r h =
      elim (Result-cases (deployment_by_id input.deployment_id w).0) [
        | inl (y, current) ↦ ground arith
        | inr (cause, lost) ↦ ground arith
      ]

  replay-payment :
      (input : ApplyInput A) (p : PaymentModel A) (w : World A) (r : ApplyResult A)
      → Holds input.notification.reference p w
      → (replay input w).0 ≡ ok r
      → (r.payment ≡ some (payment_to_domain p)) × (r.duplicate ≡ true)
  unfolding replay
  replay-payment input p w r held h =
      let reference = input.notification.reference in
      elim (Result-cases (get_by_reference reference w).0) [
        | inl (none, nothing) ↦ ground arith
        | inl (some x, listed) ↦
            let (q, found_it, shown) = get_by_reference-some reference w x listed in
            ground (arith, replay_with-payment x input (get_by_reference reference w).1 r)
        | inr (cause, lost) ↦ ground arith
      ]

  apply_payment-payment :
      (input : ApplyInput A) (p : PaymentModel A) (w : World A) (r : ApplyResult A)
      → Holds input.notification.reference p w
      → (apply_payment input w).0 ≡ ok r
      → (r.payment ≡ some (payment_to_domain p)) × (r.duplicate ≡ true)
  unfolding apply_payment
  apply_payment-payment input p w r held h =
      let sent = query (applying_at input w) w in
      let seen = drop (e.lag w.step) w.db.payments in
      let taken = find_payment_listed input.notification.reference w.db.payments p held in
      let still =
        query_idle (applying_at input w) w
          (apply_once seen input (e.now w.step) (e.uuid w.step) w.db taken).0 in
      elim (Reply-cases sent.0) [
        | inl (x, read) ↦
            let (answer, effect) = query-found (applying_at input w) w x read in
            absurd (
              false≢true (
                sym (apply_statement-row seen input (e.now w.step) (e.uuid w.step) w.db x answer).0
                ∙ taken))
        | inr (inl nothing) ↦ ground (arith, still, replay-payment input p sent.1 r)
        | inr (inr (cause, lost)) ↦ ground (arith, still, replay-payment input p sent.1 r)
      ]

  record_payment-payment :
      (input : RecordInput A) (p : PaymentModel A) (w : World A) (stored : Option (Payment A))
      (taken : Bool)
      → Holds input.notification.reference p w
      → (record_payment input w).0 ≡ ok (stored, taken)
      → (stored ≡ some (payment_to_domain p)) × (taken ≡ true)
  unfolding record_payment stored_duplicate
  record_payment-payment input p w stored taken held h =
      let reference = input.notification.reference in
      let sent = query (record_statement input) w in
      let listed = find_payment_listed reference w.db.payments p held in
      let still =
        query_idle (record_statement input) w
          (record_statement-once input (e.now w.step) (e.uuid w.step) w.db listed) in
      elim (Reply-cases sent.0) [
        | inl (q, read) ↦
            let (answer, effect) = query-found (record_statement input) w q read in
            absurd (
              false≢true (
                sym (record_statement-row input (e.now w.step) (e.uuid w.step) w.db q answer).0
                ∙ listed))
        | inr (inl nothing) ↦ elim (Result-cases (get_by_reference reference sent.1).0) [
          | inl (none, unlisted) ↦
              ground (arith, still, get_by_reference-none reference sent.1 unlisted)
          | inl (some x, answer) ↦
              let (q, found_it, shown) = get_by_reference-some reference sent.1 x answer in
              ground (arith, still)
          | inr (cause, lost) ↦ ground arith
        ]
        | inr (inr (cause, lost)) ↦ ground arith
      ]

  record_only-payment :
      (v : ValidatedNotification A) (o : Outcome) (id : Option ℕ) (p : PaymentModel A) (w : World A)
      (r : PaymentResult A)
      → Holds v.reference p w
      → (record_only v o id w).0 ≡ ok r
      → IsReplayOf p v r
  unfolding record_only recorded_result
  record_only-payment v o id p w r held h =
      elim (Result-cases (record_payment (record_input v o id) w).0) [
        | inl ((stored, taken), done) ↦
            let (shown, again) =
              record_payment-payment (record_input v o id) p w stored taken held done in
            elim (Option-cases (same_request (some (payment_to_domain p)) v)) [
              | inl same ↦ ground arith
              | inr (conflict, other) ↦ ground arith
            ]
        | inr (cause, failed) ↦ ground arith
      ]

module _ {A : Type 0} ⦃d : Decimal A⦄ ⦃u : Unicode⦄ ⦃e : Environment⦄ ⦃f : Floats⦄ where
  apply_routed-payment :
      (v : ValidatedNotification A) (id : ℕ) (p : PaymentModel A) (w : World A)
      (r : PaymentResult A)
      → Holds v.reference p w
      → (apply_routed v id w).0 ≡ ok r
      → IsReplayOf p v r
  unfolding apply_routed applied_result
  apply_routed-payment v id p w r held h =
      elim (Result-cases (apply_payment (apply_input v id) w).0) [
        | inl (x, done) ↦
            let (shown, again) = apply_payment-payment (apply_input v id) p w x held done in
            elim (Option-cases (same_request (some (payment_to_domain p)) v)) [
              | inl same ↦ ground arith
              | inr (conflict, other) ↦ ground arith
            ]
        | inr (cause, failed) ↦ ground arith
      ]

  -- When the ledger holds an entry for the reference, `Process` answers without an error only if
  -- customer, amount and currency are the entry's, and then as a duplicate that shows the entry as it
  -- was first recorded.
  pub process_replay :
      (v : ValidatedNotification A) (p : PaymentModel A) (w : World A) (r : PaymentResult A)
      → find_payment v.reference w.db.payments ≡ some p
      → (process v w).0 ≡ ok r
      → (r.outcome ≡ duplicate)
        × (r.payment ≡ some (payment_to_domain p))
        × (same_request (some (payment_to_domain p)) v ≡ none)
  process_replay v p w r held answered =
      let routed = (resolve v.customer_id w).1 in
      let still : Holds v.reference p routed = rw (db-resolve v.customer_id w) held in
      elim (process-path v w) [
        | stopped cause q ↦ ground arith
        | recorded o id ne q ↦ record_only-payment v o id p routed r still (rw⁻¹ q answered)
        | moved ref found settled q ↦
            apply_routed-payment v ref.id p routed r still (rw⁻¹ q answered)
      ]

module _ {A : Type 0} ⦃d : Decimal A⦄ where
  -- A notification repeats an entry exactly if the customers, the amounts and the currency codes
  -- agree; neither the date nor the status of the bank counts.
  pub same_request_iff :
      (x : Payment A) (v : ValidatedNotification A)
      → (same_request (some x) v ≡ none) ↔ (
          (x.customer_id ≡ v.customer_id)
          × SameValue x.amount v.amount
          × (x.currency.code ≡ v.currency.code))
  unfolding same_request
  same_request_iff x v = (
    λ same. ground (
      arith,
      str_eq→eq x.customer_id v.customer_id,
      equal_true x.amount v.amount,
      str_eq→eq x.currency.code v.currency.code,
    ),
    λ (customer, amount, code). rw (
      ap (λ s. str_eq s v.customer_id) customer ∙ str_eq_refl v.customer_id,
      equal_of_same x.amount v.amount amount,
      ap (λ s. str_eq s v.currency.code) code ∙ str_eq_refl v.currency.code,
    ),
  )
