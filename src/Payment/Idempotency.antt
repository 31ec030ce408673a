-- ===== src/Payment/Idempotency.antt =====
-- The reference of a notification as its idempotency key, through `Process` and `Accept`, on every
-- path and under every fault of the network.
use asset_repayment_service.Prelude.{
  ℕ, ◌≡◌, true, false, inl, inr, Option, arith, sym, ◌∙◌, ap, Bool-cases, Option-cases,
}
use mathlib.Core.Bool.{false≢true}
use asset_repayment_service.Prelude.Text.{Str}
use asset_repayment_service.Errors.{ok, Result-cases}
use asset_repayment_service.Money.Decimal.{Decimal}
use asset_repayment_service.Money.Currency.{Unicode}
use asset_repayment_service.Deployment.Clock.{Floats}
use asset_repayment_service.Deployment.Service.{resolve}
use asset_repayment_service.Payment.Entity.{
  Notification, ValidatedNotification, Outcome, duplicate, PaymentResult, ApplyResult, RecordInput,
  is_successful,
}
use asset_repayment_service.Payment.Validate.{Calendar, validate}
use asset_repayment_service.Payment.Service.{
  Settings, Codec, same_request, recorded_result, record_only, applied_result, apply_routed,
  process, accept,
}
use asset_repayment_service.Payment.Effects.{
  stopped, recorded, moved, process-path, process-Reach, accept-Reach, db-resolve, db-record_only,
  db-apply_routed, record_input, apply_input, unsent, processed, accept-path,
}
use asset_repayment_service.Payment.Once.{
  apply_payment-once, record_payment-once, apply_payment-ok, record_payment-ok,
}
use asset_repayment_service.Database.Tables.{Db, has_reference}
use asset_repayment_service.Database.Consistency.{IsConsistent}
use asset_repayment_service.Database.Consistency.Inversion.{record_statement-cases}
use asset_repayment_service.World.Effects.{db-record_payment}
use asset_repayment_service.Database.Ledger.{Reach-IsConsistent}
use asset_repayment_service.World.State.{Environment, World}
use asset_repayment_service.World.Repository.{apply_payment, record_payment}

module _ {A : Type 0} ⦃d : Decimal A⦄ ⦃u : Unicode⦄ ⦃e : Environment⦄ where
  abbrev IsListed : ValidatedNotification A → World A → Type 0
  IsListed v w = has_reference v.reference w.db.payments ≡ true

  IsListed-resolve :
      (v : ValidatedNotification A) (w : World A)
      → IsListed v w
      → IsListed v (resolve v.customer_id w).1
  IsListed-resolve v w taken = rw (db-resolve v.customer_id w) taken

  deployments-record_payment :
      (input : RecordInput A) (w : World A)
      → (record_payment input w).1.db.deployments ≡ w.db.deployments
  deployments-record_payment input w = elim (db-record_payment input w) [
    | inl same ↦ ap (λ (x : Db A). x.deployments) same
    | inr ran ↦ elim (record_statement-cases input (e.now w.step) (e.uuid w.step) w.db) [
      | inl same ↦ ap (λ (x : Db A). x.deployments) (ran ∙ same)
      | inr new ↦ ap (λ (x : Db A). x.deployments) (ran ∙ new.result)
    ]
  ]

  record_only-ok :
      (v : ValidatedNotification A) (o : Outcome) (id : Option ℕ) (w : World A)
      (r : PaymentResult A)
      → (record_only v o id w).0 ≡ ok r
      → IsListed v (record_only v o id w).1
  unfolding record_only recorded_result
  record_only-ok v o id w r h = elim (Result-cases (record_payment (record_input v o id) w).0) [
    | inl ((stored, taken), done) ↦
        let (listed, before) = record_payment-ok (record_input v o id) w stored taken done in
        elim (Bool-cases taken) [ inl before_it ↦ ground arith | inr new ↦ ground arith ]
    | inr (cause, failed) ↦ ground arith
  ]

module _ {A : Type 0} ⦃d : Decimal A⦄ ⦃u : Unicode⦄ ⦃e : Environment⦄ ⦃f : Floats⦄ where
  applied_result-ok :
      (v : ValidatedNotification A) (x : ApplyResult A) (w : World A) (r : PaymentResult A)
      → (applied_result v x w).0 ≡ ok r
      → x.duplicate ≡ true
      → r.outcome ≡ duplicate
  unfolding applied_result
  applied_result-ok v x w r h again = elim (Option-cases (same_request x.payment v)) [
    | inl same ↦ ground arith
    | inr (conflict, other) ↦ ground arith
  ]

  apply_routed-ok :
      (v : ValidatedNotification A) (id : ℕ) (w : World A) (r : PaymentResult A)
      → (apply_routed v id w).0 ≡ ok r
      → IsListed v (apply_routed v id w).1
  unfolding apply_routed
  apply_routed-ok v id w r h = elim (Result-cases (apply_payment (apply_input v id) w).0) [
    | inl (x, done) ↦
        let (listed, before) = apply_payment-ok (apply_input v id) w x done in
        ground (
          arith,
          db-apply_routed v id w,
          applied_result-ok v x (apply_payment (apply_input v id) w).1 r,
        )
    | inr (cause, failed) ↦ ground arith
  ]

  -- A notification whose reference is in the ledger moves no money and changes no table.
  pub process_once :
      (v : ValidatedNotification A) (w : World A)
      → has_reference v.reference w.db.payments ≡ true
      → (process v w).1.db ≡ w.db
  process_once v w taken =
      let routed = (resolve v.customer_id w).1 in
      let same = db-resolve v.customer_id w in
      let listed = IsListed-resolve v w taken in
      elim (process-path v w) [
        | stopped cause p ↦ rw p same
        | recorded o id ne p ↦ rw p (
            db-record_only v o id routed
            ∙ record_payment-once (record_input v o id) routed listed
            ∙ same)
        | moved ref found settled p ↦ rw p (
            db-apply_routed v ref.id routed
            ∙ apply_payment-once (apply_input v ref.id) routed listed
            ∙ same)
      ]

  -- A notification that `Process` answers without an error is in the ledger from then on, also one
  -- that moved no money because it is unmatched or not settled.
  pub process_keeps :
      (v : ValidatedNotification A) (w : World A) (r : PaymentResult A)
      → (process v w).0 ≡ ok r
      → has_reference v.reference (process v w).1.db.payments ≡ true
  process_keeps v w r answered =
      let routed = (resolve v.customer_id w).1 in
      elim (process-path v w) [
        | stopped cause p ↦ ground arith
        | recorded o id ne p ↦ rw p (record_only-ok v o id routed r (rw⁻¹ p answered))
        | moved ref found settled p ↦ rw p (apply_routed-ok v ref.id routed r (rw⁻¹ p answered))
      ]

  -- `Process` keeps the books consistent, whatever the network does to its calls and whatever other
  -- connections commit between its probe and its update.
  pub process-IsConsistent :
      (v : ValidatedNotification A) (w : World A)
      → IsConsistent w.db
      → IsConsistent (process v w).1.db
  process-IsConsistent v w c = Reach-IsConsistent (process-Reach v w) c

  -- Funds that the bank has not settled move no balance.
  pub process_unsettled :
      (v : ValidatedNotification A) (w : World A)
      → is_successful v.provider_status ≡ false
      → (process v w).1.db.deployments ≡ w.db.deployments
  process_unsettled v w pending =
      let routed = (resolve v.customer_id w).1 in
      let same = ap (λ (x : Db A). x.deployments) (db-resolve v.customer_id w) in
      elim (process-path v w) [
        | stopped cause p ↦ rw p same
        | recorded o id ne p ↦ rw p (
            ap (λ (x : Db A). x.deployments) (db-record_only v o id routed)
            ∙ deployments-record_payment (record_input v o id) routed
            ∙ same)
        | moved ref found settled p ↦ absurd (false≢true (sym pending ∙ settled))
      ]

module _ {A : Type 0} ⦃d : Decimal A⦄ ⦃u : Unicode⦄ ⦃e : Environment⦄ ⦃f : Floats⦄ ⦃l : Calendar⦄
    ⦃c : Codec A⦄ where
  -- Consistent books stay consistent when the webhook accepts a notification, with the queue, without
  -- it, and when the queue fails and `Process` runs inline, whatever the network does to the calls and
  -- whatever other connections commit between the probe of the apply statement and its update: no
  -- reference twice, each balance and payment count the ones that the ledger gives, each applied entry
  -- split without loss, one open deployment for a customer, and no open deployment paid off.
  pub accept-IsConsistent :
      (settings : Settings) (n : Notification) (raw : Str) (w : World A)
      → IsConsistent w.db
      → IsConsistent (accept settings n raw w).1.db
  accept-IsConsistent settings n raw w books =
      Reach-IsConsistent (accept-Reach settings n raw w) books

  -- A notification that validates to a reference of the ledger changes no table when the webhook
  -- accepts it.
  pub accept_once :
      (settings : Settings) (n : Notification) (raw : Str) (w : World A)
      (v : ValidatedNotification A)
      → validate n settings.provider_location settings.default_currency raw (e.now w.step) ≡ ok v
      → has_reference v.reference w.db.payments ≡ true
      → (accept settings n raw w).1.db ≡ w.db
  accept_once settings n raw w v valid taken = elim (accept-path settings n raw w) [
    | unsent same ↦ same
    | processed v' w' valid' same p ↦ rw p (process_once v' w' (rw same (ground arith)) ∙ same)
  ]
