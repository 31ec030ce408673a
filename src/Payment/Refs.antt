-- ===== src/Payment/Refs.antt =====
-- What leaves the routing cache as it is, among the calls of `Process`.
use asset_repayment_service.Prelude.{ℕ, ◌≡◌, inl, inr, Option, arith, ◌∙◌, Bool-cases, Option-cases}
use asset_repayment_service.Prelude.Text.{Str}
use asset_repayment_service.Errors.{Result-cases}
use asset_repayment_service.Money.Decimal.{Decimal}
use asset_repayment_service.Money.Currency.{Unicode}
use asset_repayment_service.Deployment.Clock.{Floats}
use asset_repayment_service.Deployment.Service.{resolve}
use asset_repayment_service.Deployment.Routing.{refs-query}
use asset_repayment_service.Payment.Entity.{
  ValidatedNotification, Outcome, ApplyInput, RecordInput, ApplyResult, PaymentResult,
}
use asset_repayment_service.Payment.Service.{
  same_request, record_only, applied_result, apply_routed, process,
}
use asset_repayment_service.Payment.Effects.{
  record_input, apply_input, process-path, stopped, recorded, moved,
}
use asset_repayment_service.Database.Statements.{
  record_statement, select_payment, select_deployment,
}
use asset_repayment_service.World.State.{Environment, World, query}
use asset_repayment_service.World.Cache.{set_result}
use asset_repayment_service.World.Repository.{
  get_by_reference, deployment_by_id, replay_with, replay, apply_payment, stored_duplicate,
  record_payment,
}
use asset_repayment_service.World.Effects.{applying_at}

module _ {A : Type 0} ⦃d : Decimal A⦄ ⦃u : Unicode⦄ ⦃e : Environment⦄ where
  refs-get_by_reference : (r : Str) (w : World A) → (get_by_reference r w).1.refs ≡ w.refs
  unfolding get_by_reference
  refs-get_by_reference r w = ground (arith, refs-query (λ _ _. select_payment r) w)

  refs-deployment_by_id : (id : ℕ) (w : World A) → (deployment_by_id id w).1.refs ≡ w.refs
  unfolding deployment_by_id
  refs-deployment_by_id id w = ground (arith, refs-query (λ _ _. select_deployment id) w)

  refs-replay : (input : ApplyInput A) (w : World A) → (replay input w).1.refs ≡ w.refs
  unfolding replay replay_with
  refs-replay input w =
      let reference = input.notification.reference in
      ground (
        arith,
        refs-get_by_reference reference w,
        refs-deployment_by_id input.deployment_id (get_by_reference reference w).1,
      )

  refs-apply_payment :
      (input : ApplyInput A) (w : World A) → (apply_payment input w).1.refs ≡ w.refs
  unfolding apply_payment
  refs-apply_payment input w =
      let r = query (applying_at input w) w in
      ground (arith, refs-query (applying_at input w) w, refs-replay input r.1)

  refs-record_payment :
      (input : RecordInput A) (w : World A) → (record_payment input w).1.refs ≡ w.refs
  unfolding record_payment stored_duplicate
  refs-record_payment input w =
      let r = query (record_statement input) w in
      ground (
        arith,
        refs-query (record_statement input) w,
        refs-get_by_reference input.notification.reference r.1,
      )

  refs-record_only :
      (v : ValidatedNotification A) (o : Outcome) (id : Option ℕ) (w : World A)
      → (record_only v o id w).1.refs ≡ w.refs
  unfolding record_only
  refs-record_only v o id w = elim (Result-cases (record_payment (record_input v o id) w).0) [
    | inl (x, done) ↦ rw (done, record_only) (refs-record_payment (record_input v o id) w)
    | inr (cause, failed) ↦ rw (failed, record_only) (refs-record_payment (record_input v o id) w)
  ]

  refs-set_result :
      (key : Str) (r : PaymentResult A) (w : World A) → (set_result key r w).refs ≡ w.refs
  unfolding set_result
  refs-set_result key r w = ground arith

module _ {A : Type 0} ⦃d : Decimal A⦄ ⦃u : Unicode⦄ ⦃e : Environment⦄ ⦃f : Floats⦄ where
  refs-applied_result :
      (v : ValidatedNotification A) (r : ApplyResult A) (w : World A)
      → (applied_result v r w).1.refs ≡ w.refs
  unfolding applied_result
  refs-applied_result v r w = elim (Bool-cases r.duplicate) [
    | inl again ↦ elim (Option-cases (same_request r.payment v)) [
      | inl same ↦ rw (again, same, applied_result)
      | inr (conflict, other) ↦ rw (again, other, applied_result)
    ]
    | inr first ↦ rw (first, applied_result) (refs-set_result v.reference _ w)
  ]

  refs-apply_routed :
      (v : ValidatedNotification A) (id : ℕ) (w : World A) → (apply_routed v id w).1.refs ≡ w.refs
  unfolding apply_routed
  refs-apply_routed v id w =
      let called = apply_payment (apply_input v id) w in
      let same = refs-apply_payment (apply_input v id) w in
      elim (Result-cases called.0) [
        | inl (x, done) ↦ rw (done, apply_routed) (refs-applied_result v x called.1 ∙ same)
        | inr (cause, failed) ↦ rw (failed, apply_routed) same
      ]

  pub refs-process :
      (v : ValidatedNotification A) (w : World A)
      → (process v w).1.refs ≡ (resolve v.customer_id w).1.refs
  refs-process v w =
      let routed = (resolve v.customer_id w).1 in
      elim (process-path v w) [
        | stopped cause p ↦ rw p
        | recorded o id ne p ↦ rw p (refs-record_only v o id routed)
        | moved ref found settled p ↦ rw p (refs-apply_routed v ref.id routed)
      ]
