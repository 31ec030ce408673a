-- ===== src/Payment/Moves.antt =====
-- What `Process` has done when it answers that money was applied, by its statement.
use asset_repayment_service.Prelude.{
  ℕ, ◌≡◌, ◌≢◌, true, false, inl, inr, Option, some, List, drop, arith, subst, sym, ◌∙◌, Bool-cases,
  Option-cases,
}
use mathlib.Core.Bool.{false≢true}
use asset_repayment_service.Errors.{ok, Result-cases}
use asset_repayment_service.Money.Decimal.{Decimal}
use asset_repayment_service.Money.Currency.{Unicode}
use asset_repayment_service.Deployment.Clock.{Time, Floats}
use asset_repayment_service.Deployment.Service.{resolve}
use asset_repayment_service.Payment.Entity.{
  ValidatedNotification, Outcome, applied, PaymentResult, ApplyResult, ApplyInput, is_successful,
}
use asset_repayment_service.Payment.Service.{
  same_request, recorded_result, record_only, applied_result, apply_routed, process,
}
use asset_repayment_service.Payment.Effects.{
  stopped, recorded, moved, process-path, db-resolve, db-apply_routed, record_input, apply_input,
}
use asset_repayment_service.Payment.Once.{replay-ok}
use asset_repayment_service.Database.Rows.{deployment_to_domain}
use asset_repayment_service.Database.Tables.{Db}
use asset_repayment_service.Database.Statements.{apply_row}
use asset_repayment_service.Database.Consistency.Inversion.{
  Applied, apply_statement-cases, entry_of, moved_row,
}
use asset_repayment_service.World.State.{Environment, World, query}
use asset_repayment_service.World.Repository.{apply_payment, record_payment, apply_row_to_payment}
use asset_repayment_service.World.Effects.{Reply-cases, query-found, applying_at}

module _ {A : Type 0} ⦃d : Decimal A⦄ ⦃u : Unicode⦄ ⦃e : Environment⦄ where
  -- `Apply` moved the money of `input` between `before` and `after` and shows its new entry.
  pub record Moved (input : ApplyInput A) (before after : Db A) (r : ApplyResult A) : Type 0 where
    pub now : Time
    pub uuid : List ℕ
    pub change : Applied input now uuid before after
    pub shown :
        r.payment
        ≡ some (
            apply_row_to_payment
              (apply_row (entry_of input now uuid change.x) (moved_row input now change.x))
              input.notification)
    pub current : r.deployment ≡ some (deployment_to_domain (moved_row input now change.x))

  pub apply_payment-first :
      (input : ApplyInput A) (w : World A) (r : ApplyResult A)
      → (apply_payment input w).0 ≡ ok r
      → r.duplicate ≡ false
      → Moved input w.db (apply_payment input w).1.db r
  unfolding apply_payment
  apply_payment-first input w r h first =
      let sent = query (applying_at input w) w in
      elim (Reply-cases sent.0) [
        | inl (x, read) ↦
            let (answer, effect) = query-found (applying_at input w) w x read in
            elim (apply_statement-cases (drop (e.lag w.step) w.db.payments) input (e.now w.step)
              (e.uuid w.step) w.db) [
                | inl (same, nothing) ↦ absurd (nothing x answer)
                | inr (a, gives) ↦
                    subst (λ db. Moved input w.db db r) (sym (ground arith))
                      (record {
                        now = e.now w.step;
                        uuid = e.uuid w.step;
                        change = a;
                        shown = ground arith;
                        current = ground arith;
                      })
              ]
        | inr (inl nothing) ↦
            absurd (false≢true (sym first ∙ ground (arith, replay-ok input sent.1 r)))
        | inr (inr (cause, lost)) ↦
            absurd (false≢true (sym first ∙ ground (arith, replay-ok input sent.1 r)))
      ]

  record_only-outcome :
      (v : ValidatedNotification A) (o : Outcome) (id : Option ℕ) (w : World A)
      (r : PaymentResult A)
      → o ≢ applied
      → (record_only v o id w).0 ≡ ok r
      → r.outcome ≢ applied
  unfolding record_only recorded_result
  record_only-outcome v o id w r ne h happened =
      elim (Result-cases (record_payment (record_input v o id) w).0) [
        | inl ((stored, taken), done) ↦ elim (Bool-cases taken) [
          | inl again ↦ elim (Option-cases (same_request stored v)) [
            | inl same ↦ ground arith
            | inr (conflict, other) ↦ ground arith
          ]
          | inr new ↦ ne (ground arith)
        ]
        | inr (cause, failed) ↦ ground arith
      ]

module _ {A : Type 0} ⦃d : Decimal A⦄ ⦃u : Unicode⦄ ⦃e : Environment⦄ ⦃f : Floats⦄ where
  apply_routed-Moved :
      (v : ValidatedNotification A) (id : ℕ) (w : World A) (r : PaymentResult A)
      → (apply_routed v id w).0 ≡ ok r
      → r.outcome ≡ applied
      → (x : ApplyResult A) × Moved
          (apply_input v id)
          w.db
          (apply_payment (apply_input v id) w).1.db
          x
        × (r.payment ≡ x.payment)
  unfolding apply_routed applied_result
  apply_routed-Moved v id w r h happened =
      elim (Result-cases (apply_payment (apply_input v id) w).0) [
        | inl (x, done) ↦ elim (Bool-cases x.duplicate) [
          | inl again ↦ elim (Option-cases (same_request x.payment v)) [
            | inl same ↦ ground arith
            | inr (conflict, other) ↦ ground arith
          ]
          | inr first ↦ (x, apply_payment-first (apply_input v id) w x done first, ground arith)
        ]
        | inr (cause, failed) ↦ ground arith
      ]

  pub process-Moved :
      (v : ValidatedNotification A) (w : World A) (r : PaymentResult A)
      → (process v w).0 ≡ ok r
      → r.outcome ≡ applied
      → (is_successful v.provider_status ≡ true)
        × ((id : ℕ) × ((x : ApplyResult A) × Moved (apply_input v id) w.db (process v w).1.db x
              × (r.payment ≡ x.payment)))
  process-Moved v w r answered happened =
      let routed = (resolve v.customer_id w).1 in
      elim (process-path v w) [
        | stopped cause p ↦ ground arith
        | recorded o id ne p ↦
            absurd (record_only-outcome v o id routed r ne (rw⁻¹ p answered) happened)
        | moved ref found settled p ↦
            let (x, done, shown) =
              apply_routed-Moved v ref.id routed r (rw⁻¹ p answered) happened in
            (
              settled,
              (
                ref.id,
                (
                  x,
                  rw p (
                      subst
                        (λ db.
                          Moved (apply_input v ref.id) db (apply_routed v ref.id routed).1.db x)
                        (db-resolve v.customer_id w)
                        (subst (λ db. Moved (apply_input v ref.id) routed.db db x)
                          (sym (db-apply_routed v ref.id routed)) done)),
                  shown,
                ),
              ),
            )
      ]
