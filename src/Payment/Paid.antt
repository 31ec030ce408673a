-- ===== src/Payment/Paid.antt =====
-- What `Process` has done when it answers that money was applied, in terms of the tables.
use asset_repayment_service.Prelude.{
  ℕ, suc, ◌≡◌, refl, true, false, ◌⊎◌, inl, inr, some, ◌∷◌, ◌==◌, arith, ◌∙◌, ap, Bool-cases,
}
use asset_repayment_service.Errors.{ok}
use asset_repayment_service.Money.Decimal.{
  Decimal, SameValue, AtMost, Below, add_parts, sub_parts, less_true, less_false,
}
use asset_repayment_service.Money.Currency.{Unicode}
use asset_repayment_service.Deployment.Clock.{Floats}
use asset_repayment_service.Deployment.Entity.{completed}
use asset_repayment_service.Payment.Entity.{
  ValidatedNotification, Payment, applied, PaymentResult, ApplyResult, is_successful,
}
use asset_repayment_service.Payment.Service.{process}
use asset_repayment_service.Payment.Effects.{apply_input}
use asset_repayment_service.Payment.Moves.{Moved, process-Moved}
use asset_repayment_service.Database.Rows.{DeploymentModel, PaymentModel}
use asset_repayment_service.Database.Tables.{Db, has_reference, find_deployment}
use asset_repayment_service.Database.Statements.{move_row, applied_entry}
use asset_repayment_service.Database.Consistency.Inversion.{entry_of, moved_row}
use asset_repayment_service.Database.Consistency.Preserve.{find_deployment-id}
use asset_repayment_service.Database.Owners.{find_deployment-update, find_other-update}
use asset_repayment_service.World.State.{Environment, World}
use asset_repayment_service.World.Repository.{apply_row_to_payment}

module _ {A : Type 0} ⦃d : Decimal A⦄ where
  -- The payment `v` is in the tables `after`, was not in `before`, and the answer shows it.
  pub record IsPaid (v : ValidatedNotification A) (before after : Db A) (r : PaymentResult A)
      : Type 0 where
    pub id : ℕ
    pub old : DeploymentModel A
    pub new : DeploymentModel A
    pub entry : PaymentModel A
    pub shown : Payment A
    -- one deployment has changed
    pub found : find_deployment id before.deployments ≡ some old
    pub stored : find_deployment id after.deployments ≡ some new
    pub others :
        (other : ℕ)
        → (other ≡ id)
          ⊎ (find_deployment other after.deployments ≡ find_deployment other before.deployments)
    -- by the amount, by one payment, and to completed once its principal is reached
    pub paid : SameValue new.amount_paid (d.add old.amount_paid v.amount)
    pub counted : new.payment_count ≡ suc old.payment_count
    pub terms : (new.principal ≡ old.principal) × (new.customer_id ≡ old.customer_id)
    pub status :
        (AtMost new.principal new.amount_paid × (new.status ≡ completed))
        ⊎ (Below new.amount_paid new.principal × (new.status ≡ old.status))
    -- the ledger has one entry more
    pub unlisted : has_reference v.reference before.payments ≡ false
    pub appended : after.payments ≡ entry ∷ before.payments
    pub entry_outcome : entry.outcome ≡ applied
    pub entry_reference : entry.transaction_reference ≡ v.reference
    pub entry_customer : entry.customer_id ≡ v.customer_id
    pub entry_deployment : entry.deployment_id ≡ some id
    pub entry_amount : entry.amount ≡ v.amount
    pub entry_parts : SameValue (d.add entry.applied_amount entry.excess_amount) v.amount
    pub entry_balances :
        SameValue entry.balance_before old.amount_paid × (entry.balance_after ≡ new.amount_paid)
    -- which the answer shows
    pub answered : r.payment ≡ some shown
    pub shown_entry :
        (shown.uuid ≡ entry.uuid)
        × (shown.amount ≡ entry.amount)
        × (shown.applied_amount ≡ entry.applied_amount)
        × (shown.excess ≡ entry.excess_amount)
        × (shown.balance_after ≡ entry.balance_after)

module _ {A : Type 0} ⦃d : Decimal A⦄ ⦃u : Unicode⦄ ⦃e : Environment⦄ ⦃f : Floats⦄ where
  Moved-IsPaid :
      (v : ValidatedNotification A) (id : ℕ) (before after : Db A) (x : ApplyResult A)
      (r : PaymentResult A)
      → Moved (apply_input v id) before after x
      → r.payment ≡ x.payment
      → IsPaid v before after r
  unfolding move_row applied_entry apply_row_to_payment
  Moved-IsPaid v id before after x r m same =
      let a = m.change in
      let change = moved_row (apply_input v id) m.now in
      let key = find_deployment-id id before.deployments a.found in
      let new = change a.x in
      let entry = entry_of (apply_input v id) m.now m.uuid a.x in
      rw (a.result) (record {
        id = id;
        old = a.x;
        new = new;
        entry = entry;
        shown = _;
        found = a.found;
        stored =
            find_deployment-update id id change before.deployments a.x (λ y. refl) a.found
            ∙ ground (arith, key);
        others = λ other. elim (Bool-cases (other == id)) [
          | inl itself ↦ inl (ground arith)
          | inr apart ↦
              inr (find_other-update id other change before.deployments (λ y. refl) (ground arith))
        ];
        paid = refl;
        counted = ground arith;
        terms = (refl, refl);
        status = elim (Bool-cases (d.less new.amount_paid new.principal)) [
          | inl owing ↦ inr (less_true new.amount_paid new.principal owing, ground arith)
          | inr reached ↦ inl (less_false new.amount_paid new.principal reached, ground arith)
        ];
        unlisted = a.fresh;
        appended = refl;
        entry_outcome = refl;
        entry_reference = refl;
        entry_customer = refl;
        entry_deployment = ap some key;
        entry_amount = refl;
        entry_parts = ground (
          arith,
          add_parts entry.applied_amount entry.excess_amount,
          sub_parts v.amount entry.applied_amount,
        );
        entry_balances = (
          ground (arith, add_parts a.x.amount_paid v.amount, sub_parts new.amount_paid v.amount),
          refl,
        );
        answered = same ∙ m.shown;
        shown_entry = (refl, refl, refl, refl, refl);
      })

module _ {A : Type 0} ⦃d : Decimal A⦄ ⦃u : Unicode⦄ ⦃e : Environment⦄ ⦃f : Floats⦄ where
  -- An answer that money was applied is true: the bank has settled it; one deployment has the amount
  -- added to its paid amount, one payment more, and is completed if it has reached its principal, and
  -- otherwise keeps its status; all other deployments are as before; the reference was not in
  -- the ledger, which has one entry more, for that deployment and this customer and amount, split
  -- without loss between the balances before and after; and the answer shows that entry.
  pub process_applied :
      (v : ValidatedNotification A) (w : World A) (r : PaymentResult A)
      → (process v w).0 ≡ ok r
      → r.outcome ≡ applied
      → (is_successful v.provider_status ≡ true) × IsPaid v w.db (process v w).1.db r
  process_applied v w r answered happened =
      let (settled, (id, (x, moved, shown))) = process-Moved v w r answered happened in
      (settled, Moved-IsPaid v id w.db (process v w).1.db x r moved shown)
