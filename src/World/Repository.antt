-- ===== src/World/Repository.antt =====
-- deployment_repository.go and payment_repository.go: each method is one or two round trips.
use asset_repayment_service.Prelude.{
  ℕ, Bool, true, false, Option, none, some, [], drop, if◌then◌else◌,
}
use asset_repayment_service.Prelude.Text.{Str, text, str_eq}
use asset_repayment_service.Errors.{
  GoError, DomainError, deployment_not_found, no_open_deployment, wrapped, domain, domain_error,
  nil_error, Result, ok, err, not_found, conflict, bad_request, with_cause, find_pg,
  code_failed_precondition,
}
use asset_repayment_service.Money.Decimal.{Decimal}
use asset_repayment_service.Money.Currency.{Unicode, lookup}
use asset_repayment_service.Deployment.Entity.{Deployment}
use asset_repayment_service.Deployment.Contracts.{CreateInput}
use asset_repayment_service.Payment.Entity.{
  ValidatedNotification, Payment, ApplyInput, ApplyResult, RecordInput, applied,
}
use asset_repayment_service.Database.Rows.{ApplyRowModel, deployment_to_domain, payment_to_domain}
use asset_repayment_service.Database.Tables.{unique_violation}
use asset_repayment_service.Database.Statements.{
  apply_statement, record_statement, create_statement, select_payment, select_deployment,
  select_customer,
}
use asset_repayment_service.World.State.{Environment, World, found, no_rows, failed, query}

-- src/internal/domain/deployment/errors.go
abbrev pub err_not_found : DomainError
err_not_found = not_found deployment_not_found (text "deployment")

abbrev pub err_no_open_deployment : DomainError
err_no_open_deployment =
    domain_error no_open_deployment code_failed_precondition
      (text "customer has no open deployment") [] nil_error

abbrev pub err_duplicate_active_deployment : DomainError
err_duplicate_active_deployment = conflict (text "customer already has an open deployment")

abbrev pub err_invalid_customer_id : DomainError
err_invalid_customer_id = bad_request (text "customer_id is required")

abbrev pub err_invalid_principal : DomainError
err_invalid_principal = bad_request (text "principal must be greater than zero")

abbrev pub err_invalid_term : DomainError
err_invalid_term = bad_request (text "term_weeks must be between 1 and 520")

abbrev is_sqlstate : Option Str → Bool
is_sqlstate none = false
is_sqlstate (some code) = str_eq code unique_violation

unfoldable pub is_unique_violation : GoError → Bool
unfolding find_pg str_eq
is_unique_violation e = is_sqlstate (find_pg e)

module _ {A : Type 0} ⦃d : Decimal A⦄ ⦃u : Unicode⦄ ⦃e : Environment⦄ where
  -- `DeploymentRepository.Create`
  unfoldable pub create_deployment : CreateInput A → World A → Result (Deployment A) × World A
  unfolding is_unique_violation
  create_deployment input w =
      let (r, w') = query (create_statement input) w in
      elim r [
        | found x ↦ (ok (deployment_to_domain x), w')
        | no_rows ↦ (err (wrapped (text "create deployment") (GoError.plain (text "no rows"))), w')
        | failed cause ↦
            if is_unique_violation cause
            then (err (domain (with_cause err_duplicate_active_deployment cause)), w')
            else (err (wrapped (text "create deployment") cause), w')
      ]

  -- `GetByCustomerID`
  unfoldable pub get_by_customer_id : Str → World A → Result (Deployment A) × World A
  get_by_customer_id customer_id w =
      let (r, w') = query (λ _ _. select_customer customer_id) w in
      elim r [
        | found x ↦ (ok (deployment_to_domain x), w')
        | no_rows ↦ (err (domain err_not_found), w')
        | failed cause ↦ (err (wrapped (text "get deployment by customer") cause), w')
      ]

  -- `GetByReference`, where a missing row is no error
  unfoldable pub get_by_reference : Str → World A → Result (Option (Payment A)) × World A
  get_by_reference reference w =
      let (r, w') = query (λ _ _. select_payment reference) w in
      elim r [
        | found p ↦ (ok (some (payment_to_domain p)), w')
        | no_rows ↦ (ok none, w')
        | failed cause ↦ (err (wrapped (text "get payment by reference") cause), w')
      ]

  unfoldable pub deployment_by_id : ℕ → World A → Result (Deployment A) × World A
  deployment_by_id id w =
      let (r, w') = query (λ _ _. select_deployment id) w in
      elim r [
        | found x ↦ (ok (deployment_to_domain x), w')
        | no_rows ↦ (err (domain err_not_found), w')
        | failed cause ↦ (err (wrapped (text "get deployment by id") cause), w')
      ]

  unfoldable pub apply_row_to_payment : ApplyRowModel A → ValidatedNotification A → Payment A
  apply_row_to_payment r n = record {
    uuid = r.payment_uuid;
    transaction_reference = n.reference;
    customer_id = n.customer_id;
    deployment_id = some r.deployment.id;
    deployment_uuid = some r.deployment.uuid;
    currency = lookup r.deployment.currency;
    amount = n.amount;
    applied_amount = r.applied_amount;
    excess = r.excess_amount;
    balance_before = r.balance_before;
    balance_after = r.balance_after;
    outcome = applied;
    provider_status = n.provider_status;
    transaction_date = n.transaction_date;
    received_at = n.received_at;
    created_at = r.payment_created_at;
    raw_payload = [];
  }

  -- The second half of `replay`, with the stored payment.
  unfoldable pub replay_with : Payment A → ApplyInput A → World A → Result (ApplyResult A) × World A
  replay_with stored input w =
      let (r, w') = deployment_by_id input.deployment_id w in
      elim r [
        | err cause ↦ (err cause, w')
        | ok current ↦
            (ok (record { payment = some stored; deployment = some current; duplicate = true }), w')
      ]

  -- `replay`: the original outcome of the reference.
  unfoldable pub replay : ApplyInput A → World A → Result (ApplyResult A) × World A
  replay input w =
      let (r, w') = get_by_reference input.notification.reference w in
      elim r [
        | err cause ↦ (err cause, w')
        | ok none ↦ (err (domain err_not_found), w')
        | ok (some stored) ↦ replay_with stored input w'
      ]

  -- `PaymentRepository.Apply`
  unfoldable pub apply_payment : ApplyInput A → World A → Result (ApplyResult A) × World A
  unfolding is_unique_violation
  apply_payment input w =
      let lag = e.lag w.step in
      let (r, w') =
        query (λ now uuid db. apply_statement (drop lag db.payments) input now uuid db) w in
      elim r [
        | found x ↦ (
          ok (record {
            payment = some (apply_row_to_payment x input.notification);
            deployment = some (deployment_to_domain x.deployment);
            duplicate = false;
          }),
          w',
        )
        | no_rows ↦ replay input w'
        | failed cause ↦
            if is_unique_violation cause
            then replay input w'
            else (err (wrapped (text "apply payment") cause), w')
      ]

  -- The branch of `Record` on a conflict.
  unfoldable pub stored_duplicate : Str → World A → Result (Option (Payment A) × Bool) × World A
  stored_duplicate reference w =
      let (r, w') = get_by_reference reference w in
      elim r [ err cause ↦ (err cause, w') | ok stored ↦ (ok (stored, true), w') ]

  -- `PaymentRepository.Record`
  unfoldable pub record_payment :
      RecordInput A → World A → Result (Option (Payment A) × Bool) × World A
  record_payment input w =
      let (r, w') = query (record_statement input) w in
      elim r [
        | found p ↦ (ok (some (payment_to_domain p), false), w')
        | no_rows ↦ stored_duplicate input.notification.reference w'
        | failed cause ↦ (err (wrapped (text "record payment") cause), w')
      ]
