-- ===== src/Database/Statements.antt =====
-- The SQL that the repositories send (payment_repository.go, deployment_repository.go). `now` is
-- the transaction's NOW() and `uuid` the value of gen_random_uuid().
use asset_repayment_service.Prelude.{
  ℕ, suc, ◌+◌, Bool, true, false, not, ◌||◌, Option, none, some, List, [], ◌∷◌, ltb, if◌then◌else◌,
}
use asset_repayment_service.Prelude.Text.{Str, text, str_eq, is_empty}
use asset_repayment_service.Money.Decimal.{Decimal}
use asset_repayment_service.Deployment.Clock.{Time, truncate_day}
use asset_repayment_service.Deployment.Contracts.{CreateInput}
use asset_repayment_service.Deployment.Entity.{active, completed, is_open_status}
use asset_repayment_service.Payment.Entity.{ValidatedNotification, ApplyInput, RecordInput, applied}
use asset_repayment_service.Database.Rows.{DeploymentModel, PaymentModel, ApplyRowModel}
use asset_repayment_service.Database.Tables.{
  Db, Fetched, row, no_row, violated, unique_violation, has_reference, find_payment,
  find_deployment, update_deployment, has_open, has_account, deployment_violation, insert_payment,
}

-- GREATEST ignores NULLs.
abbrev greatest_time : Option Time → Time → Option Time
greatest_time none t = some t
greatest_time (some s) t = if ltb s t then some t else some s

-- `rawPayloadOrEmpty`
abbrev pub raw_payload_or_empty : Str → Str
raw_payload_or_empty raw = if is_empty raw then text "{}" else raw

module _ {A : Type 0} ⦃d : Decimal A⦄ where
  -- `moved`: the SET clause.
  unfoldable pub move_row : A → Time → Time → DeploymentModel A → DeploymentModel A
  move_row amount date now x =
      let paid = d.add x.amount_paid amount in
      let reached = not (d.less paid x.principal) in
      record x {
        amount_paid = paid;
        payment_count = x.payment_count + 1;
        last_payment_at = greatest_time x.last_payment_at date;
        status = if reached then completed else x.status;
        completed_at = elim x.completed_at [
          | none ↦ if reached then some now else none
          | some t ↦ some t
        ];
        updated_at = now;
      }

  -- `split`: LEAST($4, GREATEST(principal - (amount_paid - $4), 0)) on the moved row.
  unfoldable pub applied_of : A → DeploymentModel A → A
  applied_of amount moved =
      d.min_of amount
        (d.max_of (d.sub moved.principal (d.sub moved.amount_paid amount)) d.zero_amount)

  -- `recorded`: the ledger row for a moved deployment.
  unfoldable pub applied_entry :
      ValidatedNotification A → Time → Str → DeploymentModel A → PaymentModel A
  unfolding applied_of
  applied_entry n now uuid moved =
      let part = applied_of n.amount moved in
      record {
        uuid = uuid;
        transaction_reference = n.reference;
        customer_id = n.customer_id;
        deployment_id = some moved.id;
        currency = moved.currency;
        amount = n.amount;
        applied_amount = part;
        excess_amount = d.sub n.amount part;
        balance_before = d.sub moved.amount_paid n.amount;
        balance_after = moved.amount_paid;
        outcome = applied;
        provider_status = n.provider_status;
        transaction_date = n.transaction_date;
        received_at = n.received_at;
        created_at = now;
        raw_payload = raw_payload_or_empty n.raw_payload;
      }

  abbrev pub apply_row : PaymentModel A → DeploymentModel A → ApplyRowModel A
  apply_row p moved = record {
    payment_uuid = p.uuid;
    applied_amount = p.applied_amount;
    excess_amount = p.excess_amount;
    balance_before = p.balance_before;
    balance_after = p.balance_after;
    payment_created_at = p.created_at;
    deployment = moved;
  }

  -- The insert of `recorded` behind the update, all or nothing.
  unfoldable pub commit_apply :
      PaymentModel A → DeploymentModel A → Db A → Db A → Fetched (ApplyRowModel A) × Db A
  unfolding insert_payment
  commit_apply p moved before after = elim (insert_payment p after) [
    | row db ↦ (row (apply_row p moved), db)
    | no_row ↦ (no_row, before)
    | violated sqlstate ↦ (violated sqlstate, before)
  ]

  -- `applyPaymentQuery`. `seen` is the ledger in the statement's snapshot, to which NOT EXISTS looks:
  -- a concurrent statement may have committed since, so `db` can hold more entries.
  unfoldable pub apply_statement :
      List (PaymentModel A) → ApplyInput A → Time → Str → Db A → Fetched (ApplyRowModel A) × Db A
  unfolding commit_apply has_reference find_deployment update_deployment deployment_violation
  apply_statement seen input now uuid db =
      let n = input.notification in
      if has_reference n.reference seen
      then (no_row, db)
      else elim (find_deployment input.deployment_id db.deployments) [
        | none ↦ (no_row, db)
        | some x ↦
            let moved = move_row n.amount n.transaction_date now x in
            elim (deployment_violation moved) [
              | some sqlstate ↦ (violated sqlstate, db)
              | none ↦ commit_apply (applied_entry n now uuid moved) moved db (record db {
                deployments =
                    update_deployment input.deployment_id (move_row n.amount n.transaction_date now)
                      db.deployments;
              })
            ]
      ]

  -- The row of `Record`: no balance moves.
  unfoldable pub recorded_entry : RecordInput A → Time → Str → PaymentModel A
  recorded_entry input now uuid =
      let n = input.notification in
      record {
        uuid = uuid;
        transaction_reference = n.reference;
        customer_id = n.customer_id;
        deployment_id = input.deployment_id;
        currency = n.currency.code;
        amount = n.amount;
        applied_amount = d.zero_amount;
        excess_amount = d.zero_amount;
        balance_before = d.zero_amount;
        balance_after = d.zero_amount;
        outcome = input.outcome;
        provider_status = n.provider_status;
        transaction_date = n.transaction_date;
        received_at = n.received_at;
        created_at = now;
        raw_payload = raw_payload_or_empty n.raw_payload;
      }

  -- ON CONFLICT (transaction_reference) DO NOTHING: a taken reference gives no row and no error.
  unfoldable pub record_statement :
      RecordInput A → Time → Str → Db A → Fetched (PaymentModel A) × Db A
  unfolding insert_payment recorded_entry
  record_statement input now uuid db =
      let p = recorded_entry input now uuid in
      elim (insert_payment p db) [
        | row db' ↦ (row p, db')
        | no_row ↦ (no_row, db)
        | violated sqlstate ↦
            if str_eq sqlstate unique_violation then (no_row, db) else (violated sqlstate, db)
      ]

  -- The row of `Create`, with the column defaults.
  unfoldable pub created_row : CreateInput A → Time → Str → ℕ → DeploymentModel A
  unfolding truncate_day
  created_row input now uuid id = record {
    id = id;
    uuid = uuid;
    customer_id = input.customer_id;
    asset_id = input.asset_id;
    asset_type = input.asset_type;
    virtual_account_number =
        if is_empty input.virtual_account_number then none else some input.virtual_account_number;
    currency = input.currency.code;
    principal = input.principal;
    term_weeks = input.term_weeks;
    amount_paid = d.zero_amount;
    payment_count = 0;
    status = active;
    start_date = truncate_day input.start_date;
    last_payment_at = none;
    completed_at = none;
    created_at = now;
    updated_at = now;
  }

  -- The INSERT of `Create`; the sequence advances also when the row is refused.
  unfoldable pub create_statement :
      CreateInput A → Time → Str → Db A → Fetched (DeploymentModel A) × Db A
  unfolding created_row deployment_violation has_open has_account
  create_statement input now uuid db =
      let x = created_row input now uuid db.next_id in
      let refused = record db { next_id = suc db.next_id } in
      elim (deployment_violation x) [
        | some sqlstate ↦ (violated sqlstate, refused)
        | none ↦
            if has_open input.customer_id db.deployments
              || has_account x.virtual_account_number db.deployments
            then (violated unique_violation, refused)
            else (row x, record db { deployments = x ∷ db.deployments; next_id = suc db.next_id })
      ]

  -- `GetByReference` and `deploymentByID`.
  unfoldable pub select_payment : Str → Db A → Fetched (PaymentModel A) × Db A
  unfolding find_payment
  select_payment reference db = elim (find_payment reference db.payments) [
    | none ↦ (no_row, db)
    | some p ↦ (row p, db)
  ]

  unfoldable pub select_deployment : ℕ → Db A → Fetched (DeploymentModel A) × Db A
  unfolding find_deployment
  select_deployment id db = elim (find_deployment id db.deployments) [
    | none ↦ (no_row, db)
    | some x ↦ (row x, db)
  ]

  -- ORDER BY (status IN ('active', 'delinquent')) DESC, created_at DESC: which of two rows is first.
  abbrev goes_before : DeploymentModel A → DeploymentModel A → Bool
  goes_before x y =
      if is_open_status x.status
      then (if is_open_status y.status then ltb y.created_at x.created_at else true)
      else (if is_open_status y.status then false else ltb y.created_at x.created_at)

  abbrev first_of_two : DeploymentModel A → Option (DeploymentModel A) → DeploymentModel A
  first_of_two x none = x
  first_of_two x (some y) = if goes_before y x then y else x

  -- LIMIT 1 over the rows of the customer.
  unfoldable pub best_deployment : Str → List (DeploymentModel A) → Option (DeploymentModel A)
  unfolding str_eq
  best_deployment customer_id [] = none
  best_deployment customer_id (x ∷ xs) =
      let rest = best_deployment customer_id xs in
      if str_eq x.customer_id customer_id then some (first_of_two x rest) else rest

  unfoldable pub select_customer : Str → Db A → Fetched (DeploymentModel A) × Db A
  unfolding best_deployment
  select_customer customer_id db = elim (best_deployment customer_id db.deployments) [
    | none ↦ (no_row, db)
    | some x ↦ (row x, db)
  ]
