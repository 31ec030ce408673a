-- ===== src/Database/Rows.antt =====
-- models/deployment.go and models/payment.go: the row shapes and `ToDomain`. NUMERIC columns hold
-- the amounts themselves: what the code stores has at most three decimals, and the columns six.
use asset_repayment_service.Prelude.{ℕ, Option, none, some, []}
use asset_repayment_service.Prelude.Int.{ℤ}
use asset_repayment_service.Prelude.Text.{Str}
use asset_repayment_service.Money.Currency.{Unicode, lookup}
use asset_repayment_service.Deployment.Clock.{Time}
use asset_repayment_service.Deployment.Entity.{Status, Deployment}
use asset_repayment_service.Payment.Entity.{Outcome, Payment}

pub record DeploymentModel (A : Type 0) : Type 0 where
  pub id : ℕ
  pub uuid : Str
  pub customer_id : Str
  pub asset_id : Str
  pub asset_type : Str
  pub virtual_account_number : Option Str
  pub currency : Str
  pub principal : A
  pub term_weeks : ℤ
  pub amount_paid : A
  pub payment_count : ℕ
  pub status : Status
  pub start_date : Time
  pub last_payment_at : Option Time
  pub completed_at : Option Time
  pub created_at : Time
  pub updated_at : Time

pub record PaymentModel (A : Type 0) : Type 0 where
  pub uuid : Str
  pub transaction_reference : Str
  pub customer_id : Str
  pub deployment_id : Option ℕ
  pub currency : Str
  pub amount : A
  pub applied_amount : A
  pub excess_amount : A
  pub balance_before : A
  pub balance_after : A
  pub outcome : Outcome
  pub provider_status : Str
  pub transaction_date : Time
  pub received_at : Time
  pub created_at : Time
  pub raw_payload : Str

-- The row that the atomic apply statement returns.
pub record ApplyRowModel (A : Type 0) : Type 0 where
  pub payment_uuid : Str
  pub applied_amount : A
  pub excess_amount : A
  pub balance_before : A
  pub balance_after : A
  pub payment_created_at : Time
  pub deployment : DeploymentModel A

abbrev text_or_empty : Option Str → Str
text_or_empty none = []
text_or_empty (some s) = s

module _ {A : Type 0} ⦃u : Unicode⦄ where
  unfoldable pub deployment_to_domain : DeploymentModel A → Deployment A
  deployment_to_domain m = record {
    id = m.id;
    uuid = m.uuid;
    customer_id = m.customer_id;
    asset_id = m.asset_id;
    asset_type = m.asset_type;
    virtual_account_number = text_or_empty m.virtual_account_number;
    currency = lookup m.currency;
    principal = m.principal;
    term_weeks = m.term_weeks;
    amount_paid = m.amount_paid;
    payment_count = m.payment_count;
    status = m.status;
    start_date = m.start_date;
    last_payment_at = m.last_payment_at;
    completed_at = m.completed_at;
    created_at = m.created_at;
    updated_at = m.updated_at;
  }

  unfoldable pub payment_to_domain : PaymentModel A → Payment A
  payment_to_domain m = record {
    uuid = m.uuid;
    transaction_reference = m.transaction_reference;
    customer_id = m.customer_id;
    deployment_id = m.deployment_id;
    deployment_uuid = none;
    currency = lookup m.currency;
    amount = m.amount;
    applied_amount = m.applied_amount;
    excess = m.excess_amount;
    balance_before = m.balance_before;
    balance_after = m.balance_after;
    outcome = m.outcome;
    provider_status = m.provider_status;
    transaction_date = m.transaction_date;
    received_at = m.received_at;
    created_at = m.created_at;
    raw_payload = m.raw_payload;
  }
