-- ===== src/Application/Dtos.antt =====
-- dtos/payment.go and dtos/deployment.go. Amounts leave as text at the precision of their currency.
use asset_repayment_service.Prelude.{ℕ, Bool, Option, none, some, []}
use asset_repayment_service.Prelude.Int.{ℤ}
use asset_repayment_service.Prelude.Text.{Str, text}
use asset_repayment_service.Money.Decimal.{Decimal}
use asset_repayment_service.Money.Parse.{format}
use asset_repayment_service.Deployment.Clock.{Time, Floats, Float64}
use asset_repayment_service.Deployment.Entity.{
  Deployment, Status, ScheduleStatus, weekly_due, expected_completion_date,
}
use asset_repayment_service.Deployment.Position.{Position, position_at}
use asset_repayment_service.Payment.Entity.{
  Notification, Payment, Outcome, queued, applied, duplicate, unmatched, ignored,
}
use asset_repayment_service.Payment.Validate.{Calendar}

pub record ApplyPaymentRequest : Type 0 where
  pub customer_id : Str
  pub payment_status : Str
  pub transaction_amount : Str
  pub transaction_date : Str
  pub transaction_reference : Str
  pub currency : Str

-- `ToNotification`
abbrev pub to_notification : ApplyPaymentRequest → Notification
to_notification r = record {
  customer_id = r.customer_id;
  payment_status = r.payment_status;
  transaction_amount = r.transaction_amount;
  transaction_date = r.transaction_date;
  transaction_reference = r.transaction_reference;
  currency = r.currency;
}

-- Fields with `omitempty` are empty where the entry is only queued; then `processed_at` is the zero
-- `Time`.
pub record PaymentDto : Type 0 where
  pub reference : Str
  pub customer_id : Str
  pub currency : Str
  pub amount : Str
  pub amount_applied : Str
  pub excess : Str
  pub balance_before : Str
  pub balance_after : Str
  pub outcome : Outcome
  pub provider_status : Str
  pub transaction_date : Time
  pub processed_at : Time

pub record PositionDto : Type 0 where
  pub customer_id : Str
  pub deployment_id : Str
  pub asset_id : Str
  pub status : Status
  pub schedule_status : ScheduleStatus
  pub currency : Str
  pub principal : Str
  pub total_paid : Str
  pub outstanding : Str
  pub excess : Str
  pub weekly_due : Str
  pub expected_paid_to_date : Str
  pub arrears : Str
  pub term_weeks : ℤ
  pub weeks_elapsed : ℤ
  pub weeks_of_coverage : Float64
  pub percent_repaid : Float64
  pub payment_count : ℕ
  pub start_date : Str
  pub expected_completion_date : Str
  pub projected_completion_date : Option Str
  pub last_payment_at : Option Time
  pub as_of : Time

pub record ApplyPaymentResponse : Type 0 where
  pub outcome : Outcome
  pub duplicate : Bool
  pub payment : Option PaymentDto
  pub position : Option PositionDto

pub record CreateDeploymentRequest : Type 0 where
  pub customer_id : Str
  pub asset_id : Str
  pub asset_type : Str
  pub virtual_account_number : Str
  pub currency : Str
  pub principal : Str
  pub term_weeks : ℤ
  pub start_date : Str

pub record DeploymentResponse : Type 0 where
  pub deployment_id : Str
  pub customer_id : Str
  pub asset_id : Str
  pub asset_type : Str
  pub virtual_account_number : Str
  pub currency : Str
  pub principal : Str
  pub term_weeks : ℤ
  pub weekly_due : Str
  pub status : Status
  pub start_date : Str
  pub expected_completion : Str
  pub created_at : Time
  pub position : Option PositionDto

abbrev pub date_only : Str
date_only = text "2006-01-02"

module _ {A : Type 0} ⦃d : Decimal A⦄ where
  unfoldable pub queued_dto : Payment A → PaymentDto
  unfolding format
  queued_dto p = record {
    reference = p.transaction_reference;
    customer_id = p.customer_id;
    currency = p.currency.code;
    amount = format p.amount p.currency;
    amount_applied = [];
    excess = [];
    balance_before = [];
    balance_after = [];
    outcome = p.outcome;
    provider_status = p.provider_status;
    transaction_date = p.transaction_date;
    processed_at = 0;
  }

  unfoldable pub entry_dto : Payment A → PaymentDto
  unfolding format
  entry_dto p = record {
    reference = p.transaction_reference;
    customer_id = p.customer_id;
    currency = p.currency.code;
    amount = format p.amount p.currency;
    amount_applied = format p.applied_amount p.currency;
    excess = format p.excess p.currency;
    balance_before = format p.balance_before p.currency;
    balance_after = format p.balance_after p.currency;
    outcome = p.outcome;
    provider_status = p.provider_status;
    transaction_date = p.transaction_date;
    processed_at = p.created_at;
  }

  -- `NewPaymentDTO`
  unfoldable pub new_payment_dto : Option (Payment A) → Option PaymentDto
  unfolding queued_dto entry_dto
  new_payment_dto none = none
  new_payment_dto (some p) = elim p.outcome [
    | queued ↦ some (queued_dto p)
    | applied ↦ some (entry_dto p)
    | duplicate ↦ some (entry_dto p)
    | unmatched ↦ some (entry_dto p)
    | ignored ↦ some (entry_dto p)
  ]

module _ ⦃l : Calendar⦄ where
  abbrev format_date? : Option Time → Option Str
  format_date? none = none
  format_date? (some t) = some (l.format_time date_only t)

module _ {A : Type 0} ⦃d : Decimal A⦄ ⦃l : Calendar⦄ where
  unfoldable pub position_dto : Position A → PositionDto
  unfolding format
  position_dto p = record {
    customer_id = p.customer_id;
    deployment_id = p.deployment_uuid;
    asset_id = p.asset_id;
    status = p.status;
    schedule_status = p.schedule_status;
    currency = p.currency.code;
    principal = format p.principal p.currency;
    total_paid = format p.amount_paid p.currency;
    outstanding = format p.outstanding p.currency;
    excess = format p.excess p.currency;
    weekly_due = format p.weekly_due p.currency;
    expected_paid_to_date = format p.expected_paid_to_date p.currency;
    arrears = format p.arrears p.currency;
    term_weeks = p.term_weeks;
    weeks_elapsed = p.weeks_elapsed;
    weeks_of_coverage = p.weeks_of_coverage;
    percent_repaid = p.percent_repaid;
    payment_count = p.payment_count;
    start_date = l.format_time date_only p.start_date;
    expected_completion_date = l.format_time date_only p.expected_completion_date;
    projected_completion_date = format_date? p.projected_completion_date;
    last_payment_at = p.last_payment_at;
    as_of = p.as_of;
  }

  -- `NewPositionDTO`
  unfoldable pub new_position_dto : Option (Position A) → Option PositionDto
  unfolding position_dto
  new_position_dto none = none
  new_position_dto (some p) = some (position_dto p)

module _ {A : Type 0} ⦃d : Decimal A⦄ ⦃f : Floats⦄ ⦃l : Calendar⦄ where
  -- `NewDeploymentResponse`
  unfoldable pub new_deployment_response : Deployment A → Time → DeploymentResponse
  unfolding format position_at weekly_due expected_completion_date position_dto
  new_deployment_response x as_of = record {
    deployment_id = x.uuid;
    customer_id = x.customer_id;
    asset_id = x.asset_id;
    asset_type = x.asset_type;
    virtual_account_number = x.virtual_account_number;
    currency = x.currency.code;
    principal = format x.principal x.currency;
    term_weeks = x.term_weeks;
    weekly_due = format (weekly_due x) x.currency;
    status = x.status;
    start_date = l.format_time date_only x.start_date;
    expected_completion = l.format_time date_only (expected_completion_date x);
    created_at = x.created_at;
    position = some (position_dto (position_at x as_of));
  }
