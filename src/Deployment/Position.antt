-- ===== src/Deployment/Position.antt =====
-- `Position` and `PositionAt`: the standing that every applied payment carries back.
use asset_repayment_service.Prelude.{ℕ, Option}
use asset_repayment_service.Prelude.Int.{ℤ}
use asset_repayment_service.Prelude.Text.{Str}
use asset_repayment_service.Money.Decimal.{Decimal}
use asset_repayment_service.Money.Currency.{Currency}
use asset_repayment_service.Deployment.Clock.{Time, Floats, Float64}
use asset_repayment_service.Deployment.Entity
use asset_repayment_service.Deployment.Entity.{Deployment, Status, ScheduleStatus}

pub record Position (A : Type 0) : Type 0 where
  pub customer_id : Str
  pub deployment_uuid : Str
  pub asset_id : Str
  pub status : Status
  pub schedule_status : ScheduleStatus
  pub currency : Currency
  pub principal : A
  pub amount_paid : A
  pub outstanding : A
  pub excess : A
  pub weekly_due : A
  pub expected_paid_to_date : A
  pub arrears : A
  pub term_weeks : ℤ
  pub weeks_elapsed : ℤ
  pub weeks_of_coverage : Float64
  pub percent_repaid : Float64
  pub payment_count : ℕ
  pub start_date : Time
  pub expected_completion_date : Time
  pub projected_completion_date : Option Time
  pub last_payment_at : Option Time
  pub as_of : Time

module _ {A : Type 0} ⦃d : Decimal A⦄ ⦃f : Floats⦄ where
  unfoldable pub position_at : Deployment A → Time → Position A
  position_at x as_of = record {
    customer_id = x.customer_id;
    deployment_uuid = x.uuid;
    asset_id = x.asset_id;
    status = x.status;
    schedule_status = Entity.schedule_status x as_of;
    currency = x.currency;
    principal = x.principal;
    amount_paid = x.amount_paid;
    outstanding = Entity.outstanding x;
    excess = Entity.excess x;
    weekly_due = Entity.weekly_due x;
    expected_paid_to_date = Entity.expected_paid_to_date x as_of;
    arrears = Entity.arrears x as_of;
    term_weeks = x.term_weeks;
    weeks_elapsed = Entity.weeks_elapsed x as_of;
    weeks_of_coverage = Entity.weeks_of_coverage x as_of;
    percent_repaid = Entity.percent_repaid x;
    payment_count = x.payment_count;
    start_date = x.start_date;
    expected_completion_date = Entity.expected_completion_date x;
    projected_completion_date = Entity.projected_completion_date x as_of;
    last_payment_at = x.last_payment_at;
    as_of = as_of;
  }
