-- ===== src/Deployment/Entity.antt =====
-- entity.go: the deployment and the arithmetic of its schedule. `Status` is the Go string type of
-- the four constants, to which the table's CHECK constraint holds the column.
use asset_repayment_service.Prelude.{
  ℕ, Bool, true, false, not, ◌||◌, Option, none, some, ltb, if◌then◌else◌,
}
use asset_repayment_service.Prelude.Int.{ℤ, pos, ltb_ℤ, leb_ℤ, ◌*ℤ◌}
use asset_repayment_service.Prelude.Text.{Str}
use asset_repayment_service.Money.Decimal.{Decimal}
use asset_repayment_service.Money.Currency.{Currency}
use asset_repayment_service.Money.Parse.{non_negative, prorate}
use asset_repayment_service.Deployment.Clock.{Time, Floats, Float64, sub_time, add_days, round2}

pub data Status : Type 0 where
  active delinquent completed written_off : Status

pub record Deployment (A : Type 0) : Type 0 where
  pub id : ℕ
  pub uuid : Str
  pub customer_id : Str
  pub asset_id : Str
  pub asset_type : Str
  pub virtual_account_number : Str
  pub currency : Currency
  pub principal : A
  pub term_weeks : ℤ
  pub amount_paid : A
  pub payment_count : ℕ
  pub status : Status
  pub start_date : Time
  pub last_payment_at : Option Time
  pub completed_at : Option Time
  pub created_at : Time
  pub updated_at : Time

-- Schedule health.
pub data ScheduleStatus : Type 0 where
  ahead on_track behind settled : ScheduleStatus

abbrev pub is_open_status : Status → Bool
is_open_status active = true
is_open_status delinquent = true
is_open_status completed = false
is_open_status written_off = false

module _ {A : Type 0} ⦃d : Decimal A⦄ where
  unfoldable pub is_open : Deployment A → Bool
  is_open x = is_open_status x.status

  unfoldable pub outstanding : Deployment A → A
  unfolding non_negative
  outstanding x = non_negative (d.sub x.principal x.amount_paid)

  unfoldable pub excess : Deployment A → A
  unfolding non_negative
  excess x = non_negative (d.sub x.amount_paid x.principal)

  unfoldable pub weekly_due : Deployment A → A
  weekly_due x = prorate x.principal (pos 1) x.term_weeks x.currency

  unfoldable pub expected_completion_date : Deployment A → Time
  unfolding add_days ◌*ℤ◌
  expected_completion_date x = add_days x.start_date (x.term_weeks *ℤ pos 7)

  -- `SplitPayment`: what reduces the balance, and what becomes credit.
  unfoldable pub split_payment : A → A → A → A × A
  unfolding non_negative
  split_payment principal paid_before amount =
      let room = non_negative (d.sub principal paid_before) in
      let applied = d.min_of amount room in (applied, d.sub amount applied)

module _ {A : Type 0} ⦃d : Decimal A⦄ ⦃f : Floats⦄ where
  unfoldable pub weeks_elapsed : Deployment A → Time → ℤ
  unfolding sub_time
  weeks_elapsed x as_of =
      if ltb as_of x.start_date
      then pos 0
      else (let weeks =
            f.to_int (f.quotient (f.hours (sub_time as_of x.start_date)) (f.of_int (pos 168))) in
          if ltb_ℤ x.term_weeks weeks then x.term_weeks else weeks)

  unfoldable pub expected_paid_to_date : Deployment A → Time → A
  expected_paid_to_date x as_of =
      if leb_ℤ x.term_weeks (pos 0)
      then x.principal
      else prorate x.principal (weeks_elapsed x as_of) x.term_weeks x.currency

  unfoldable pub arrears : Deployment A → Time → A
  unfolding non_negative is_open
  arrears x as_of =
      if not (is_open x)
      then d.zero_amount
      else non_negative (d.sub (expected_paid_to_date x as_of) x.amount_paid)

  -- `creditedToSchedule`, the signed distance from the schedule.
  unfoldable pub credited_to_schedule : Deployment A → Time → A
  credited_to_schedule x as_of =
      d.sub (d.min_of x.amount_paid x.principal) (expected_paid_to_date x as_of)

  unfoldable pub ahead_by : Deployment A → Time → A
  unfolding non_negative credited_to_schedule
  ahead_by x as_of = non_negative (credited_to_schedule x as_of)

  unfoldable pub weeks_of_coverage : Deployment A → Time → Float64
  unfolding round2
  weeks_of_coverage x as_of =
      let weekly = weekly_due x in
      if not (d.is_positive weekly)
      then f.of_int (pos 0)
      else round2 (d.inexact_float64 (d.div (credited_to_schedule x as_of) weekly))

  unfoldable pub schedule_status : Deployment A → Time → ScheduleStatus
  unfolding is_open
  schedule_status x as_of =
      if not (is_open x) || d.is_zero (outstanding x)
      then settled
      else if d.less (weekly_due x) (arrears x as_of)
      then behind
      else if d.is_positive (ahead_by x as_of)
      then ahead
      else on_track

  unfoldable pub percent_repaid : Deployment A → Float64
  unfolding round2
  percent_repaid x =
      if not (d.is_positive x.principal)
      then f.of_int (pos 100)
      else (let repaid = d.min_of x.amount_paid x.principal in
          round2 (f.product (d.inexact_float64 (d.div repaid x.principal)) (f.of_int (pos 100))))

  unfoldable pub projected_completion_date : Deployment A → Time → Option Time
  unfolding is_open add_days ◌*ℤ◌
  projected_completion_date x as_of =
      let weeks = weeks_elapsed x as_of in
      if d.is_zero (outstanding x)
        || not (is_open x)
        || ltb_ℤ weeks (pos 1)
        || not (d.is_positive x.amount_paid)
      then none
      else (let rate = d.div x.amount_paid (d.new_from_int weeks) in
          let remaining = f.ceil (d.inexact_float64 (d.div (outstanding x) rate)) in
          if f.is_inf remaining || f.greater remaining (f.of_int (pos 10 *ℤ x.term_weeks))
          then none
          else some (add_days as_of (f.to_int remaining *ℤ pos 7)))
