-- ===== src/Tests/Schedule.antt =====
-- The arithmetic of a deployment, of amounts and of errors.
use asset_repayment_service.Prelude.{ℕ, ◌≡◌, ◌≤◌, ◌⊎◌, ◌↔◌, refl, true, false, none, arith, [], ◌*◌}
use asset_repayment_service.Prelude.Int.{ℤ, pos, ◌-ℤ◌, ◌≤ℤ◌}
use asset_repayment_service.Prelude.Text.{
  text, byte_len, trim_space, trim_left, remove_all, trim_prefix, strip_prefix,
}
use asset_repayment_service.Money.Decimal.{
  up, down, SameValue, AtMost, IsNonNegative, IsPositive, Below,
}
use asset_repayment_service.Money.Parse.{
  parse_positive, parse, check_amount, clean, non_negative, max_integer_digits,
}
use asset_repayment_service.Money.Laws.{parse_positive_accepts}
use asset_repayment_service.Deployment.Clock.{nanos_per_day}
use asset_repayment_service.Deployment.Entity.{
  Deployment, active, settled, behind, ahead, is_open, outstanding, excess, split_payment,
  weeks_elapsed, arrears, ahead_by, weekly_due, schedule_status,
}
use asset_repayment_service.Deployment.Laws.{
  split_payment_parts, split_payment_moves, weeks_elapsed_bounds, schedule_status_lem,
}
use asset_repayment_service.Tests.Samples.{whole_units, whole_floats, naira}

-- Half of 1,000 paid after ten of fifty weeks.
abbrev plan : Deployment ℤ
plan = record {
  id = 1;
  uuid = text "d-1";
  customer_id = text "GIG-1";
  asset_id = text "CAR-1";
  asset_type = text "car";
  virtual_account_number = [];
  currency = naira;
  principal = pos 1000;
  term_weeks = pos 50;
  amount_paid = pos 500;
  payment_count = 2;
  status = active;
  start_date = 0;
  last_payment_at = none;
  completed_at = none;
  created_at = 0;
  updated_at = 0;
}

abbrev ten_weeks : ℕ
ten_weeks = 70 * nanos_per_day

split_payment_parts_example :
    let (applied, credit) = split_payment (pos 1000) (pos 500) (pos 700) in
    SameValue (whole_units.add applied credit) (pos 700)
    × IsNonNegative applied
    × IsNonNegative credit
    × AtMost applied (non_negative (whole_units.sub (pos 1000) (pos 500)))
unfolding whole_units
split_payment_parts_example = split_payment_parts (pos 1000) (pos 500) (pos 700) (omega arith)

split_payment_moves_example :
    let (applied, credit) = split_payment (pos 1000) (pos 500) (pos 700) in
    let after = record plan { amount_paid = whole_units.add (pos 500) (pos 700) } in
    SameValue (whole_units.add (outstanding after) applied) (outstanding plan)
    × SameValue (whole_units.add (excess plan) credit) (excess after)
unfolding whole_units
split_payment_moves_example = split_payment_moves plan (pos 700) (omega arith)

weeks_elapsed_bounds_example :
    (pos 0 ≤ℤ weeks_elapsed plan ten_weeks) × (weeks_elapsed plan ten_weeks ≤ℤ pos 50)
weeks_elapsed_bounds_example = weeks_elapsed_bounds plan ten_weeks (omega arith)

schedule_status_lem_example :
    ((schedule_status plan ten_weeks ≡ settled)
      ↔ ((is_open plan ≡ false) ⊎ (up (outstanding plan) ≡ down (outstanding plan))))
    × ((schedule_status plan ten_weeks ≡ behind) ↔ (
        (is_open plan ≡ true)
        × IsPositive (outstanding plan)
        × Below (weekly_due plan) (arrears plan ten_weeks)))
    × ((schedule_status plan ten_weeks ≡ ahead) ↔ (
        (is_open plan ≡ true)
        × IsPositive (outstanding plan)
        × AtMost (arrears plan ten_weeks) (weekly_due plan)
        × IsPositive (ahead_by plan ten_weeks)))
schedule_status_lem_example = schedule_status_lem plan ten_weeks

parse_positive_accepts_example :
    IsPositive (pos 10500)
    × (pos 0 -ℤ whole_units.exponent (pos 10500) ≤ℤ pos 2)
    × (byte_len (whole_units.to_string (whole_units.abs (whole_units.truncate_int (pos 10500))))
        ≤ max_integer_digits)
unfolding parse_positive parse check_amount clean trim_space trim_left remove_all trim_prefix
    strip_prefix byte_len whole_units ◌-ℤ◌
parse_positive_accepts_example = parse_positive_accepts (text " NGN 10,500") naira (pos 10500) refl
