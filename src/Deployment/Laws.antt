-- ===== src/Deployment/Laws.antt =====
-- The balance and the split of a payment, whatever the decimals.
use asset_repayment_service.Prelude.{◌≡◌, ◌⊎◌, ◌↔◌, ◌-◌, true, false, arith}
use asset_repayment_service.Prelude.Int.{pos, ◌≤ℤ◌}
use asset_repayment_service.Money.Decimal.{
  Decimal, up, down, SameValue, AtMost, IsNonNegative, IsPositive, Below, zero_parts, sub_parts,
  add_parts, min_parts, max_parts,
}
use asset_repayment_service.Money.Parse.{non_negative}
use asset_repayment_service.Deployment.Clock.{Time, Floats, max_duration, sub_time}
use asset_repayment_service.Deployment.Entity.{
  Deployment, settled, behind, ahead, is_open, weekly_due, schedule_status, outstanding, excess,
  split_payment, arrears, ahead_by, weeks_elapsed, expected_paid_to_date,
}

module _ {A : Type 0} ⦃d : Decimal A⦄ where
  -- What is owed and what is credit are never negative, one of them is zero, and together they
  -- account for the difference between the principal and what was paid.
  pub outstanding_excess :
      (x : Deployment A)
      → IsNonNegative (outstanding x)
        × IsNonNegative (excess x)
        × ((up (outstanding x) ≡ down (outstanding x)) ⊎ (up (excess x) ≡ down (excess x)))
        × SameValue (d.add x.principal (excess x)) (d.add x.amount_paid (outstanding x))
  unfolding outstanding excess
  outstanding_excess x = ground (
    arith,
    zero_parts d,
    sub_parts x.principal x.amount_paid,
    sub_parts x.amount_paid x.principal,
    max_parts (d.sub x.principal x.amount_paid) d.zero_amount,
    max_parts (d.sub x.amount_paid x.principal) d.zero_amount,
    add_parts x.principal (d.max_of (d.sub x.amount_paid x.principal) d.zero_amount),
    add_parts x.amount_paid (d.max_of (d.sub x.principal x.amount_paid) d.zero_amount),
  )

  -- A split loses nothing; of an amount that is not negative, neither part is negative and no more
  -- is applied than is owed.
  pub split_payment_parts :
      (principal paid amount : A)
      → IsNonNegative amount
      → let (applied, credit) = split_payment principal paid amount in
        SameValue (d.add applied credit) amount
        × IsNonNegative applied
        × IsNonNegative credit
        × AtMost applied (non_negative (d.sub principal paid))
  unfolding split_payment
  split_payment_parts principal paid amount h =
      let room = d.max_of (d.sub principal paid) d.zero_amount in
      ground (
        arith,
        zero_parts d,
        max_parts (d.sub principal paid) d.zero_amount,
        min_parts amount room,
        sub_parts amount (d.min_of amount room),
        add_parts (d.min_of amount room) (d.sub amount (d.min_of amount room)),
      )

  -- Paying `amount` lowers what is owed by the applied part and raises the credit by the rest.
  pub split_payment_moves :
      (x : Deployment A) (amount : A)
      → IsNonNegative amount
      → let (applied, credit) = split_payment x.principal x.amount_paid amount in
        let after = record x { amount_paid = d.add x.amount_paid amount } in
        SameValue (d.add (outstanding after) applied) (outstanding x)
        × SameValue (d.add (excess x) credit) (excess after)
  unfolding split_payment outstanding excess
  split_payment_moves x amount h =
      let paid = d.add x.amount_paid amount in
      let owed = d.max_of (d.sub x.principal x.amount_paid) d.zero_amount in
      let owed' = d.max_of (d.sub x.principal paid) d.zero_amount in
      let over = d.max_of (d.sub x.amount_paid x.principal) d.zero_amount in
      let over' = d.max_of (d.sub paid x.principal) d.zero_amount in
      let applied = d.min_of amount owed in
      ground (
        arith,
        zero_parts d,
        h,
        add_parts x.amount_paid amount,
        sub_parts x.principal x.amount_paid,
        sub_parts x.principal paid,
        sub_parts x.amount_paid x.principal,
        sub_parts paid x.principal,
        max_parts (d.sub x.principal x.amount_paid) d.zero_amount,
        max_parts (d.sub x.principal paid) d.zero_amount,
        max_parts (d.sub x.amount_paid x.principal) d.zero_amount,
        max_parts (d.sub paid x.principal) d.zero_amount,
        min_parts amount owed,
        sub_parts amount applied,
        add_parts owed' applied,
        add_parts over (d.sub amount applied),
      )

module _ {A : Type 0} ⦃d : Decimal A⦄ ⦃f : Floats⦄ where
  -- The weeks that have passed, at any moment, before the start too, lie between zero and the term,
  -- if that is not negative.
  pub weeks_elapsed_bounds :
      (x : Deployment A) (as_of : Time)
      → pos 0 ≤ℤ x.term_weeks
      → (pos 0 ≤ℤ weeks_elapsed x as_of) × (weeks_elapsed x as_of ≤ℤ x.term_weeks)
  unfolding weeks_elapsed sub_time
  weeks_elapsed_bounds x as_of h =
      ground (arith, f.weeks_nonneg max_duration, f.weeks_nonneg (as_of - x.start_date))

  -- A customer in arrears is not ahead of schedule.
  pub arrears_not_ahead :
      (x : Deployment A) (as_of : Time)
      → IsPositive (arrears x as_of)
      → up (ahead_by x as_of) ≡ down (ahead_by x as_of)
  unfolding arrears ahead_by
  arrears_not_ahead x as_of h =
      let expected = expected_paid_to_date x as_of in
      let credited = d.min_of x.amount_paid x.principal in
      ground (
        arith,
        zero_parts d,
        sub_parts expected x.amount_paid,
        max_parts (d.sub expected x.amount_paid) d.zero_amount,
        min_parts x.amount_paid x.principal,
        sub_parts credited expected,
        max_parts (d.sub credited expected) d.zero_amount,
      )

  -- The schedule status says exactly: settled, when the deployment is closed or nothing is owed;
  -- behind, when it is neither and the arrears exceed one instalment; ahead, when they do not and
  -- the customer is ahead; and otherwise on track.
  pub schedule_status_lem :
      (x : Deployment A) (as_of : Time)
      → ((schedule_status x as_of ≡ settled)
          ↔ ((is_open x ≡ false) ⊎ (up (outstanding x) ≡ down (outstanding x))))
        × ((schedule_status x as_of ≡ behind) ↔ (
            (is_open x ≡ true)
            × IsPositive (outstanding x)
            × Below (weekly_due x) (arrears x as_of)))
        × ((schedule_status x as_of ≡ ahead) ↔ (
            (is_open x ≡ true)
            × IsPositive (outstanding x)
            × AtMost (arrears x as_of) (weekly_due x)
            × IsPositive (ahead_by x as_of)))
  unfolding schedule_status
  schedule_status_lem x as_of = ground (
    arith,
    d.is_zero_lem (outstanding x),
    d.less_lem (weekly_due x) (arrears x as_of),
    d.is_positive_lem (ahead_by x as_of),
    (outstanding_excess x).0,
  )
