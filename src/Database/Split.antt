-- ===== src/Database/Split.antt =====
-- The statement's own arithmetic against the functions of the domain.
use asset_repayment_service.Prelude.{arith}
use asset_repayment_service.Prelude.Text.{Str}
use asset_repayment_service.Money.Decimal.{
  Decimal, SameValue, add_parts, sub_parts, min_parts, max_parts, zero_parts,
}
use asset_repayment_service.Money.Parse.{non_negative}
use asset_repayment_service.Deployment.Clock.{Time}
use asset_repayment_service.Deployment.Entity.{split_payment}
use asset_repayment_service.Payment.Entity.{ValidatedNotification}
use asset_repayment_service.Database.Rows.{DeploymentModel}
use asset_repayment_service.Database.Statements.{applied_of, move_row, applied_entry}

module _ {A : Type 0} ⦃d : Decimal A⦄ where
  -- The statement splits a payment as `SplitPayment` does on the deployment before it: the part
  -- applied and the excess have the same values.
  pub applied_entry-split_payment :
      (n : ValidatedNotification A) (now : Time) (uuid : Str) (x : DeploymentModel A)
      → let p = applied_entry n now uuid (move_row n.amount n.transaction_date now x) in
        let (applied, excess) = split_payment x.principal x.amount_paid n.amount in
        SameValue p.applied_amount applied × SameValue p.excess_amount excess
  unfolding applied_entry applied_of move_row split_payment non_negative
  applied_entry-split_payment n now uuid x =
      let paid = d.add x.amount_paid n.amount in
      let before = d.sub paid n.amount in
      let gap = d.sub x.principal before in
      let gap' = d.sub x.principal x.amount_paid in
      let room = d.max_of gap d.zero_amount in
      let room' = d.max_of gap' d.zero_amount in
      ground (
        arith,
        zero_parts d,
        add_parts x.amount_paid n.amount,
        sub_parts paid n.amount,
        sub_parts x.principal before,
        sub_parts x.principal x.amount_paid,
        max_parts gap d.zero_amount,
        max_parts gap' d.zero_amount,
        min_parts n.amount room,
        min_parts n.amount room',
        sub_parts n.amount (d.min_of n.amount room),
        sub_parts n.amount (d.min_of n.amount room'),
      )
