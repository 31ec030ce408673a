-- ===== src/Tests/Orders.antt =====
-- Two payments to a deployment of 1,000 in either order; together they pay 100 too much.
use mathlib.Core.List.Perm
use asset_repayment_service.Prelude.{◌≡◌, refl, []}
use asset_repayment_service.Prelude.Int.{ℤ, pos, ◌+ℤ◌, ◌-ℤ◌}
use asset_repayment_service.Prelude.Text.{text, str_eq}
use asset_repayment_service.Money.Decimal.{SameValue}
use asset_repayment_service.Deployment.Clock.{truncate_day}
use asset_repayment_service.Deployment.Entity.{outstanding}
use asset_repayment_service.Payment.Entity.{ApplyInput}
use asset_repayment_service.Database.Rows.{DeploymentModel, deployment_to_domain}
use asset_repayment_service.Database.Tables.{
  Db, find_deployment, update_deployment, deployment_violation, has_open, has_account,
  has_reference, insert_payment, payment_violation, overflows,
}
use asset_repayment_service.Database.Statements.{
  apply_statement, create_statement, created_row, commit_apply, applied_entry, move_row, applied_of,
}
use asset_repayment_service.Database.Ledger.{here, next, creating, applying, empty_db}
use asset_repayment_service.Database.Commuting.{credits, balances_commute}
use asset_repayment_service.Tests.Samples.{whole_units, ascii, payment_of}
use asset_repayment_service.Tests.Books.{plan, first_payment}

abbrev large_payment : ApplyInput ℤ
large_payment = record {
  notification = payment_of (text "VPAY-2") 800 (text "COMPLETE");
  deployment_id = 1;
}

abbrev opened : Db ℤ
opened = (create_statement plan 100 (text "d-1") empty_db).1

abbrev small_first : Db ℤ
small_first =
    (apply_statement [] large_payment 300 (text "p-2")
      (apply_statement [] first_payment 200 (text "p-1") opened).1).1

abbrev large_first : Db ℤ
large_first =
    (apply_statement [] first_payment 300 (text "p-2")
      (apply_statement [] large_payment 200 (text "p-1") opened).1).1

abbrev fresh : DeploymentModel ℤ
fresh = created_row plan 100 (text "d-1") 1

abbrev row_small_first : DeploymentModel ℤ
row_small_first = move_row (pos 800) 5000 300 (move_row (pos 300) 5000 200 fresh)

abbrev row_large_first : DeploymentModel ℤ
row_large_first = move_row (pos 300) 5000 300 (move_row (pos 800) 5000 200 fresh)

balances_commute_example :
    SameValue row_small_first.amount_paid row_large_first.amount_paid
    × (row_small_first.payment_count ≡ row_large_first.payment_count)
    × SameValue
        (outstanding (deployment_to_domain row_small_first))
        (outstanding (deployment_to_domain row_large_first))
unfolding apply_statement create_statement created_row deployment_violation has_open has_account
    has_reference find_deployment update_deployment commit_apply insert_payment payment_violation
    overflows applied_entry move_row applied_of whole_units str_eq ◌+ℤ◌ ◌-ℤ◌ truncate_day credits
balances_commute_example =
    balances_commute small_first large_first 1 row_small_first row_large_first
      (next
        (next (next here (creating plan 100 (text "d-1")))
          (applying [] first_payment 200 (text "p-1")))
        (applying [] large_payment 300 (text "p-2")))
      (next
        (next (next here (creating plan 100 (text "d-1")))
          (applying [] large_payment 200 (text "p-1")))
        (applying [] first_payment 300 (text "p-2")))
      (Perm.swap _ _ []) refl refl refl
