-- ===== src/Tests/Books.antt =====
-- A deployment of 1,000 with a first payment of 300, and the runs of the ledger on it.
use asset_repayment_service.Prelude.{◌≡◌, refl, true, some, List, [], ◌∷◌, ◌++◌, subst}
use asset_repayment_service.Prelude.Int.{ℤ, pos, ◌+ℤ◌, ◌-ℤ◌}
use asset_repayment_service.Prelude.Text.{text, str_eq}
use asset_repayment_service.Money.Decimal.{SameValue}
use asset_repayment_service.Deployment.Clock.{truncate_day}
use asset_repayment_service.Deployment.Contracts.{CreateInput}
use asset_repayment_service.Deployment.Entity.{split_payment}
use asset_repayment_service.Payment.Entity.{ApplyInput}
use asset_repayment_service.Database.Rows.{DeploymentModel, PaymentModel}
use asset_repayment_service.Database.Tables.{
  Db, has_reference, find_deployment, update_deployment, has_open, has_account,
  deployment_violation, payment_violation, overflows, insert_payment,
}
use asset_repayment_service.Database.Statements.{
  create_statement, apply_statement, applied_entry, applied_of, move_row, created_row, commit_apply,
}
use asset_repayment_service.Database.Consistency.{IsConsistent, ledger_sum, ledger_count}
use asset_repayment_service.Database.Ledger.{
  empty_db, Reach, here, next, creating, applying, Reach-IsConsistent, empty_db-IsConsistent,
  balance_from_ledger, ledger_grows,
}
use asset_repayment_service.Database.Split.{applied_entry-split_payment}
use asset_repayment_service.Tests.Samples.{whole_units, ascii, naira, payment_of}

abbrev pub plan : CreateInput ℤ
plan = record {
  customer_id = text "GIG-1";
  asset_id = text "CAR-1";
  asset_type = text "car";
  virtual_account_number = [];
  currency = naira;
  principal = pos 1000;
  term_weeks = pos 50;
  start_date = 0;
}

abbrev pub first_payment : ApplyInput ℤ
first_payment = record {
  notification = payment_of (text "VPAY-1") 300 (text "COMPLETE");
  deployment_id = 1;
}

-- The row of the deployment after its payment.
abbrev pub paid_row : DeploymentModel ℤ
paid_row = move_row (pos 300) 5000 200 (created_row plan 100 (text "d-1") 1)

abbrev pub entry : PaymentModel ℤ
entry = applied_entry first_payment.notification 200 (text "p-1") paid_row

abbrev pub books : Db ℤ
books = record { deployments = paid_row ∷ []; payments = entry ∷ []; next_id = 2 }

abbrev new_books : Db ℤ
new_books = (create_statement plan 100 (text "d-1") empty_db).1

books_are : (apply_statement [] first_payment 200 (text "p-1") new_books).1 ≡ books
unfolding apply_statement create_statement created_row deployment_violation has_open has_account
    has_reference find_deployment update_deployment commit_apply insert_payment payment_violation
    overflows applied_entry move_row applied_of whole_units str_eq ◌+ℤ◌ ◌-ℤ◌ truncate_day
books_are = refl

pub books_reached : Reach empty_db books
books_reached =
    subst (Reach empty_db) books_are (
      next (next here (creating plan 100 (text "d-1")))
        (applying [] first_payment 200 (text "p-1")))

Reach-IsConsistent_example : IsConsistent books
Reach-IsConsistent_example = Reach-IsConsistent books_reached empty_db-IsConsistent

pub books_sound : IsConsistent books
books_sound = Reach-IsConsistent books_reached empty_db-IsConsistent

pub paid_row_found : find_deployment 1 books.deployments ≡ some paid_row
unfolding find_deployment created_row move_row
paid_row_found = refl

balance_from_ledger_example :
    SameValue paid_row.amount_paid (ledger_sum 1 books.payments)
    × (paid_row.payment_count ≡ ledger_count 1 books.payments)
balance_from_ledger_example = balance_from_ledger books 1 paid_row books_reached paid_row_found

-- The sum is not an empty one.
books_paid : ledger_sum 1 books.payments ≡ pos 300
unfolding ledger_sum applied_entry move_row created_row whole_units ◌+ℤ◌
books_paid = refl

pub books_listed : has_reference (text "VPAY-1") books.payments ≡ true
unfolding has_reference applied_entry str_eq
books_listed = refl

ledger_grows_example : (new : List (PaymentModel ℤ)) × (books.payments ≡ new ++ [])
ledger_grows_example = ledger_grows books_reached

applied_entry-split_payment_example :
    let p =
      applied_entry
        (payment_of (text "VPAY-2") 800 (text "COMPLETE"))
        300
        (text "p-2")
        (move_row (pos 800) 5000 300 paid_row) in
    let (applied, excess) = split_payment paid_row.principal paid_row.amount_paid (pos 800) in
    SameValue p.applied_amount applied × SameValue p.excess_amount excess
applied_entry-split_payment_example =
    applied_entry-split_payment (payment_of (text "VPAY-2") 800 (text "COMPLETE")) 300 (text "p-2")
      paid_row
