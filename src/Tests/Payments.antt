-- ===== src/Tests/Payments.antt =====
-- Notifications on the books of `Tests.Books`.
use asset_repayment_service.Prelude.{◌≡◌, ◌↔◌, refl, Bool, true, false, none, some, []}
use asset_repayment_service.Prelude.Int.{ℤ, pos, ◌+ℤ◌, ◌-ℤ◌}
use asset_repayment_service.Prelude.Text.{text, str_eq}
use asset_repayment_service.Errors.{ok, err, Result}
use asset_repayment_service.Money.Decimal.{SameValue}
use asset_repayment_service.Payment.Entity.{
  PaymentResult, applied, duplicate, ValidatedNotification, is_successful,
}
use asset_repayment_service.Payment.Service.{process, accept, same_request}
use asset_repayment_service.Payment.Validate.{validate}
use asset_repayment_service.Payment.Idempotency.{
  process_once, process_keeps, process_unsettled, accept-IsConsistent, accept_once,
}
use asset_repayment_service.Payment.Replays.{process_replay, same_request_iff}
use asset_repayment_service.Payment.Paid.{IsPaid, process_applied}
use asset_repayment_service.Database.Rows.{payment_to_domain}
use asset_repayment_service.Database.Tables.{has_reference, find_payment}
use asset_repayment_service.Database.Consistency.{IsConsistent}
use asset_repayment_service.World.State.{World}
use asset_repayment_service.World.Cache.{set_result}
use asset_repayment_service.World.Repository.{apply_row_to_payment}
use asset_repayment_service.Database.Statements.{applied_of, commit_apply}
use asset_repayment_service.Payment.Validate.{
  parse_transaction_date, first_layout, customer_details, reference_details, status_details,
}
use asset_repayment_service.Database.Tables.{
  update_deployment, insert_payment, deployment_violation, payment_violation, overflows,
}
use asset_repayment_service.Prelude.Text.{remove_all, trim_prefix, strip_prefix, byte_len}
use asset_repayment_service.Money.Parse.{parse_positive, parse, check_amount, clean}
use mathlib.Core.Bool.{false≢true}
use asset_repayment_service.Deployment.Service.{resolve, resolve_stored, resolve_found}
use asset_repayment_service.World.Cache.{get_ref, set_ref}
use asset_repayment_service.World.State.{query}
use asset_repayment_service.World.Repository.{
  get_by_customer_id, apply_payment, replay, get_by_reference, replay_with, deployment_by_id,
}
use asset_repayment_service.Database.Statements.{
  select_customer, best_deployment, apply_statement, select_payment, select_deployment, created_row,
  move_row, applied_entry,
}
use asset_repayment_service.Database.Rows.{deployment_to_domain}
use asset_repayment_service.Money.Currency.{lookup, to_upper_rune}
use asset_repayment_service.Deployment.Contracts.{to_ref}
use asset_repayment_service.Payment.Entity.{is_member}
use asset_repayment_service.Payment.Service.{apply_routed, applied_result}
use asset_repayment_service.Database.Tables.{find_deployment}
use asset_repayment_service.Prelude.Text.{trim_space, trim_left}
use asset_repayment_service.Prelude.{find}
use asset_repayment_service.Tests.Samples.{
  whole_units, ascii, works, loses_reply, whole_floats, one_date, one_message, payment_of,
  notification_of, settings,
}
use asset_repayment_service.Tests.Books.{books, books_listed, books_sound, entry}

-- The service without cache and queue.
abbrev pub world : World ℤ
world = record {
  db = books;
  cache_on = false;
  refs = [];
  results = [];
  queue_on = false;
  queue_max_len = 0;
  stream = record { entries = []; next_entry = 0; delivered = 0; pending = []; dead = [] };
  step = 0;
}

-- The second call, which would move the money, loses its reply.
accept-IsConsistent_example :
    IsConsistent
      (accept ⦃e = loses_reply⦄ settings
        (notification_of (text "VPAY-2") (text "400"))
        []
        world).1.db
accept-IsConsistent_example =
    accept-IsConsistent ⦃e = loses_reply⦄ settings (notification_of (text "VPAY-2") (text "400")) []
      world books_sound

abbrev again : ValidatedNotification ℤ
again = payment_of (text "VPAY-1") 300 (text "COMPLETE")

process_once_example : (process again world).1.db ≡ books
process_once_example = process_once again world books_listed

abbrev fresh : ValidatedNotification ℤ
fresh = payment_of (text "VPAY-2") 400 (text "COMPLETE")

abbrev run : ValidatedNotification ℤ → Result (PaymentResult ℤ)
run v = (process v world).0

abbrev answer_of : Result (PaymentResult ℤ) → PaymentResult ℤ
answer_of (ok r) = r
answer_of (err _) = record { outcome = duplicate; payment = none; position = none }

abbrev is_ok : Result (PaymentResult ℤ) → Bool
is_ok (ok r) = true
is_ok (err _) = false

again_runs : is_ok (run again) ≡ true
unfolding process resolve resolve_stored get_ref get_by_customer_id query select_customer
    best_deployment resolve_found deployment_to_domain lookup set_ref to_ref is_successful is_member
    apply_routed apply_payment apply_statement has_reference replay get_by_reference select_payment
    find_payment replay_with deployment_by_id select_deployment find_deployment applied_result
    same_request payment_to_domain str_eq find trim_space trim_left to_upper_rune whole_units
    created_row move_row applied_entry
again_runs = refl

-- What a run that succeeds answers.
answered : (r : Result (PaymentResult ℤ)) → is_ok r ≡ true → r ≡ ok (answer_of r)
answered (ok r) h = refl
answered (err e) h = absurd (false≢true h)

process_replay_example :
    ((answer_of (run again)).outcome ≡ duplicate)
    × ((answer_of (run again)).payment ≡ some (payment_to_domain entry))
    × (same_request (some (payment_to_domain entry)) again ≡ none)
unfolding find_payment applied_entry str_eq
process_replay_example =
    process_replay again entry world (answer_of (run again)) refl (answered (run again) again_runs)

process_keeps_example : has_reference (text "VPAY-1") (process again world).1.db.payments ≡ true
process_keeps_example =
    process_keeps again world (answer_of (run again)) (answered (run again) again_runs)

abbrev pending : ValidatedNotification ℤ
pending = payment_of (text "VPAY-3") 400 (text "PENDING")

process_unsettled_example : (process pending world).1.db.deployments ≡ books.deployments
unfolding is_successful is_member str_eq trim_space trim_left to_upper_rune
process_unsettled_example = process_unsettled pending world refl

same_request_iff_example : (same_request (some (payment_to_domain entry)) again ≡ none) ↔ (
    ((payment_to_domain entry).customer_id ≡ text "GIG-1")
    × SameValue (payment_to_domain entry).amount (pos 300)
    × ((payment_to_domain entry).currency.code ≡ text "NGN"))
same_request_iff_example = same_request_iff (payment_to_domain entry) again

fresh_runs : (is_ok (run fresh) ≡ true) × ((answer_of (run fresh)).outcome ≡ applied)
unfolding process resolve resolve_stored get_ref get_by_customer_id query select_customer
    best_deployment resolve_found deployment_to_domain lookup set_ref to_ref is_successful is_member
    apply_routed apply_payment apply_statement has_reference find_deployment applied_result str_eq
    find trim_space trim_left to_upper_rune whole_units created_row move_row applied_entry
    set_result apply_row_to_payment commit_apply insert_payment update_deployment
    deployment_violation payment_violation overflows applied_of ◌+ℤ◌ ◌-ℤ◌
fresh_runs = (refl, refl)

process_applied_example :
    (is_successful (text "COMPLETE") ≡ true)
    × IsPaid fresh books (process fresh world).1.db (answer_of (run fresh))
process_applied_example =
    process_applied fresh world (answer_of (run fresh)) (answered (run fresh) fresh_runs.0)
      fresh_runs.1

abbrev again_validated : ValidatedNotification ℤ
again_validated = record (payment_of (text "VPAY-1") 300 (text "COMPLETE")) { received_at = 1000 }

accept_once_example :
    (accept settings (notification_of (text "VPAY-1") (text "300")) [] world).1.db ≡ books
unfolding validate parse_transaction_date first_layout customer_details reference_details
    status_details lookup parse_positive parse check_amount clean trim_space trim_left remove_all
    trim_prefix strip_prefix byte_len to_upper_rune whole_units str_eq find ◌-ℤ◌
accept_once_example =
    accept_once settings (notification_of (text "VPAY-1") (text "300")) [] world again_validated
      refl books_listed
