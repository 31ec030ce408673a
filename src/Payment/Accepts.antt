-- ===== src/Payment/Accepts.antt =====
-- What `Validate` lets through, and what it reports.
use asset_repayment_service.Prelude.{◌≡◌, ◌≤◌, refl, false, Option, [], ◌∷◌, ◌++◌, arith}
use asset_repayment_service.Prelude.Text.{Str, byte_len, trim_space, is_empty}
use asset_repayment_service.Errors.{ok, Details}
use asset_repayment_service.Money.Decimal.{Decimal, IsPositive}
use asset_repayment_service.Money.Currency.{Currency, Unicode, to_upper}
use asset_repayment_service.Money.Parse.{Parsed, amount, refused, parse_positive}
use asset_repayment_service.Money.Laws.{parse_positive_accepts}
use asset_repayment_service.Deployment.Clock.{Time}
use asset_repayment_service.Payment.Entity.{Notification, ValidatedNotification}
use asset_repayment_service.Payment.Validate.{
  Location, Calendar, ParsedDate, at, no_date, min_reference_length, max_reference_length,
  max_customer_id_len, parse_transaction_date, customer_details, reference_details, amount_details,
  status_details, currency_for, finish, validate,
}

customer_details_none :
    (s : Str) → customer_details s ≡ [] → (is_empty s ≡ false) × (byte_len s ≤ max_customer_id_len)
unfolding customer_details
customer_details_none s h = ground arith

reference_details_none :
    (s : Str)
    → reference_details s ≡ []
    → (min_reference_length ≤ byte_len s) × (byte_len s ≤ max_reference_length)
unfolding reference_details
reference_details_none s h = ground arith

status_details_none : (s : Str) → status_details s ≡ [] → is_empty s ≡ false
unfolding status_details
status_details_none s h = ground arith

append_none : (xs ys : Details) → xs ++ ys ≡ [] → (xs ≡ []) × (ys ≡ [])
append_none [] ys h = (refl, h)
append_none (x ∷ xs) ys h = cc

module _ {A : Type 0} ⦃d : Decimal A⦄ ⦃u : Unicode⦄ ⦃c : Calendar⦄ where
  finish-ok :
      (details : Details) (p : Parsed A) (t : ParsedDate)
      (build : A → Time → ValidatedNotification A) (v : ValidatedNotification A)
      → finish details p t build ≡ ok v
      → (details ≡ [])
        × ((a : A) × ((date : Time) × (p ≡ amount a) × (t ≡ at date) × (v ≡ build a date)))
  unfolding finish
  finish-ok [] (amount a) (at date) build v h = (refl, (a, (date, refl, refl, ground arith)))
  finish-ok [] (amount a) (no_date e) build v h = cc
  finish-ok [] (refused e) t build v h = cc
  finish-ok (x ∷ xs) p t build v h = cc

  -- A notification that `Validate` lets through has a customer of at most 64 bytes, a reference of 6 to
  -- 128 bytes, an amount above zero that `ParsePositive` read in its currency, a status, and a date
  -- that one of the layouts fits.
  pub validate_accepts :
      (n : Notification) (loc : Option Location) (default_currency : Currency) (raw : Str)
      (now : Time) (v : ValidatedNotification A)
      → validate n loc default_currency raw now ≡ ok v
      → (is_empty v.customer_id ≡ false)
        × (byte_len v.customer_id ≤ max_customer_id_len)
        × (min_reference_length ≤ byte_len v.reference)
        × (byte_len v.reference ≤ max_reference_length)
        × (parse_positive n.transaction_amount v.currency ≡ amount v.amount)
        × IsPositive v.amount
        × (is_empty v.provider_status ≡ false)
        × (parse_transaction_date n.transaction_date loc ≡ at v.transaction_date)
  unfolding validate
  validate_accepts n loc default_currency raw now v h =
      let customer = trim_space n.customer_id in
      let reference = trim_space n.transaction_reference in
      let currency = currency_for n.currency default_currency in
      let parsed = parse_positive ⦃d = d⦄ n.transaction_amount currency in
      let status = to_upper (trim_space n.payment_status) in
      let date = parse_transaction_date n.transaction_date loc in
      let (none_found, (a, (t, read, dated, built))) = finish-ok _ parsed date _ v h in
      let (no_customer, rest) = append_none (customer_details customer) _ none_found in
      let (no_reference, rest') = append_none (reference_details reference) _ rest in
      let (no_amount, rest'') = append_none (amount_details parsed) _ rest' in
      let (no_status, no_date_found) = append_none (status_details status) _ rest'' in
      rw built (
        (customer_details_none customer no_customer).0,
        (customer_details_none customer no_customer).1,
        (reference_details_none reference no_reference).0,
        (reference_details_none reference no_reference).1,
        read,
        (parse_positive_accepts n.transaction_amount currency a read).0,
        status_details_none status no_status,
        dated,
      )
