-- ===== src/Payment/Validate.antt =====
-- `ParseTransactionDate` and `Notification.Validate`. `time.ParseInLocation` and the zones are a
-- parameter; the loop over the layouts is the source's.
use asset_repayment_service.Prelude.{ℕ, Option, none, some, List, [], ◌∷◌, ◌++◌, ltb, if◌then◌else◌}
use asset_repayment_service.Prelude.Text.{Str, text, byte_len, trim_space, is_empty}
use asset_repayment_service.Errors.{Result, ok, err, Details, domain, with_details}
use asset_repayment_service.Money.Decimal.{Decimal}
use asset_repayment_service.Money.Currency.{Currency, Unicode, to_upper, lookup}
use asset_repayment_service.Money.Parse.{Parsed, amount, refused, parse_positive, money_message}
use asset_repayment_service.Deployment.Clock.{Time}
use asset_repayment_service.Payment.Entity.{
  Notification, ValidatedNotification, err_invalid_notification,
}

-- `*time.Location`; a nil pointer is `none` where one is passed.
pub data Location : Type 0 where
  utc : Location
  zone : Str → Location

pub record Calendar : Type 0 where
  -- `time.ParseInLocation(layout, value, loc)`, as the instant
  pub parse_in_location : Str → Str → Location → Option Time
  -- `t.Format(layout)` in UTC
  pub format_time : Str → Time → Str

abbrev date_layouts : List Str
date_layouts =
    text "2006-01-02 15:04:05"
    ∷ text "2006-01-02T15:04:05"
    ∷ text "2006-01-02 15:04:05.000"
    ∷ text "2006-01-02T15:04:05Z07:00"
    ∷ text "2006-01-02T15:04:05.999999999Z07:00"
    ∷ text "2006-01-02"
    ∷ text "02/01/2006 15:04:05"
    ∷ []

-- The two sentinel parse errors of errors.go.
pub data DateError : Type 0 where
  missing_transaction_date invalid_transaction_date : DateError

abbrev pub date_message : DateError → Str
date_message missing_transaction_date = text "is required"
date_message invalid_transaction_date = text "must be a valid timestamp, e.g. 2025-11-07 14:54:16"

pub data ParsedDate : Type 0 where
  at : Time → ParsedDate
  no_date : DateError → ParsedDate

abbrev pub min_reference_length : ℕ
min_reference_length = 6

abbrev pub max_reference_length : ℕ
max_reference_length = 128

abbrev pub max_customer_id_len : ℕ
max_customer_id_len = 64

abbrev pub location_or_utc : Option Location → Location
location_or_utc none = utc
location_or_utc (some l) = l

module _ ⦃c : Calendar⦄ where
  -- The loop over `dateLayouts`: the first layout that fits.
  unfoldable pub first_layout : List Str → Str → Location → ParsedDate
  first_layout [] value loc = no_date invalid_transaction_date
  first_layout (layout ∷ layouts) value loc =
      let rest = first_layout layouts value loc in
      elim (c.parse_in_location layout value loc) [ some t ↦ at t | none ↦ rest ]

  unfoldable pub parse_transaction_date : Str → Option Location → ParsedDate
  unfolding trim_space first_layout
  parse_transaction_date value loc =
      let trimmed = trim_space value in
      if is_empty trimmed
      then no_date missing_transaction_date
      else first_layout date_layouts trimmed (location_or_utc loc)

-- The checks of `Validate`, one for each field that it reports.
unfoldable pub customer_details : Str → Details
unfolding byte_len
customer_details customer_id =
    if is_empty customer_id
    then (text "customer_id", text "is required") ∷ []
    else if ltb max_customer_id_len (byte_len customer_id)
    then (text "customer_id", text "exceeds maximum length") ∷ []
    else []

unfoldable pub reference_details : Str → Details
unfolding byte_len
reference_details reference =
    if is_empty reference
    then (text "transaction_reference", text "is required") ∷ []
    else if ltb (byte_len reference) min_reference_length
    then (text "transaction_reference", text "is too short to be a valid provider reference") ∷ []
    else if ltb max_reference_length (byte_len reference)
    then (text "transaction_reference", text "exceeds maximum length") ∷ []
    else []

abbrev pub amount_details : {A : Type 0} → Parsed A → Details
amount_details (amount a) = []
amount_details (refused e) = (text "transaction_amount", money_message e) ∷ []

unfoldable pub status_details : Str → Details
status_details status =
    if is_empty status then (text "payment_status", text "is required") ∷ [] else []

abbrev pub date_details : ParsedDate → Details
date_details (at t) = []
date_details (no_date e) = (text "transaction_date", date_message e) ∷ []

abbrev pub currency_for : ⦃u : Unicode⦄ → Str → Currency → Currency
currency_for code default_currency =
    if is_empty (trim_space code) then default_currency else lookup code

module _ {A : Type 0} ⦃d : Decimal A⦄ ⦃u : Unicode⦄ ⦃c : Calendar⦄ where
  -- With details, the error; without, the amount and the date that were parsed.
  unfoldable pub finish :
      Details
      → Parsed A
      → ParsedDate
      → (A → Time → ValidatedNotification A)
      → Result (ValidatedNotification A)
  finish [] (amount a) (at t) build = ok (build a t)
  finish details _ _ build = err (domain (with_details err_invalid_notification details))

  -- `now` is `time.Now().UTC()`.
  unfoldable pub validate :
      Notification → Option Location → Currency → Str → Time → Result (ValidatedNotification A)
  unfolding finish
  validate n loc default_currency raw now =
      let customer_id = trim_space n.customer_id in
      let reference = trim_space n.transaction_reference in
      let currency = currency_for n.currency default_currency in
      let parsed = parse_positive n.transaction_amount currency in
      let status = to_upper (trim_space n.payment_status) in
      let date = parse_transaction_date n.transaction_date loc in
      finish
        (customer_details customer_id
          ++ (reference_details reference
              ++ (amount_details parsed ++ (status_details status ++ date_details date))))
        parsed date
        λ a t. record {
          customer_id = customer_id;
          reference = reference;
          currency = currency;
          amount = a;
          provider_status = status;
          transaction_date = t;
          raw_payload = raw;
          received_at = now;
        }
