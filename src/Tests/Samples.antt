-- ===== src/Tests/Samples.antt =====
-- The parameters of the development as concrete functions.
use asset_repayment_service.Prelude.{
  ℕ, ◌+◌, ◌*◌, ◌-◌, ◌/◌, true, false, ◌&&◌, ◌≡◌, refl, Option, none, some, [], ◌∷◌, ltb, leb, ◌==◌,
  arith, ap, if◌then◌else◌,
}
use asset_repayment_service.Prelude.Int.{ℤ, pos, pos_part, neg_part, ◌+ℤ◌, ◌-ℤ◌, ◌*ℤ◌, ltb_ℤ, leb_ℤ}
use asset_repayment_service.Prelude.Text.{Str, text, str_eq}
use asset_repayment_service.Money.Decimal.{Decimal}
use asset_repayment_service.Money.Currency.{Unicode, Currency, currency}
use asset_repayment_service.Deployment.Clock.{Floats}
use asset_repayment_service.Payment.Entity.{Notification, ValidatedNotification}
use asset_repayment_service.Payment.Validate.{Calendar}
use asset_repayment_service.Payment.Service.{Codec, Settings}
use asset_repayment_service.World.State.{Environment, Fault, healthy, refused, reply_lost}

-- Decimal digits, and nothing else.
abbrev digits_from : Option ℕ → Str → Option ℕ
digits_from acc [] = acc
digits_from none (c ∷ s) = digits_from none s
digits_from (some n) (c ∷ s) =
    digits_from (if leb 48 c && leb c 57 then some (n * 10 + (c - 48)) else none) s

abbrev whole : Option ℕ → Option ℤ
whole none = none
whole (some n) = some (pos n)

-- Long division is not needed: the samples divide by one.
instance unfoldable pub whole_units : Decimal ℤ
unfolding ◌+ℤ◌ ◌-ℤ◌ ◌*ℤ◌
whole_units = record {
  places = 0;
  units = λ a. a;
  zero_amount = pos 0;
  new_from_string = λ s. whole (digits_from (some 0) s);
  new_from_int = λ a. a;
  to_string = λ a. [];
  string_fixed = λ a n. [];
  exponent = λ a. pos 0;
  truncate_int = λ a. a;
  abs = λ a. pos (pos_part a + neg_part a);
  add = λ a b. a +ℤ b;
  sub = λ a b. a -ℤ b;
  mul = λ a b. a *ℤ b;
  div = λ a b. a;
  div_round = λ a b n. a;
  min_of = λ a b. if leb_ℤ a b then a else b;
  max_of = λ a b. if leb_ℤ a b then b else a;
  less = λ a b. ltb_ℤ a b;
  equal = λ a b. (pos_part a + neg_part b) == (pos_part b + neg_part a);
  is_zero = λ a. pos_part a == neg_part a;
  is_positive = λ a. ltb (neg_part a) (pos_part a);
  inexact_float64 = λ a. pos_part a;
  zero_lem = refl;
  add_lem = λ a b. refl;
  sub_lem = λ a b. refl;
  min_lem = λ a b. refl;
  max_lem = λ a b. refl;
  less_lem = λ a b. refl;
  equal_lem = λ a b. refl;
  is_zero_lem = λ a. refl;
  is_positive_lem = λ a. refl;
}

instance abbrev pub ascii : Unicode
ascii = record { upper = λ c. c; lower = λ c. c }

-- Whole numbers for floats; hours are kept in nanoseconds and divided by hours.
pub hours_by_weeks : (s : ℕ) → s * 1000000000 / 1000000000 / 604800 ≡ s / 604800
hours_by_weeks s = omega arith

instance unfoldable pub whole_floats : Floats
whole_floats = record {
  hours = λ t. pos_part t;
  of_int = λ n. pos_part n;
  quotient = λ a b. if b == 168 then a / 1000000000 / 604800 else a;
  product = λ a b. a * b;
  round = λ a. a;
  ceil = λ a. a;
  is_inf = λ a. false;
  greater = λ a b. ltb b a;
  to_int = λ a. pos a;
  weeks_nonneg = λ t. omega arith;
  weeks_of_seconds = λ s h. ap pos (hours_by_weeks s);
}

instance abbrev pub one_date : Calendar
one_date = record {
  parse_in_location = λ layout value loc.
      if str_eq layout (text "2006-01-02") && str_eq value (text "2025-11-07")
      then some 5000
      else none;
  format_time = λ layout t. layout;
}

-- Call number `n` happens at nanosecond 1000 + n and would store the identity "row".
abbrev network : (ℕ → Fault) → Environment
network fault = record {
  fault = fault;
  now = λ n. 1000 + n;
  uuid = λ n. text "row";
  new_uuid = λ n. text "0123456789abcdef";
  lag = λ n. 0;
  trim = λ n. 0;
  claims = λ n id. true;
}

instance abbrev pub works : Environment
works = network (λ n. healthy)

-- The second call is carried out and its reply lost.
abbrev pub loses_reply : Environment
loses_reply = network (λ n. if n == 1 then reply_lost (text "timeout") else healthy)

abbrev pub naira : Currency
naira = currency (text "NGN") (text "₦") 2

abbrev pub payment_of : Str → ℕ → Str → ValidatedNotification ℤ
payment_of reference amount status = record {
  customer_id = text "GIG-1";
  reference = reference;
  currency = naira;
  amount = pos amount;
  provider_status = status;
  transaction_date = 5000;
  raw_payload = [];
  received_at = 900;
}

abbrev pub notification_of : Str → Str → Notification
notification_of reference amount = record {
  customer_id = text "GIG-1";
  payment_status = text "complete";
  transaction_amount = amount;
  transaction_date = text "2025-11-07";
  transaction_reference = reference;
  currency = text "NGN";
}

abbrev pub settings : Settings
settings = record { provider_location = none; default_currency = naira }

-- The stream carries one notification.
instance abbrev pub one_message : Codec ℤ
one_message = record {
  encode = λ v. some (text "{}");
  decode = λ s. some (payment_of (text "VPAY-2") 400 (text "COMPLETE"));
}

-- The second delivery of the first payment.
abbrev pub old_message : Codec ℤ
old_message = record {
  encode = λ v. some (text "{}");
  decode = λ s. some (payment_of (text "VPAY-1") 300 (text "COMPLETE"));
}

-- The database is down.
abbrev pub down : Environment
down = network (λ n. refused (text "connection refused"))
