-- ===== src/Tests/Route.antt =====
-- Requests to the payments route, and the registration of a second customer.
use asset_repayment_service.Prelude.{◌≡◌, ◌≤◌, refl, true, false, none, some, [], ◌∷◌, arith, find}
use asset_repayment_service.Prelude.Int.{ℤ, pos, ◌-ℤ◌}
use asset_repayment_service.Prelude.Text.{
  text, str_eq, byte_len, trim_space, trim_left, remove_all, trim_prefix, strip_prefix, is_empty,
}
use asset_repayment_service.Errors.{code_unauthorized}
use asset_repayment_service.Money.Decimal.{IsPositive}
use asset_repayment_service.Money.Currency.{lookup, to_upper_rune, to_lower_rune}
use asset_repayment_service.Money.Parse.{parse_positive, parse, check_amount, clean, amount}
use asset_repayment_service.Deployment.Contracts.{CreateInput}
use asset_repayment_service.Deployment.Service.{Defaults}
use asset_repayment_service.Payment.Entity.{ValidatedNotification, PaymentResult, queued}
use asset_repayment_service.Payment.Validate.{
  validate, finish, parse_transaction_date, first_layout, customer_details, reference_details,
  status_details, min_reference_length, max_reference_length, max_customer_id_len, at,
}
use asset_repayment_service.Payment.Service.{
  accept, accept_valid, dispatch, enqueue, append_entry, pending_payment,
}
use asset_repayment_service.Payment.Accepts.{validate_accepts}
use asset_repayment_service.Payment.CacheSound.{accept-IsCacheSound}
use asset_repayment_service.Payment.Acknowledged.{IsCacheSound, IsSafe, accept-IsSafe}
use asset_repayment_service.Database.Consistency.{IsConsistent}
use asset_repayment_service.World.State.{World}
use asset_repayment_service.World.Cache.{get_result}
use asset_repayment_service.Application.Dtos.{ApplyPaymentRequest}
use asset_repayment_service.Http.Middleware.{Request, Server, Hmac}
use asset_repayment_service.Http.Handlers.{Json}
use asset_repayment_service.Http.Routes.{HttpSettings, payments_route}
use asset_repayment_service.Http.Signatures.{IsUnsigned}
use mathlib.Core.Bool.{false≢true}
use asset_repayment_service.Prelude.{ap, inr}
use asset_repayment_service.Http.Laws.{payments_route_unsigned, payments_route-IsConsistent}
use asset_repayment_service.Tests.Samples.{
  whole_units, ascii, works, whole_floats, one_date, one_message, payment_of, notification_of,
  settings, naira,
}
use asset_repayment_service.Tests.Books.{books_listed, books, books_sound, plan}

abbrev pub order : ApplyPaymentRequest
order = record {
  customer_id = text "GIG-1";
  payment_status = text "complete";
  transaction_amount = text "400";
  transaction_date = text "2025-11-07";
  transaction_reference = text "VPAY-2";
  currency = text "NGN";
}

instance abbrev pub one_order : Json
one_order = record { decode_payment = λ s. some order; decode_deployment = λ s. none }

instance abbrev pub fixed_digest : Hmac
fixed_digest = record { hex_digest = λ secret body. text "00ff" }

abbrev http : HttpSettings
http = record { max_body_bytes = 1000; max_inflight_payments = 2; webhook_secret = text "key" }

-- The queue is on and empty.
abbrev pub world : World ℤ
world = record {
  db = books;
  cache_on = true;
  refs = [];
  results = [];
  queue_on = true;
  queue_max_len = 10;
  stream = record { entries = []; next_entry = 0; delivered = 0; pending = []; dead = [] };
  step = 0;
}

abbrev pub server : Server ℤ
server = record { world = world; inflight = 1 }

abbrev pub signed : Request
signed = record { signature = text " sha256=00FF"; body = text "{}" }

abbrev pub forged : Request
forged = record { signature = text "sha256=00fe"; body = text "{}" }

pub forged-IsUnsigned : IsUnsigned (text "key") forged
unfolding trim_space trim_left trim_prefix strip_prefix str_eq to_lower_rune
forged-IsUnsigned = inr (λ same. false≢true (ap (λ s. str_eq s (text "00ff")) same))

payments_route_unsigned_example :
    ((payments_route http settings forged server).0.code ≡ code_unauthorized)
    × ((payments_route http settings forged server).1 ≡ server)
payments_route_unsigned_example =
    payments_route_unsigned http settings forged server refl (omega arith) forged-IsUnsigned

payments_route-IsConsistent_example :
    IsConsistent (payments_route http settings signed server).1.world.db
    × ((payments_route http settings signed server).1.inflight ≡ 1)
payments_route-IsConsistent_example =
    payments_route-IsConsistent http settings signed server books_sound

abbrev pub validated : ValidatedNotification ℤ
validated = record (payment_of (text "VPAY-2") 400 (text "COMPLETE")) {
  received_at = 1000;
  raw_payload = text "{}";
}

validate_accepts_example :
    (is_empty (text "GIG-1") ≡ false)
    × (byte_len (text "GIG-1") ≤ max_customer_id_len)
    × (min_reference_length ≤ byte_len (text "VPAY-2"))
    × (byte_len (text "VPAY-2") ≤ max_reference_length)
    × (parse_positive (text "400") naira ≡ amount (pos 400))
    × IsPositive (pos 400)
    × (is_empty (text "COMPLETE") ≡ false)
    × (parse_transaction_date (text "2025-11-07") settings.provider_location ≡ at 5000)
unfolding validate finish parse_transaction_date first_layout customer_details reference_details
    status_details lookup parse_positive parse check_amount clean trim_space trim_left remove_all
    trim_prefix strip_prefix byte_len to_upper_rune whole_units str_eq find ◌-ℤ◌
validate_accepts_example =
    validate_accepts (notification_of (text "VPAY-2") (text "400")) settings.provider_location naira
      (text "{}") 1000 validated refl

abbrev pub answer : PaymentResult ℤ
answer = record { outcome = queued; payment = some (pending_payment validated); position = none }

accept-IsSafe_example :
    IsSafe validated
      (accept settings (notification_of (text "VPAY-2") (text "400")) (text "{}") world).1
unfolding accept accept_valid get_result dispatch enqueue append_entry validate finish
    parse_transaction_date first_layout customer_details reference_details status_details lookup
    parse_positive parse check_amount clean trim_space trim_left remove_all trim_prefix strip_prefix
    byte_len to_upper_rune whole_units str_eq find ◌-ℤ◌
accept-IsSafe_example =
    accept-IsSafe settings (notification_of (text "VPAY-2") (text "400")) (text "{}") world
      validated answer refl tt refl

-- The answer of the last week is cached already.
abbrev warm : World ℤ
warm = record world { results = (text "VPAY-1", answer) ∷ [] }

accept-IsCacheSound_example :
    IsCacheSound (accept settings (notification_of (text "VPAY-2") (text "400")) (text "{}") warm).1
accept-IsCacheSound_example =
    accept-IsCacheSound settings (notification_of (text "VPAY-2") (text "400")) (text "{}") warm
      (books_listed, tt)

-- A second customer leaves all terms to the defaults.
abbrev second : CreateInput ℤ
second = record plan {
  customer_id = text " GIG-2 ";
  principal = pos 0;
  term_weeks = pos 0;
  start_date = 0;
}

abbrev terms : Defaults ℤ
terms = record { currency = naira; principal = pos 1000; term_weeks = pos 50 }

-- The routing cache knows the customer.
