-- ===== src/Tests/Traffic.antt =====
-- A request to the mux: the payment of an order, over the signed route.
use asset_repayment_service.Prelude.{◌≡◌, arith, inl, refl, some, [], ◌∷◌, ap, subst, sym, find}
use asset_repayment_service.Prelude.Int.{ℤ, ◌-ℤ◌}
use asset_repayment_service.Prelude.Text.{
  text, trim_space, trim_left, remove_all, trim_prefix, strip_prefix, byte_len, str_eq,
}
use asset_repayment_service.Errors.{ok}
use asset_repayment_service.Payment.Originals.{IsReplayable}
use asset_repayment_service.Payment.Owners.{IsAttributed}
use asset_repayment_service.Money.Currency.{lookup, to_upper_rune, to_lower_rune}
use asset_repayment_service.Money.Parse.{parse_positive, parse, check_amount, clean}
use asset_repayment_service.Payment.Validate.{
  validate, finish, parse_transaction_date, first_layout, customer_details, reference_details,
  status_details,
}
use asset_repayment_service.Payment.Service.{accept, dispatch, enqueue, append_entry, accept_valid}
use asset_repayment_service.World.Cache.{get_result}
use asset_repayment_service.World.State.{World}
use asset_repayment_service.Application.Dtos.{ApplyPaymentRequest, to_notification}
use asset_repayment_service.Payment.Entity.{ValidatedNotification}
use asset_repayment_service.Application.Usecases.{apply_payment_usecase, payment_response}
use asset_repayment_service.Config.Load.{payment_settings}
use asset_repayment_service.Queue.Worker.{run_round}
use asset_repayment_service.Http.Middleware.{
  chain, body_limit, check_signature, load_shedding, signature_matches,
}
use asset_repayment_service.Http.Handlers.{apply_payment_handler, payment_answer}
use asset_repayment_service.Http.Routes.{payments_route}
use asset_repayment_service.Http.Outer.{
  Call, Exchange, within, base, recovery, request_id, observability,
}
use asset_repayment_service.Http.Setup.{endpoint_of, serve_endpoint, serve}
use asset_repayment_service.Http.Unsigned.{IsRefused, serve_unsigned}
use asset_repayment_service.System.Steps.{started, then_step, work}
use asset_repayment_service.System.Traffic.{serve_all, serve_all_keeps}
use asset_repayment_service.System.Answered.{IsRecorded, answered_never_lost}
use asset_repayment_service.Tests.Samples.{whole_units, ascii, works, whole_floats, one_date}
use asset_repayment_service.Tests.Books.{books_sound}
use asset_repayment_service.Tests.Route.{order, one_order, fixed_digest, server, signed, validated}
use asset_repayment_service.Tests.Config.{config}
use asset_repayment_service.Tests.System.{read_back, limits, world-IsSound, world-IsAttributed}

abbrev call : Call
call = record {
  method = text "POST";
  path = text "/api/v1/payments";
  request_id = text "req-7";
  request = signed;
}

abbrev exchange : Exchange ℤ
exchange = record { server = server; response_id = []; served = [] }

abbrev afterwards : World ℤ
afterwards = (serve config call exchange).1.server.world

-- The order is read as itself, and validated as the sample.
read_once :
    (req : ApplyPaymentRequest) (v : ValidatedNotification ℤ)
    → one_order.decode_payment signed.body ≡ some req
    → validate
        (to_notification req)
        (payment_settings config).provider_location
        (payment_settings config).default_currency
        signed.body
        (works.now 0)
      ≡ ok v
    → validated ≡ v
unfolding validate finish parse_transaction_date first_layout customer_details reference_details
    status_details lookup parse_positive parse check_amount clean trim_space trim_left remove_all
    trim_prefix strip_prefix byte_len to_upper_rune whole_units str_eq find ◌-ℤ◌
read_once req v decoded valid =
    let same : order ≡ req = cc in
    let run : ok validated ≡ ok v =
      subst
        (λ q.
          validate (to_notification q) (payment_settings config).provider_location
            (payment_settings config).default_currency signed.body (works.now 0)
          ≡ ok v)
        (sym same) valid in
    cc

answered_never_lost_example : IsRecorded config call exchange (run_round limits afterwards)
unfolding serve endpoint_of serve_endpoint base recovery request_id observability within
    payments_route chain body_limit check_signature load_shedding signature_matches
    apply_payment_handler payment_answer apply_payment_usecase payment_response accept accept_valid
    get_result dispatch enqueue append_entry validate finish parse_transaction_date first_layout
    customer_details reference_details status_details lookup parse_positive parse check_amount clean
    trim_space trim_left remove_all trim_prefix strip_prefix byte_len to_upper_rune to_lower_rune
    whole_units str_eq find ◌-ℤ◌
answered_never_lost_example =
    answered_never_lost config call exchange (run_round limits afterwards) (λ n. refl)
      (λ req v decoded valid payload encoded. ap some (read_once req v decoded valid)) world-IsSound
      refl (then_step started (work limits afterwards))

-- The same call without a signature.
abbrev unsigned_call : Call
unsigned_call = record call { request = record { signature = text " "; body = text "{}" } }

serve_unsigned_example :
    IsRefused unsigned_call exchange
      (serve config unsigned_call exchange).0
      (serve config unsigned_call exchange).1
unfolding trim_space trim_left
serve_unsigned_example =
    serve_unsigned config unsigned_call exchange refl refl refl (omega arith) (inl refl)

-- An order without a signature and the same order with one.
abbrev afterwards_all : World ℤ
afterwards_all = (serve_all config (unsigned_call ∷ call ∷ []) exchange).server.world

serve_all_keeps_example : IsReplayable afterwards_all × IsAttributed afterwards_all
serve_all_keeps_example =
    serve_all_keeps config (unsigned_call ∷ call ∷ []) exchange
      (record { books = books_sound; originals = tt }) world-IsAttributed
