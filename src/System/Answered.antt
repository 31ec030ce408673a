-- ===== src/System/Answered.antt =====
-- What the bank may conclude from an answer of the mux.
use asset_repayment_service.Prelude.{◌≡◌, Bool, true, false, some, arith, subst}
use asset_repayment_service.Errors.{ok}
use asset_repayment_service.Money.Decimal.{Decimal}
use asset_repayment_service.Money.Currency.{Unicode}
use asset_repayment_service.Deployment.Clock.{Floats}
use asset_repayment_service.Payment.Entity.{ValidatedNotification}
use asset_repayment_service.Payment.Validate.{Calendar, validate}
use asset_repayment_service.Payment.Service.{Codec}
use asset_repayment_service.World.State.{Environment, World}
use asset_repayment_service.Application.Dtos.{ApplyPaymentRequest, to_notification}
use asset_repayment_service.Config.Sections.{Config}
use asset_repayment_service.Config.Load.{http_settings, payment_settings}
use asset_repayment_service.Http.Middleware.{Hmac}
use asset_repayment_service.Http.Handlers.{Json}
use asset_repayment_service.Http.Laws.{IsAccepted, payments_route-IsAccepted}
use asset_repayment_service.Http.Outer.{
  Call, Exchange, within, base, recovery, request_id, observability,
}
use asset_repayment_service.Http.Setup.{
  Endpoint, payments, deployments, position, alive, prepared, metrics, nothing, Answer, paid,
  deployed, positioned, is_alive, is_prepared, measured, unserved, endpoint_of, serve_endpoint,
  serve,
}
use asset_repayment_service.System.Steps.{Steps}
use asset_repayment_service.System.Appends.{NeverTrims}
use asset_repayment_service.System.Life.{IsSound}
use asset_repayment_service.System.Kept.{IsReadBack, IsOnRecord, acknowledged_never_lost}

-- The answer acknowledges a notification.
abbrev pub acknowledges : Answer → Bool
acknowledges (paid a) = a.response.is_success
acknowledges (deployed _) = false
acknowledges (positioned _) = false
acknowledges (is_alive _) = false
acknowledges (is_prepared _) = false
acknowledges measured = false
acknowledges unserved = false

module _ {A : Type 0} ⦃d : Decimal A⦄ ⦃u : Unicode⦄ ⦃e : Environment⦄ ⦃f : Floats⦄ ⦃l : Calendar⦄
    ⦃c : Codec A⦄ ⦃j : Json⦄ ⦃h : Hmac⦄ (config : Config A) (call : Call) (x : Exchange A) where
  endpoint-IsAccepted :
      (endpoint : Endpoint)
      → acknowledges (serve_endpoint config endpoint call x).0 ≡ true
      → IsAccepted
          (http_settings config)
          (payment_settings config)
          call.request
          x.server.world
          (serve_endpoint config endpoint call x).1.server.world
  unfolding serve_endpoint base recovery request_id observability within
  endpoint-IsAccepted payments answered =
      payments_route-IsAccepted (http_settings config) (payment_settings config) call.request
        x.server answered
  endpoint-IsAccepted deployments answered = ground arith
  endpoint-IsAccepted (position customer_id) answered = ground arith
  endpoint-IsAccepted alive answered = ground arith
  endpoint-IsAccepted prepared answered = ground arith
  endpoint-IsAccepted metrics answered = ground arith
  endpoint-IsAccepted nothing answered = ground arith

  -- The request carried a notification, valid when it came, and that is on record in a later world.
  pub record IsRecorded (later : World A) : Type 0 where
    pub req : ApplyPaymentRequest
    pub validated : ValidatedNotification A
    pub decoded : j.decode_payment call.request.body ≡ some req
    pub valid :
        validate
          (to_notification req)
          (payment_settings config).provider_location
          (payment_settings config).default_currency
          call.request.body
          (e.now x.server.world.step)
        ≡ ok validated
    pub recorded : IsOnRecord validated later

  -- Where the stream is not trimmed and the encoding of a valid notification decodes to it, a request
  -- to the mux that is answered with the success of a payment carried a valid notification, and after
  -- any further steps of a service that was sound before it (requests, rounds of the workers and of the
  -- reclaimer, restarts, under any faults) that notification is on record: its reference is in the
  -- ledger, or a message that decodes to it waits in the stream, is pending, or is a dead letter.
  pub answered_never_lost :
      (later : World A)
      → NeverTrims e
      → ((req : ApplyPaymentRequest) (v : ValidatedNotification A)
          → j.decode_payment call.request.body ≡ some req
          → validate
              (to_notification req)
              (payment_settings config).provider_location
              (payment_settings config).default_currency
              call.request.body
              (e.now x.server.world.step)
            ≡ ok v
          → IsReadBack v)
      → IsSound x.server.world
      → acknowledges (serve config call x).0 ≡ true
      → Steps (serve config call x).1.server.world later
      → IsRecorded later
  unfolding serve
  answered_never_lost later untrimmed back sound answered path =
      let endpoint = endpoint_of config.read.metrics_enabled call.method call.path in
      let a = endpoint-IsAccepted endpoint answered in
      record {
        req = a.req;
        validated = a.validated;
        decoded = a.decoded;
        valid = a.valid;
        recorded =
            acknowledged_never_lost (payment_settings config) (to_notification a.req)
              call.request.body x.server.world later a.validated a.result untrimmed
              (back a.req a.validated a.decoded a.valid) sound a.valid a.answered
              (subst (λ w. Steps w later) a.world path);
      }
