-- ===== src/Http/Unsigned.antt =====
-- An unsigned payment, from the mux to the answer.
use asset_repayment_service.Prelude.{
  ◌≡◌, ◌≤◌, refl, ap, ◌∙◌, Bool, false, List, ◌∷◌, length, if◌then◌else◌,
}
use asset_repayment_service.Prelude.Text.{Str, text, is_empty, str_eq}
use asset_repayment_service.Errors.{code_unauthorized}
use asset_repayment_service.Money.Decimal.{Decimal}
use asset_repayment_service.Money.Currency.{Unicode}
use asset_repayment_service.Deployment.Clock.{Floats}
use asset_repayment_service.Payment.Validate.{Calendar}
use asset_repayment_service.Payment.Service.{Codec}
use asset_repayment_service.World.State.{Environment}
use asset_repayment_service.Application.Dtos.{ApplyPaymentResponse}
use asset_repayment_service.Config.Sections.{Config}
use asset_repayment_service.Config.Load.{http_settings, payment_settings}
use asset_repayment_service.Http.Middleware.{Hmac}
use asset_repayment_service.Http.Handlers.{Json}
use asset_repayment_service.Http.Routes.{payments_route}
use asset_repayment_service.Http.Outer.{
  Call, Exchange, Envelope, Served, base, recovery, request_id, observability, within, status_class,
}
use asset_repayment_service.Http.Setup.{Answer, paid, payments, endpoint_of, serve_endpoint, serve}
use asset_repayment_service.Http.Signatures.{IsUnsigned}
use asset_repayment_service.Http.Laws.{payments_route_unsigned}

post_payments :
    (with_metrics : Bool)
    → endpoint_of with_metrics (text "POST") (text "/api/v1/payments") ≡ payments
unfolding endpoint_of str_eq
post_payments with_metrics = refl

unauthorized_class : status_class code_unauthorized ≡ text "4xx"
unfolding status_class
unauthorized_class = refl

module _ {A : Type 0} ⦃d : Decimal A⦄ ⦃u : Unicode⦄ ⦃e : Environment⦄ ⦃f : Floats⦄ ⦃l : Calendar⦄
    ⦃c : Codec A⦄ ⦃j : Json⦄ ⦃h : Hmac⦄ where
  -- The id that the client gave, or a new one.
  abbrev pub correlation : Call → Exchange A → Str
  correlation call x =
      if is_empty call.request_id then e.new_uuid x.server.world.step else call.request_id

  -- The answer is a refusal under the request's id, the process is as before, and the request is
  -- counted once, as one of the payments that the client got wrong.
  pub record IsRefused (call : Call) (before : Exchange A) (answer : Answer) (after : Exchange A)
      : Type 0 where
    pub envelope : Envelope ApplyPaymentResponse
    pub is_payment : answer ≡ paid envelope
    pub code : envelope.response.code ≡ code_unauthorized
    pub id : envelope.request_id ≡ correlation call before
    pub header : after.response_id ≡ correlation call before
    pub untouched : after.server ≡ before.server
    pub counted :
        after.served
        ≡ record { route = text "apply_payment"; method = text "POST"; status = text "4xx" }
          ∷ before.served

  -- Where a secret is set, the mux answers every POST to /api/v1/payments within the size limit whose
  -- signature is missing or not the digest of its body with 401, with the request's id in the header
  -- and in the envelope; the process, its database and its queue stay as they are, and the request
  -- is counted once, under its route, method and status class.
  pub serve_unsigned :
      (config : Config A) (call : Call) (x : Exchange A)
      → call.method ≡ text "POST"
      → call.path ≡ text "/api/v1/payments"
      → is_empty (http_settings config).webhook_secret ≡ false
      → length call.request.body ≤ (http_settings config).max_body_bytes
      → IsUnsigned (http_settings config).webhook_secret call.request
      → IsRefused call x (serve config call x).0 (serve config call x).1
  unfolding serve serve_endpoint base recovery request_id observability within
  serve_unsigned config call x post path secret short unsigned =
      let route = payments_route (http_settings config) (payment_settings config) in
      let (code, same) =
        payments_route_unsigned (http_settings config) (payment_settings config) call.request
          x.server secret short unsigned in
      let counted_as : Str → Str → List Served = λ method class.
        record { route = text "apply_payment"; method = method; status = class } ∷ x.served in
      let endpoint : endpoint_of config.read.metrics_enabled call.method call.path ≡ payments =
        ap (λ m. endpoint_of config.read.metrics_enabled m call.path) post
        ∙ ap (λ p. endpoint_of config.read.metrics_enabled (text "POST") p) path
        ∙ post_payments config.read.metrics_enabled in
      rw endpoint (record {
        envelope = record {
          response = (route call.request x.server).0;
          request_id = correlation call x;
        };
        is_payment = refl;
        code = code;
        id = refl;
        header = refl;
        untouched = same;
        counted =
            ap (λ m. counted_as m (status_class (route call.request x.server).0.code)) post
            ∙ ap (λ status. counted_as (text "POST") (status_class status)) code
            ∙ ap (λ class. counted_as (text "POST") class) unauthorized_class;
      })
