-- ===== src/Http/Setup.antt =====
-- router.go: `Setup`, the mux with its patterns. The metrics page is the library's.
use asset_repayment_service.Prelude.{
  Bool, ◌&&◌, ◌||◌, ◌==◌, Option, none, some, [], ◌∷◌, if◌then◌else◌,
}
use asset_repayment_service.Prelude.Text.{Str, text, str_eq, strip_prefix, is_empty}
use asset_repayment_service.Money.Decimal.{Decimal}
use asset_repayment_service.Money.Currency.{Unicode}
use asset_repayment_service.Deployment.Clock.{Floats}
use asset_repayment_service.Payment.Validate.{Calendar}
use asset_repayment_service.Payment.Service.{Codec}
use asset_repayment_service.World.State.{Environment}
use asset_repayment_service.Application.Dtos.{ApplyPaymentResponse, DeploymentResponse, PositionDto}
use asset_repayment_service.Config.Sections.{Config}
use asset_repayment_service.Config.Load.{http_settings, payment_settings, deployment_defaults}
use asset_repayment_service.Http.Middleware.{Response, Hmac}
use asset_repayment_service.Http.Handlers.{Json}
use asset_repayment_service.Http.Routes.{payments_route, deployments_route, position_route}
use asset_repayment_service.Http.Outer.{Call, Exchange, Envelope, within, base}
use asset_repayment_service.Http.Health.{Readiness, healthz, readyz}

pub data Endpoint : Type 0 where
  payments deployments alive prepared metrics nothing : Endpoint
  position : Str → Endpoint

-- One segment of a path, and what follows it.
unfoldable pub segment : Str → Str × Str
segment [] = ([], [])
segment (c ∷ s) =
    let (name, rest) = segment s in if c == b'/' then ([], c ∷ s) else (c ∷ name, rest)

abbrev position_behind : Str × Str → Endpoint
position_behind (name, rest) =
    if is_empty name
    then nothing
    else if str_eq rest (text "/position")
    then position name
    else nothing

abbrev position_of : Option Str → Endpoint
position_of none = nothing
position_of (some rest) = position_behind (segment rest)

-- A pattern of GET serves HEAD too.
abbrev is_get : Str → Bool
is_get method = str_eq method (text "GET") || str_eq method (text "HEAD")

-- The endpoint of a request; `nothing` is answered by the mux itself, with 404 or 405.
unfoldable pub endpoint_of : Bool → Str → Str → Endpoint
unfolding str_eq strip_prefix segment
endpoint_of with_metrics method path =
    if str_eq method (text "POST")
    then (if str_eq path (text "/api/v1/payments")
        then payments
        else if str_eq path (text "/api/v1/deployments")
        then deployments
        else nothing)
    else if is_get method
    then (if str_eq path (text "/healthz")
        then alive
        else if str_eq path (text "/readyz")
        then prepared
        else if with_metrics && str_eq path (text "/metrics")
        then metrics
        else position_of (strip_prefix (text "/api/v1/customers/") path))
    else nothing

pub data Answer : Type 0 where
  paid : Envelope ApplyPaymentResponse → Answer
  deployed : Envelope DeploymentResponse → Answer
  positioned : Envelope PositionDto → Answer
  is_alive : Str → Answer
  is_prepared : Response Readiness → Answer
  measured unserved : Answer

module _ {A : Type 0} ⦃d : Decimal A⦄ ⦃u : Unicode⦄ ⦃e : Environment⦄ ⦃f : Floats⦄ ⦃l : Calendar⦄
    ⦃c : Codec A⦄ ⦃j : Json⦄ ⦃h : Hmac⦄ where
  unfoldable pub serve_endpoint : Config A → Endpoint → Call → Exchange A → Answer × Exchange A
  unfolding base within payments_route deployments_route position_route readyz
  serve_endpoint config payments call x =
      let (answer, x') =
        base (text "apply_payment")
          (within (payments_route (http_settings config) (payment_settings config))) call x in
      (paid answer, x')
  serve_endpoint config deployments call x =
      let (answer, x') =
        base (text "create_deployment")
          (within (deployments_route (http_settings config) (deployment_defaults config))) call x in
      (deployed answer, x')
  serve_endpoint config (position customer_id) call x =
      let (answer, x') =
        base (text "get_position") (within (position_route (http_settings config) customer_id)) call
          x in
      (positioned answer, x')
  serve_endpoint config alive call x = (is_alive healthz, x)
  serve_endpoint config prepared call x =
      let (answer, s) = readyz x.server in (is_prepared answer, record x { server = s })
  serve_endpoint config metrics call x = (measured, x)
  serve_endpoint config nothing call x = (unserved, x)

  -- The mux of `Setup`.
  unfoldable pub serve : Config A → Call → Exchange A → Answer × Exchange A
  unfolding endpoint_of serve_endpoint
  serve config call x =
      serve_endpoint config (endpoint_of config.read.metrics_enabled call.method call.path) call x
