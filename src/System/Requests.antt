-- ===== src/System/Requests.antt =====
-- Requests to the mux, as sequences of steps.
use asset_repayment_service.Prelude.{
  ℕ, suc, ◌≡◌, inl, inr, arith, ltb, length, Bool-cases, Option-cases, if◌then◌else◌,
}
use asset_repayment_service.Prelude.Text.{Str, text, is_empty}
use asset_repayment_service.Errors.{Result-cases}
use asset_repayment_service.Money.Decimal.{Decimal}
use asset_repayment_service.Money.Currency.{Unicode, lookup}
use asset_repayment_service.Deployment.Clock.{Floats}
use asset_repayment_service.Deployment.Contracts.{CreateInput}
use asset_repayment_service.Deployment.Service.{Defaults, create, get_position}
use asset_repayment_service.Payment.Validate.{Calendar}
use asset_repayment_service.Payment.Service.{Settings, Codec, accept}
use asset_repayment_service.World.State.{Environment, World}
use asset_repayment_service.Application.Dtos.{
  ApplyPaymentRequest, CreateDeploymentRequest, to_notification,
}
use asset_repayment_service.Application.Usecases.{
  apply_payment_usecase, request_principal, request_start, deployment_input, registered,
  create_deployment_usecase, get_position_usecase,
}
use asset_repayment_service.Config.Sections.{Config}
use asset_repayment_service.Config.Load.{http_settings, payment_settings, deployment_defaults}
use asset_repayment_service.Http.Middleware.{
  Request, Server, Handler, Hmac, chain, body_limit, check_signature, load_shedding,
  signature_matches,
}
use asset_repayment_service.Http.Handlers.{
  Json, apply_payment_handler, create_deployment_handler, get_position_handler,
}
use asset_repayment_service.Http.Routes.{payments_route, deployments_route, position_route}
use asset_repayment_service.Http.Outer.{
  Call, Exchange, within, base, recovery, request_id, observability,
}
use asset_repayment_service.Http.Health.{readyz, healthy_cache}
use asset_repayment_service.Http.Setup.{
  Endpoint, payments, deployments, position, alive, prepared, metrics, nothing, endpoint_of,
  serve_endpoint, serve,
}
use asset_repayment_service.System.Startup.{ping}
use asset_repayment_service.Queue.Kept.{Fault-cases}
use asset_repayment_service.System.Steps.{
  Steps, started, then_step, notify, register, inquire, look,
}

module _ {A : Type 0} ⦃d : Decimal A⦄ ⦃u : Unicode⦄ ⦃e : Environment⦄ ⦃f : Floats⦄ ⦃l : Calendar⦄
    ⦃c : Codec A⦄ where
  -- A handler does to the world what some steps do.
  abbrev TakesSteps : {B : Type 0} → Handler A B → Type 0
  TakesSteps h = (r : Request) (s : Server A) → Steps s.world (h r s).1.world

  body_limit-TakesSteps :
      {B : Type 0} (n : ℕ) (h : Handler A B) → TakesSteps h → TakesSteps (body_limit n h)
  unfolding body_limit
  body_limit-TakesSteps n h steps r s = elim (Bool-cases (ltb n (length r.body))) [
    | inl large ↦ rw (large, body_limit) started
    | inr small ↦ rw (small, body_limit) (steps r s)
  ]

  load_shedding-TakesSteps :
      {B : Type 0} (n : ℕ) (h : Handler A B) → TakesSteps h → TakesSteps (load_shedding n h)
  unfolding load_shedding
  load_shedding-TakesSteps n h steps r s = elim (Bool-cases (ltb s.inflight n)) [
    | inl free ↦
        let same : (load_shedding n h r s).1.world
            ≡ (h r (record s { inflight = suc s.inflight })).1.world =
          ground arith in
        rw same (steps r (record s { inflight = suc s.inflight }))
    | inr full ↦
        let same : (load_shedding n h r s).1.world ≡ s.world = ground arith in rw same started
  ]

  check_signature-TakesSteps :
      ⦃m : Hmac⦄ {B : Type 0} (secret : Str) (h : Handler A B)
      → TakesSteps h
      → TakesSteps (check_signature secret h)
  unfolding check_signature
  check_signature-TakesSteps secret h steps r s = elim (Bool-cases (is_empty secret)) [
    | inl off ↦ rw (off, check_signature) (steps r s)
    | inr on ↦ elim (Bool-cases (signature_matches secret r)) [
      | inl genuine ↦ rw (on, check_signature, genuine) (steps r s)
      | inr forged ↦ rw (on, check_signature, forged) started
    ]
  ]

  usecase-Steps :
      (settings : Settings) (req : ApplyPaymentRequest) (raw : Str) (w : World A)
      → Steps w (apply_payment_usecase settings req raw w).1
  unfolding apply_payment_usecase
  usecase-Steps settings req raw w =
      let step = then_step started (notify settings (to_notification req) raw w) in
      elim (Result-cases (accept settings (to_notification req) raw w).0) [
        | inl (x, done) ↦ rw (done, apply_payment_usecase) step
        | inr (cause, failed) ↦ rw (failed, apply_payment_usecase) step
      ]

  registered-Steps :
      (defaults : Defaults A) (input : CreateInput A) (w : World A)
      → Steps w (registered defaults input w).1
  unfolding registered
  registered-Steps defaults input w =
      let step = then_step started (register defaults input w) in
      elim (Result-cases (create defaults input w).0) [
        | inl (x, done) ↦ rw (done, registered) step
        | inr (cause, failed) ↦ rw (failed, registered) step
      ]

  create_usecase-Steps :
      (defaults : Defaults A) (req : CreateDeploymentRequest) (w : World A)
      → Steps w (create_deployment_usecase defaults req w).1
  unfolding create_deployment_usecase
  create_usecase-Steps defaults req w =
      let currency = if is_empty req.currency then defaults.currency else lookup req.currency in
      elim (Result-cases (request_principal ⦃d = d⦄ req.principal currency)) [
        | inr (cause, refused) ↦ rw (refused, create_deployment_usecase) started
        | inl (principal, read) ↦ elim (Result-cases (request_start req.start_date)) [
          | inr (cause, refused) ↦ rw (read, create_deployment_usecase, refused) started
          | inl (start, at) ↦
              rw (read, create_deployment_usecase, at)
                (registered-Steps defaults (deployment_input req currency principal start w) w)
        ]
      ]

  position_usecase-Steps :
      (customer_id : Str) (w : World A) → Steps w (get_position_usecase customer_id w).1
  unfolding get_position_usecase
  position_usecase-Steps customer_id w =
      let step = then_step started (inquire customer_id (e.now w.step) w) in
      elim (Bool-cases (is_empty customer_id)) [
        | inl nobody ↦ rw (nobody, get_position_usecase) started
        | inr named ↦ elim (Result-cases (get_position customer_id (e.now w.step) w).0) [
          | inl (p, done) ↦ rw (named, get_position_usecase, done) step
          | inr (cause, failed) ↦ rw (named, get_position_usecase, failed) step
        ]
      ]

  readyz-Steps : (s : Server A) → Steps s.world (readyz s).1.world
  unfolding readyz healthy_cache ping
  readyz-Steps s =
      let pinged = then_step started (look s.world) in
      elim (Fault-cases (e.fault s.world.step)) [
        | inl works ↦ elim (Bool-cases s.world.cache_on) [
          | inl on ↦
              let both = then_step pinged (look (record s.world { step = suc s.world.step })) in
              let same : (readyz s).1.world ≡ record s.world { step = suc (suc s.world.step) } =
                ground arith in
              rw same both
          | inr off ↦
              let same : (readyz s).1.world ≡ record s.world { step = suc s.world.step } =
                ground arith in
              rw same pinged
        ]
        | inr (inl (m, down)) ↦ rw (down, readyz, ping) pinged
        | inr (inr (m, lost)) ↦ rw (lost, readyz, ping) pinged
      ]

  -- The outer middleware sees to the headers and the counters only.
  base-Steps :
      {B : Type 0} (route : Str) (h : Handler A B) (call : Call) (x : Exchange A)
      → TakesSteps h
      → Steps x.server.world (base route (within h) call x).1.server.world
  unfolding base recovery request_id observability within
  base-Steps route h call x steps = steps call.request x.server

module _ {A : Type 0} ⦃d : Decimal A⦄ ⦃u : Unicode⦄ ⦃e : Environment⦄ ⦃f : Floats⦄ ⦃l : Calendar⦄
    ⦃c : Codec A⦄ ⦃j : Json⦄ ⦃h : Hmac⦄ where
  payment_handler-Steps :
      (settings : Settings) (r : Request) (s : Server A)
      → Steps s.world (apply_payment_handler settings r s).1.world
  unfolding apply_payment_handler
  payment_handler-Steps settings r s = elim (Option-cases (j.decode_payment r.body)) [
    | inl torn ↦ rw (torn, apply_payment_handler) started
    | inr (req, decoded) ↦
        rw (decoded, apply_payment_handler) (usecase-Steps settings req r.body s.world)
  ]

  deployment_handler-Steps :
      (defaults : Defaults A) (r : Request) (s : Server A)
      → Steps s.world (create_deployment_handler defaults r s).1.world
  unfolding create_deployment_handler
  deployment_handler-Steps defaults r s = elim (Option-cases (j.decode_deployment r.body)) [
    | inl torn ↦ rw (torn, create_deployment_handler) started
    | inr (req, decoded) ↦
        let step = create_usecase-Steps defaults req s.world in
        elim (Result-cases (create_deployment_usecase defaults req s.world).0) [
          | inl (x, done) ↦ rw (decoded, create_deployment_handler, done) step
          | inr (cause, failed) ↦ rw (decoded, create_deployment_handler, failed) step
        ]
  ]

  position_handler-Steps :
      (customer_id : Str) (r : Request) (s : Server A)
      → Steps s.world (get_position_handler customer_id r s).1.world
  unfolding get_position_handler
  position_handler-Steps customer_id r s =
      let step = position_usecase-Steps customer_id s.world in
      elim (Result-cases (get_position_usecase customer_id s.world).0) [
        | inl (x, done) ↦ rw (done, get_position_handler) step
        | inr (cause, failed) ↦ rw (failed, get_position_handler) step
      ]

  endpoint-Steps :
      (config : Config A) (endpoint : Endpoint) (call : Call) (x : Exchange A)
      → Steps x.server.world (serve_endpoint config endpoint call x).1.server.world
  unfolding serve_endpoint payments_route deployments_route position_route chain
  endpoint-Steps config payments call x =
      let http = http_settings config in
      let handler = apply_payment_handler (payment_settings config) in
      let shed = load_shedding http.max_inflight_payments handler in
      base-Steps (text "apply_payment") (payments_route http (payment_settings config)) call x (
        body_limit-TakesSteps http.max_body_bytes (check_signature http.webhook_secret shed) (
          check_signature-TakesSteps http.webhook_secret shed (
            load_shedding-TakesSteps http.max_inflight_payments handler
              (payment_handler-Steps (payment_settings config)))))
  endpoint-Steps config deployments call x =
      let http = http_settings config in
      let defaults = deployment_defaults config in
      base-Steps (text "create_deployment") (deployments_route http defaults) call x (
        body_limit-TakesSteps http.max_body_bytes (create_deployment_handler defaults)
          (deployment_handler-Steps defaults))
  endpoint-Steps config (position customer_id) call x =
      let http = http_settings config in
      base-Steps (text "get_position") (position_route http customer_id) call x (
        body_limit-TakesSteps http.max_body_bytes (get_position_handler customer_id)
          (position_handler-Steps customer_id))
  endpoint-Steps config alive call x = started
  endpoint-Steps config prepared call x = readyz-Steps x.server
  endpoint-Steps config metrics call x = started
  endpoint-Steps config nothing call x = started

  -- Every request to the mux, of any method and path, under any configuration, does to the state
  -- what steps of the service do, in sequence: what holds of all steps holds of all HTTP traffic.
  pub serve-Steps :
      (config : Config A) (call : Call) (x : Exchange A)
      → Steps x.server.world (serve config call x).1.server.world
  unfolding serve
  serve-Steps config call x =
      endpoint-Steps config (endpoint_of config.read.metrics_enabled call.method call.path) call x
