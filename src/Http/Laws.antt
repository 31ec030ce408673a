-- ===== src/Http/Laws.antt =====
-- The payments route from end to end.
use asset_repayment_service.Prelude.{
  suc, ◌-◌, ◌≤◌, ◌≡◌, refl, length, true, false, ◌⊎◌, inl, inr, some, arith, ap, sym, subst, ◌∙◌,
  Option-cases,
}
use mathlib.Core.Bool.{false≢true}
use asset_repayment_service.Prelude.Text.{Str, is_empty}
use asset_repayment_service.Errors.{GoError, ok, err, Result-cases, code_unauthorized}
use asset_repayment_service.Money.Decimal.{Decimal}
use asset_repayment_service.Money.Currency.{Unicode}
use asset_repayment_service.Deployment.Clock.{Floats}
use asset_repayment_service.Payment.Entity.{ValidatedNotification, Notification, PaymentResult}
use asset_repayment_service.Payment.Validate.{Calendar, validate}
use asset_repayment_service.Payment.Service.{Settings, Codec, accept}
use asset_repayment_service.Payment.Idempotency.{accept-IsConsistent}
use asset_repayment_service.Payment.Acknowledged.{IsCacheSound, IsSafe, accept-IsSafe}
use asset_repayment_service.Database.Consistency.{IsConsistent}
use asset_repayment_service.World.State.{Environment, World}
use asset_repayment_service.Application.Dtos.{
  ApplyPaymentRequest, ApplyPaymentResponse, to_notification,
}
use asset_repayment_service.Application.Usecases.{apply_payment_usecase}
use asset_repayment_service.Http.Signatures.{IsUnsigned, unsigned-refused}
use asset_repayment_service.Http.Middleware.{
  Request, Response, Server, Hmac, chain, body_limit, check_signature, load_shedding,
  error_response,
}
use asset_repayment_service.Errors.{http_code, as_domain_error, find_domain}
use asset_repayment_service.Http.Handlers.{Json, apply_payment_handler, payment_answer}
use asset_repayment_service.Http.Routes.{HttpSettings, payments_route}

module _ {A : Type 0} ⦃d : Decimal A⦄ ⦃u : Unicode⦄ ⦃e : Environment⦄ ⦃f : Floats⦄ ⦃l : Calendar⦄
    ⦃c : Codec A⦄ ⦃j : Json⦄ ⦃h : Hmac⦄ (config : HttpSettings) (settings : Settings) where
  -- Where a secret is set, a request within the size limit whose signature is missing or is not the
  -- digest of its body is answered 401, and the process and its database stay as they are.
  pub payments_route_unsigned :
      (r : Request) (s : Server A)
      → is_empty config.webhook_secret ≡ false
      → length r.body ≤ config.max_body_bytes
      → IsUnsigned config.webhook_secret r
      → ((payments_route config settings r s).0.code ≡ code_unauthorized)
        × ((payments_route config settings r s).1 ≡ s)
  unfolding payments_route chain body_limit check_signature error_response http_code as_domain_error
      find_domain
  payments_route_unsigned r s secret short forged =
      ground (arith, unsigned-refused config.webhook_secret r forged)

  inflight-handler :
      (r : Request) (s : Server A) → (apply_payment_handler settings r s).1.inflight ≡ s.inflight
  unfolding apply_payment_handler
  inflight-handler r s = elim (Option-cases (j.decode_payment r.body)) [
    | inl torn ↦ rw (torn, apply_payment_handler)
    | inr (req, decoded) ↦ rw (decoded, apply_payment_handler)
  ]

  -- What the middleware makes of the handler's answer: the slot is given back.
  abbrev inside : Request → Server A → Response ApplyPaymentResponse × Server A
  inside r s =
      let (answer, after) =
        apply_payment_handler settings r (record s { inflight = suc s.inflight }) in
      (answer, record after { inflight = after.inflight - 1 })

  payments_route-cases :
      (r : Request) (s : Server A)
      → (((payments_route config settings r s).0.is_success ≡ false)
          × ((payments_route config settings r s).1 ≡ s))
        ⊎ (payments_route config settings r s ≡ inside r s)
  unfolding payments_route chain body_limit check_signature load_shedding error_response
  payments_route-cases r s = ground arith

  usecase-IsConsistent :
      (req : ApplyPaymentRequest) (raw : Str) (w : World A)
      → IsConsistent w.db
      → IsConsistent (apply_payment_usecase settings req raw w).1.db
  unfolding apply_payment_usecase
  usecase-IsConsistent req raw w books =
      elim (Result-cases (accept settings (to_notification req) raw w).0) [
        | inl (x, done) ↦
            rw (done, apply_payment_usecase)
              (accept-IsConsistent settings (to_notification req) raw w books)
        | inr (cause, failed) ↦
            rw (failed, apply_payment_usecase)
              (accept-IsConsistent settings (to_notification req) raw w books)
      ]

  handler-IsConsistent :
      (r : Request) (s : Server A)
      → IsConsistent s.world.db
      → IsConsistent (apply_payment_handler settings r s).1.world.db
  unfolding apply_payment_handler
  handler-IsConsistent r s books = elim (Option-cases (j.decode_payment r.body)) [
    | inl torn ↦ rw (torn, apply_payment_handler) books
    | inr (req, decoded) ↦
        rw (decoded, apply_payment_handler) (usecase-IsConsistent req r.body s.world books)
  ]

  -- Consistent books stay consistent over any request to the payments route, and the request gives
  -- its slot of the semaphore back.
  pub payments_route-IsConsistent :
      (r : Request) (s : Server A)
      → IsConsistent s.world.db
      → IsConsistent (payments_route config settings r s).1.world.db
        × ((payments_route config settings r s).1.inflight ≡ s.inflight)
  payments_route-IsConsistent r s books = elim (payments_route-cases r s) [
    | inl (refused, same) ↦ rw same (books, refl)
    | inr ran ↦ rw ran (
      handler-IsConsistent r (record s { inflight = suc s.inflight }) books,
      ap (λ n. n - 1) (inflight-handler r (record s { inflight = suc s.inflight })) ∙ omega arith,
    )
  ]

  accept_refused :
      (n : Notification) (raw : Str) (w : World A) (cause : GoError)
      → validate ⦃d = d⦄ n settings.provider_location settings.default_currency raw (e.now w.step)
        ≡ err cause
      → (accept settings n raw w).0 ≡ err cause
  unfolding accept
  accept_refused n raw w cause refused = rw (refused, accept)

  -- The request was read and validated, and accepted by the service.
  pub record IsAccepted (r : Request) (before after : World A) : Type 0 where
    pub req : ApplyPaymentRequest
    pub validated : ValidatedNotification A
    pub result : PaymentResult A
    pub decoded : j.decode_payment r.body ≡ some req
    pub valid :
        validate
          (to_notification req)
          settings.provider_location
          settings.default_currency
          r.body
          (e.now before.step)
        ≡ ok validated
    pub answered : (accept settings (to_notification req) r.body before).0 ≡ ok result
    pub world : after ≡ (accept settings (to_notification req) r.body before).1

  usecase-IsAccepted :
      (req : ApplyPaymentRequest) (r : Request) (w : World A) (x : ApplyPaymentResponse)
      → j.decode_payment r.body ≡ some req
      → (apply_payment_usecase settings req r.body w).0 ≡ ok x
      → IsAccepted r w (apply_payment_usecase settings req r.body w).1
  unfolding apply_payment_usecase
  usecase-IsAccepted req r w x decoded answered =
      let n = to_notification req in
      elim (Result-cases (accept settings n r.body w).0) [
        | inr (cause, failed) ↦ ground arith
        | inl (y, done) ↦
            elim (Result-cases (
              validate ⦃d = d⦄ n settings.provider_location settings.default_currency r.body
                (e.now w.step))) [
                  | inr (cause, refused) ↦ ground (arith, accept_refused n r.body w cause refused)
                  | inl (v, valid) ↦ record {
                    req = req;
                    validated = v;
                    result = y;
                    decoded = decoded;
                    valid = valid;
                    answered = done;
                    world = rw (done, apply_payment_usecase);
                  }
                ]
      ]

  handler-IsAccepted :
      (r : Request) (s : Server A)
      → (apply_payment_handler settings r s).0.is_success ≡ true
      → IsAccepted r s.world (apply_payment_handler settings r s).1.world
  unfolding apply_payment_handler error_response payment_answer
  handler-IsAccepted r s answered = elim (Option-cases (j.decode_payment r.body)) [
    | inl torn ↦ ground arith
    | inr (req, decoded) ↦
        elim (Result-cases (apply_payment_usecase settings req r.body s.world).0) [
          | inr (cause, failed) ↦ ground arith
          | inl (x, done) ↦
              let after = (apply_payment_usecase settings req r.body s.world).1 in
              let same : (apply_payment_handler settings r s).1.world ≡ after =
                rw (decoded, apply_payment_handler) in
              subst (IsAccepted r s.world) (sym same)
                (usecase-IsAccepted req r s.world x decoded done)
        ]
  ]

  pub payments_route-IsAccepted :
      (r : Request) (s : Server A)
      → (payments_route config settings r s).0.is_success ≡ true
      → IsAccepted r s.world (payments_route config settings r s).1.world
  payments_route-IsAccepted r s answered = elim (payments_route-cases r s) [
    | inl (refused, same) ↦ absurd (false≢true (sym refused ∙ answered))
    | inr ran ↦ rw ran (
        handler-IsAccepted r (record s { inflight = suc s.inflight })
          (sym (ap (λ x. x.0.is_success) ran) ∙ answered))
  ]

  -- The request was read and validated, and its credit is safe.
  abbrev IsTaken : Request → World A → World A → Type 0
  IsTaken r before after =
      (req : ApplyPaymentRequest) × ((v : ValidatedNotification A) × (j.decode_payment r.body
          ≡ some req)
        × (validate (to_notification req) settings.provider_location settings.default_currency
              r.body (e.now before.step)
            ≡ ok v)
        × IsSafe v after)

  -- A request that is answered with success was a valid notification, and its credit is safe: in the
  -- ledger or in the stream, if the results in the cache stand under listed references.
  payments_route-IsSafe :
      (r : Request) (s : Server A)
      → IsCacheSound s.world
      → (payments_route config settings r s).0.is_success ≡ true
      → IsTaken r s.world (payments_route config settings r s).1.world
  payments_route-IsSafe r s sound answered =
      let a = payments_route-IsAccepted r s answered in
      let n = to_notification a.req in
      let safe =
        accept-IsSafe settings n r.body s.world a.validated a.result a.valid sound a.answered in
      (a.req, (a.validated, a.decoded, a.valid, subst (IsSafe a.validated) (sym a.world) safe))
