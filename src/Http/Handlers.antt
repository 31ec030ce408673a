-- ===== src/Http/Handlers.antt =====
-- payment_handler.go and deployment_handler.go. `json.Unmarshal` is a parameter.
use asset_repayment_service.Prelude.{ℕ, Option, none, some}
use asset_repayment_service.Prelude.Text.{Str, text}
use asset_repayment_service.Errors.{GoError, Result, ok, err, domain, bad_request}
use asset_repayment_service.Money.Decimal.{Decimal}
use asset_repayment_service.Money.Currency.{Unicode}
use asset_repayment_service.Deployment.Clock.{Floats}
use asset_repayment_service.Deployment.Service.{Defaults}
use asset_repayment_service.Payment.Entity.{Outcome, applied, duplicate, unmatched, ignored, queued}
use asset_repayment_service.Payment.Validate.{Calendar}
use asset_repayment_service.Payment.Service.{Settings, Codec}
use asset_repayment_service.World.State.{Environment}
use asset_repayment_service.Application.Dtos.{
  ApplyPaymentRequest, ApplyPaymentResponse, CreateDeploymentRequest, DeploymentResponse,
  PositionDto,
}
use asset_repayment_service.Application.Usecases.{
  apply_payment_usecase, create_deployment_usecase, get_position_usecase,
}
use asset_repayment_service.Http.Middleware.{Response, Handler, success, error_response}

pub record Json : Type 0 where
  pub decode_payment : Str → Option ApplyPaymentRequest
  pub decode_deployment : Str → Option CreateDeploymentRequest

abbrev not_json : GoError
not_json = domain (bad_request (text "request body must be valid JSON"))

-- 200 where the balance has moved, now or before; 202 where the credit is only accepted.
abbrev pub outcome_code : Outcome → ℕ
outcome_code applied = 200
outcome_code duplicate = 200
outcome_code unmatched = 202
outcome_code ignored = 202
outcome_code queued = 202

-- `outcomeMessage`
abbrev pub outcome_message : Outcome → Str
outcome_message applied = text "payment applied to outstanding balance"
outcome_message duplicate = text "payment already processed; original result returned"
outcome_message unmatched = text "payment recorded but no open deployment matched this customer"
outcome_message ignored =
    text "payment recorded but not applied; provider status is not a settled credit"
outcome_message queued =
    text "payment accepted and queued; the position updates once a worker applies it"

unfoldable pub payment_answer : Result ApplyPaymentResponse → Response ApplyPaymentResponse
unfolding error_response
payment_answer (err e) = error_response e
payment_answer (ok x) = success (outcome_code x.outcome) (outcome_message x.outcome) x

module _ {A : Type 0} ⦃d : Decimal A⦄ ⦃u : Unicode⦄ ⦃e : Environment⦄ ⦃f : Floats⦄ ⦃l : Calendar⦄
    ⦃c : Codec A⦄ ⦃j : Json⦄ where
  -- `ApplyPayment`
  unfoldable pub apply_payment_handler : Settings → Handler A ApplyPaymentResponse
  unfolding payment_answer apply_payment_usecase error_response
  apply_payment_handler settings r s = elim (j.decode_payment r.body) [
    | none ↦ (error_response not_json, s)
    | some req ↦
        let (answer, w) = apply_payment_usecase settings req r.body s.world in
        (payment_answer answer, record s { world = w })
  ]

module _ {A : Type 0} ⦃d : Decimal A⦄ ⦃u : Unicode⦄ ⦃e : Environment⦄ ⦃f : Floats⦄ ⦃l : Calendar⦄
    ⦃j : Json⦄ where
  -- `CreateDeployment`
  unfoldable pub create_deployment_handler : Defaults A → Handler A DeploymentResponse
  unfolding create_deployment_usecase error_response
  create_deployment_handler defaults r s = elim (j.decode_deployment r.body) [
    | none ↦ (error_response not_json, s)
    | some req ↦
        let (answer, w) = create_deployment_usecase defaults req s.world in
        elim answer [
          | err cause ↦ (error_response cause, record s { world = w })
          | ok x ↦ (success 201 (text "deployment registered") x, record s { world = w })
        ]
  ]

  -- `GetPosition`, with the customer of the path.
  unfoldable pub get_position_handler : Str → Handler A PositionDto
  unfolding get_position_usecase error_response
  get_position_handler customer_id r s =
      let (answer, w) = get_position_usecase customer_id s.world in
      elim answer [
        | err cause ↦ (error_response cause, record s { world = w })
        | ok x ↦ (success 200 (text "") x, record s { world = w })
      ]
