-- ===== src/Http/Routes.antt =====
-- router.go: the three routes of the API, each with its middleware.
use asset_repayment_service.Prelude.{ℕ, [], ◌∷◌}
use asset_repayment_service.Prelude.Text.{Str}
use asset_repayment_service.Money.Decimal.{Decimal}
use asset_repayment_service.Money.Currency.{Unicode}
use asset_repayment_service.Deployment.Clock.{Floats}
use asset_repayment_service.Deployment.Service.{Defaults}
use asset_repayment_service.Payment.Validate.{Calendar}
use asset_repayment_service.Payment.Service.{Settings, Codec}
use asset_repayment_service.World.State.{Environment}
use asset_repayment_service.Application.Dtos.{ApplyPaymentResponse, DeploymentResponse, PositionDto}
use asset_repayment_service.Http.Middleware.{
  Handler, Hmac, chain, body_limit, check_signature, load_shedding,
}
use asset_repayment_service.Http.Handlers.{
  Json, apply_payment_handler, create_deployment_handler, get_position_handler,
}

-- The values of `config.HTTP` and `config.Payments` that the middleware reads.
pub record HttpSettings : Type 0 where
  pub max_body_bytes : ℕ
  pub max_inflight_payments : ℕ
  pub webhook_secret : Str

module _ {A : Type 0} ⦃d : Decimal A⦄ ⦃u : Unicode⦄ ⦃e : Environment⦄ ⦃f : Floats⦄ ⦃l : Calendar⦄
    ⦃c : Codec A⦄ ⦃j : Json⦄ ⦃h : Hmac⦄ where
  -- POST /api/v1/payments
  unfoldable pub payments_route : HttpSettings → Settings → Handler A ApplyPaymentResponse
  unfolding chain body_limit check_signature load_shedding apply_payment_handler
  payments_route config settings = chain (apply_payment_handler settings) (
      body_limit config.max_body_bytes
      ∷ check_signature config.webhook_secret
      ∷ load_shedding config.max_inflight_payments
      ∷ [])

module _ {A : Type 0} ⦃d : Decimal A⦄ ⦃u : Unicode⦄ ⦃e : Environment⦄ ⦃f : Floats⦄ ⦃l : Calendar⦄
    ⦃j : Json⦄ where
  -- POST /api/v1/deployments
  unfoldable pub deployments_route : HttpSettings → Defaults A → Handler A DeploymentResponse
  unfolding chain body_limit create_deployment_handler
  deployments_route config defaults =
      chain (create_deployment_handler defaults) (body_limit config.max_body_bytes ∷ [])

  -- GET /api/v1/customers/{customer_id}/position
  unfoldable pub position_route : HttpSettings → Str → Handler A PositionDto
  unfolding chain body_limit get_position_handler
  position_route config customer_id =
      chain (get_position_handler customer_id) (body_limit config.max_body_bytes ∷ [])
