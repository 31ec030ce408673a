-- ===== src/Config/Production.antt =====
-- A configuration in use: signatures in production.
use asset_repayment_service.Prelude.{◌≡◌, ◌≤◌, true, length}
use asset_repayment_service.Money.Decimal.{Decimal}
use asset_repayment_service.Money.Currency.{Unicode}
use asset_repayment_service.Errors.{ok, code_unauthorized}
use asset_repayment_service.Deployment.Clock.{Floats}
use asset_repayment_service.Payment.Validate.{Calendar}
use asset_repayment_service.Payment.Service.{Codec}
use asset_repayment_service.World.State.{Environment}
use asset_repayment_service.Http.Middleware.{Request, Server, Hmac}
use asset_repayment_service.Http.Handlers.{Json}
use asset_repayment_service.Http.Routes.{payments_route}
use asset_repayment_service.Http.Signatures.{IsUnsigned}
use asset_repayment_service.Http.Laws.{payments_route_unsigned}
use asset_repayment_service.Config.Numbers.{Fractions}
use asset_repayment_service.Config.Reader.{Variables}
use asset_repayment_service.Config.Sections.{Config, Zones}
use asset_repayment_service.Config.Load.{
  is_production, read_config, http_settings, payment_settings,
}
use asset_repayment_service.Config.Laws.{read_config-IsUsable}

module _ {A : Type 0} ⦃d : Decimal A⦄ ⦃u : Unicode⦄ ⦃e : Environment⦄ ⦃f : Floats⦄ ⦃l : Calendar⦄
    ⦃c : Codec A⦄ ⦃j : Json⦄ ⦃h : Hmac⦄ ⦃fr : Fractions⦄ ⦃z : Zones⦄ where
  -- Under every configuration that `New` returns for production, the payments route answers 401 to a
  -- request within the size limit whose signature is missing or not the digest of its body under
  -- the configured secret, and leaves the process and its database as they are.
  pub production_refuses_unsigned :
      (env : Variables) (config : Config A) (r : Request) (s : Server A)
      → read_config env ≡ ok config
      → is_production config.read ≡ true
      → length r.body ≤ (http_settings config).max_body_bytes
      → IsUnsigned (http_settings config).webhook_secret r
      → ((payments_route (http_settings config) (payment_settings config) r s).0.code
          ≡ code_unauthorized)
        × ((payments_route (http_settings config) (payment_settings config) r s).1 ≡ s)
  production_refuses_unsigned env config r s loaded production short forged =
      payments_route_unsigned (http_settings config) (payment_settings config) r s
        ((read_config-IsUsable env config loaded).2.is_signed production) short forged
