-- ===== src/Application/Usecases.antt =====
-- usecases/*.go: `Execute` of the three use cases. The nil requests are not sent by the handlers.
use asset_repayment_service.Prelude.{
  ℕ, zero, suc, Bool, true, false, none, some, [], ◌∷◌, ◌++◌, if◌then◌else◌,
}
use asset_repayment_service.Prelude.Text.{Str, text, is_empty}
use asset_repayment_service.Errors.{Result, ok, err, domain, bad_request, validation_failed}
use asset_repayment_service.Money.Decimal.{Decimal}
use asset_repayment_service.Money.Currency.{Currency, Unicode, lookup}
use asset_repayment_service.Money.Parse.{amount, refused, parse_positive, money_message}
use asset_repayment_service.Deployment.Clock.{Time, Floats}
use asset_repayment_service.Deployment.Contracts.{CreateInput}
use asset_repayment_service.Deployment.Service.{Defaults, create, get_position}
use asset_repayment_service.Payment.Entity.{
  Outcome, applied, duplicate, unmatched, ignored, queued, PaymentResult,
}
use asset_repayment_service.Payment.Validate.{Calendar, utc}
use asset_repayment_service.Payment.Service.{Settings, Codec, accept}
use asset_repayment_service.World.State.{Environment, World}
use asset_repayment_service.Application.Dtos.{
  ApplyPaymentRequest, to_notification, ApplyPaymentResponse, new_payment_dto, new_position_dto,
  position_dto, PositionDto, CreateDeploymentRequest, DeploymentResponse, new_deployment_response,
  date_only,
}

abbrev pub is_duplicate : Outcome → Bool
is_duplicate duplicate = true
is_duplicate applied = false
is_duplicate unmatched = false
is_duplicate ignored = false
is_duplicate queued = false

abbrev first_of : ℕ → Str → Str
first_of zero s = []
first_of (suc n) [] = []
first_of (suc n) (c ∷ s) = c ∷ first_of n s

module _ ⦃l : Calendar⦄ where
  -- The optional fields of the request, each with its refusal.
  unfoldable pub request_start : Str → Result Time
  request_start raw = if is_empty raw then ok 0 else elim (l.parse_in_location date_only raw utc) [
    | some t ↦ ok t
    | none ↦ err (
        domain (
          validation_failed ((text "start_date", text "must be a date in YYYY-MM-DD format") ∷ [])))
  ]

module _ {A : Type 0} ⦃d : Decimal A⦄ ⦃l : Calendar⦄ where
  unfoldable pub payment_response : PaymentResult A → ApplyPaymentResponse
  unfolding new_payment_dto new_position_dto
  payment_response r = record {
    outcome = r.outcome;
    duplicate = is_duplicate r.outcome;
    payment = new_payment_dto r.payment;
    position = new_position_dto r.position;
  }

module _ {A : Type 0} ⦃d : Decimal A⦄ ⦃u : Unicode⦄ ⦃e : Environment⦄ ⦃f : Floats⦄ ⦃l : Calendar⦄
    ⦃c : Codec A⦄ where
  -- `ApplyPaymentUsecase.Execute`
  unfoldable pub apply_payment_usecase :
      Settings → ApplyPaymentRequest → Str → World A → Result ApplyPaymentResponse × World A
  unfolding accept payment_response
  apply_payment_usecase settings req raw w =
      let (r, w') = accept settings (to_notification req) raw w in
      elim r [ err cause ↦ (err cause, w') | ok x ↦ (ok (payment_response x), w') ]

module _ {A : Type 0} ⦃d : Decimal A⦄ ⦃u : Unicode⦄ ⦃e : Environment⦄ ⦃f : Floats⦄
    ⦃l : Calendar⦄ where
  unfoldable pub request_principal : Str → Currency → Result A
  unfolding parse_positive
  request_principal raw currency =
      if is_empty raw then ok d.zero_amount else elim (parse_positive raw currency) [
        | amount a ↦ ok a
        | refused m ↦ err (domain (validation_failed ((text "principal", money_message m) ∷ [])))
      ]

  unfoldable pub deployment_input :
      CreateDeploymentRequest → Currency → A → Time → World A → CreateInput A
  deployment_input req currency principal start w = record {
    customer_id = req.customer_id;
    asset_id =
        if is_empty req.asset_id
        then text "AST-" ++ first_of 8 (e.new_uuid w.step)
        else req.asset_id;
    asset_type = if is_empty req.asset_type then text "mobility" else req.asset_type;
    virtual_account_number = req.virtual_account_number;
    currency = currency;
    principal = principal;
    term_weeks = req.term_weeks;
    start_date = start;
  }

  unfoldable pub registered :
      Defaults A → CreateInput A → World A → Result DeploymentResponse × World A
  unfolding create new_deployment_response
  registered defaults input w =
      let (r, w') = create defaults input w in
      elim r [
        | err cause ↦ (err cause, w')
        | ok x ↦ (ok (new_deployment_response x (e.now w'.step)), w')
      ]

  -- `CreateDeploymentUsecase.Execute`
  unfoldable pub create_deployment_usecase :
      Defaults A → CreateDeploymentRequest → World A → Result DeploymentResponse × World A
  unfolding lookup request_principal request_start deployment_input registered
  create_deployment_usecase defaults req w =
      let currency = if is_empty req.currency then defaults.currency else lookup req.currency in
      elim (request_principal req.principal currency) [
        | err cause ↦ (err cause, w)
        | ok principal ↦ elim (request_start req.start_date) [
          | err cause ↦ (err cause, w)
          | ok start ↦ registered defaults (deployment_input req currency principal start w) w
        ]
      ]

  -- `GetPositionUsecase.Execute`
  unfoldable pub get_position_usecase : Str → World A → Result PositionDto × World A
  unfolding get_position position_dto
  get_position_usecase customer_id w =
      if is_empty customer_id
      then (err (domain (bad_request (text "customer_id is required"))), w)
      else (let (r, w') = get_position customer_id (e.now w.step) w in
          elim r [ err cause ↦ (err cause, w') | ok p ↦ (ok (position_dto p), w') ])
