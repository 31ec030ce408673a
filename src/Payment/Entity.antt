-- ===== src/Payment/Entity.antt =====
-- The types of entity.go, errors.go and of the contracts in repository.go.
use asset_repayment_service.Prelude.{ℕ, Bool, true, false, Option, List, [], ◌∷◌, if◌then◌else◌}
use asset_repayment_service.Prelude.Text.{Str, text, str_eq, trim_space}
use asset_repayment_service.Errors.{DomainError, bad_request, conflict, too_many_requests}
use asset_repayment_service.Money.Currency.{Currency, Unicode, to_upper}
use asset_repayment_service.Deployment.Clock.{Time}
use asset_repayment_service.Deployment.Entity.{Deployment}
use asset_repayment_service.Deployment.Position.{Position}

-- The payload of the bank, all of it text.
pub record Notification : Type 0 where
  pub customer_id : Str
  pub payment_status : Str
  pub transaction_amount : Str
  pub transaction_date : Str
  pub transaction_reference : Str
  pub currency : Str

pub record ValidatedNotification (A : Type 0) : Type 0 where
  pub customer_id : Str
  pub reference : Str
  pub currency : Currency
  pub amount : A
  pub provider_status : Str
  pub transaction_date : Time
  pub raw_payload : Str
  pub received_at : Time

-- The `Outcome…` constants.
pub data Outcome : Type 0 where
  applied duplicate unmatched ignored queued : Outcome

pub record Payment (A : Type 0) : Type 0 where
  pub uuid : Str
  pub transaction_reference : Str
  pub customer_id : Str
  pub deployment_id : Option ℕ
  pub deployment_uuid : Option Str
  pub currency : Currency
  pub amount : A
  pub applied_amount : A
  pub excess : A
  pub balance_before : A
  pub balance_after : A
  pub outcome : Outcome
  pub provider_status : Str
  pub transaction_date : Time
  pub received_at : Time
  pub created_at : Time
  pub raw_payload : Str

-- errors.go
abbrev pub err_invalid_notification : DomainError
err_invalid_notification = bad_request (text "invalid payment notification")

abbrev pub err_reference_conflict : DomainError
err_reference_conflict =
    conflict (text "transaction_reference has already been used with different details")

abbrev pub err_overloaded : DomainError
err_overloaded = too_many_requests (text "payment ingestion is at capacity, retry shortly")

-- repository.go
pub record ApplyInput (A : Type 0) : Type 0 where
  pub notification : ValidatedNotification A
  pub deployment_id : ℕ

pub record ApplyResult (A : Type 0) : Type 0 where
  pub payment : Option (Payment A)
  pub deployment : Option (Deployment A)
  pub duplicate : Bool

pub record RecordInput (A : Type 0) : Type 0 where
  pub notification : ValidatedNotification A
  pub outcome : Outcome
  pub deployment_id : Option ℕ

-- service.go's `Result`, the outcome of one notification.
pub record PaymentResult (A : Type 0) : Type 0 where
  pub outcome : Outcome
  pub payment : Option (Payment A)
  pub position : Option (Position A)

abbrev success_statuses : List Str
success_statuses = text "COMPLETE" ∷ text "COMPLETED" ∷ text "SUCCESS" ∷ text "SUCCESSFUL" ∷ []

unfoldable pub is_member : Str → List Str → Bool
is_member s [] = false
is_member s (x ∷ xs) = if str_eq s x then true else is_member s xs

-- `IsSuccessful`: only these statuses stand for settled funds.
unfoldable pub is_successful : ⦃u : Unicode⦄ → Str → Bool
unfolding is_member
is_successful provider_status = is_member (to_upper (trim_space provider_status)) success_statuses
