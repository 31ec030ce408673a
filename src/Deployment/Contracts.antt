-- ===== src/Deployment/Contracts.antt =====
-- repository.go: the input of `Create`, and the immutable subset that routes a payment.
use asset_repayment_service.Prelude.{ℕ}
use asset_repayment_service.Prelude.Int.{ℤ}
use asset_repayment_service.Prelude.Text.{Str}
use asset_repayment_service.Money.Currency.{Currency}
use asset_repayment_service.Deployment.Clock.{Time}
use asset_repayment_service.Deployment.Entity.{Deployment}

pub record CreateInput (A : Type 0) : Type 0 where
  pub customer_id : Str
  pub asset_id : Str
  pub asset_type : Str
  pub virtual_account_number : Str
  pub currency : Currency
  pub principal : A
  pub term_weeks : ℤ
  pub start_date : Time

pub record Ref (A : Type 0) : Type 0 where
  pub id : ℕ
  pub uuid : Str
  pub customer_id : Str
  pub asset_id : Str
  pub currency : Currency
  pub principal : A
  pub term_weeks : ℤ
  pub start_date : Time

unfoldable pub to_ref : {A : Type 0} → Deployment A → Ref A
to_ref x = record {
  id = x.id;
  uuid = x.uuid;
  customer_id = x.customer_id;
  asset_id = x.asset_id;
  currency = x.currency;
  principal = x.principal;
  term_weeks = x.term_weeks;
  start_date = x.start_date;
}
