-- ===== src/System/Writes.antt =====
-- What registrations, positions and enqueued notifications do to the stream and to the cache.
use asset_repayment_service.Prelude.{◌≡◌, refl, inl, inr, arith}
use asset_repayment_service.Prelude.Text.{Str, trim_space}
use asset_repayment_service.Errors.{Result-cases}
use asset_repayment_service.Money.Decimal.{Decimal}
use asset_repayment_service.Money.Currency.{Unicode}
use asset_repayment_service.Deployment.Clock.{Floats, Time}
use asset_repayment_service.Deployment.Contracts.{CreateInput, to_ref}
use asset_repayment_service.Deployment.Service.{Defaults, stored_create, create, get_position}
use asset_repayment_service.Deployment.Registration.{create-cases, prepared}
use asset_repayment_service.Payment.Quiet.{
  IsQuiet, both_unchanged, query-IsQuiet, set_ref-IsQuiet, get_by_customer_id-IsQuiet,
}
use asset_repayment_service.Database.Statements.{create_statement}
use asset_repayment_service.World.State.{Environment, World}
use asset_repayment_service.World.Repository.{create_deployment}
use asset_repayment_service.World.Effects.{db-get_by_customer_id}

module _ {A : Type 0} ⦃d : Decimal A⦄ ⦃u : Unicode⦄ ⦃e : Environment⦄ where
  create_deployment-IsQuiet :
      (input : CreateInput A) (w : World A) → IsQuiet w (create_deployment input w).1
  unfolding create_deployment
  create_deployment-IsQuiet input w = ground (arith, query-IsQuiet (create_statement input) w)

  stored_create-IsQuiet :
      (input : CreateInput A) (w : World A) → IsQuiet w (stored_create input w).1
  unfolding stored_create
  stored_create-IsQuiet input w =
      let after = (create_deployment input w).1 in
      elim (Result-cases (create_deployment input w).0) [
        | inl (x, done) ↦
            rw (done, stored_create)
              (both_unchanged (create_deployment-IsQuiet input w)
                (set_ref-IsQuiet (to_ref x) after))
        | inr (cause, failed) ↦ rw (failed, stored_create) (create_deployment-IsQuiet input w)
      ]

  pub create-IsQuiet :
      (defaults : Defaults A) (given : CreateInput A) (w : World A)
      → IsQuiet w (create defaults given w).1
  create-IsQuiet defaults given w = elim (create-cases defaults given w) [
    | inl (cause, refused) ↦ rw refused (refl, refl)
    | inr (allowed, stored) ↦ rw stored (stored_create-IsQuiet (prepared defaults given w) w)
  ]

module _ {A : Type 0} ⦃d : Decimal A⦄ ⦃u : Unicode⦄ ⦃e : Environment⦄ ⦃f : Floats⦄ where
  pub get_position-IsQuiet :
      (customer_id : Str) (as_of : Time) (w : World A)
      → IsQuiet w (get_position customer_id as_of w).1
  unfolding get_position
  get_position-IsQuiet customer_id as_of w =
      ground (arith, get_by_customer_id-IsQuiet (trim_space customer_id) w)

  pub db-get_position :
      (customer_id : Str) (as_of : Time) (w : World A)
      → (get_position customer_id as_of w).1.db ≡ w.db
  unfolding get_position
  db-get_position customer_id as_of w =
      ground (arith, db-get_by_customer_id (trim_space customer_id) w)
