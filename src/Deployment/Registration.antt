-- ===== src/Deployment/Registration.antt =====
-- What `Create` registers.
use asset_repayment_service.Prelude.{
  ◌≡◌, ◌∷◌, suc, true, false, ◌||◌, ◌⊎◌, inl, inr, arith, subst, sym, Bool-cases,
}
use asset_repayment_service.Prelude.Int.{pos, ltb_ℤ, ◌≤ℤ◌}
use asset_repayment_service.Prelude.Text.{is_empty}
use asset_repayment_service.Errors.{GoError, domain, err, Result-cases}
use asset_repayment_service.Money.Decimal.{Decimal}
use asset_repayment_service.Money.Currency.{Unicode}
use asset_repayment_service.Deployment.Entity.{Deployment}
use asset_repayment_service.Deployment.Contracts.{CreateInput, to_ref}
use asset_repayment_service.Deployment.Service.{
  Defaults, max_term_weeks, fill_defaults, fix_start, stored_create, create,
}
use asset_repayment_service.Database.Rows.{DeploymentModel}
use asset_repayment_service.Database.Tables.{Db}
use asset_repayment_service.Database.Statements.{created_row}
use asset_repayment_service.Database.Consistency.{IsConsistent}
use asset_repayment_service.Database.Ledger.{Reach, here, Reach-IsConsistent}
use asset_repayment_service.World.State.{Environment, World}
use asset_repayment_service.World.Repository.{
  create_deployment, err_invalid_customer_id, err_invalid_principal, err_invalid_term,
}
use asset_repayment_service.World.Effects.{db-set_ref, create_deployment-Reach}

module _ {A : Type 0} ⦃d : Decimal A⦄ ⦃u : Unicode⦄ ⦃e : Environment⦄ where
  stored_create-Reach :
      (input : CreateInput A) (w : World A) → Reach w.db (stored_create input w).1.db
  unfolding stored_create
  stored_create-Reach input w =
      let after = (create_deployment input w).1 in
      elim (Result-cases (create_deployment input w).0) [
        | inl (x, done) ↦
            rw (done, stored_create)
              (subst (Reach w.db) (sym (db-set_ref (to_ref x) after))
                (create_deployment-Reach input w))
        | inr (cause, failed) ↦ rw (failed, stored_create) (create_deployment-Reach input w)
      ]

  -- The input that `Create` stores.
  abbrev pub prepared : Defaults A → CreateInput A → World A → CreateInput A
  prepared defaults given w = fix_start (e.now w.step) (fill_defaults defaults given)

  pub record Allowed (input : CreateInput A) : Type 0 where
    customer : is_empty input.customer_id ≡ false
    positive : d.is_positive input.principal ≡ true
    term : (pos 0 ≤ℤ input.term_weeks) × (input.term_weeks ≤ℤ pos max_term_weeks)

  pub create-cases :
      (defaults : Defaults A) (given : CreateInput A) (w : World A)
      → ((cause : GoError) × (create defaults given w ≡ (err cause, w)))
        ⊎ (Allowed (prepared defaults given w)
            × (create defaults given w ≡ stored_create (prepared defaults given w) w))
  unfolding create
  create-cases defaults given w =
      let input = fill_defaults defaults given in
      elim (Bool-cases (is_empty input.customer_id)) [
        | inl nobody ↦ inl (domain err_invalid_customer_id, rw (nobody, create))
        | inr customer ↦ elim (Bool-cases (d.is_positive input.principal)) [
          | inr small ↦ inl (domain err_invalid_principal, rw (customer, small, create))
          | inl positive ↦
              elim (Bool-cases
                (ltb_ℤ input.term_weeks (pos 0) || ltb_ℤ (pos max_term_weeks) input.term_weeks)) [
                  | inl outside ↦
                      inl (domain err_invalid_term, rw (customer, positive, outside, create))
                  | inr inside ↦ inr (
                    record {
                      customer = customer;
                      positive = positive;
                      term = (ground arith, ground arith);
                    },
                    rw (customer, positive, inside, create),
                  )
                ]
        ]
      ]

  pub create-Reach :
      (defaults : Defaults A) (given : CreateInput A) (w : World A)
      → Reach w.db (create defaults given w).1.db
  create-Reach defaults given w = elim (create-cases defaults given w) [
    | inl (cause, p) ↦ rw p here
    | inr (allowed, p) ↦ rw p (stored_create-Reach (prepared defaults given w) w)
  ]

  -- The tables with one deployment more.
  abbrev with_row : DeploymentModel A → Db A → Db A
  with_row x db = record {
    deployments = x ∷ db.deployments;
    payments = db.payments;
    next_id = suc db.next_id;
  }

  -- Consistent books stay consistent when a deployment is registered, or refused.
  pub create-IsConsistent :
      (defaults : Defaults A) (given : CreateInput A) (w : World A)
      → IsConsistent w.db
      → IsConsistent (create defaults given w).1.db
  create-IsConsistent defaults given w books =
      Reach-IsConsistent (create-Reach defaults given w) books

  -- The row that a registration with these data stores.
  abbrev pub new_row : Defaults A → CreateInput A → World A → DeploymentModel A
  new_row defaults given w =
      created_row (prepared defaults given w) (e.now w.step) (e.uuid w.step) w.db.next_id
