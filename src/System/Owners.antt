-- ===== src/System/Owners.antt =====
-- Whose deployment money goes to, at every moment of the service's life.
use asset_repayment_service.Prelude.{◌≡◌, refl, inl, inr, ◌∷◌, arith}
use asset_repayment_service.Prelude.Text.{Str, trim_space}
use asset_repayment_service.Errors.{ok, Result-cases}
use asset_repayment_service.Money.Decimal.{Decimal}
use asset_repayment_service.Money.Currency.{Unicode}
use asset_repayment_service.Deployment.Clock.{Floats, Time}
use asset_repayment_service.Deployment.Contracts.{CreateInput, to_ref}
use asset_repayment_service.Deployment.Entity.{Deployment}
use asset_repayment_service.Deployment.Registration.{create-cases, prepared}
use asset_repayment_service.Deployment.Routing.{
  set_ref-AllRouted, refs-query, refs-get_by_customer_id,
}
use asset_repayment_service.Deployment.Service.{Defaults, stored_create, create, get_position}
use asset_repayment_service.Payment.Validate.{Calendar}
use asset_repayment_service.Payment.Service.{Codec}
use asset_repayment_service.Payment.Owners.{
  IsAttributed, RoutesTo, fair-IsAttributed, same_parts-IsAttributed, accept-IsAttributed,
}
use asset_repayment_service.Database.Rows.{DeploymentModel, deployment_to_domain}
use asset_repayment_service.Database.Tables.{Db, row, find_deployment}
use asset_repayment_service.Database.Statements.{create_statement}
use asset_repayment_service.Database.Owners.{Owns, IsFair, same-IsFair, create_statement-IsFair}
use asset_repayment_service.World.State.{Environment, World, query}
use asset_repayment_service.World.Cache.{set_ref}
use asset_repayment_service.World.Repository.{create_deployment}
use asset_repayment_service.World.Effects.{
  Reply-cases, query-found, db-create_deployment, db-set_ref,
}
use asset_repayment_service.Queue.Sound.{run_round-IsAttributed, reclaim_round-IsAttributed}
use asset_repayment_service.System.Startup.{start, start-IsUntouched}
use asset_repayment_service.System.Steps.{
  Step, notify, register, inquire, work, reclaim, look, restart, Steps, started, then_step,
}
use asset_repayment_service.System.Writes.{db-get_position}

module _ {A : Type 0} ⦃d : Decimal A⦄ where
  create_statement-Owns :
      (input : CreateInput A) (now : Time) (uuid : Str) (db : Db A) (x : DeploymentModel A)
      → (create_statement input now uuid db).0 ≡ row x
      → Owns (create_statement input now uuid db).1.deployments x.id x.customer_id
  unfolding create_statement find_deployment
  create_statement-Owns input now uuid db x h =
      let first : (create_statement input now uuid db).1.deployments ≡ x ∷ db.deployments =
        ground arith in
      rw first (record { x = x; found = ground arith; own = refl })

module _ {A : Type 0} ⦃d : Decimal A⦄ ⦃u : Unicode⦄ ⦃e : Environment⦄ where
  create_deployment-Owns :
      (input : CreateInput A) (w : World A) (x : Deployment A)
      → (create_deployment input w).0 ≡ ok x
      → Owns (create_deployment input w).1.db.deployments x.id x.customer_id
  unfolding create_deployment deployment_to_domain
  create_deployment-Owns input w x h = elim (Reply-cases (query (create_statement input) w).0) [
    | inl (r, read) ↦
        let (answer, effect) = query-found (create_statement input) w r read in
        let made = create_statement-Owns input (e.now w.step) (e.uuid w.step) w.db r answer in
        let same : x ≡ deployment_to_domain r = ground arith in
        let tables : (create_deployment input w).1.db
            ≡ (create_statement input (e.now w.step) (e.uuid w.step) w.db).1 =
          ground arith in
        rw (tables, same) made
    | inr (inl nothing) ↦ ground arith
    | inr (inr (cause, lost)) ↦ ground arith
  ]

  create_deployment-IsAttributed :
      (input : CreateInput A) (w : World A)
      → IsAttributed w
      → IsAttributed (create_deployment input w).1
  unfolding create_deployment
  create_deployment-IsAttributed input w sound =
      let after = (create_deployment input w).1 in
      let same : after.refs ≡ w.refs = ground (arith, refs-query (create_statement input) w) in
      let fair : IsFair w.db after.db = elim (db-create_deployment input w) [
        | inl idle ↦ same-IsFair w.db after.db idle sound.owned
        | inr ran ↦
            rw ran (create_statement-IsFair input (e.now w.step) (e.uuid w.step) w.db sound.owned)
      ] in
      fair-IsAttributed w after fair (rw same (sound.routes))

  stored_create-IsAttributed :
      (input : CreateInput A) (w : World A)
      → IsAttributed w
      → IsAttributed (stored_create input w).1
  unfolding stored_create to_ref
  stored_create-IsAttributed input w sound =
      let after = (create_deployment input w).1 in
      let kept = create_deployment-IsAttributed input w sound in
      elim (Result-cases (create_deployment input w).0) [
        | inl (x, done) ↦
            let filed = set_ref (to_ref x) after in
            let same = db-set_ref (to_ref x) after in
            rw (done, stored_create)
              (fair-IsAttributed after filed (same-IsFair after.db filed.db same kept.owned) (
                set_ref-AllRouted (RoutesTo after.db) (to_ref x) after
                  (create_deployment-Owns input w x done) kept.routes))
        | inr (cause, failed) ↦ rw (failed, stored_create) kept
      ]

  create-IsAttributed :
      (defaults : Defaults A) (given : CreateInput A) (w : World A)
      → IsAttributed w
      → IsAttributed (create defaults given w).1
  create-IsAttributed defaults given w sound = elim (create-cases defaults given w) [
    | inl (cause, refused) ↦ rw refused sound
    | inr (allowed, stored) ↦
        rw stored (stored_create-IsAttributed (prepared defaults given w) w sound)
  ]

module _ {A : Type 0} ⦃d : Decimal A⦄ ⦃u : Unicode⦄ ⦃e : Environment⦄ ⦃f : Floats⦄ where
  refs-get_position :
      (customer_id : Str) (as_of : Time) (w : World A)
      → (get_position customer_id as_of w).1.refs ≡ w.refs
  unfolding get_position
  refs-get_position customer_id as_of w =
      ground (arith, refs-get_by_customer_id (trim_space customer_id) w)

module _ {A : Type 0} ⦃d : Decimal A⦄ ⦃u : Unicode⦄ ⦃e : Environment⦄ ⦃f : Floats⦄ ⦃l : Calendar⦄
    ⦃c : Codec A⦄ where
  Step-IsAttributed : {w w' : World A} → Step w w' → IsAttributed w → IsAttributed w'
  Step-IsAttributed (notify settings n raw w) sound = accept-IsAttributed settings n raw w sound
  Step-IsAttributed (register defaults input w) sound = create-IsAttributed defaults input w sound
  Step-IsAttributed (inquire customer_id as_of w) sound =
      same_parts-IsAttributed w (get_position customer_id as_of w).1
        (db-get_position customer_id as_of w) (refs-get_position customer_id as_of w) sound
  Step-IsAttributed (work q w) sound = run_round-IsAttributed q w sound
  Step-IsAttributed (reclaim q w) sound = reclaim_round-IsAttributed q w sound
  Step-IsAttributed (look w) sound = record { owned = sound.owned; routes = sound.routes }
  Step-IsAttributed (restart ⦃m⦄ config w) sound =
      let (tables, refs, stream, results) = start-IsUntouched ⦃m = m⦄ config w in
      same_parts-IsAttributed w (start ⦃m = m⦄ config w).1 tables refs sound

  -- Money never goes to the deployment of another customer: when the entries of the ledger have moved
  -- money to deployments of the customers that they name only, up to surrounding spaces, and the
  -- routing cache names deployments of its customers only, this is still so after any requests, rounds
  -- of workers and of the reclaimer, and restarts, in any order and under any faults of the network.
  pub Steps-IsAttributed : {w w' : World A} → IsAttributed w → Steps w w' → IsAttributed w'
  Steps-IsAttributed sound started = sound
  Steps-IsAttributed sound (then_step path step) =
      Step-IsAttributed step (Steps-IsAttributed sound path)
