-- ===== src/Payment/Owners.antt =====
-- To whose deployment `Process` and `Accept` move money, through the routing cache.
use asset_repayment_service.Prelude.{◌≡◌, inl, inr, List, [], ◌∷◌, drop, subst}
use asset_repayment_service.Prelude.Text.{Str, trim_space}
use asset_repayment_service.Errors.{ok}
use asset_repayment_service.Money.Decimal.{Decimal}
use asset_repayment_service.Money.Currency.{Unicode}
use asset_repayment_service.Deployment.Clock.{Floats}
use asset_repayment_service.Deployment.Contracts.{Ref, to_ref}
use asset_repayment_service.Deployment.Service.{resolve}
use asset_repayment_service.Deployment.Routing.{AllRouted, resolve-IsRouted, best_deployment-own}
use asset_repayment_service.Payment.Invariants.{accept-Holds}
use asset_repayment_service.Payment.Refs.{refs-process}
use asset_repayment_service.Payment.Entity.{Notification, ValidatedNotification}
use asset_repayment_service.Payment.Validate.{Calendar}
use asset_repayment_service.Payment.Service.{Settings, Codec, process, accept}
use asset_repayment_service.Payment.Effects.{
  record_input, apply_input, db-resolve, db-record_only, db-apply_routed, process-path, stopped,
  recorded, moved,
}
use asset_repayment_service.Database.Rows.{deployment_to_domain}
use asset_repayment_service.Database.Tables.{Db}
use asset_repayment_service.Database.Owners.{
  Owns, IsOwned, KeepsOwners, IsFair, same-IsFair, best_deployment-Owns, apply_statement-IsFair,
  record_statement-IsFair,
}
use asset_repayment_service.World.State.{Environment, World}
use asset_repayment_service.World.Effects.{db-apply_payment, db-record_payment}

module _ {A : Type 0} where
  -- A routing entry names a deployment of its customer.
  abbrev pub RoutesTo : Db A → Str → Ref A → Type 0
  RoutesTo db c r = Owns db.deployments r.id c

  -- Money goes where it belongs: the entries of the ledger moved it to deployments of the customers
  -- that they name, and the routing cache names deployments of its customers.
  pub record IsAttributed (w : World A) : Type 0 where
    pub owned : IsOwned w.db
    pub routes : AllRouted (RoutesTo w.db) w.refs

  AllRouted-keeps :
      (a b : Db A) (refs : List (Str × Ref A))
      → KeepsOwners a b
      → AllRouted (RoutesTo a) refs
      → AllRouted (RoutesTo b) refs
  AllRouted-keeps a b [] keeps h = tt
  AllRouted-keeps a b ((c, r) ∷ refs) keeps (first, rest) =
      (keeps r.id c first, AllRouted-keeps a b refs keeps rest)

  pub fair-IsAttributed :
      (w w' : World A) → IsFair w.db w'.db → AllRouted (RoutesTo w.db) w'.refs → IsAttributed w'
  fair-IsAttributed w w' (owned, keeps) routes = record {
    owned = owned;
    routes = AllRouted-keeps w.db w'.db w'.refs keeps routes;
  }

  pub same_parts-IsAttributed :
      (w w' : World A) → w'.db ≡ w.db → w'.refs ≡ w.refs → IsAttributed w → IsAttributed w'
  same_parts-IsAttributed w w' tables same sound = record {
    owned = rw tables (sound.owned);
    routes = rw (tables, same) (sound.routes);
  }

module _ {A : Type 0} ⦃d : Decimal A⦄ ⦃u : Unicode⦄ ⦃e : Environment⦄ ⦃f : Floats⦄ where
  resolve-Owns :
      (v : ValidatedNotification A) (w : World A)
      → IsAttributed w
      → AllRouted (RoutesTo w.db) (resolve v.customer_id w).1.refs
        × ((r : Ref A)
            → (resolve v.customer_id w).0 ≡ ok r
            → Owns w.db.deployments r.id (trim_space v.customer_id))
  unfolding to_ref deployment_to_domain
  resolve-Owns v w sound =
      resolve-IsRouted (RoutesTo w.db) v.customer_id w
        (λ c y best.
          best_deployment-Owns w.db.next_id c w.db.deployments y sound.owned.ids best
            (best_deployment-own c w.db.deployments y best))
        sound.routes

  process-IsFair :
      (v : ValidatedNotification A) (w : World A) → IsAttributed w → IsFair w.db (process v w).1.db
  process-IsFair v w sound =
      let routed = (resolve v.customer_id w).1 in
      let same = db-resolve v.customer_id w in
      let owned : IsOwned routed.db = rw same (sound.owned) in
      let through : (b : Db A) → IsFair routed.db b → IsFair w.db b =
        λ b h. subst (λ a. IsFair a b) same h in
      elim (process-path v w) [
        | stopped cause p ↦ rw p (same-IsFair w.db routed.db same sound.owned)
        | recorded o id ne p ↦
            rw (p, db-record_only v o id routed)
              (through _ (elim (db-record_payment (record_input v o id) routed) [
                | inl idle ↦ same-IsFair routed.db _ idle owned
                | inr ran ↦ rw ran (
                    record_statement-IsFair (record_input v o id) (e.now routed.step)
                      (e.uuid routed.step) routed.db ne owned)
              ]))
        | moved ref found settled p ↦
            rw (p, db-apply_routed v ref.id routed)
              (let owner = (resolve-Owns v w sound).1 ref found in
                let here : Owns routed.db.deployments ref.id (trim_space v.customer_id) =
                  rw same owner in
                through _ (elim (db-apply_payment (apply_input v ref.id) routed) [
                  | inl idle ↦ same-IsFair routed.db _ idle owned
                  | inr ran ↦ rw ran (
                      apply_statement-IsFair (drop (e.lag routed.step) routed.db.payments)
                        (apply_input v ref.id) (e.now routed.step) (e.uuid routed.step) routed.db
                        here owned)
                ]))
      ]

  pub process-IsAttributed :
      (v : ValidatedNotification A) (w : World A) → IsAttributed w → IsAttributed (process v w).1
  process-IsAttributed v w sound =
      fair-IsAttributed w (process v w).1 (process-IsFair v w sound)
        (rw (refs-process v w) ((resolve-Owns v w sound).0))

module _ {A : Type 0} ⦃d : Decimal A⦄ ⦃u : Unicode⦄ ⦃e : Environment⦄ ⦃f : Floats⦄ ⦃l : Calendar⦄
    ⦃c : Codec A⦄ where
  pub accept-IsAttributed :
      (settings : Settings) (n : Notification) (raw : Str) (w : World A)
      → IsAttributed w
      → IsAttributed (accept settings n raw w).1
  accept-IsAttributed settings n raw w sound =
      accept-Holds IsAttributed (λ a b same. same_parts-IsAttributed a b same.0 same.2)
        process-IsAttributed settings n raw w sound
