-- ===== src/Deployment/Routing.antt =====
-- To whose deployment `Resolve` routes a payment, through the cache and past it.
use asset_repayment_service.Prelude.{
  ◌≡◌, All, inl, inr, some, List, [], ◌∷◌, arith, Bool-cases, Option-cases, subst, sym, ap, ◌∙◌,
}
use mathlib.Core.Option.{none-ne-some}
use asset_repayment_service.Prelude.Text.{Str, str_eq, str_eq→eq, trim_space, is_empty}
use asset_repayment_service.Errors.{Result, ok, Result-cases}
use asset_repayment_service.Money.Decimal.{Decimal}
use asset_repayment_service.Money.Currency.{Unicode}
use asset_repayment_service.Deployment.Contracts.{Ref, to_ref}
use asset_repayment_service.Deployment.Entity.{Deployment, is_open}
use asset_repayment_service.Deployment.Service.{resolve, resolve_stored, resolve_found}
use asset_repayment_service.Deployment.Clock.{Time}
use asset_repayment_service.Database.Tables.{Db, Fetched}
use asset_repayment_service.Database.Rows.{DeploymentModel, deployment_to_domain}
use asset_repayment_service.Database.Statements.{best_deployment, select_customer}
use asset_repayment_service.World.State.{
  Environment, World, query, Fault, healthy, refused, reply_lost,
}
use asset_repayment_service.World.Cache.{get_ref, set_ref, lookup_entry, write_through}
use asset_repayment_service.World.Repository.{get_by_customer_id}
use asset_repayment_service.World.Effects.{Reply-cases, query-found, db-get_ref}

module _ {A : Type 0} ⦃d : Decimal A⦄ where
  pub best_deployment-own :
      (c : Str) (rows : List (DeploymentModel A)) (x : DeploymentModel A)
      → best_deployment c rows ≡ some x
      → x.customer_id ≡ c
  unfolding best_deployment
  best_deployment-own c [] x h = absurd (none-ne-some _ h)
  best_deployment-own c (y ∷ rows) x h = elim (Option-cases (best_deployment c rows)) [
    | inl alone ↦ ground (arith, str_eq→eq y.customer_id c)
    | inr (z, more) ↦ ground (
      arith,
      str_eq→eq y.customer_id c,
      best_deployment-own c rows z more,
      best_deployment-own c rows x,
    )
  ]

-- A property `P c r` of the routing entries `r` of customers `c`, through `Resolve`.
module _ {A : Type 0} (P : Str → Ref A → Type 0) where
  abbrev pub AllRouted : List (Str × Ref A) → Type 0
  AllRouted refs = All (λ (entry : Str × Ref A). P entry.0 entry.1) refs

  lookup_entry-routed :
      (key : Str) (refs : List (Str × Ref A)) (r : Ref A)
      → AllRouted refs
      → lookup_entry key refs ≡ some r
      → P key r
  unfolding lookup_entry
  lookup_entry-routed key [] r sound h = absurd (none-ne-some _ h)
  lookup_entry-routed key ((k, v) ∷ refs) r (first, rest) h = elim (Bool-cases (str_eq k key)) [
    | inl hit ↦
        let same : v ≡ r = ground arith in
        subst (λ x. P key x) same (subst (λ c. P c v) (str_eq→eq k key hit) first)
    | inr other ↦ lookup_entry-routed key refs r rest (ground arith)
  ]

  write_through-AllRouted :
      (fault : Fault) (refs : List (Str × Ref A)) (r : Ref A)
      → P r.customer_id r
      → AllRouted refs
      → AllRouted (write_through fault refs ((r.customer_id, r) ∷ refs))
  write_through-AllRouted healthy refs r own sound = (own, sound)
  write_through-AllRouted (refused m) refs r own sound = sound
  write_through-AllRouted (reply_lost m) refs r own sound = (own, sound)

module _ {A : Type 0} ⦃e : Environment⦄ where
  pub refs-get_ref : (key : Str) (w : World A) → (get_ref key w).1.refs ≡ w.refs
  unfolding get_ref
  refs-get_ref key w = ground arith

  pub refs-query :
      {R : Type 0} (statement : Time → Str → Db A → Fetched R × Db A) (w : World A)
      → (query statement w).1.refs ≡ w.refs
  unfolding query
  refs-query statement w = ground arith

module _ {A : Type 0} ⦃e : Environment⦄ (P : Str → Ref A → Type 0) where
  get_ref-routed :
      (key : Str) (w : World A) (r : Ref A)
      → AllRouted P w.refs
      → (get_ref key w).0 ≡ some r
      → P key r
  unfolding get_ref
  get_ref-routed key w r sound h =
      let hit : lookup_entry key w.refs ≡ some r = ground arith in
      lookup_entry-routed P key w.refs r sound hit

  pub set_ref-AllRouted :
      (r : Ref A) (w : World A)
      → P r.customer_id r
      → AllRouted P w.refs
      → AllRouted P (set_ref r w).refs
  unfolding set_ref
  set_ref-AllRouted r w own sound = elim (Bool-cases w.cache_on) [
    | inl on ↦
        let same : (set_ref r w).refs
            ≡ write_through (e.fault w.step) w.refs ((r.customer_id, r) ∷ w.refs) =
          ground arith in
        subst (AllRouted P) (sym same)
          (write_through-AllRouted P (e.fault w.step) w.refs r own sound)
    | inr off ↦
        let same : (set_ref r w).refs ≡ w.refs = ground arith in
        subst (AllRouted P) (sym same) sound
  ]

module _ {A : Type 0} ⦃d : Decimal A⦄ ⦃u : Unicode⦄ ⦃e : Environment⦄ where
  pub refs-get_by_customer_id : (c : Str) (w : World A) → (get_by_customer_id c w).1.refs ≡ w.refs
  unfolding get_by_customer_id
  refs-get_by_customer_id c w = ground (arith, refs-query (λ _ _. select_customer c) w)

  -- The deployment that the repository answers is the best row of the customer.
  get_by_customer_id-best :
      (c : Str) (w : World A) (x : Deployment A)
      → (get_by_customer_id c w).0 ≡ ok x
      → (y : DeploymentModel A) × ((best_deployment c w.db.deployments ≡ some y)
          × (x ≡ deployment_to_domain y))
  unfolding get_by_customer_id select_customer
  get_by_customer_id-best c w x h = elim (Reply-cases (query (λ _ _. select_customer c) w).0) [
    | inl (y, read) ↦
        let (answer, effect) = query-found (λ _ _. select_customer c) w y read in
        (y, (ground arith, ground arith))
    | inr (inl nothing) ↦ ground arith
    | inr (inr (cause, broken)) ↦ ground arith
  ]

module _ {A : Type 0} ⦃d : Decimal A⦄ ⦃u : Unicode⦄ ⦃e : Environment⦄
    (P : Str → Ref A → Type 0) where
  -- What routing a customer keeps and answers.
  abbrev IsRouted : Str → Result (Ref A) × World A → Type 0
  IsRouted c (answer, w) = AllRouted P w.refs × ((r : Ref A) → answer ≡ ok r → P c r)

  resolve_found-IsRouted :
      (c : Str) (x : Deployment A) (w : World A)
      → x.customer_id ≡ c
      → P c (to_ref x)
      → AllRouted P w.refs
      → IsRouted c (resolve_found x w)
  unfolding resolve_found to_ref
  resolve_found-IsRouted c x w own good sound = elim (Bool-cases (is_open x)) [
    | inl opened ↦
        let filed = subst (λ k. P k (to_ref x)) (sym own) good in
        rw (opened, resolve_found)
          (
            set_ref-AllRouted P (to_ref x) w filed sound,
            λ r answered. let same : to_ref x ≡ r = cc in subst (λ y. P c y) same good,
          )
    | inr closed ↦ rw (closed, resolve_found) (sound, λ r answered. absurd cc)
  ]

  -- The rows of the tables that `P` holds of, when a customer is looked up.
  abbrev pub Supplies : World A → Type 0
  Supplies w =
      (c : Str) (y : DeploymentModel A)
      → best_deployment c w.db.deployments ≡ some y
      → P c (to_ref (deployment_to_domain y))

  resolve_stored-IsRouted :
      (c : Str) (w : World A) → Supplies w → AllRouted P w.refs → IsRouted c (resolve_stored c w)
  unfolding resolve_stored deployment_to_domain
  resolve_stored-IsRouted c w supply sound =
      let after = (get_by_customer_id c w).1 in
      let kept = subst (AllRouted P) (sym (refs-get_by_customer_id c w)) sound in
      elim (Result-cases (get_by_customer_id c w).0) [
        | inl (x, read) ↦
            let (y, (best, same)) = get_by_customer_id-best c w x read in
            let own : x.customer_id ≡ c =
              ap (λ (z : Deployment A). z.customer_id) same
              ∙ best_deployment-own c w.db.deployments y best in
            let good = subst (λ (z : Deployment A). P c (to_ref z)) (sym same) (supply c y best) in
            rw (read, resolve_stored) (resolve_found-IsRouted c x after own good kept)
        | inr (cause, failed) ↦ rw (failed, resolve_stored) (kept, λ r answered. absurd cc)
      ]

  pub resolve-IsRouted :
      (given : Str) (w : World A)
      → Supplies w
      → AllRouted P w.refs
      → IsRouted (trim_space given) (resolve given w)
  unfolding resolve
  resolve-IsRouted given w supply sound =
      let key = trim_space given in
      let looked = (get_ref key w).1 in
      let kept = subst (AllRouted P) (sym (refs-get_ref key w)) sound in
      elim (Bool-cases (is_empty key)) [
        | inl blank ↦ rw (blank, resolve) (sound, λ r answered. absurd cc)
        | inr named ↦ elim (Option-cases (get_ref key w).0) [
          | inl miss ↦
              let supplied : Supplies looked = rw (db-get_ref key w) supply in
              rw (named, resolve, miss) (resolve_stored-IsRouted key looked supplied kept)
          | inr (ref, hit) ↦
              let good = get_ref-routed P key w ref sound hit in
              rw (named, resolve, hit)
                (kept, λ r answered. let same : ref ≡ r = cc in subst (λ y. P key y) same good)
        ]
      ]
