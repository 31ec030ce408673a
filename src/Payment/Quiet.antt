-- ===== src/Payment/Quiet.antt =====
-- Which calls of the service leave the stream and the result cache alone, and what the others add.
use asset_repayment_service.Prelude.{
  ℕ, ◌≡◌, refl, ◌⊎◌, inl, inr, Option, List, ◌∷◌, arith, ◌∙◌, Bool-cases,
}
use asset_repayment_service.Prelude.Text.{Str, trim_space}
use asset_repayment_service.Errors.{Result-cases}
use asset_repayment_service.Money.Decimal.{Decimal}
use asset_repayment_service.Money.Currency.{Unicode}
use asset_repayment_service.Deployment.Clock.{Time}
use asset_repayment_service.Deployment.Contracts.{Ref, to_ref}
use asset_repayment_service.Deployment.Entity.{Deployment}
use asset_repayment_service.Deployment.Service.{resolve, resolve_stored, resolve_found}
use asset_repayment_service.Payment.Entity.{
  ValidatedNotification, PaymentResult, ApplyInput, RecordInput, Outcome,
}
use asset_repayment_service.Payment.Service.{record_only}
use asset_repayment_service.Payment.Effects.{record_input}
use asset_repayment_service.Database.Tables.{Db, Fetched}
use asset_repayment_service.Database.Statements.{
  record_statement, select_payment, select_deployment, select_customer,
}
use asset_repayment_service.World.State.{
  Environment, World, query, Fault, healthy, refused, reply_lost,
}
use asset_repayment_service.World.Cache.{
  get_ref, set_ref, set_result, write_through, trimmed_payment,
}
use asset_repayment_service.World.Repository.{
  get_by_customer_id, get_by_reference, deployment_by_id, replay_with, replay, apply_payment,
  stored_duplicate, record_payment,
}
use asset_repayment_service.World.Effects.{applying_at}

-- Two calls in a row, each of which leaves two parts of the state as they are.
pub both_unchanged {ℓ κ} :
    {X : Type ℓ} {Y : Type κ} {a b c : X} {p q r : Y}
    → (b ≡ a) × (q ≡ p)
    → (c ≡ b) × (r ≡ q)
    → (c ≡ a) × (r ≡ p)
both_unchanged (first, first') (second, second') = (second ∙ first, second' ∙ first')

pub write_through-cases :
    {V : Type 0} (fault : Fault) (old new : List (Str × V))
    → (write_through fault old new ≡ old) ⊎ (write_through fault old new ≡ new)
write_through-cases healthy old new = inr refl
write_through-cases (refused m) old new = inl refl
write_through-cases (reply_lost m) old new = inr refl

module _ {A : Type 0} where
  -- The stream and the result cache stay as they are.
  abbrev pub IsQuiet : World A → World A → Type 0
  IsQuiet w w' = (w'.stream ≡ w.stream) × (w'.results ≡ w.results)

  -- The result cache has gained one entry under the key at most.
  abbrev pub IsFiled : Str → World A → World A → Type 0
  IsFiled key w w' =
      (w'.results ≡ w.results) ⊎ ((x : PaymentResult A) × (w'.results ≡ (key, x) ∷ w.results))

module _ {A : Type 0} ⦃e : Environment⦄ where
  pub query-IsQuiet :
      {R : Type 0} (statement : Time → Str → Db A → Fetched R × Db A) (w : World A)
      → IsQuiet w (query statement w).1
  unfolding query
  query-IsQuiet statement w = ground arith

  get_ref-IsQuiet : (c : Str) (w : World A) → IsQuiet w (get_ref c w).1
  unfolding get_ref
  get_ref-IsQuiet c w = ground arith

  pub set_ref-IsQuiet : (r : Ref A) (w : World A) → IsQuiet w (set_ref r w)
  unfolding set_ref
  set_ref-IsQuiet r w = ground arith

  -- A write to the result cache adds one entry or none.
  pub set_result-entries :
      (key : Str) (r : PaymentResult A) (w : World A)
      → ((set_result key r w).stream ≡ w.stream) × IsFiled key w (set_result key r w)
  unfolding set_result
  set_result-entries key r w = elim (Bool-cases w.cache_on) [
    | inl on ↦
        let shown = record r { payment = trimmed_payment r.payment } in
        (
          ground arith,
          elim (write_through-cases (e.fault w.step) w.results ((key, shown) ∷ w.results)) [
            | inl lost ↦ inl (ground arith)
            | inr written ↦ inr (shown, ground arith)
          ],
        )
    | inr off ↦ (ground arith, inl (ground arith))
  ]

module _ {A : Type 0} ⦃d : Decimal A⦄ ⦃u : Unicode⦄ ⦃e : Environment⦄ where
  pub get_by_customer_id-IsQuiet : (c : Str) (w : World A) → IsQuiet w (get_by_customer_id c w).1
  unfolding get_by_customer_id
  get_by_customer_id-IsQuiet c w = ground (arith, query-IsQuiet (λ _ _. select_customer c) w)

  resolve_found-IsQuiet : (x : Deployment A) (w : World A) → IsQuiet w (resolve_found x w).1
  unfolding resolve_found
  resolve_found-IsQuiet x w = ground (arith, set_ref-IsQuiet (to_ref x) w)

  resolve_stored-IsQuiet : (c : Str) (w : World A) → IsQuiet w (resolve_stored c w).1
  unfolding resolve_stored
  resolve_stored-IsQuiet c w = elim (Result-cases (get_by_customer_id c w).0) [
    | inl (x, found) ↦
        rw (found, resolve_stored)
          (both_unchanged (get_by_customer_id-IsQuiet c w)
            (resolve_found-IsQuiet x (get_by_customer_id c w).1))
    | inr (cause, failed) ↦ rw (failed, resolve_stored) (get_by_customer_id-IsQuiet c w)
  ]

  pub resolve-IsQuiet : (c : Str) (w : World A) → IsQuiet w (resolve c w).1
  unfolding resolve
  resolve-IsQuiet c w =
      let key = trim_space c in
      ground (arith, get_ref-IsQuiet key w, resolve_stored-IsQuiet key (get_ref key w).1)

  get_by_reference-IsQuiet : (r : Str) (w : World A) → IsQuiet w (get_by_reference r w).1
  unfolding get_by_reference
  get_by_reference-IsQuiet r w = ground (arith, query-IsQuiet (λ _ _. select_payment r) w)

  deployment_by_id-IsQuiet : (id : ℕ) (w : World A) → IsQuiet w (deployment_by_id id w).1
  unfolding deployment_by_id
  deployment_by_id-IsQuiet id w = ground (arith, query-IsQuiet (λ _ _. select_deployment id) w)

  replay-IsQuiet : (input : ApplyInput A) (w : World A) → IsQuiet w (replay input w).1
  unfolding replay replay_with
  replay-IsQuiet input w =
      let reference = input.notification.reference in
      ground (
        arith,
        get_by_reference-IsQuiet reference w,
        deployment_by_id-IsQuiet input.deployment_id (get_by_reference reference w).1,
      )

  pub apply_payment-IsQuiet :
      (input : ApplyInput A) (w : World A) → IsQuiet w (apply_payment input w).1
  unfolding apply_payment
  apply_payment-IsQuiet input w =
      let r = query (applying_at input w) w in
      ground (arith, query-IsQuiet (applying_at input w) w, replay-IsQuiet input r.1)

  record_payment-IsQuiet :
      (input : RecordInput A) (w : World A) → IsQuiet w (record_payment input w).1
  unfolding record_payment stored_duplicate
  record_payment-IsQuiet input w =
      let r = query (record_statement input) w in
      ground (
        arith,
        query-IsQuiet (record_statement input) w,
        get_by_reference-IsQuiet input.notification.reference r.1,
      )

  pub record_only-IsQuiet :
      (v : ValidatedNotification A) (o : Outcome) (id : Option ℕ) (w : World A)
      → IsQuiet w (record_only v o id w).1
  unfolding record_only
  record_only-IsQuiet v o id w = elim (Result-cases (record_payment (record_input v o id) w).0) [
    | inl (x, done) ↦ rw (done, record_only) (record_payment-IsQuiet (record_input v o id) w)
    | inr (cause, failed) ↦
        rw (failed, record_only) (record_payment-IsQuiet (record_input v o id) w)
  ]
