-- ===== src/Payment/CacheSound.antt =====
-- What `Process` and `Accept` do to the result cache and to the stream.
use asset_repayment_service.Prelude.{
  ℕ, ◌≡◌, refl, All, true, ◌⊎◌, inl, inr, List, [], ◌∷◌, subst, sym, ◌∙◌, ap, Bool-cases,
  Option-cases,
}
use asset_repayment_service.Prelude.Text.{Str}
use asset_repayment_service.Errors.{Result-cases}
use asset_repayment_service.Money.Decimal.{Decimal}
use asset_repayment_service.Money.Currency.{Unicode}
use asset_repayment_service.Deployment.Clock.{Floats}
use asset_repayment_service.Deployment.Service.{resolve}
use asset_repayment_service.Payment.Entity.{
  ValidatedNotification, Notification, PaymentResult, ApplyResult,
}
use asset_repayment_service.Payment.Validate.{Calendar}
use asset_repayment_service.Payment.Service.{
  Settings, Codec, applied_result, apply_routed, process, same_request, accept,
}
use asset_repayment_service.Payment.Effects.{
  apply_input, db-applied_result, process-path, stopped, recorded, moved, process-Reach,
}
use asset_repayment_service.Payment.Invariants.{accept-Holds}
use asset_repayment_service.Payment.Quiet.{
  IsFiled, set_result-entries, resolve-IsQuiet, apply_payment-IsQuiet, record_only-IsQuiet,
}
use asset_repayment_service.Payment.Once.{apply_payment-ok}
use asset_repayment_service.Payment.Acknowledged.{IsCacheSound}
use asset_repayment_service.Database.Tables.{Db, has_reference}
use asset_repayment_service.Database.Ledger.{Reach, here, has_reference-Reach}
use asset_repayment_service.World.State.{Environment, World}
use asset_repayment_service.World.Repository.{apply_payment}

module _ {A : Type 0} ⦃d : Decimal A⦄ where
  abbrev AllListed : Db A → List (Str × PaymentResult A) → Type 0
  AllListed db entries =
      All (λ (entry : Str × PaymentResult A). has_reference entry.0 db.payments ≡ true) entries

  AllListed-Reach :
      {a b : Db A} (entries : List (Str × PaymentResult A))
      → Reach a b
      → AllListed a entries
      → AllListed b entries
  AllListed-Reach [] path h = tt
  AllListed-Reach ((key, r) ∷ entries) path (first, rest) =
      (has_reference-Reach key path first, AllListed-Reach entries path rest)

  -- A cache that stays as it is stays sound, since the ledger only grows.
  pub quiet_sound :
      (w w' : World A)
      → Reach w.db w'.db
      → w'.results ≡ w.results
      → IsCacheSound w
      → IsCacheSound w'
  quiet_sound w w' path same sound =
      subst (AllListed w'.db) (sym same) (AllListed-Reach w.results path sound)

  pub same_parts_sound :
      (w w' : World A) → w'.db ≡ w.db → w'.results ≡ w.results → IsCacheSound w → IsCacheSound w'
  same_parts_sound w w' tables same = quiet_sound w w' (subst (Reach w.db) (sym tables) here) same

module _ {A : Type 0} ⦃d : Decimal A⦄ ⦃u : Unicode⦄ ⦃e : Environment⦄ ⦃f : Floats⦄ where
  applied_result-IsFiled :
      (v : ValidatedNotification A) (r : ApplyResult A) (w : World A)
      → ((applied_result v r w).1.stream ≡ w.stream)
        × IsFiled v.reference w (applied_result v r w).1
  unfolding applied_result
  applied_result-IsFiled v r w = elim (Bool-cases r.duplicate) [
    | inl again ↦ elim (Option-cases (same_request r.payment v)) [
      | inl same ↦ rw (again, same, applied_result) (refl, inl refl)
      | inr (conflict, other) ↦ rw (again, other, applied_result) (refl, inl refl)
    ]
    | inr first ↦ rw (first, applied_result) (set_result-entries v.reference _ w)
  ]

  -- The result cache has gained one entry at most, which the ledger lists.
  abbrev IsListed : Str → World A → World A → Type 0
  IsListed key w w' =
      (w'.results ≡ w.results)
      ⊎ ((x : PaymentResult A) × (w'.results ≡ (key, x) ∷ w.results)
          × (has_reference key w'.db.payments ≡ true))

  apply_routed-IsListed :
      (v : ValidatedNotification A) (id : ℕ) (w : World A)
      → ((apply_routed v id w).1.stream ≡ w.stream) × IsListed v.reference w (apply_routed v id w).1
  unfolding apply_routed
  apply_routed-IsListed v id w =
      let called = apply_payment (apply_input v id) w in
      let quiet = apply_payment-IsQuiet (apply_input v id) w in
      elim (Result-cases called.0) [
        | inr (cause, failed) ↦ rw (failed, apply_routed) (quiet.0, inl quiet.1)
        | inl (x, done) ↦
            let listed = apply_payment-ok (apply_input v id) w x done in
            let filed = applied_result-IsFiled v x called.1 in
            rw (done, apply_routed)
              (
                filed.0 ∙ quiet.0,
                elim filed.1 [
                  | inl same ↦ inl (same ∙ quiet.1)
                  | inr (y, added) ↦ inr (
                    y,
                    added ∙ ap (λ entries. (v.reference, y) ∷ entries) quiet.1,
                    rw (db-applied_result v x called.1) (listed.0),
                  )
                ],
              )
      ]

  process-IsListed :
      (v : ValidatedNotification A) (w : World A)
      → ((process v w).1.stream ≡ w.stream) × IsListed v.reference w (process v w).1
  process-IsListed v w =
      let routed = (resolve v.customer_id w).1 in
      let quiet = resolve-IsQuiet v.customer_id w in
      elim (process-path v w) [
        | stopped cause p ↦ rw p (quiet.0, inl quiet.1)
        | recorded o id ne p ↦ rw p (
            let recording = record_only-IsQuiet v o id routed in
            (recording.0 ∙ quiet.0, inl (recording.1 ∙ quiet.1)))
        | moved ref found settled p ↦ rw p (
            let moving = apply_routed-IsListed v ref.id routed in
            (
              moving.0 ∙ quiet.0,
              elim moving.1 [
                | inl same ↦ inl (same ∙ quiet.1)
                | inr (x, added, listed) ↦
                    inr (x, added ∙ ap (λ entries. (v.reference, x) ∷ entries) quiet.1, listed)
              ],
            ))
      ]

  -- `Process` does not touch the stream.
  pub stream-process :
      (v : ValidatedNotification A) (w : World A) → (process v w).1.stream ≡ w.stream
  stream-process v w = (process-IsListed v w).0

  -- `Process` files in the result cache a reference that the ledger has by then, or nothing.
  pub process-IsCacheSound :
      (v : ValidatedNotification A) (w : World A) → IsCacheSound w → IsCacheSound (process v w).1
  process-IsCacheSound v w sound = elim (process-IsListed v w).1 [
    | inl same ↦ quiet_sound w (process v w).1 (process-Reach v w) same sound
    | inr (x, added, listed) ↦
        subst (AllListed (process v w).1.db) (sym added)
          (listed, AllListed-Reach w.results (process-Reach v w) sound)
  ]

module _ {A : Type 0} ⦃d : Decimal A⦄ ⦃u : Unicode⦄ ⦃e : Environment⦄ ⦃f : Floats⦄ ⦃l : Calendar⦄
    ⦃c : Codec A⦄ where
  -- When every entry of the result cache is under a reference that the ledger lists, this is still
  -- so after `Accept`, whatever the network does to its calls: on a refused notification, a cached
  -- answer, an enqueued notification, and on every path of inline processing.
  pub accept-IsCacheSound :
      (settings : Settings) (n : Notification) (raw : Str) (w : World A)
      → IsCacheSound w
      → IsCacheSound (accept settings n raw w).1
  accept-IsCacheSound settings n raw w sound =
      accept-Holds IsCacheSound (λ a b same. same_parts_sound a b same.0 same.1)
        process-IsCacheSound settings n raw w sound
