-- ===== src/Payment/Effects.antt =====
-- What a notification does to the tables, on every path of `Process` and `Accept` and under every
-- fault of the network.
use asset_repayment_service.Prelude.{
  ℕ, ◌≡◌, ◌≢◌, refl, true, inl, inr, Option, none, some, arith, subst, sym, ◌∙◌, Bool-cases,
  Option-cases,
}
use asset_repayment_service.Prelude.Text.{Str, trim_space}
use asset_repayment_service.Errors.{GoError, ok, err, Result-cases}
use asset_repayment_service.Money.Decimal.{Decimal}
use asset_repayment_service.Money.Currency.{Unicode}
use asset_repayment_service.Deployment.Clock.{Floats}
use asset_repayment_service.Deployment.Entity.{Deployment}
use asset_repayment_service.Deployment.Contracts.{Ref, to_ref}
use asset_repayment_service.Deployment.Service.{resolve_found, resolve_stored, resolve}
use asset_repayment_service.Payment.Entity.{
  Notification, ValidatedNotification, Outcome, applied, unmatched, ignored, ApplyInput,
  RecordInput, ApplyResult, is_successful,
}
use asset_repayment_service.Payment.Validate.{Calendar, validate}
use asset_repayment_service.Payment.Service.{
  Settings, Codec, is_routing_failure, same_request, record_only, applied_result, apply_routed,
  process, append_entry, enqueue, dispatch, accept_valid, accept,
}
use asset_repayment_service.Database.Ledger.{Reach, here}
use asset_repayment_service.Database.Tables.{Db}
use asset_repayment_service.World.State.{Environment, World}
use asset_repayment_service.World.Cache.{get_ref, get_result}
use asset_repayment_service.World.Repository.{get_by_customer_id, apply_payment, record_payment}
use asset_repayment_service.World.Effects.{
  db-get_ref, db-set_ref, db-get_result, db-set_result, db-get_by_customer_id, apply_payment-Reach,
  record_payment-Reach,
}

module _ {A : Type 0} ⦃d : Decimal A⦄ ⦃u : Unicode⦄ ⦃e : Environment⦄ where
  db-resolve_found : (x : Deployment A) (w : World A) → (resolve_found x w).1.db ≡ w.db
  unfolding resolve_found
  db-resolve_found x w = ground (arith, db-set_ref (to_ref x) w)

  db-resolve_stored : (c : Str) (w : World A) → (resolve_stored c w).1.db ≡ w.db
  unfolding resolve_stored
  db-resolve_stored c w = elim (Result-cases (get_by_customer_id c w).0) [
    | inl (x, found) ↦
        rw (found, resolve_stored)
          (db-resolve_found x (get_by_customer_id c w).1 ∙ db-get_by_customer_id c w)
    | inr (cause, failed) ↦ rw (failed, resolve_stored) (db-get_by_customer_id c w)
  ]

  -- Routing only reads.
  pub db-resolve : (c : Str) (w : World A) → (resolve c w).1.db ≡ w.db
  unfolding resolve
  db-resolve c w =
      let key = trim_space c in
      ground (arith, db-get_ref key w, db-resolve_stored key (get_ref key w).1)

  abbrev pub record_input : ValidatedNotification A → Outcome → Option ℕ → RecordInput A
  record_input v o id = record { notification = v; outcome = o; deployment_id = id }

  pub db-record_only :
      (v : ValidatedNotification A) (o : Outcome) (id : Option ℕ) (w : World A)
      → (record_only v o id w).1.db ≡ (record_payment (record_input v o id) w).1.db
  unfolding record_only
  db-record_only v o id w = elim (Result-cases (record_payment (record_input v o id) w).0) [
    | inl (x, done) ↦ rw (done, record_only)
    | inr (cause, failed) ↦ rw (failed, record_only)
  ]

module _ {A : Type 0} ⦃d : Decimal A⦄ ⦃u : Unicode⦄ ⦃e : Environment⦄ ⦃f : Floats⦄ where
  pub db-applied_result :
      (v : ValidatedNotification A) (r : ApplyResult A) (w : World A)
      → (applied_result v r w).1.db ≡ w.db
  unfolding applied_result
  db-applied_result v r w = elim (Bool-cases r.duplicate) [
    | inl again ↦ elim (Option-cases (same_request r.payment v)) [
      | inl same ↦ rw (again, same, applied_result)
      | inr (conflict, other) ↦ rw (again, other, applied_result)
    ]
    | inr first ↦ rw (first, applied_result) (db-set_result v.reference _ w)
  ]

  abbrev pub apply_input : ValidatedNotification A → ℕ → ApplyInput A
  apply_input v id = record { notification = v; deployment_id = id }

  pub db-apply_routed :
      (v : ValidatedNotification A) (id : ℕ) (w : World A)
      → (apply_routed v id w).1.db ≡ (apply_payment (apply_input v id) w).1.db
  unfolding apply_routed
  db-apply_routed v id w = elim (Result-cases (apply_payment (apply_input v id) w).0) [
    | inl (x, done) ↦
        rw (done, apply_routed) (db-applied_result v x (apply_payment (apply_input v id) w).1)
    | inr (cause, failed) ↦ rw (failed, apply_routed)
  ]

  -- Which of its three calls `Process` ends in, after routing: none, `record` with an outcome that
  -- moves no money, or `Apply`, and the last only for settled funds.
  pub data Route (v : ValidatedNotification A) (w : World A) : Type 0 where
    stopped : (cause : GoError) → process v w ≡ (err cause, (resolve v.customer_id w).1) → Route v w
    recorded :
        (o : Outcome) (id : Option ℕ)
        → o ≢ applied
        → process v w ≡ record_only v o id (resolve v.customer_id w).1
        → Route v w
    moved :
        (ref : Ref A)
        → (resolve v.customer_id w).0 ≡ ok ref
        → is_successful v.provider_status ≡ true
        → process v w ≡ apply_routed v ref.id (resolve v.customer_id w).1
        → Route v w

  pub process-path : (v : ValidatedNotification A) (w : World A) → Route v w
  unfolding process
  process-path v w = elim (Result-cases (resolve v.customer_id w).0) [
    | inl (ref, routed) ↦ elim (Bool-cases (is_successful v.provider_status)) [
      | inl settled ↦ moved ref routed settled (rw (routed, settled, process))
      | inr unsettled ↦ recorded ignored (some ref.id) (λ h. cc) (rw (routed, unsettled, process))
    ]
    | inr (cause, lost) ↦ elim (Bool-cases (is_routing_failure cause)) [
      | inl nowhere ↦ recorded unmatched none (λ h. cc) (rw (lost, nowhere, process))
      | inr broken ↦ stopped cause (rw (lost, broken, process))
    ]
  ]

  after_routing :
      (v : ValidatedNotification A) (w : World A) {end : Db A}
      → Reach (resolve v.customer_id w).1.db end
      → Reach w.db end
  after_routing v w {end} r = subst (λ db. Reach db end) (db-resolve v.customer_id w) r

  -- Under every fault of the network, `Process` commits statements of the ledger and nothing else.
  pub process-Reach : (v : ValidatedNotification A) (w : World A) → Reach w.db (process v w).1.db
  process-Reach v w =
      let routed = (resolve v.customer_id w).1 in
      elim (process-path v w) [
        | stopped cause p ↦ rw p (after_routing v w here)
        | recorded o id ne p ↦ rw p (
            after_routing v w (
              subst (Reach routed.db) (sym (db-record_only v o id routed))
                (record_payment-Reach (record_input v o id) routed ne)))
        | moved ref found settled p ↦ rw p (
            after_routing v w (
              subst (Reach routed.db) (sym (db-apply_routed v ref.id routed))
                (apply_payment-Reach (apply_input v ref.id) routed)))
      ]

module _ {A : Type 0} ⦃d : Decimal A⦄ ⦃u : Unicode⦄ ⦃e : Environment⦄ ⦃f : Floats⦄ ⦃l : Calendar⦄
    ⦃c : Codec A⦄ where
  -- The queue is no table.
  pub db-enqueue : (v : ValidatedNotification A) (w : World A) → (enqueue v w).1.db ≡ w.db
  unfolding enqueue append_entry
  db-enqueue v w = ground arith

  -- What `Accept` answers, and with which tables: nothing was sent to the database, or `Process` ran
  -- on the same tables.
  pub data Answer (settings : Settings) (n : Notification) (raw : Str) (w : World A) : Type 0 where
    unsent : (accept settings n raw w).1.db ≡ w.db → Answer settings n raw w
    processed :
        (v : ValidatedNotification A) (w' : World A)
        → validate n settings.provider_location settings.default_currency raw (e.now w.step) ≡ ok v
        → w'.db ≡ w.db
        → accept settings n raw w ≡ process v w'
        → Answer settings n raw w

  data Dispatched (v : ValidatedNotification A) (w : World A) : Type 0 where
    waits : (dispatch v w).1.db ≡ w.db → Dispatched v w
    inline : (w' : World A) → w'.db ≡ w.db → dispatch v w ≡ process v w' → Dispatched v w

  dispatch-path : (v : ValidatedNotification A) (w : World A) → Dispatched v w
  unfolding dispatch
  dispatch-path v w = elim (Bool-cases w.queue_on) [
    | inr off ↦ inline w refl (rw (off, dispatch))
    | inl on ↦ elim (Option-cases (enqueue v w).0) [
      | inl sent ↦ waits (ground (arith, db-enqueue v w))
      | inr (cause, failed) ↦ inline (enqueue v w).1 (db-enqueue v w) (ground arith)
    ]
  ]

  pub accept-path :
      (settings : Settings) (n : Notification) (raw : Str) (w : World A) → Answer settings n raw w
  unfolding accept accept_valid
  accept-path settings n raw w =
      elim (Result-cases (
        validate ⦃d = d⦄ n settings.provider_location settings.default_currency raw
          (e.now w.step))) [
            | inr (cause, refused) ↦ unsent (rw (refused, accept))
            | inl (v, valid) ↦ elim (Option-cases (get_result v.reference w).0) [
              | inr (c, hit) ↦
                  unsent (rw (valid, accept, hit, accept_valid) (db-get_result v.reference w))
              | inl miss ↦ elim (dispatch-path v (get_result v.reference w).1) [
                | waits same ↦
                    unsent
                      (rw (valid, accept, miss, accept_valid) (same ∙ db-get_result v.reference w))
                | inline w' same p ↦
                    processed v w' valid (same ∙ db-get_result v.reference w)
                      (rw (valid, accept, miss, accept_valid) p)
              ]
            ]
          ]

  -- So does `Accept`, whether the queue takes the notification or not.
  pub accept-Reach :
      (settings : Settings) (n : Notification) (raw : Str) (w : World A)
      → Reach w.db (accept settings n raw w).1.db
  accept-Reach settings n raw w = elim (accept-path settings n raw w) [
    | unsent same ↦ subst (Reach w.db) (sym same) here
    | processed v w' valid same p ↦
        rw p (subst (λ db. Reach db (process v w').1.db) same (process-Reach v w'))
  ]
