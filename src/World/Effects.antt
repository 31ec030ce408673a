-- ===== src/World/Effects.antt =====
-- What the calls of the repositories and of the cache do to the tables, whatever the network does.
use asset_repayment_service.Prelude.{ℕ, ◌≡◌, ◌≢◌, refl, ◌⊎◌, inl, inr, drop, arith, subst, sym, ◌∙◌}
use asset_repayment_service.Prelude.Text.{Str}
use asset_repayment_service.Errors.{GoError}
use asset_repayment_service.Money.Decimal.{Decimal}
use asset_repayment_service.Money.Currency.{Unicode}
use asset_repayment_service.Deployment.Clock.{Time}
use asset_repayment_service.Deployment.Contracts.{CreateInput, Ref}
use asset_repayment_service.Payment.Entity.{ApplyInput, RecordInput, PaymentResult, applied}
use asset_repayment_service.Database.Rows.{ApplyRowModel}
use asset_repayment_service.Database.Tables.{Db, Fetched, row, no_row}
use asset_repayment_service.Database.Statements.{
  apply_statement, record_statement, create_statement, select_payment, select_deployment,
  select_customer,
}
use asset_repayment_service.Database.Ledger.{Reach, here, next, applying, recording, creating}
use asset_repayment_service.World.State.{Environment, World, query, Reply, found, no_rows, failed}
use asset_repayment_service.World.Cache.{get_ref, set_ref, get_result, set_result}
use asset_repayment_service.World.Repository.{
  create_deployment, get_by_customer_id, get_by_reference, deployment_by_id, replay_with, replay,
  apply_payment, stored_duplicate, record_payment,
}

pub Reply-cases :
    {R : Type 0} (r : Reply R)
    → ((x : R) × (r ≡ found x)) ⊎ ((r ≡ no_rows) ⊎ ((e : GoError) × (r ≡ failed e)))
Reply-cases (found x) = inl (x, refl)
Reply-cases no_rows = inr (inl refl)
Reply-cases (failed e) = inr (inr (e, refl))

module _ {A : Type 0} ⦃e : Environment⦄ where
  -- A round trip leaves the tables alone or commits its statement.
  pub query-db :
      {R : Type 0} (statement : Time → Str → Db A → Fetched R × Db A) (w : World A)
      → ((query statement w).1.db ≡ w.db)
        ⊎ ((query statement w).1.db ≡ (statement (e.now w.step) (e.uuid w.step) w.db).1)
  unfolding query
  query-db statement w = ground arith

  -- A statement that changes nothing here changes nothing, whatever the network does.
  pub query_idle :
      {R : Type 0} (statement : Time → Str → Db A → Fetched R × Db A) (w : World A)
      → (statement (e.now w.step) (e.uuid w.step) w.db).1 ≡ w.db
      → (query statement w).1.db ≡ w.db
  query_idle statement w same = elim (query-db statement w) [
    | inl untouched ↦ untouched
    | inr ran ↦ ran ∙ same
  ]

  -- A round trip that read a row did so in the tables, which are now the statement's.
  pub query-found :
      {R : Type 0} (statement : Time → Str → Db A → Fetched R × Db A) (w : World A) (x : R)
      → (query statement w).0 ≡ found x
      → ((statement (e.now w.step) (e.uuid w.step) w.db).0 ≡ row x)
        × ((query statement w).1.db ≡ (statement (e.now w.step) (e.uuid w.step) w.db).1)
  unfolding query
  query-found statement w x h = ground arith

  pub query-no_rows :
      {R : Type 0} (statement : Time → Str → Db A → Fetched R × Db A) (w : World A)
      → (query statement w).0 ≡ no_rows
      → ((statement (e.now w.step) (e.uuid w.step) w.db).0 ≡ no_row)
        × ((query statement w).1.db ≡ (statement (e.now w.step) (e.uuid w.step) w.db).1)
  unfolding query
  query-no_rows statement w h = ground arith

  pub db-get_ref : (c : Str) (w : World A) → (get_ref c w).1.db ≡ w.db
  unfolding get_ref
  db-get_ref c w = ground arith

  pub db-set_ref : (r : Ref A) (w : World A) → (set_ref r w).db ≡ w.db
  unfolding set_ref
  db-set_ref r w = ground arith

  pub db-get_result : (c : Str) (w : World A) → (get_result c w).1.db ≡ w.db
  unfolding get_result
  db-get_result c w = ground arith

  pub db-set_result : (c : Str) (r : PaymentResult A) (w : World A) → (set_result c r w).db ≡ w.db
  unfolding set_result
  db-set_result c r w = ground arith

module _ {A : Type 0} ⦃d : Decimal A⦄ where
  select_payment_same : (r : Str) (db : Db A) → (select_payment r db).1 ≡ db
  unfolding select_payment
  select_payment_same r db = ground arith

  select_deployment_same : (id : ℕ) (db : Db A) → (select_deployment id db).1 ≡ db
  unfolding select_deployment
  select_deployment_same id db = ground arith

  select_customer_same : (c : Str) (db : Db A) → (select_customer c db).1 ≡ db
  unfolding select_customer
  select_customer_same c db = ground arith

module _ {A : Type 0} ⦃d : Decimal A⦄ ⦃u : Unicode⦄ ⦃e : Environment⦄ where
  -- A query that only reads.
  query_reads :
      {R : Type 0} (statement : Time → Str → Db A → Fetched R × Db A) (w : World A)
      → ((now : Time) (uuid : Str) (db : Db A) → (statement now uuid db).1 ≡ db)
      → (query statement w).1.db ≡ w.db
  query_reads statement w same = query_idle statement w (same (e.now w.step) (e.uuid w.step) w.db)

  pub db-get_by_customer_id : (c : Str) (w : World A) → (get_by_customer_id c w).1.db ≡ w.db
  unfolding get_by_customer_id
  db-get_by_customer_id c w =
      ground (arith, query_reads (λ _ _. select_customer c) w (λ _ _. select_customer_same c))

  pub db-get_by_reference : (r : Str) (w : World A) → (get_by_reference r w).1.db ≡ w.db
  unfolding get_by_reference
  db-get_by_reference r w =
      ground (arith, query_reads (λ _ _. select_payment r) w (λ _ _. select_payment_same r))

  pub db-deployment_by_id : (id : ℕ) (w : World A) → (deployment_by_id id w).1.db ≡ w.db
  unfolding deployment_by_id
  db-deployment_by_id id w =
      ground (arith, query_reads (λ _ _. select_deployment id) w (λ _ _. select_deployment_same id))

  db-replay : (input : ApplyInput A) (w : World A) → (replay input w).1.db ≡ w.db
  unfolding replay replay_with
  db-replay input w =
      let reference = input.notification.reference in
      ground (
        arith,
        db-get_by_reference reference w,
        db-deployment_by_id input.deployment_id (get_by_reference reference w).1,
      )

  -- The statement that `Apply` sends as call `w.step`.
  abbrev pub applying_at :
      ApplyInput A → World A → Time → Str → Db A → Fetched (ApplyRowModel A) × Db A
  applying_at input w now uuid db =
      apply_statement (drop (e.lag w.step) db.payments) input now uuid db

  -- `Apply` has the effect of its statement, or none.
  pub db-apply_payment :
      (input : ApplyInput A) (w : World A)
      → ((apply_payment input w).1.db ≡ w.db)
        ⊎ ((apply_payment input w).1.db
            ≡ (applying_at input w (e.now w.step) (e.uuid w.step) w.db).1)
  unfolding apply_payment
  db-apply_payment input w =
      let r = query (applying_at input w) w in
      ground (arith, query-db (applying_at input w) w, db-replay input r.1)

  db-stored_duplicate : (r : Str) (w : World A) → (stored_duplicate r w).1.db ≡ w.db
  unfolding stored_duplicate
  db-stored_duplicate r w = ground (arith, db-get_by_reference r w)

  -- `Record` likewise.
  pub db-record_payment :
      (input : RecordInput A) (w : World A)
      → ((record_payment input w).1.db ≡ w.db)
        ⊎ ((record_payment input w).1.db
            ≡ (record_statement input (e.now w.step) (e.uuid w.step) w.db).1)
  unfolding record_payment
  db-record_payment input w =
      let r = query (record_statement input) w in
      ground (
        arith,
        query-db (record_statement input) w,
        db-stored_duplicate input.notification.reference r.1,
      )

  pub db-create_deployment :
      (input : CreateInput A) (w : World A)
      → ((create_deployment input w).1.db ≡ w.db)
        ⊎ ((create_deployment input w).1.db
            ≡ (create_statement input (e.now w.step) (e.uuid w.step) w.db).1)
  unfolding create_deployment
  db-create_deployment input w = ground (arith, query-db (create_statement input) w)

  pub apply_payment-Reach :
      (input : ApplyInput A) (w : World A) → Reach w.db (apply_payment input w).1.db
  apply_payment-Reach input w = elim (db-apply_payment input w) [
    | inl same ↦ subst (Reach w.db) (sym same) here
    | inr ran ↦ subst (Reach w.db) (sym ran) (
        next here
          (applying (drop (e.lag w.step) w.db.payments) input (e.now w.step) (e.uuid w.step)))
  ]

  pub record_payment-Reach :
      (input : RecordInput A) (w : World A)
      → input.outcome ≢ applied
      → Reach w.db (record_payment input w).1.db
  record_payment-Reach input w ne = elim (db-record_payment input w) [
    | inl same ↦ subst (Reach w.db) (sym same) here
    | inr ran ↦
        subst (Reach w.db) (sym ran) (next here (recording input (e.now w.step) (e.uuid w.step) ne))
  ]

  pub create_deployment-Reach :
      (input : CreateInput A) (w : World A) → Reach w.db (create_deployment input w).1.db
  create_deployment-Reach input w = elim (db-create_deployment input w) [
    | inl same ↦ subst (Reach w.db) (sym same) here
    | inr ran ↦
        subst (Reach w.db) (sym ran) (next here (creating input (e.now w.step) (e.uuid w.step)))
  ]
