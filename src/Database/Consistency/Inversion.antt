-- ===== src/Database/Consistency/Inversion.antt =====
-- What a statement has done to the tables, when it has done anything.
use asset_repayment_service.Prelude.{
  suc, true, false, ◌≡◌, refl, ◌≢◌, ◌⊎◌, inl, inr, none, some, List, ◌∷◌, arith, ◌||◌, Bool-cases,
  Option-cases,
}
use asset_repayment_service.Prelude.Text.{Str, str_eq}
use asset_repayment_service.Money.Decimal.{Decimal}
use asset_repayment_service.Deployment.Clock.{Time}
use asset_repayment_service.Deployment.Contracts.{CreateInput}
use asset_repayment_service.Payment.Entity.{ApplyInput, RecordInput}
use asset_repayment_service.Database.Rows.{DeploymentModel, PaymentModel, ApplyRowModel}
use asset_repayment_service.Database.Tables.{
  Db, Fetched, row, no_row, violated, unique_violation, has_reference, find_deployment, knows,
  has_open, has_account, update_deployment, payment_violation, deployment_violation, insert_payment,
}
use asset_repayment_service.Database.Statements.{
  move_row, applied_entry, apply_row, commit_apply, apply_statement, recorded_entry,
  record_statement, created_row, create_statement,
}

pub Fetched-cases :
    {R : Type 0} (r : Fetched R)
    → ((x : R) × (r ≡ row x)) ⊎ ((r ≡ no_row) ⊎ ((s : Str) × (r ≡ violated s)))
Fetched-cases (row x) = inl (x, refl)
Fetched-cases no_row = inr (inl refl)
Fetched-cases (violated s) = inr (inr (s, refl))

module _ {A : Type 0} ⦃d : Decimal A⦄ where
  -- The row of deployment `x` after the payment.
  abbrev pub moved_row : ApplyInput A → Time → DeploymentModel A → DeploymentModel A
  moved_row input now x =
      move_row input.notification.amount input.notification.transaction_date now x

  -- The tables after an insert.
  pub record Inserted (p : PaymentModel A) (db db' : Db A) : Type 0 where
    pub sound : payment_violation p ≡ none
    pub fresh : has_reference p.transaction_reference db.payments ≡ false
    pub linked : knows p.deployment_id db.deployments ≡ true
    pub result : db' ≡ record db { payments = p ∷ db.payments }

  pub insert_payment-row :
      (p : PaymentModel A) (db : Db A) {db' : Db A}
      → insert_payment p db ≡ row db'
      → Inserted p db db'
  unfolding insert_payment
  insert_payment-row p db h = ground arith

  -- An apply statement that moved money: the deployment `x` it found, and the two changes.
  pub record Applied (input : ApplyInput A) (now : Time) (uuid : Str) (db db' : Db A) : Type 0 where
    pub x : DeploymentModel A
    pub found : find_deployment input.deployment_id db.deployments ≡ some x
    pub fits : deployment_violation (moved_row input now x) ≡ none
    pub sound :
        payment_violation (applied_entry input.notification now uuid (moved_row input now x)) ≡ none
    pub fresh : has_reference input.notification.reference db.payments ≡ false
    pub result : db' ≡ record {
      deployments = update_deployment input.deployment_id (moved_row input now) db.deployments;
      payments = applied_entry input.notification now uuid (moved_row input now x) ∷ db.payments;
      next_id = db.next_id;
    }

  -- A statement that gave no row and changed nothing.
  abbrev pub Untouched : Db A → Fetched (ApplyRowModel A) × Db A → Type 0
  Untouched db r = (r.1 ≡ db) × ((x : ApplyRowModel A) → r.0 ≢ row x)

  commit_apply-cases :
      (p : PaymentModel A) (moved : DeploymentModel A) (before after : Db A)
      → Untouched before (commit_apply p moved before after)
        ⊎ (Inserted p after (commit_apply p moved before after).1
            × ((commit_apply p moved before after).0 ≡ row (apply_row p moved)))
  unfolding commit_apply
  commit_apply-cases p moved before after = elim (Fetched-cases (insert_payment p after)) [
    | inl (db, e) ↦ inr (rw (e, commit_apply) (insert_payment-row p after e, refl))
    | inr (inl e) ↦ inl (rw (e, commit_apply) (refl, λ x h. cc))
    | inr (inr (sqlstate, e)) ↦ inl (rw (e, commit_apply) (refl, λ x h. cc))
  ]

  abbrev pub entry_of : ApplyInput A → Time → Str → DeploymentModel A → PaymentModel A
  entry_of input now uuid x = applied_entry input.notification now uuid (moved_row input now x)

  -- A statement either leaves the tables as they are and gives no row, or it did all that `Applied`
  -- says and gives the row of the entry.
  pub apply_statement-cases :
      (seen : List (PaymentModel A)) (input : ApplyInput A) (now : Time) (uuid : Str) (db : Db A)
      → Untouched db (apply_statement seen input now uuid db)
        ⊎ ((a : Applied input now uuid db (apply_statement seen input now uuid db).1)
            × ((apply_statement seen input now uuid db).0
                ≡ row (apply_row (entry_of input now uuid a.x) (moved_row input now a.x))))
  unfolding apply_statement applied_entry
  apply_statement-cases seen input now uuid db =
      elim (Bool-cases (has_reference input.notification.reference seen)) [
        | inl taken ↦ inl (rw (taken, apply_statement) (refl, λ x h. cc))
        | inr clear ↦ elim (Option-cases (find_deployment input.deployment_id db.deployments)) [
          | inl missing ↦ inl (rw (clear, missing, apply_statement) (refl, λ x h. cc))
          | inr (x, found) ↦ elim (Option-cases (deployment_violation (moved_row input now x))) [
            | inl fits ↦ rw (clear, found, fits, apply_statement) (committed x found fits)
            | inr (sqlstate, unfit) ↦
                inl (rw (clear, found, unfit, apply_statement) (refl, λ x h. cc))
          ]
        ]
      ]
    where
      committed :
          (x : DeploymentModel A)
          → find_deployment input.deployment_id db.deployments ≡ some x
          → deployment_violation (moved_row input now x) ≡ none
          → let after = record db {
            deployments =
                update_deployment input.deployment_id (moved_row input now) db.deployments;
          } in
            let r = commit_apply (entry_of input now uuid x) (moved_row input now x) db after in
            Untouched db r
            ⊎ ((a : Applied input now uuid db r.1) × (r.0
                  ≡ row (apply_row (entry_of input now uuid a.x) (moved_row input now a.x))))
      committed x found fits =
          elim (commit_apply-cases (entry_of input now uuid x) (moved_row input now x) db
            (record db {
              deployments =
                  update_deployment input.deployment_id (moved_row input now) db.deployments;
            })) [
              | inl same ↦ inl same
              | inr (new, e) ↦ inr (
                record {
                  x = x;
                  found = found;
                  fits = fits;
                  sound = new.sound;
                  fresh = new.fresh;
                  result = new.result;
                },
                e,
              )
            ]

  -- `Record` leaves the tables as they are or adds its one entry.
  pub record_statement-cases :
      (input : RecordInput A) (now : Time) (uuid : Str) (db : Db A)
      → ((record_statement input now uuid db).1 ≡ db)
        ⊎ Inserted (recorded_entry input now uuid) db (record_statement input now uuid db).1
  unfolding record_statement
  record_statement-cases input now uuid db =
      let p = recorded_entry input now uuid in
      elim (Fetched-cases (insert_payment p db)) [
        | inl (db', e) ↦ inr (rw (e, record_statement) (insert_payment-row p db e))
        | inr (inl e) ↦ inl (rw (e, record_statement))
        | inr (inr (sqlstate, e)) ↦ elim (Bool-cases (str_eq sqlstate unique_violation)) [
          | inl taken ↦ inl (rw (e, taken, record_statement))
          | inr other ↦ inl (rw (e, other, record_statement))
        ]
      ]

  -- A create statement that added its deployment.
  pub record Created (input : CreateInput A) (now : Time) (uuid : Str) (db db' : Db A)
      : Type 0 where
    pub fits : deployment_violation (created_row input now uuid db.next_id) ≡ none
    pub alone : has_open input.customer_id db.deployments ≡ false
    pub result : db' ≡ record {
      deployments = created_row input now uuid db.next_id ∷ db.deployments;
      payments = db.payments;
      next_id = suc db.next_id;
    }

  -- `Create` adds its deployment, or only takes a number from the sequence.
  pub create_statement-cases :
      (input : CreateInput A) (now : Time) (uuid : Str) (db : Db A)
      → ((create_statement input now uuid db).1 ≡ record db { next_id = suc db.next_id })
        ⊎ Created input now uuid db (create_statement input now uuid db).1
  unfolding create_statement
  create_statement-cases input now uuid db =
      let x = created_row input now uuid db.next_id in
      elim (Option-cases (deployment_violation x)) [
        | inr (sqlstate, unfit) ↦ inl (rw (unfit, create_statement))
        | inl fits ↦
            elim (Bool-cases (
              has_open input.customer_id db.deployments
              || has_account x.virtual_account_number db.deployments)) [
                | inl taken ↦ inl (rw (fits, taken, create_statement))
                | inr free ↦ inr (
                    rw (fits, free, create_statement)
                      (record { fits = fits; alone = ground arith; result = refl }))
              ]
      ]
