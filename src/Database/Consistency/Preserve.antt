-- ===== src/Database/Consistency/Preserve.antt =====
-- The invariant of the books under each statement, with the concurrent statements it did not see.
use asset_repayment_service.Prelude.{
  ℕ, suc, ◌<◌, ◌≡◌, ◌≢◌, refl, true, false, inl, inr, Option, none, some, List, [], ◌∷◌, All, ◌==◌,
  Bool-cases, arith, subst, sym, ◌∙◌, Option-cases,
}
use asset_repayment_service.Prelude.Text.{Str}
use asset_repayment_service.Money.Decimal.{Decimal, zero_parts, is_positive_true}
use asset_repayment_service.Deployment.Clock.{Time}
use asset_repayment_service.Deployment.Contracts.{CreateInput}
use asset_repayment_service.Payment.Entity.{ApplyInput, RecordInput, Outcome, applied}
use asset_repayment_service.Database.Rows.{DeploymentModel, PaymentModel}
use asset_repayment_service.Database.Tables.{Db, find_deployment, knows, deployment_violation}
use asset_repayment_service.Database.Statements.{
  move_row, applied_entry, apply_statement, recorded_entry, record_statement, created_row,
  create_statement,
}
use asset_repayment_service.Database.Consistency.{
  is_applied, counts_for, within?, IsConsistent, IsBalanced, IsOwing, ledger_sum, ledger_count,
}
use asset_repayment_service.Database.Consistency.Inversion.{
  moved_row, Applied, Created, apply_statement-cases, record_statement-cases,
  create_statement-cases,
}
use asset_repayment_service.Database.Consistency.Parts.{
  All-update_deployment, All-map, move_row-IsBalanced, other-IsBalanced, move_row-IsOwing,
  applied_entry-IsAudited, recorded_entry-IsAudited, OneOpen-update,
}

module _ {A : Type 0} where
  pub find_deployment-id :
      (id : ℕ) (xs : List (DeploymentModel A)) {x : DeploymentModel A}
      → find_deployment id xs ≡ some x
      → x.id ≡ id
  unfolding find_deployment
  find_deployment-id id [] h = cc
  find_deployment-id id (y ∷ ys) {x} h = ground (arith, find_deployment-id id ys {x = x})

  pub find_deployment-All :
      (P : DeploymentModel A → Type 0) (id : ℕ) (xs : List (DeploymentModel A))
      {x : DeploymentModel A}
      → All P xs
      → find_deployment id xs ≡ some x
      → P x
  unfolding find_deployment
  find_deployment-All P id [] a h = cc
  find_deployment-All P id (y ∷ ys) {x} a h = elim (Bool-cases (y.id == id)) [
    | inl e ↦ subst P (ground arith) a.0
    | inr e ↦ find_deployment-All P id ys a.1 (ground arith)
  ]

  -- A linked key is one that the sequence has given out.
  knows-within :
      (o : Option ℕ) (n : ℕ) (xs : List (DeploymentModel A))
      → All (λ (x : DeploymentModel A). x.id < n) xs
      → knows o xs ≡ true
      → within? o n
  knows-within none n xs a h = tt
  knows-within (some id) n xs a h = elim (Option-cases (find_deployment id xs)) [
    | inl missing ↦ ground arith
    | inr (x, found) ↦
        rw (← find_deployment-id id xs found)
          (find_deployment-All (λ (y : DeploymentModel A). y.id < n) id xs a found)
  ]

within-suc : (n : ℕ) (o : Option ℕ) → within? o n → within? o (suc n)
within-suc n none h = tt
within-suc n (some i) h = omega arith

is_applied-false : (o : Outcome) → o ≢ applied → is_applied o ≡ false
is_applied-false applied ne = absurd (ne refl)
is_applied-false _ ne = refl

module _ {A : Type 0} ⦃d : Decimal A⦄ where
  ledger_sum-unrouted :
      (id : ℕ) (ps : List (PaymentModel A))
      → All (λ (p : PaymentModel A). within? p.deployment_id id) ps
      → (ledger_sum id ps ≡ d.zero_amount) × (ledger_count id ps ≡ 0)
  unfolding ledger_sum ledger_count
  ledger_sum-unrouted id [] h = (refl, refl)
  ledger_sum-unrouted id (p ∷ ps) h = ground (arith, ledger_sum-unrouted id ps h.1)

  entry_key :
      (input : ApplyInput A) (now : Time) (uuid : Str) (x : DeploymentModel A)
      → (applied_entry input.notification now uuid (moved_row input now x)).deployment_id
        ≡ some x.id
  unfolding applied_entry move_row
  entry_key input now uuid x = refl

  entry_counts :
      (input : ApplyInput A) (now : Time) (uuid : Str) (x : DeploymentModel A) (id : ℕ)
      → counts_for id (applied_entry input.notification now uuid (moved_row input now x))
        ≡ (x.id == id)
  unfolding applied_entry move_row
  entry_counts input now uuid x id = refl

  move_row-known :
      (input : ApplyInput A) (now : Time) (n : ℕ) (x : DeploymentModel A)
      → x.id < n
      → (moved_row input now x).id < n
  unfolding move_row
  move_row-known input now n x h = h

  recorded_counts :
      (input : RecordInput A) (now : Time) (uuid : Str)
      → input.outcome ≢ applied
      → (id : ℕ) → counts_for id (recorded_entry input now uuid) ≡ false
  unfolding recorded_entry
  recorded_counts input now uuid ne id = rw (is_applied-false input.outcome ne)

  Applied-IsConsistent :
      (input : ApplyInput A) (now : Time) (uuid : Str) (db db' : Db A)
      → IsConsistent db
      → Applied input now uuid db db'
      → IsConsistent db'
  Applied-IsConsistent input now uuid db db' c a = subst IsConsistent (sym a.result) (record {
    references = (unfold applied_entry in a.fresh, c.references);
    balances =
        All-update_deployment input.deployment_id (moved_row input now)
          (λ x e h.
            move_row-IsBalanced input.notification now entry db.payments x
              (unfold applied_entry in refl)
              (entry_counts input now uuid a.x x.id ∙ ground (arith, e, key)) h)
          (λ x e h.
            other-IsBalanced entry db.payments x
              (entry_counts input now uuid a.x x.id ∙ ground (arith, e, key)) h)
          db.deployments c.balances;
    entries = (
      applied_entry-IsAudited input.notification now uuid (moved_row input now a.x) a.sound,
      c.entries,
    );
    one_open =
        OneOpen-update input.deployment_id input.notification.amount
          input.notification.transaction_date now db.deployments c.one_open;
    owing =
        All-update_deployment input.deployment_id (moved_row input now)
          (λ x e h.
            move_row-IsOwing input.notification.amount input.notification.transaction_date now x h)
          (λ x e h. h) db.deployments c.owing;
    known =
        All-update_deployment input.deployment_id (moved_row input now)
          (λ x e h. move_row-known input now db.next_id x h) (λ x e h. h) db.deployments c.known;
    routed = (
      rw entry_key (
          find_deployment-All (λ (y : DeploymentModel A). y.id < db.next_id) input.deployment_id
            db.deployments c.known a.found),
      c.routed,
    );
  })
    where
      entry : PaymentModel A
      entry = applied_entry input.notification now uuid (moved_row input now a.x)

      key : a.x.id ≡ input.deployment_id
      key = find_deployment-id input.deployment_id db.deployments a.found

  -- The invariant after an apply statement, for every snapshot `seen` of its probe.
  pub apply_statement-IsConsistent :
      (seen : List (PaymentModel A)) (input : ApplyInput A) (now : Time) (uuid : Str) (db : Db A)
      → IsConsistent db
      → IsConsistent (apply_statement seen input now uuid db).1
  apply_statement-IsConsistent seen input now uuid db c =
      elim (apply_statement-cases seen input now uuid db) [
        | inl (same, _) ↦ subst IsConsistent (sym same) c
        | inr (moved, _) ↦ Applied-IsConsistent input now uuid db _ c moved
      ]

  -- The invariant after `Record`, which is never asked to store an applied outcome.
  pub record_statement-IsConsistent :
      (input : RecordInput A) (now : Time) (uuid : Str) (db : Db A)
      → input.outcome ≢ applied
      → IsConsistent db
      → IsConsistent (record_statement input now uuid db).1
  record_statement-IsConsistent input now uuid db ne c =
      elim (record_statement-cases input now uuid db) [
        | inl same ↦ subst IsConsistent (sym same) c
        | inr new ↦ subst IsConsistent (sym new.result) (record {
          references = (new.fresh, c.references);
          balances =
              All-map
                (λ x h.
                  other-IsBalanced entry db.payments x (recorded_counts input now uuid ne x.id) h)
                db.deployments c.balances;
          entries = (recorded_entry-IsAudited input now uuid ne new.sound, c.entries);
          one_open = c.one_open;
          owing = c.owing;
          known = c.known;
          routed = (
            knows-within entry.deployment_id db.next_id db.deployments c.known new.linked,
            c.routed,
          );
        })
      ]
    where
      entry : PaymentModel A
      entry = recorded_entry input now uuid

  -- A new deployment starts with an empty account of the ledger.
  created_row-IsBalanced :
      (input : CreateInput A) (now : Time) (uuid : Str) (db : Db A)
      → IsConsistent db
      → IsBalanced db.payments (created_row input now uuid db.next_id)
  unfolding created_row
  created_row-IsBalanced input now uuid db c =
      ground (arith, zero_parts d, ledger_sum-unrouted db.next_id db.payments c.routed)

  created_row-IsOwing :
      (input : CreateInput A) (now : Time) (uuid : Str) (id : ℕ)
      → deployment_violation (created_row input now uuid id) ≡ none
      → IsOwing (created_row input now uuid id)
  unfolding created_row deployment_violation
  created_row-IsOwing input now uuid id h =
      ground (arith, zero_parts d, is_positive_true input.principal)

  Created-IsConsistent :
      (input : CreateInput A) (now : Time) (uuid : Str) (db db' : Db A)
      → IsConsistent db
      → Created input now uuid db db'
      → IsConsistent db'
  unfolding created_row
  Created-IsConsistent input now uuid db db' c new = subst IsConsistent (sym new.result) (record {
    references = c.references;
    balances = (created_row-IsBalanced input now uuid db c, c.balances);
    entries = c.entries;
    one_open = (λ _. new.alone, c.one_open);
    owing = (created_row-IsOwing input now uuid db.next_id new.fits, c.owing);
    known = (omega arith, All-map (λ x h. omega arith) db.deployments c.known);
    routed = All-map (λ p h. within-suc db.next_id p.deployment_id h) db.payments c.routed;
  })

  -- The invariant after `Create`, whether the deployment was added or refused.
  pub create_statement-IsConsistent :
      (input : CreateInput A) (now : Time) (uuid : Str) (db : Db A)
      → IsConsistent db
      → IsConsistent (create_statement input now uuid db).1
  create_statement-IsConsistent input now uuid db c =
      elim (create_statement-cases input now uuid db) [
        | inl refused ↦ subst IsConsistent (sym refused) (record {
          references = c.references;
          balances = c.balances;
          entries = c.entries;
          one_open = c.one_open;
          owing = c.owing;
          known = All-map (λ x h. omega arith) db.deployments c.known;
          routed = All-map (λ p h. within-suc db.next_id p.deployment_id h) db.payments c.routed;
        })
        | inr new ↦ Created-IsConsistent input now uuid db _ c new
      ]
