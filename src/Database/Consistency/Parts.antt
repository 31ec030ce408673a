-- ===== src/Database/Consistency/Parts.antt =====
-- The fields of the invariant under one more ledger entry and under the update of a row.
use asset_repayment_service.Prelude.{
  ℕ, ◌≡◌, true, false, none, List, [], ◌∷◌, All, ◌==◌, ==_iff, arith, Bool-cases, inl, inr, ◌≢◌,
  refl,
}
use asset_repayment_service.Prelude.Text.{Str}
use asset_repayment_service.Money.Decimal.{
  Decimal, IsPositive, IsNonNegative, add_parts, sub_parts, zero_parts, less_false, less_true,
  is_positive_true,
}
use asset_repayment_service.Deployment.Clock.{Time}
use asset_repayment_service.Payment.Entity.{ValidatedNotification, RecordInput, Outcome, applied}
use asset_repayment_service.Database.Rows.{DeploymentModel, PaymentModel}
use asset_repayment_service.Database.Tables.{has_open, update_deployment, payment_violation}
use asset_repayment_service.Database.Statements.{
  move_row, applied_of, applied_entry, recorded_entry,
}
use asset_repayment_service.Database.Consistency.{
  is_applied, counts_for, OneOpen, ledger_sum, ledger_count, IsBalanced, IsOwing, IsAudited,
}

pub is_applied_iff : (o : Outcome) → is_applied o ≡ true → o ≡ applied
is_applied_iff applied h = refl
is_applied_iff o h = ground arith

module _ {A : Type 0} {P Q : DeploymentModel A → Type 0} (id : ℕ)
    (change : DeploymentModel A → DeploymentModel A) where
  -- A predicate on every row, through an update of the rows of one key.
  pub All-update_deployment :
      ((x : DeploymentModel A) → x.id ≡ id → P x → Q (change x))
      → ((x : DeploymentModel A) → x.id == id ≡ false → P x → Q x)
      → (xs : List (DeploymentModel A)) → All P xs
      → All Q (update_deployment id change xs)
  unfolding update_deployment
  All-update_deployment hit miss [] h = tt
  All-update_deployment hit miss (x ∷ xs) h = elim (Bool-cases (x.id == id)) [
    | inl e ↦ rw e (hit x ((==_iff x.id id).0 e) h.0, All-update_deployment hit miss xs h.1)
    | inr e ↦ rw e (miss x e h.0, All-update_deployment hit miss xs h.1)
  ]

pub All-map :
    {A : Type 0} {P Q : A → Type 0} → ((x : A) → P x → Q x) → (xs : List A) → All P xs → All Q xs
All-map f [] h = tt
All-map f (x ∷ xs) h = (f x h.0, All-map f xs h.1)

module _ {A : Type 0} ⦃d : Decimal A⦄ where
  -- The moved row is balanced by the new entry, and every other row as before.
  pub move_row-IsBalanced :
      (n : ValidatedNotification A) (now : Time) (p : PaymentModel A) (ps : List (PaymentModel A))
      (x : DeploymentModel A)
      → p.amount ≡ n.amount
      → counts_for x.id p ≡ true
      → IsBalanced ps x
      → IsBalanced (p ∷ ps) (move_row n.amount n.transaction_date now x)
  unfolding move_row ledger_sum ledger_count
  move_row-IsBalanced n now p ps x e hit h =
      ground (arith, add_parts x.amount_paid n.amount, add_parts n.amount (ledger_sum x.id ps))

  pub other-IsBalanced :
      (p : PaymentModel A) (ps : List (PaymentModel A)) (x : DeploymentModel A)
      → counts_for x.id p ≡ false
      → IsBalanced ps x
      → IsBalanced (p ∷ ps) x
  unfolding ledger_sum ledger_count
  other-IsBalanced p ps x miss h = ground arith

  -- An open row that the payment leaves open still owes.
  pub move_row-IsOwing :
      (a : A) (date now : Time) (x : DeploymentModel A)
      → IsOwing x
      → IsOwing (move_row a date now x)
  unfolding move_row
  move_row-IsOwing a date now x h = ground (arith, less_true (d.add x.amount_paid a) x.principal)

  -- What the CHECK constraints say of an accepted entry.
  payment_violation-none :
      (p : PaymentModel A)
      → payment_violation p ≡ none
      → IsPositive p.amount × IsNonNegative p.applied_amount × IsNonNegative p.excess_amount
  unfolding payment_violation
  payment_violation-none p h = ground (
    arith,
    zero_parts d,
    is_positive_true p.amount,
    less_false p.applied_amount d.zero_amount,
    less_false p.excess_amount d.zero_amount,
  )

  -- A row that the payment table accepts audits alone.
  pub applied_entry-IsAudited :
      (n : ValidatedNotification A) (now : Time) (uuid : Str) (x : DeploymentModel A)
      → payment_violation (applied_entry n now uuid x) ≡ none
      → IsAudited (applied_entry n now uuid x)
  unfolding applied_entry
  applied_entry-IsAudited n now uuid x h =
      let part = applied_of n.amount x in
      let (positive, some_applied, some_excess) =
        payment_violation-none (applied_entry n now uuid x) h in
      (
        positive,
        some_applied,
        some_excess,
        λ _. (
          omega (arith, sub_parts n.amount part, add_parts part (d.sub n.amount part)),
          omega (
            arith,
            sub_parts x.amount_paid n.amount,
            add_parts (d.sub x.amount_paid n.amount) n.amount,
          ),
        ),
      )

  pub recorded_entry-IsAudited :
      (input : RecordInput A) (now : Time) (uuid : Str)
      → input.outcome ≢ applied
      → payment_violation (recorded_entry input now uuid) ≡ none
      → IsAudited (recorded_entry input now uuid)
  unfolding recorded_entry
  recorded_entry-IsAudited input now uuid ne h =
      let (positive, some_applied, some_excess) =
        payment_violation-none (recorded_entry input now uuid) h in
      (positive, some_applied, some_excess, λ e. absurd (ne (is_applied_iff input.outcome e)))

  -- Updating a row by a payment opens no deployment.
  pub has_open-update :
      (c : Str) (id : ℕ) (a : A) (date now : Time) (xs : List (DeploymentModel A))
      → has_open c xs ≡ false
      → has_open c (update_deployment id (move_row a date now) xs) ≡ false
  unfolding has_open update_deployment move_row
  has_open-update c id a date now [] h = refl
  has_open-update c id a date now (x ∷ xs) h = ground (arith, has_open-update c id a date now xs)

  pub OneOpen-update :
      (id : ℕ) (a : A) (date now : Time) (xs : List (DeploymentModel A))
      → OneOpen xs
      → OneOpen (update_deployment id (move_row a date now) xs)
  unfolding update_deployment move_row
  OneOpen-update id a date now [] h = tt
  OneOpen-update id a date now (x ∷ xs) h =
      ground
        (arith, OneOpen-update id a date now xs h.1, has_open-update x.customer_id id a date now xs)
