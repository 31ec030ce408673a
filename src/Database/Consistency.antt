-- ===== src/Database/Consistency.antt =====
-- The invariant of the books, and what the ledger says of a deployment.
pub mod Inversion
pub mod Parts
pub mod Preserve
use asset_repayment_service.Prelude.{
  ℕ, suc, ◌+◌, ◌<◌, ◌≤◌, ◌≡◌, ◌≢◌, Bool, true, false, Option, none, some, List, [], ◌∷◌, All, ◌==◌,
  if◌then◌else◌,
}
use asset_repayment_service.Prelude.Text.{Str}
use asset_repayment_service.Money.Decimal.{
  Decimal, up, down, SameValue, IsNonNegative, IsPositive, Below,
}
use asset_repayment_service.Deployment.Entity.{is_open_status}
use asset_repayment_service.Payment.Entity.{Outcome, applied}
use asset_repayment_service.Database.Rows.{DeploymentModel, PaymentModel}
use asset_repayment_service.Database.Tables.{Db, has_reference, has_open}

-- A ledger row that stands for money moved to deployment `id`.
abbrev pub is_applied : Outcome → Bool
is_applied applied = true
is_applied _ = false

abbrev belongs : Option ℕ → ℕ → Bool
belongs none id = false
belongs (some i) id = i == id

abbrev pub counts_for : {A : Type 0} → ℕ → PaymentModel A → Bool
counts_for id p = if is_applied p.outcome then belongs p.deployment_id id else false

abbrev pub within? : Option ℕ → ℕ → Type 0
within? none n = Unit
within? (some i) n = i < n

-- No reference is listed twice.
abbrev pub DistinctReferences : {A : Type 0} → List (PaymentModel A) → Type 0
DistinctReferences [] = Unit
DistinctReferences (p ∷ ps) =
    (has_reference p.transaction_reference ps ≡ false) × DistinctReferences ps

-- A customer has one open deployment at most.
abbrev pub OneOpen : {A : Type 0} → List (DeploymentModel A) → Type 0
OneOpen [] = Unit
OneOpen (x ∷ xs) = (is_open_status x.status ≡ true → has_open x.customer_id xs ≡ false) × OneOpen xs

module _ {A : Type 0} ⦃d : Decimal A⦄ where
  -- The sum and the number of the payments that the ledger credits to a deployment.
  unfoldable pub ledger_sum : ℕ → List (PaymentModel A) → A
  ledger_sum id [] = d.zero_amount
  ledger_sum id (p ∷ ps) =
      if counts_for id p then d.add p.amount (ledger_sum id ps) else ledger_sum id ps

  unfoldable pub ledger_count : ℕ → List (PaymentModel A) → ℕ
  ledger_count id [] = 0
  ledger_count id (p ∷ ps) =
      if counts_for id p then suc (ledger_count id ps) else ledger_count id ps

  -- The balance of a deployment can be derived from the ledger.
  abbrev pub IsBalanced : List (PaymentModel A) → DeploymentModel A → Type 0
  IsBalanced ps x =
      SameValue x.amount_paid (ledger_sum x.id ps) × (x.payment_count ≡ ledger_count x.id ps)

  -- An open deployment still owes.
  abbrev pub IsOwing : DeploymentModel A → Type 0
  IsOwing x = is_open_status x.status ≡ true → Below x.amount_paid x.principal

  -- Each entry audits alone: it is positive, its parts are not negative and make up its amount if it
  -- was applied, and then its balances differ by the amount.
  abbrev pub IsAudited : PaymentModel A → Type 0
  IsAudited p =
      IsPositive p.amount
      × IsNonNegative p.applied_amount
      × IsNonNegative p.excess_amount
      × (is_applied p.outcome ≡ true
          → SameValue (d.add p.applied_amount p.excess_amount) p.amount
            × SameValue (d.add p.balance_before p.amount) p.balance_after)

  pub record IsConsistent (db : Db A) : Type 0 where
    pub references : DistinctReferences db.payments
    pub balances : All (IsBalanced db.payments) db.deployments
    pub entries : All IsAudited db.payments
    pub one_open : OneOpen db.deployments
    pub owing : All IsOwing db.deployments
    pub known : All (λ (x : DeploymentModel A). x.id < db.next_id) db.deployments
    pub routed : All (λ (p : PaymentModel A). within? p.deployment_id db.next_id) db.payments
