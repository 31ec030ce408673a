-- ===== src/Database/Commuting.antt =====
-- The ledger as a bag of credits: what the order of the statements does not change.
use mathlib.Core.Logic.{∥∥₁_elim}
use native.Mathlib.Nat.{ℕ_set}
use mathlib.Core.List.{Perm, Permᴰ}
use asset_repayment_service.Prelude.{
  ℕ, suc, ◌≡◌, refl, Option, none, some, List, [], ◌∷◌, ◌==◌, arith, subst, if◌then◌else◌,
}
use asset_repayment_service.Money.Decimal.{
  Decimal, SameValue, add_parts, sub_parts, max_parts, zero_parts,
}
use asset_repayment_service.Money.Currency.{Unicode}
use asset_repayment_service.Money.Parse.{non_negative}
use asset_repayment_service.Deployment.Entity.{outstanding}
use asset_repayment_service.Database.Rows.{DeploymentModel, PaymentModel, deployment_to_domain}
use asset_repayment_service.Database.Tables.{Db, find_deployment}
use asset_repayment_service.Database.Consistency.{ledger_sum, ledger_count, is_applied}
use asset_repayment_service.Database.Ledger.{Reach, empty_db, balance_from_ledger}

-- What an applied entry stands for, without its balances, its split, its times and its identity.
pub record Credit (A : Type 0) : Type 0 where
  pub deployment_id : ℕ
  pub amount : A

module _ {A : Type 0} where
  abbrev credit_to : A → Option ℕ → List (Credit A) → List (Credit A)
  credit_to amount none rest = rest
  credit_to amount (some id) rest = record { deployment_id = id; amount = amount } ∷ rest

  unfoldable pub credits : List (PaymentModel A) → List (Credit A)
  credits [] = []
  credits (p ∷ ps) =
      if is_applied p.outcome then credit_to p.amount p.deployment_id (credits ps) else credits ps

module _ {A : Type 0} ⦃d : Decimal A⦄ where
  unfoldable credit_sum : ℕ → List (Credit A) → A
  credit_sum id [] = d.zero_amount
  credit_sum id (c ∷ cs) =
      if c.deployment_id == id then d.add c.amount (credit_sum id cs) else credit_sum id cs

  unfoldable credit_count : ℕ → List (Credit A) → ℕ
  credit_count id [] = 0
  credit_count id (c ∷ cs) =
      if c.deployment_id == id then suc (credit_count id cs) else credit_count id cs

  ledger-credits :
      (id : ℕ) (ps : List (PaymentModel A))
      → (ledger_sum id ps ≡ credit_sum id (credits ps))
        × (ledger_count id ps ≡ credit_count id (credits ps))
  unfolding ledger_sum ledger_count credits credit_sum credit_count
  ledger-credits id [] = (refl, refl)
  ledger-credits id (p ∷ ps) = let rest = ledger-credits id ps in ground arith

  abbrev IsSameBalance : ℕ → List (Credit A) → List (Credit A) → Type 0
  IsSameBalance id cs es =
      SameValue (credit_sum id cs) (credit_sum id es) × (credit_count id cs ≡ credit_count id es)

  cons-IsSameBalance :
      (id : ℕ) (c : Credit A) (cs es : List (Credit A))
      → IsSameBalance id cs es
      → IsSameBalance id (c ∷ cs) (c ∷ es)
  unfolding credit_sum credit_count
  cons-IsSameBalance id c cs es same =
      ground (arith, add_parts c.amount (credit_sum id cs), add_parts c.amount (credit_sum id es))

  swap-IsSameBalance :
      (id : ℕ) (c c' : Credit A) (cs : List (Credit A))
      → IsSameBalance id (c ∷ c' ∷ cs) (c' ∷ c ∷ cs)
  unfolding credit_sum credit_count
  swap-IsSameBalance id c c' cs =
      let total = credit_sum id cs in
      ground (
        arith,
        add_parts c.amount total,
        add_parts c'.amount total,
        add_parts c.amount (d.add c'.amount total),
        add_parts c'.amount (d.add c.amount total),
      )

  Permᴰ-IsSameBalance : (id : ℕ) {cs es : List (Credit A)} → Permᴰ cs es → IsSameBalance id cs es
  unfolding credit_sum credit_count
  Permᴰ-IsSameBalance id Permᴰ.nil = (refl, refl)
  Permᴰ-IsSameBalance id (Permᴰ.cons {a = c} {l₁ = cs} {l₂ = es} same p) =
      subst (λ c'. IsSameBalance id (c ∷ cs) (c' ∷ es)) same
        (cons-IsSameBalance id c cs es (Permᴰ-IsSameBalance id p))
  Permᴰ-IsSameBalance id (Permᴰ.swap {a = c} {b = c'} {b' = last} {l = cs} first second) =
      subst (λ h. IsSameBalance id (c ∷ c' ∷ cs) (h ∷ last ∷ cs)) second
        (subst (λ h. IsSameBalance id (c ∷ c' ∷ cs) (c' ∷ h ∷ cs)) first
          (swap-IsSameBalance id c c' cs))
  Permᴰ-IsSameBalance id (Permᴰ.trans p q) =
      let left = Permᴰ-IsSameBalance id p in
      let right = Permᴰ-IsSameBalance id q in (omega arith, omega arith)

  perm-IsSameBalance : (id : ℕ) {cs es : List (Credit A)} → Perm cs es → IsSameBalance id cs es
  perm-IsSameBalance id p = (
    ∥∥₁_elim p (ℕ_set _ _) (λ q. (Permᴰ-IsSameBalance id q).0),
    ∥∥₁_elim p (ℕ_set _ _) (λ q. (Permᴰ-IsSameBalance id q).1),
  )

module _ {A : Type 0} ⦃d : Decimal A⦄ ⦃u : Unicode⦄ where
  outstanding_of_same :
      (x y : DeploymentModel A)
      → SameValue x.principal y.principal
      → SameValue x.amount_paid y.amount_paid
      → SameValue (outstanding (deployment_to_domain x)) (outstanding (deployment_to_domain y))
  unfolding outstanding non_negative deployment_to_domain
  outstanding_of_same x y principal paid = ground (
    arith,
    sub_parts x.principal x.amount_paid,
    sub_parts y.principal y.amount_paid,
    max_parts (d.sub x.principal x.amount_paid) d.zero_amount,
    max_parts (d.sub y.principal y.amount_paid) d.zero_amount,
    zero_parts d,
  )

  -- The order of the bank's notifications does not matter to a balance: after any two histories from
  -- empty tables whose ledgers hold the same bag of credits, whatever their order, their split between
  -- what was owed and what was overpaid and the entries without movement between them, a deployment has
  -- been paid the same amount by as many payments, and where its principal is the same it owes the same.
  pub balances_commute :
      (a b : Db A) (id : ℕ) (x y : DeploymentModel A)
      → Reach empty_db a
      → Reach empty_db b
      → Perm (credits a.payments) (credits b.payments)
      → find_deployment id a.deployments ≡ some x
      → find_deployment id b.deployments ≡ some y
      → SameValue x.principal y.principal
      → SameValue x.amount_paid y.amount_paid
        × (x.payment_count ≡ y.payment_count)
        × SameValue (outstanding (deployment_to_domain x)) (outstanding (deployment_to_domain y))
  balances_commute a b id x y reach reach' same found found' principal =
      let (sum, count) = balance_from_ledger a id x reach found in
      let (sum', count') = balance_from_ledger b id y reach' found' in
      let (ledger, counted) = ledger-credits id a.payments in
      let (ledger', counted') = ledger-credits id b.payments in
      let (credited, credits_count) = perm-IsSameBalance id same in
      let paid : SameValue x.amount_paid y.amount_paid = ground arith in
      (paid, ground arith, outstanding_of_same x y principal paid)
