-- ===== src/Database/Tables.antt =====
-- The tables `deployments` and `payments`, their CHECK, length, key and index constraints, and the
-- lookups and updates of rows that the statements are made of. A constraint that fails is named by
-- its SQLSTATE.
use asset_repayment_service.Prelude.{
  ℕ, ◌+◌, ◌^◌, Bool, true, false, not, ◌&&◌, ◌||◌, Option, none, some, List, [], ◌∷◌, ltb, leb,
  ◌==◌, length, if◌then◌else◌,
}
use asset_repayment_service.Prelude.Int.{pos, leb_ℤ}
use asset_repayment_service.Prelude.Text.{Str, text, str_eq}
use asset_repayment_service.Money.Decimal.{Decimal, up, down}
use asset_repayment_service.Deployment.Entity.{is_open_status}
use asset_repayment_service.Payment.Entity.{Outcome, applied, duplicate, unmatched, ignored, queued}
use asset_repayment_service.Database.Rows.{DeploymentModel, PaymentModel}

pub record Db (A : Type 0) : Type 0 where
  pub deployments : List (DeploymentModel A)
  -- the newest entry first
  pub payments : List (PaymentModel A)
  -- the sequence of the BIGSERIAL key
  pub next_id : ℕ

-- What a query with one row expected comes back with.
pub data Fetched {ℓ} (R : Type ℓ) : Type ℓ where
  row : R → Fetched R
  no_row : Fetched R
  violated : (sqlstate : Str) → Fetched R

abbrev pub unique_violation : Str
unique_violation = text "23505"

abbrev pub check_violation : Str
check_violation = text "23514"

abbrev pub foreign_key_violation : Str
foreign_key_violation = text "23503"

abbrev pub string_too_long : Str
string_too_long = text "22001"

abbrev pub numeric_overflow : Str
numeric_overflow = text "22003"

-- The status column of `payments` admits three of the outcomes.
abbrev pub is_stored_outcome : Outcome → Bool
is_stored_outcome applied = true
is_stored_outcome duplicate = false
is_stored_outcome unmatched = true
is_stored_outcome ignored = true
is_stored_outcome queued = false

-- `VARCHAR(n)` counts characters.
abbrev pub longer : Str → ℕ → Bool
longer s n = ltb n (length s)

abbrev longer? : Option Str → ℕ → Bool
longer? none n = false
longer? (some s) n = longer s n

abbrev same_text? : Option Str → Option Str → Bool
same_text? none _ = false
same_text? (some s) none = false
same_text? (some s) (some t) = str_eq s t

module _ {A : Type 0} where
  unfoldable pub has_reference : Str → List (PaymentModel A) → Bool
  unfolding str_eq
  has_reference ref [] = false
  has_reference ref (p ∷ ps) =
      if str_eq p.transaction_reference ref then true else has_reference ref ps

  -- `WHERE transaction_reference = $1`
  unfoldable pub find_payment : Str → List (PaymentModel A) → Option (PaymentModel A)
  unfolding str_eq
  find_payment ref [] = none
  find_payment ref (p ∷ ps) =
      if str_eq p.transaction_reference ref then some p else find_payment ref ps

  -- `WHERE id = $1`
  unfoldable pub find_deployment : ℕ → List (DeploymentModel A) → Option (DeploymentModel A)
  find_deployment id [] = none
  find_deployment id (x ∷ xs) = if x.id == id then some x else find_deployment id xs

  -- `UPDATE deployments … WHERE id = $1`
  unfoldable pub update_deployment :
      ℕ
      → (DeploymentModel A → DeploymentModel A)
      → List (DeploymentModel A)
      → List (DeploymentModel A)
  update_deployment id change [] = []
  update_deployment id change (x ∷ xs) =
      (if x.id == id then change x else x) ∷ update_deployment id change xs

  abbrev pub open_for : Str → DeploymentModel A → Bool
  open_for customer_id x = is_open_status x.status && str_eq x.customer_id customer_id

  -- The partial unique index `ux_deployments_customer_open`.
  unfoldable pub has_open : Str → List (DeploymentModel A) → Bool
  unfolding str_eq
  has_open customer_id [] = false
  has_open customer_id (x ∷ xs) = if open_for customer_id x then true else has_open customer_id xs

  -- The unique index `ux_deployments_virtual_account`.
  unfoldable pub has_account : Option Str → List (DeploymentModel A) → Bool
  unfolding str_eq
  has_account number [] = false
  has_account number (x ∷ xs) =
      if same_text? x.virtual_account_number number then true else has_account number xs

  abbrev pub knows : Option ℕ → List (DeploymentModel A) → Bool
  knows none ds = true
  knows (some id) ds = elim (find_deployment id ds) [ none ↦ false | some _ ↦ true ]

module _ {A : Type 0} ⦃d : Decimal A⦄ where
  -- A value out of the range of NUMERIC(24, 6).
  unfoldable pub overflows : A → Bool
  overflows a = leb (10 ^ (18 + d.places)) (up a) || leb (10 ^ (18 + d.places)) (down a)

  abbrev negative : A → Bool
  negative a = d.less a d.zero_amount

  -- The constraints of `payments` that look at the new row alone.
  unfoldable pub payment_violation : PaymentModel A → Option Str
  unfolding overflows
  payment_violation p =
      if longer p.transaction_reference 128
        || longer p.customer_id 64
        || longer p.currency 8
        || longer p.provider_status 32
      then some string_too_long
      else if overflows p.amount || overflows p.balance_before || overflows p.balance_after
      then some numeric_overflow
      else if not (is_stored_outcome p.outcome)
          || not (d.is_positive p.amount)
          || negative p.applied_amount
          || negative p.excess_amount
          || d.less p.amount (d.add p.applied_amount p.excess_amount)
      then some check_violation
      else none

  -- The row-level constraints of `deployments`.
  unfoldable pub deployment_violation : DeploymentModel A → Option Str
  unfolding overflows
  deployment_violation x =
      if longer x.customer_id 64
        || longer x.asset_id 64
        || longer x.asset_type 32
        || longer? x.virtual_account_number 32
        || longer x.currency 8
      then some string_too_long
      else if overflows x.principal || overflows x.amount_paid
      then some numeric_overflow
      else if not (d.is_positive x.principal)
          || not (leb_ℤ (pos 1) x.term_weeks && leb_ℤ x.term_weeks (pos 520))
          || negative x.amount_paid
      then some check_violation
      else none

  -- The insert of a ledger row into the tables as they stand: row constraints, the primary key, the
  -- foreign key.
  unfoldable pub insert_payment : PaymentModel A → Db A → Fetched (Db A)
  unfolding payment_violation has_reference find_deployment
  insert_payment p db = elim (payment_violation p) [
    | some sqlstate ↦ violated sqlstate
    | none ↦
        if has_reference p.transaction_reference db.payments
        then violated unique_violation
        else if knows p.deployment_id db.deployments
        then row (record db { payments = p ∷ db.payments })
        else violated foreign_key_violation
  ]
