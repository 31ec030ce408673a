-- ===== src/Database/Ledger.antt =====
-- The life of the tables as a sequence of atomic statements in any order, from any number of
-- connections: each apply statement carries the snapshot that its NOT EXISTS probe saw.
use asset_repayment_service.Prelude.{
  ℕ, ◌≡◌, ◌≢◌, refl, true, inl, inr, some, List, [], ◌∷◌, ◌++◌, subst, sym, ◌∙◌, ap, arith,
}
use mathlib.Core.Bool.{false≢true}
use mathlib.Core.List.{append_assoc}
use asset_repayment_service.Prelude.Text.{Str}
use asset_repayment_service.Money.Decimal.{Decimal, SameValue}
use asset_repayment_service.Deployment.Clock.{Time}
use asset_repayment_service.Deployment.Contracts.{CreateInput}
use asset_repayment_service.Payment.Entity.{ApplyInput, RecordInput, applied}
use asset_repayment_service.Database.Rows.{DeploymentModel, PaymentModel, ApplyRowModel}
use asset_repayment_service.Database.Tables.{Db, row, has_reference, find_deployment}
use asset_repayment_service.Database.Statements.{
  apply_statement, record_statement, create_statement, recorded_entry,
}
use asset_repayment_service.Database.Consistency.{
  IsConsistent, IsBalanced, ledger_sum, ledger_count,
}
use asset_repayment_service.Database.Consistency.Inversion.{
  entry_of, apply_statement-cases, record_statement-cases, create_statement-cases,
}
use asset_repayment_service.Database.Consistency.Preserve.{
  apply_statement-IsConsistent, record_statement-IsConsistent, create_statement-IsConsistent,
  find_deployment-All, find_deployment-id,
}

abbrev pub empty_db : {A : Type 0} → Db A
empty_db = record { deployments = []; payments = []; next_id = 1 }

module _ {A : Type 0} ⦃d : Decimal A⦄ where
  -- One statement that some connection commits.
  pub data DbStep (db : Db A) : Db A → Type 0 where
    applying :
        (seen : List (PaymentModel A)) (input : ApplyInput A) (now : Time) (uuid : Str)
        → DbStep db (apply_statement seen input now uuid db).1
    recording :
        (input : RecordInput A) (now : Time) (uuid : Str)
        → input.outcome ≢ applied
        → DbStep db (record_statement input now uuid db).1
    creating :
        (input : CreateInput A) (now : Time) (uuid : Str)
        → DbStep db (create_statement input now uuid db).1

  pub data Reach (db : Db A) : Db A → Type 0 where
    here : Reach db db
    next : {db' db'' : Db A} → Reach db db' → DbStep db' db'' → Reach db db''

  pub Reach-trans : {a b c : Db A} → Reach a b → Reach b c → Reach a c
  Reach-trans p here = p
  Reach-trans p (next q s) = next (Reach-trans p q) s

  DbStep-IsConsistent : {a b : Db A} → DbStep a b → IsConsistent a → IsConsistent b
  DbStep-IsConsistent {a} (applying seen input now uuid) c =
      apply_statement-IsConsistent seen input now uuid a c
  DbStep-IsConsistent {a} (recording input now uuid ne) c =
      record_statement-IsConsistent input now uuid a ne c
  DbStep-IsConsistent {a} (creating input now uuid) c =
      create_statement-IsConsistent input now uuid a c

  -- Whatever statements are committed in whatever order, consistent books stay consistent: no
  -- reference twice, every balance and payment count the ones that the ledger gives, every applied
  -- entry split without loss, one open deployment for a customer, and no open deployment paid off.
  pub Reach-IsConsistent : {a b : Db A} → Reach a b → IsConsistent a → IsConsistent b
  Reach-IsConsistent here c = c
  Reach-IsConsistent (next r s) c = DbStep-IsConsistent s (Reach-IsConsistent r c)

  pub empty_db-IsConsistent : IsConsistent (empty_db {A = A})
  empty_db-IsConsistent = record {
    references = tt;
    balances = tt;
    entries = tt;
    one_open = tt;
    owing = tt;
    known = tt;
    routed = tt;
  }

  -- From empty tables, the amount paid of every deployment is the sum of its applied payments.
  pub balance_from_ledger :
      (db : Db A) (id : ℕ) (x : DeploymentModel A)
      → Reach empty_db db
      → find_deployment id db.deployments ≡ some x
      → SameValue x.amount_paid (ledger_sum id db.payments)
        × (x.payment_count ≡ ledger_count id db.payments)
  balance_from_ledger db id x r found =
      subst
        (λ i.
          SameValue x.amount_paid (ledger_sum i db.payments)
          × (x.payment_count ≡ ledger_count i db.payments))
        (find_deployment-id id db.deployments found)
        (find_deployment-All (IsBalanced db.payments) id db.deployments
          (Reach-IsConsistent r empty_db-IsConsistent).balances found)

  -- A reference that the ledger holds is never applied again, by any statement and whatever its probe
  -- saw: there is no row, and both tables stay as they are.
  pub apply_once :
      (seen : List (PaymentModel A)) (input : ApplyInput A) (now : Time) (uuid : Str) (db : Db A)
      → has_reference input.notification.reference db.payments ≡ true
      → ((apply_statement seen input now uuid db).1 ≡ db)
        × ((r : ApplyRowModel A) → (apply_statement seen input now uuid db).0 ≢ row r)
  apply_once seen input now uuid db taken = elim (apply_statement-cases seen input now uuid db) [
    | inl untouched ↦ untouched
    | inr (a, _) ↦ absurd (false≢true (sym a.fresh ∙ taken))
  ]

  DbStep-grows :
      {a b : Db A} → DbStep a b → (new : List (PaymentModel A)) × (b.payments ≡ new ++ a.payments)
  DbStep-grows {a} (applying seen input now uuid) =
      elim (apply_statement-cases seen input now uuid a) [
        | inl (same, _) ↦ ([], ap (λ (x : Db A). x.payments) same)
        | inr (m, _) ↦ (entry_of input now uuid m.x ∷ [], ap (λ (x : Db A). x.payments) m.result)
      ]
  DbStep-grows {a} (recording input now uuid ne) = elim (record_statement-cases input now uuid a) [
    | inl same ↦ ([], ap (λ (x : Db A). x.payments) same)
    | inr new ↦ (recorded_entry input now uuid ∷ [], ap (λ (x : Db A). x.payments) new.result)
  ]
  DbStep-grows {a} (creating input now uuid) = elim (create_statement-cases input now uuid a) [
    | inl same ↦ ([], ap (λ (x : Db A). x.payments) same)
    | inr new ↦ ([], ap (λ (x : Db A). x.payments) new.result)
  ]

  -- The ledger is append-only.
  pub ledger_grows :
      {a b : Db A} → Reach a b → (new : List (PaymentModel A)) × (b.payments ≡ new ++ a.payments)
  ledger_grows here = ([], refl)
  ledger_grows (next r s) =
      let (new, e) = ledger_grows r in
      let (more, e') = DbStep-grows s in
      (more ++ new, e' ∙ ap (λ l. more ++ l) e ∙ sym (append_assoc more new _))

pub has_reference-append :
    {A : Type 0} (r : Str) (new ps : List (PaymentModel A))
    → has_reference r ps ≡ true
    → has_reference r (new ++ ps) ≡ true
unfolding has_reference
has_reference-append r [] ps h = h
has_reference-append r (p ∷ new) ps h = ground (arith, has_reference-append r new ps h)

module _ {A : Type 0} ⦃d : Decimal A⦄ where
  -- What is in the ledger stays in it.
  pub has_reference-Reach :
      {a b : Db A} (r : Str)
      → Reach a b
      → has_reference r a.payments ≡ true
      → has_reference r b.payments ≡ true
  has_reference-Reach {a} r path listed =
      let (new, grown) = ledger_grows path in
      rw grown (has_reference-append r new a.payments listed)
