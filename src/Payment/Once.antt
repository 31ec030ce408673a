-- ===== src/Payment/Once.antt =====
-- The references of the ledger: what becomes of a notification whose reference is listed already,
-- and of one whose reference is not.
use asset_repayment_service.Prelude.{
  ◌≡◌, refl, Bool, true, false, inl, inr, Option, none, some, List, [], ◌∷◌, drop, arith, subst,
  sym, ◌∙◌, Bool-cases, if◌then◌else◌,
}
use mathlib.Core.Bool.{false≢true}
use mathlib.Core.Option.{none-ne-some, some-injective}
use asset_repayment_service.Prelude.Text.{Str, str_eq, str_eq_refl}
use asset_repayment_service.Errors.{ok, Result-cases}
use asset_repayment_service.Money.Decimal.{Decimal}
use asset_repayment_service.Money.Currency.{Unicode}
use asset_repayment_service.Deployment.Clock.{Time}
use asset_repayment_service.Payment.Entity.{Payment, ApplyInput, ApplyResult, RecordInput}
use asset_repayment_service.Database.Rows.{PaymentModel, ApplyRowModel, payment_to_domain}
use asset_repayment_service.Database.Tables.{
  Db, row, no_row, unique_violation, string_too_long, numeric_overflow, check_violation,
  has_reference, find_payment, payment_violation, insert_payment,
}
use asset_repayment_service.Database.Statements.{
  apply_statement, applied_entry, recorded_entry, record_statement, select_payment,
}
use asset_repayment_service.Database.Ledger.{apply_once}
use asset_repayment_service.Database.Consistency.Inversion.{
  apply_statement-cases, record_statement-cases,
}
use asset_repayment_service.World.State.{Environment, World, query}
use asset_repayment_service.World.Repository.{
  get_by_reference, deployment_by_id, replay_with, replay, apply_payment, stored_duplicate,
  record_payment,
}
use asset_repayment_service.World.Effects.{
  Reply-cases, query-found, query-no_rows, applying_at, db-apply_payment, db-record_payment,
  db-get_by_reference, db-deployment_by_id,
}

-- None of the SQLSTATEs of the row constraints is the one of a key.
violations_differ :
    (long overflow check : Bool) (s : Str)
    → (if long
        then some string_too_long
        else if overflow
        then some numeric_overflow
        else if check
        then some check_violation
        else none)
      ≡ some s
    → str_eq s unique_violation ≡ false
unfolding str_eq
violations_differ true o c s h =
    subst (λ t. str_eq t unique_violation ≡ false) (some-injective _ _ h) refl
violations_differ false true c s h =
    subst (λ t. str_eq t unique_violation ≡ false) (some-injective _ _ h) refl
violations_differ false false true s h =
    subst (λ t. str_eq t unique_violation ≡ false) (some-injective _ _ h) refl
violations_differ false false false s h = absurd (none-ne-some _ h)

module _ {A : Type 0} where
  -- The two lookups of a reference agree.
  pub find_payment_listed :
      (r : Str) (ps : List (PaymentModel A)) (p : PaymentModel A)
      → find_payment r ps ≡ some p
      → has_reference r ps ≡ true
  unfolding find_payment has_reference
  find_payment_listed r [] p h = absurd (none-ne-some _ h)
  find_payment_listed r (q ∷ qs) p h = ground (arith, find_payment_listed r qs p)

  pub listed_find_payment :
      (r : Str) (ps : List (PaymentModel A))
      → has_reference r ps ≡ true
      → (p : PaymentModel A) × (find_payment r ps ≡ some p)
  unfolding find_payment has_reference
  listed_find_payment r [] h = absurd (false≢true h)
  listed_find_payment r (q ∷ qs) h = elim (Bool-cases (str_eq q.transaction_reference r)) [
    | inl same ↦ (q, rw (same, find_payment))
    | inr other ↦
        let (p, e) = listed_find_payment r qs (ground arith) in (p, rw (other, find_payment) e)
  ]

module _ {A : Type 0} ⦃d : Decimal A⦄ where
  -- The row constraints are told apart from the key by their SQLSTATE.
  payment_violation_unique :
      (p : PaymentModel A) (s : Str)
      → payment_violation p ≡ some s
      → str_eq s unique_violation ≡ false
  unfolding payment_violation str_eq
  payment_violation_unique p s h = violations_differ _ _ _ s h

  pub record_statement-once :
      (input : RecordInput A) (now : Time) (uuid : Str) (db : Db A)
      → has_reference input.notification.reference db.payments ≡ true
      → (record_statement input now uuid db).1 ≡ db
  unfolding recorded_entry
  record_statement-once input now uuid db taken = elim (record_statement-cases input now uuid db) [
    | inl same ↦ same
    | inr new ↦ absurd (false≢true (sym new.fresh ∙ taken))
  ]

  -- A statement of `Record` that gives a row has added it, and one that gives none found its
  -- reference taken.
  pub record_statement-row :
      (input : RecordInput A) (now : Time) (uuid : Str) (db : Db A) (p : PaymentModel A)
      → (record_statement input now uuid db).0 ≡ row p
      → (has_reference input.notification.reference db.payments ≡ false)
        × (has_reference input.notification.reference
              (record_statement input now uuid db).1.payments
            ≡ true)
  unfolding record_statement recorded_entry insert_payment has_reference
  record_statement-row input now uuid db p h =
      ground (arith, str_eq_refl input.notification.reference)

  record_statement-no_row :
      (input : RecordInput A) (now : Time) (uuid : Str) (db : Db A)
      → (record_statement input now uuid db).0 ≡ no_row
      → has_reference input.notification.reference db.payments ≡ true
  unfolding record_statement recorded_entry insert_payment
  record_statement-no_row input now uuid db h =
      ground (arith, payment_violation_unique (recorded_entry input now uuid))

  pub apply_statement-row :
      (seen : List (PaymentModel A)) (input : ApplyInput A) (now : Time) (uuid : Str) (db : Db A)
      (x : ApplyRowModel A)
      → (apply_statement seen input now uuid db).0 ≡ row x
      → (has_reference input.notification.reference db.payments ≡ false)
        × (has_reference input.notification.reference
              (apply_statement seen input now uuid db).1.payments
            ≡ true)
  unfolding applied_entry has_reference
  apply_statement-row seen input now uuid db x h =
      elim (apply_statement-cases seen input now uuid db) [
        | inl (same, nothing) ↦ absurd (nothing x h)
        | inr (a, _) ↦
            (a.fresh, rw (a.result, has_reference, str_eq_refl input.notification.reference))
      ]

module _ {A : Type 0} ⦃d : Decimal A⦄ ⦃u : Unicode⦄ ⦃e : Environment⦄ where
  select_payment-row :
      (r : Str) (db : Db A) (p : PaymentModel A)
      → (select_payment r db).0 ≡ row p
      → find_payment r db.payments ≡ some p
  unfolding select_payment
  select_payment-row r db p h = ground arith

  select_payment-no_row :
      (r : Str) (db : Db A) → (select_payment r db).0 ≡ no_row → find_payment r db.payments ≡ none
  unfolding select_payment
  select_payment-no_row r db h = ground arith

  -- A lookup that answers with a payment has found the reference.
  pub get_by_reference-some :
      (r : Str) (w : World A) (x : Payment A)
      → (get_by_reference r w).0 ≡ ok (some x)
      → (p : PaymentModel A) × (find_payment r w.db.payments ≡ some p) × (x ≡ payment_to_domain p)
  unfolding get_by_reference
  get_by_reference-some r w x h = elim (Reply-cases (query (λ _ _. select_payment r) w).0) [
    | inl (p, read) ↦ (
      p,
      select_payment-row r w.db p (query-found (λ _ _. select_payment r) w p read).0,
      ground arith,
    )
    | inr (inl nothing) ↦ ground arith
    | inr (inr (cause, lost)) ↦ ground arith
  ]

  pub apply_payment-once :
      (input : ApplyInput A) (w : World A)
      → has_reference input.notification.reference w.db.payments ≡ true
      → (apply_payment input w).1.db ≡ w.db
  apply_payment-once input w taken = elim (db-apply_payment input w) [
    | inl same ↦ same
    | inr ran ↦
        ran
        ∙ (apply_once (drop (e.lag w.step) w.db.payments) input (e.now w.step) (e.uuid w.step) w.db
            taken).0
  ]

  pub record_payment-once :
      (input : RecordInput A) (w : World A)
      → has_reference input.notification.reference w.db.payments ≡ true
      → (record_payment input w).1.db ≡ w.db
  record_payment-once input w taken = elim (db-record_payment input w) [
    | inl same ↦ same
    | inr ran ↦ ran ∙ record_statement-once input (e.now w.step) (e.uuid w.step) w.db taken
  ]

  -- A replay that answers is marked as one and stands for a listed reference.
  pub replay-ok :
      (input : ApplyInput A) (w : World A) (r : ApplyResult A)
      → (replay input w).0 ≡ ok r
      → (r.duplicate ≡ true)
        × (has_reference input.notification.reference (replay input w).1.db.payments ≡ true)
  unfolding replay replay_with
  replay-ok input w r h =
      let reference = input.notification.reference in
      let w' = (get_by_reference reference w).1 in
      elim (Result-cases (get_by_reference reference w).0) [
        | inl (none, nothing) ↦ ground arith
        | inl (some x, listed) ↦
            let (p, found_it, shown) = get_by_reference-some reference w x listed in
            elim (Result-cases (deployment_by_id input.deployment_id w').0) [
              | inl (y, current) ↦ ground (
                arith,
                find_payment_listed reference w.db.payments p found_it,
                db-get_by_reference reference w,
                db-deployment_by_id input.deployment_id w',
              )
              | inr (cause, lost) ↦ ground arith
            ]
        | inr (cause, lost) ↦ ground arith
      ]

  -- `Apply` answers only when the reference is in the ledger, and says so when it was before.
  pub apply_payment-ok :
      (input : ApplyInput A) (w : World A) (r : ApplyResult A)
      → (apply_payment input w).0 ≡ ok r
      → (has_reference input.notification.reference (apply_payment input w).1.db.payments ≡ true)
        × (has_reference input.notification.reference w.db.payments ≡ true → r.duplicate ≡ true)
  unfolding apply_payment
  apply_payment-ok input w r h =
      let sent = query (applying_at input w) w in
      elim (Reply-cases sent.0) [
        | inl (x, read) ↦
            let (answer, effect) = query-found (applying_at input w) w x read in
            ground (
              arith,
              effect,
              apply_statement-row (drop (e.lag w.step) w.db.payments) input (e.now w.step)
                  (e.uuid w.step) w.db x answer,
            )
        | inr (inl nothing) ↦ ground (arith, replay-ok input sent.1 r)
        | inr (inr (cause, lost)) ↦ ground (arith, replay-ok input sent.1 r)
      ]

  pub record_payment-ok :
      (input : RecordInput A) (w : World A) (stored : Option (Payment A)) (taken : Bool)
      → (record_payment input w).0 ≡ ok (stored, taken)
      → (has_reference input.notification.reference (record_payment input w).1.db.payments ≡ true)
        × (has_reference input.notification.reference w.db.payments ≡ true → taken ≡ true)
  unfolding record_payment stored_duplicate
  record_payment-ok input w stored taken h =
      let sent = query (record_statement input) w in
      elim (Reply-cases sent.0) [
        | inl (p, read) ↦
            let (answer, effect) = query-found (record_statement input) w p read in
            ground (
              arith,
              effect,
              record_statement-row input (e.now w.step) (e.uuid w.step) w.db p answer,
            )
        | inr (inl nothing) ↦
            let (answer, effect) = query-no_rows (record_statement input) w nothing in
            ground (
              arith,
              effect,
              record_statement-once input (e.now w.step) (e.uuid w.step) w.db,
              record_statement-no_row input (e.now w.step) (e.uuid w.step) w.db answer,
              db-get_by_reference input.notification.reference sent.1,
            )
        | inr (inr (cause, lost)) ↦ ground arith
      ]

  -- A lookup that answers with nothing has not found it.
  pub get_by_reference-none :
      (r : Str) (w : World A)
      → (get_by_reference r w).0 ≡ ok none
      → find_payment r w.db.payments ≡ none
  unfolding get_by_reference
  get_by_reference-none r w h = elim (Reply-cases (query (λ _ _. select_payment r) w).0) [
    | inl (p, read) ↦ ground arith
    | inr (inl nothing) ↦
        select_payment-no_row r w.db (query-no_rows (λ _ _. select_payment r) w nothing).0
    | inr (inr (cause, lost)) ↦ ground arith
  ]
