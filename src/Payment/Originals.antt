-- ===== src/Payment/Originals.antt =====
-- The results in the cache against the entries of the ledger.
use asset_repayment_service.Prelude.{
  ◌≡◌, ℕ, refl, All, false, ◌⊎◌, inl, inr, Option, some, List, [], ◌∷◌, ◌++◌, arith, subst, sym,
  ◌∙◌, ap, Bool-cases, Option-cases,
}
use mathlib.Core.Bool.{false≢true}
use asset_repayment_service.Prelude.Text.{Str, str_eq, str_eq→eq, str_eq_refl}
use asset_repayment_service.Errors.{Result-cases}
use asset_repayment_service.Money.Decimal.{Decimal}
use asset_repayment_service.Money.Currency.{Unicode}
use asset_repayment_service.Deployment.Clock.{Floats}
use asset_repayment_service.Deployment.Service.{resolve}
use asset_repayment_service.Payment.Entity.{
  ValidatedNotification, Notification, PaymentResult, ApplyResult, applied,
}
use asset_repayment_service.Payment.Validate.{Calendar}
use asset_repayment_service.Payment.Service.{
  Settings, Codec, same_request, applied_result, apply_routed, process, accept, position_of,
}
use asset_repayment_service.Payment.Effects.{
  apply_input, db-applied_result, process-path, stopped, recorded, moved, process-Reach,
}
use asset_repayment_service.Payment.Invariants.{IsBeside, accept-Holds}
use asset_repayment_service.Payment.Moves.{Moved, apply_payment-first}
use asset_repayment_service.Payment.Once.{find_payment_listed}
use asset_repayment_service.Payment.Quiet.{
  resolve-IsQuiet, apply_payment-IsQuiet, record_only-IsQuiet, write_through-cases,
}
use asset_repayment_service.Database.Rows.{PaymentModel, payment_to_domain}
use asset_repayment_service.Database.Statements.{applied_entry, move_row}
use asset_repayment_service.Database.Tables.{Db, has_reference, find_payment}
use asset_repayment_service.Database.Consistency.{IsConsistent, DistinctReferences}
use asset_repayment_service.Database.Consistency.Inversion.{entry_of}
use asset_repayment_service.Database.Ledger.{
  Reach, here, Reach-IsConsistent, has_reference-append, ledger_grows,
}
use asset_repayment_service.World.State.{Environment, World}
use asset_repayment_service.World.Cache.{set_result, trimmed_payment}
use asset_repayment_service.World.Repository.{apply_payment, apply_row_to_payment}

module _ {A : Type 0} ⦃d : Decimal A⦄ ⦃u : Unicode⦄ where
  -- The result is that of an applied payment and shows the entry that the ledger holds for the
  -- reference, with all its data but the bank's text; the deployment's uuid is not compared.
  pub record IsOriginal (ps : List (PaymentModel A)) (key : Str) (r : PaymentResult A)
      : Type 0 where
    pub entry : PaymentModel A
    pub deployment_uuid : Option Str
    pub stored : find_payment key ps ≡ some entry
    pub outcome : r.outcome ≡ applied
    pub shown :
        r.payment
        ≡ some (record (payment_to_domain entry) {
          deployment_uuid = deployment_uuid;
          raw_payload = [];
        })

  abbrev pub AllOriginal : List (PaymentModel A) → List (Str × PaymentResult A) → Type 0
  AllOriginal ps entries = All (λ (x : Str × PaymentResult A). IsOriginal ps x.0 x.1) entries

  -- Consistent books, and a cache of original results.
  pub record IsReplayable (w : World A) : Type 0 where
    pub books : IsConsistent w.db
    pub originals : AllOriginal w.db.payments w.results

  find_payment-append :
      (key : Str) (new ps : List (PaymentModel A)) (p : PaymentModel A)
      → DistinctReferences (new ++ ps)
      → find_payment key ps ≡ some p
      → find_payment key (new ++ ps) ≡ some p
  unfolding find_payment
  find_payment-append key [] ps p distinct h = h
  find_payment-append key (q ∷ new) ps p (fresh, rest) h =
      elim (Bool-cases (str_eq q.transaction_reference key)) [
        | inl taken ↦
            let listed = has_reference-append key new ps (find_payment_listed key ps p h) in
            absurd (
              false≢true (
                sym fresh
                ∙ ap (λ r. has_reference r (new ++ ps))
                    (str_eq→eq q.transaction_reference key taken)
                ∙ listed))
        | inr other ↦ rw (other, find_payment) (find_payment-append key new ps p rest h)
      ]

  AllOriginal-Reach :
      {a b : Db A} (entries : List (Str × PaymentResult A))
      → Reach a b
      → IsConsistent b
      → AllOriginal a.payments entries
      → AllOriginal b.payments entries
  AllOriginal-Reach [] path books h = tt
  AllOriginal-Reach {a} {b} ((key, r) ∷ entries) path books (first, rest) =
      let (new, grown) = ledger_grows path in
      let distinct : DistinctReferences (new ++ a.payments) =
        subst DistinctReferences grown books.references in
      (
        record {
          entry = first.entry;
          deployment_uuid = first.deployment_uuid;
          stored =
              ap (find_payment key) grown
              ∙ find_payment-append key new a.payments first.entry distinct first.stored;
          outcome = first.outcome;
          shown = first.shown;
        },
        AllOriginal-Reach entries path books rest,
      )

  -- What leaves the cache alone keeps it original.
  pub quiet-IsReplayable :
      (w w' : World A)
      → Reach w.db w'.db
      → w'.results ≡ w.results
      → IsReplayable w
      → IsReplayable w'
  quiet-IsReplayable w w' path same h =
      let books = Reach-IsConsistent path h.books in
      record {
        books = books;
        originals =
            subst (AllOriginal w'.db.payments) (sym same)
              (AllOriginal-Reach w.results path books h.originals);
      }

module _ {A : Type 0} ⦃d : Decimal A⦄ ⦃u : Unicode⦄ ⦃e : Environment⦄ ⦃f : Floats⦄ where
  -- The cache has gained one result at most, and that is original in the tables by then.
  abbrev FilesOriginal : Str → World A → World A → Type 0
  FilesOriginal key w w' =
      (w'.results ≡ w.results)
      ⊎ ((y : PaymentResult A) × ((w'.results ≡ (key, y) ∷ w.results)
            × IsOriginal w'.db.payments key y))

  set_result-files :
      (key : Str) (r : PaymentResult A) (w : World A)
      → ((set_result key r w).results ≡ w.results)
        ⊎ ((set_result key r w).results
            ≡ (key, record r { payment = trimmed_payment r.payment }) ∷ w.results)
  unfolding set_result
  set_result-files key r w = elim (Bool-cases w.cache_on) [
    | inl on ↦
        let shown = record r { payment = trimmed_payment r.payment } in
        elim (write_through-cases (e.fault w.step) w.results ((key, shown) ∷ w.results)) [
          | inl lost ↦ inl (ground arith)
          | inr written ↦ inr (ground arith)
        ]
    | inr off ↦ inl (ground arith)
  ]

  Moved-IsOriginal :
      (v : ValidatedNotification A) (id : ℕ) (before after : Db A) (x : ApplyResult A)
      (y : PaymentResult A)
      → Moved (apply_input v id) before after x
      → y.outcome ≡ applied
      → y.payment ≡ trimmed_payment x.payment
      → IsOriginal after.payments v.reference y
  unfolding applied_entry move_row payment_to_domain apply_row_to_payment find_payment
  Moved-IsOriginal v id before after x y m outcome shown =
      let a = m.change in
      let entry = entry_of (apply_input v id) m.now m.uuid a.x in
      rw (a.result) (record {
        entry = entry;
        deployment_uuid = some a.x.uuid;
        stored = rw (str_eq_refl v.reference);
        outcome = outcome;
        shown = shown ∙ ap trimmed_payment m.shown;
      })

  -- What a first application files.
  applied_result-first :
      (v : ValidatedNotification A) (x : ApplyResult A) (w : World A)
      → x.duplicate ≡ false
      → (r : PaymentResult A) × (((applied_result v x w).1 ≡ set_result v.reference r w)
          × ((r.outcome ≡ applied) × (r.payment ≡ x.payment)))
  unfolding applied_result
  applied_result-first v x w first = (
    record { outcome = applied; payment = x.payment; position = position_of x.deployment w },
    (rw (first, applied_result), (refl, refl)),
  )

  applied_result-FilesOriginal :
      (v : ValidatedNotification A) (id : ℕ) (w : World A) (x : ApplyResult A) (before : Db A)
      → x.duplicate ≡ false
      → Moved (apply_input v id) before w.db x
      → FilesOriginal v.reference w (applied_result v x w).1
  applied_result-FilesOriginal v id w x before first m =
      let (r, (ran, (outcome, shown))) = applied_result-first v x w first in
      let y = record r { payment = trimmed_payment r.payment } in
      elim (set_result-files v.reference r w) [
        | inl lost ↦ inl (rw ran lost)
        | inr written ↦ inr (
          y,
          (
            rw ran written,
            rw (db-applied_result v x w)
                (Moved-IsOriginal v id before w.db x y m outcome (ap trimmed_payment shown)),
          ),
        )
      ]

  apply_routed-FilesOriginal :
      (v : ValidatedNotification A) (id : ℕ) (w : World A)
      → FilesOriginal v.reference w (apply_routed v id w).1
  unfolding apply_routed applied_result
  apply_routed-FilesOriginal v id w =
      let called = apply_payment (apply_input v id) w in
      let quiet = apply_payment-IsQuiet (apply_input v id) w in
      elim (Result-cases called.0) [
        | inr (cause, failed) ↦ rw (failed, apply_routed) (inl quiet.1)
        | inl (x, done) ↦ elim (Bool-cases x.duplicate) [
          | inl again ↦
              let same : (apply_routed v id w).1.results ≡ called.1.results =
                elim (Option-cases (same_request x.payment v)) [
                  | inl same ↦ rw (done, apply_routed, again, same, applied_result)
                  | inr (conflict, other) ↦ rw (done, apply_routed, again, other, applied_result)
                ] in
              inl (same ∙ quiet.1)
          | inr first ↦
              let m = apply_payment-first (apply_input v id) w x done first in
              let filed = applied_result-FilesOriginal v id called.1 x w.db first m in
              let moved_on : FilesOriginal v.reference w (applied_result v x called.1).1 =
                elim filed [
                  | inl same ↦ inl (same ∙ quiet.1)
                  | inr (y, (added, original)) ↦
                      inr
                        (y, (added ∙ ap (λ entries. (v.reference, y) ∷ entries) quiet.1, original))
                ] in
              rw (done, apply_routed) moved_on
        ]
      ]

  process-FilesOriginal :
      (v : ValidatedNotification A) (w : World A) → FilesOriginal v.reference w (process v w).1
  process-FilesOriginal v w =
      let routed = (resolve v.customer_id w).1 in
      let quiet = resolve-IsQuiet v.customer_id w in
      elim (process-path v w) [
        | stopped cause p ↦ rw p (inl quiet.1)
        | recorded o id ne p ↦ rw p (inl ((record_only-IsQuiet v o id routed).1 ∙ quiet.1))
        | moved ref found settled p ↦ rw p (elim (apply_routed-FilesOriginal v ref.id routed) [
          | inl same ↦ inl (same ∙ quiet.1)
          | inr (y, (added, original)) ↦
              inr (y, (added ∙ ap (λ entries. (v.reference, y) ∷ entries) quiet.1, original))
        ])
      ]

  pub process-IsReplayable :
      (v : ValidatedNotification A) (w : World A) → IsReplayable w → IsReplayable (process v w).1
  process-IsReplayable v w h =
      let path = process-Reach v w in
      let books = Reach-IsConsistent path h.books in
      elim (process-FilesOriginal v w) [
        | inl same ↦ quiet-IsReplayable w (process v w).1 path same h
        | inr (y, (added, original)) ↦ record {
          books = books;
          originals =
              subst (AllOriginal (process v w).1.db.payments) (sym added)
                (original, AllOriginal-Reach w.results path books h.originals);
        }
      ]

module _ {A : Type 0} ⦃d : Decimal A⦄ ⦃u : Unicode⦄ where
  pub beside-IsReplayable : (w w' : World A) → IsBeside w w' → IsReplayable w → IsReplayable w'
  beside-IsReplayable w w' same =
      quiet-IsReplayable w w' (subst (Reach w.db) (sym same.0) here) same.1

module _ {A : Type 0} ⦃d : Decimal A⦄ ⦃u : Unicode⦄ ⦃e : Environment⦄ ⦃f : Floats⦄ ⦃l : Calendar⦄
    ⦃c : Codec A⦄ where
  pub accept-IsReplayable :
      (settings : Settings) (n : Notification) (raw : Str) (w : World A)
      → IsReplayable w
      → IsReplayable (accept settings n raw w).1
  accept-IsReplayable settings n raw w h =
      accept-Holds IsReplayable beside-IsReplayable process-IsReplayable settings n raw w h
