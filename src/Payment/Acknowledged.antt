-- ===== src/Payment/Acknowledged.antt =====
-- What the bank may conclude from an answer without an error.
use asset_repayment_service.Prelude.{
  ℕ, zero, suc, ◌≤◌, ◌≡◌, length, length-append, drop, All, Bool, true, false, ◌⊎◌, inl, inr,
  Option, none, some, List, [], ◌∷◌, ◌++◌, arith, Bool-cases, Option-cases, if◌then◌else◌,
}
use mathlib.Core.Option.{none-ne-some}
use asset_repayment_service.Prelude.Text.{Str, str_eq, str_eq→eq, str_eq_refl}
use asset_repayment_service.Errors.{ok}
use asset_repayment_service.Money.Decimal.{Decimal}
use asset_repayment_service.Money.Currency.{Unicode}
use asset_repayment_service.Deployment.Clock.{Floats}
use asset_repayment_service.Payment.Entity.{Notification, ValidatedNotification, PaymentResult}
use asset_repayment_service.Payment.Validate.{Calendar, validate}
use asset_repayment_service.Payment.Service.{
  Settings, Codec, trim_to, append_entry, enqueue, dispatch, accept_valid, accept,
}
use asset_repayment_service.Payment.Idempotency.{process_keeps}
use asset_repayment_service.Database.Tables.{Db, has_reference}
use asset_repayment_service.World.State.{Environment, World, Message}
use asset_repayment_service.World.Cache.{lookup_entry, get_result}
use asset_repayment_service.World.Effects.{db-get_result}

abbrev same_payload : Str → Option Str → Bool
same_payload raw none = false
same_payload raw (some p) = str_eq p raw

-- An entry of the stream carries the text.
unfoldable pub has_payload : Str → List Message → Bool
unfolding str_eq
has_payload raw [] = false
has_payload raw (m ∷ ms) = if same_payload raw m.payload then true else has_payload raw ms

-- The entry that was added last is not trimmed away.
has_payload-drop :
    (raw : Str) (id n : ℕ) (old : List Message)
    → n ≤ length old
    → has_payload raw (drop n (old ++ record { id = id; payload = some raw } ∷ [])) ≡ true
unfolding has_payload
has_payload-drop raw id zero [] h = ground (arith, str_eq_refl raw)
has_payload-drop raw id (suc n) [] h = ground arith
has_payload-drop raw id zero (m ∷ old) h =
    ground (arith, has_payload-drop raw id zero old (omega arith))
has_payload-drop raw id (suc n) (m ∷ old) h = has_payload-drop raw id n old (omega arith)

has_payload-trim_to :
    (raw : Str) (id max_len k : ℕ) (old : List Message)
    → has_payload raw (trim_to max_len k (old ++ record { id = id; payload = some raw } ∷ []))
      ≡ true
has_payload-trim_to raw id zero k old = has_payload-drop raw id zero old (omega arith)
has_payload-trim_to raw id (suc max_len) k old =
    has_payload-drop raw id _ old
      (ground (arith, length-append old (record { id = id; payload = some raw } ∷ [])))

module _ {A : Type 0} where
  -- Every result in the cache stands under a reference that the ledger lists.
  abbrev pub IsCacheSound : World A → Type 0
  IsCacheSound w =
      All (λ (entry : Str × PaymentResult A). has_reference entry.0 w.db.payments ≡ true) w.results

  lookup_entry-listed :
      (key : Str) (entries : List (Str × PaymentResult A)) (db : Db A) (r : PaymentResult A)
      → All (λ (entry : Str × PaymentResult A). has_reference entry.0 db.payments ≡ true) entries
      → lookup_entry key entries ≡ some r
      → has_reference key db.payments ≡ true
  unfolding lookup_entry
  lookup_entry-listed key [] db r sound h = absurd (none-ne-some _ h)
  lookup_entry-listed key ((k, v) ∷ entries) db r (first, rest) h =
      ground (arith, str_eq→eq k key, lookup_entry-listed key entries db r rest)

module _ {A : Type 0} ⦃d : Decimal A⦄ ⦃u : Unicode⦄ ⦃e : Environment⦄ ⦃c : Codec A⦄ where
  pub get_result-listed :
      (key : Str) (w : World A) (r : PaymentResult A)
      → IsCacheSound w
      → (get_result key w).0 ≡ some r
      → has_reference key w.db.payments ≡ true
  unfolding get_result
  get_result-listed key w r sound h = ground (arith, lookup_entry-listed key w.results w.db r sound)

  -- The stream carries the encoding of the notification.
  abbrev pub IsQueued : ValidatedNotification A → World A → Type 0
  IsQueued v w = (raw : Str) × (c.encode v ≡ some raw) × (has_payload raw w.stream.entries ≡ true)

  enqueue-IsQueued :
      (v : ValidatedNotification A) (w : World A)
      → (enqueue v w).0 ≡ none
      → IsQueued v (enqueue v w).1
  unfolding enqueue append_entry
  enqueue-IsQueued v w h = elim (Option-cases (c.encode v)) [
    | inl unencodable ↦ ground arith
    | inr (raw, encoded) ↦ (
      raw,
      encoded,
      ground (
        arith,
        has_payload-trim_to raw w.stream.next_entry w.queue_max_len (e.trim w.step)
            w.stream.entries,
      ),
    )
  ]

module _ {A : Type 0} ⦃d : Decimal A⦄ ⦃u : Unicode⦄ ⦃e : Environment⦄ ⦃f : Floats⦄ ⦃l : Calendar⦄
    ⦃c : Codec A⦄ where
  -- The credit is safe: in the ledger, or waiting in the stream.
  abbrev pub IsSafe : ValidatedNotification A → World A → Type 0
  IsSafe v w = (has_reference v.reference w.db.payments ≡ true) ⊎ IsQueued v w

  dispatch-IsSafe :
      (v : ValidatedNotification A) (w : World A) (r : PaymentResult A)
      → (dispatch v w).0 ≡ ok r
      → IsSafe v (dispatch v w).1
  unfolding dispatch
  dispatch-IsSafe v w r answered = elim (Bool-cases w.queue_on) [
    | inr off ↦ inl (ground (arith, process_keeps v w r))
    | inl on ↦ elim (Option-cases (enqueue v w).0) [
      | inl sent ↦
          let (raw, encoded, held) = enqueue-IsQueued v w sent in
          inr (raw, encoded, ground (arith, held))
      | inr (cause, failed) ↦ inl (ground (arith, process_keeps v (enqueue v w).1 r))
    ]
  ]

  -- A notification that the webhook answers without an error is safe, if the results in the cache
  -- stand under references that the ledger lists: its reference is in the ledger, or the stream carries it, and it was not
  -- trimmed away.
  pub accept-IsSafe :
      (settings : Settings) (n : Notification) (raw : Str) (w : World A)
      (v : ValidatedNotification A) (r : PaymentResult A)
      → validate n settings.provider_location settings.default_currency raw (e.now w.step) ≡ ok v
      → IsCacheSound w
      → (accept settings n raw w).0 ≡ ok r
      → IsSafe v (accept settings n raw w).1
  unfolding accept accept_valid
  accept-IsSafe settings n raw w v r valid sound answered =
      elim (Option-cases (get_result v.reference w).0) [
        | inr (x, hit) ↦ inl (
            rw (valid, accept, hit, accept_valid, db-get_result v.reference w)
              (get_result-listed v.reference w x sound hit))
        | inl miss ↦
            rw (valid, accept, miss, accept_valid)
              (dispatch-IsSafe v (get_result v.reference w).1 r (ground arith))
      ]
