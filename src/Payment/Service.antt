-- ===== src/Payment/Service.antt =====
-- service.go: `Accept` and `Process`, the conflict check of replays and the routing failures.
use asset_repayment_service.Prelude.{
  ℕ, zero, suc, ◌-◌, min, length, drop, Bool, true, false, not, ◌||◌, ◌==◌, Option, none, some,
  List, [], ◌∷◌, ◌++◌, if◌then◌else◌,
}
use asset_repayment_service.Prelude.Text.{Str, text, str_eq}
use asset_repayment_service.Errors.{
  GoError, plain, wrapped, domain, DomainError, Result, ok, err, with_details, find_domain,
  has_routing_variable, code_of, code_not_found, code_failed_precondition,
}
use asset_repayment_service.Money.Decimal.{Decimal}
use asset_repayment_service.Money.Currency.{Currency, Unicode}
use asset_repayment_service.Deployment.Clock.{Floats}
use asset_repayment_service.Deployment.Entity.{Deployment}
use asset_repayment_service.Deployment.Position.{Position, position_at}
use asset_repayment_service.Deployment.Service.{resolve}
use asset_repayment_service.Payment.Entity.{
  Notification, ValidatedNotification, Payment, Outcome, applied, duplicate, unmatched, ignored,
  queued, ApplyResult, PaymentResult, err_reference_conflict, is_successful,
}
use asset_repayment_service.Payment.Validate.{Location, Calendar, validate}
use asset_repayment_service.World.State.{Environment, World, Message, healthy, refused, reply_lost}
use asset_repayment_service.World.Cache.{get_result, set_result}
use asset_repayment_service.World.Repository.{apply_payment, record_payment}

pub record Settings : Type 0 where
  pub provider_location : Option Location
  pub default_currency : Currency

-- `json.Marshal` and `json.Unmarshal` of a notification on its way through the stream.
pub record Codec (A : Type 0) : Type 0 where
  pub encode : ValidatedNotification A → Option Str
  pub decode : Str → Option (ValidatedNotification A)

-- `isRoutingFailure`: there is nowhere to apply the money, as opposed to a failing database.
abbrev is_routing_code : Option DomainError → Bool
is_routing_code none = false
is_routing_code (some x) = (code_of x == code_not_found) || (code_of x == code_failed_precondition)

unfoldable pub is_routing_failure : GoError → Bool
unfolding has_routing_variable find_domain
is_routing_failure e = if has_routing_variable e then true else is_routing_code (find_domain e)

abbrev pub conflict_on : Str → Str → Option GoError
conflict_on field message =
    some (domain (with_details err_reference_conflict ((field, message) ∷ [])))

module _ {A : Type 0} ⦃d : Decimal A⦄ where
  -- `sameRequest`, the guard of every replay; `none` is a nil error.
  unfoldable pub same_request : Option (Payment A) → ValidatedNotification A → Option GoError
  unfolding str_eq
  same_request none v = none
  same_request (some stored) v =
      if not (str_eq stored.customer_id v.customer_id)
      then conflict_on (text "customer_id")
          (text "does not match the customer this reference was recorded against")
      else if not (d.equal stored.amount v.amount)
      then conflict_on (text "transaction_amount")
          (text "does not match the amount recorded for this reference")
      else if not (str_eq stored.currency.code v.currency.code)
      then conflict_on (text "currency")
          (text "does not match the currency recorded for this reference")
      else none

  -- `pendingPayment`
  unfoldable pub pending_payment : ValidatedNotification A → Payment A
  pending_payment v = record {
    uuid = [];
    transaction_reference = v.reference;
    customer_id = v.customer_id;
    deployment_id = none;
    deployment_uuid = none;
    currency = v.currency;
    amount = v.amount;
    applied_amount = d.zero_amount;
    excess = d.zero_amount;
    balance_before = d.zero_amount;
    balance_after = d.zero_amount;
    outcome = queued;
    provider_status = v.provider_status;
    transaction_date = v.transaction_date;
    received_at = v.received_at;
    created_at = 0;
    raw_payload = [];
  }

module _ {A : Type 0} ⦃d : Decimal A⦄ ⦃u : Unicode⦄ ⦃e : Environment⦄ where
  -- The answer of `record`, once the repository has replied.
  unfoldable pub recorded_result :
      ValidatedNotification A → Outcome → Option (Payment A) → Bool → Result (PaymentResult A)
  unfolding same_request
  recorded_result v outcome stored true = elim (same_request stored v) [
    | some conflict ↦ err conflict
    | none ↦ ok (record { outcome = duplicate; payment = stored; position = none })
  ]
  recorded_result v outcome stored false =
      ok (record { outcome = outcome; payment = stored; position = none })

  -- `record`: a notification that must not move a balance.
  unfoldable pub record_only :
      ValidatedNotification A → Outcome → Option ℕ → World A → Result (PaymentResult A) × World A
  unfolding recorded_result
  record_only v outcome deployment_id w =
      let (r, w') =
        record_payment
          (record { notification = v; outcome = outcome; deployment_id = deployment_id }) w in
      elim r [
        | err cause ↦ (err cause, w')
        | ok (stored, taken) ↦ (recorded_result v outcome stored taken, w')
      ]

module _ {A : Type 0} ⦃d : Decimal A⦄ ⦃u : Unicode⦄ ⦃e : Environment⦄ ⦃f : Floats⦄ where
  abbrev pub position_of : Option (Deployment A) → World A → Option (Position A)
  position_of none w = none
  position_of (some x) w = some (position_at x (e.now w.step))

  -- What follows `Apply` in `Process`.
  unfoldable pub applied_result :
      ValidatedNotification A → ApplyResult A → World A → Result (PaymentResult A) × World A
  unfolding same_request
  applied_result v r w =
      if r.duplicate
      then elim (same_request r.payment v) [
        | some conflict ↦ (err conflict, w)
        | none ↦ (
          ok (record {
            outcome = duplicate;
            payment = r.payment;
            position = position_of r.deployment w;
          }),
          w,
        )
      ]
      else (let result : PaymentResult A = record {
        outcome = applied;
        payment = r.payment;
        position = position_of r.deployment w;
      } in
          (ok result, set_result v.reference result w))

  unfoldable pub apply_routed :
      ValidatedNotification A → ℕ → World A → Result (PaymentResult A) × World A
  unfolding applied_result
  apply_routed v id w =
      let (r, w') = apply_payment (record { notification = v; deployment_id = id }) w in
      elim r [ err cause ↦ (err cause, w') | ok x ↦ applied_result v x w' ]

  -- `Process`
  unfoldable pub process : ValidatedNotification A → World A → Result (PaymentResult A) × World A
  unfolding is_routing_failure is_successful record_only apply_routed
  process v w =
      let (r, w') = resolve v.customer_id w in
      elim r [
        | err cause ↦
            if is_routing_failure cause then record_only v unmatched none w' else (err cause, w')
        | ok ref ↦
            if not (is_successful v.provider_status)
            then record_only v ignored (some ref.id) w'
            else apply_routed v ref.id w'
      ]

  -- A result from the cache, behind the same check.
  unfoldable pub cached_result :
      PaymentResult A → ValidatedNotification A → Result (PaymentResult A)
  unfolding same_request
  cached_result c v = elim (same_request c.payment v) [
    | some conflict ↦ err conflict
    | none ↦ ok (record c { outcome = duplicate })
  ]

-- What XADD with MAXLEN ~ leaves of a stream: the oldest entries may go, while the bound is passed.
abbrev pub trim_to : ℕ → ℕ → List Message → List Message
trim_to zero k entries = entries
trim_to max_len k entries = drop (min k (length entries - max_len)) entries

module _ {A : Type 0} ⦃e : Environment⦄ ⦃c : Codec A⦄ where
  -- The stream after XADD.
  unfoldable pub append_entry : Str → World A → World A
  append_entry payload w =
      let s = w.stream in
      let entry : Message = record { id = s.next_entry; payload = some payload } in
      record w {
        stream = record s {
          entries = trim_to w.queue_max_len (e.trim w.step) (s.entries ++ entry ∷ []);
          next_entry = suc s.next_entry;
        };
      }

  abbrev next_step : World A → World A
  next_step w = record w { step = suc w.step }

  -- `Enqueue`; the error, or nil.
  unfoldable pub enqueue : ValidatedNotification A → World A → Option GoError × World A
  unfolding append_entry
  enqueue v w = elim (c.encode v) [
    | none ↦ (some (wrapped (text "encode notification") (plain (text "json"))), w)
    | some payload ↦ elim (e.fault w.step) [
      | healthy ↦ (none, next_step (append_entry payload w))
      | refused m ↦ (some (wrapped (text "enqueue payment") (plain m)), next_step w)
      | reply_lost m ↦
          (some (wrapped (text "enqueue payment") (plain m)), next_step (append_entry payload w))
    ]
  ]

module _ {A : Type 0} ⦃d : Decimal A⦄ ⦃u : Unicode⦄ ⦃e : Environment⦄ ⦃f : Floats⦄ ⦃l : Calendar⦄
    ⦃c : Codec A⦄ where
  -- The queue, and without one or with one that fails, inline.
  unfoldable pub dispatch : ValidatedNotification A → World A → Result (PaymentResult A) × World A
  unfolding enqueue process
  dispatch v w =
      if not w.queue_on
      then process v w
      else (let (failure, w') = enqueue v w in
          elim failure [
            | some _ ↦ process v w'
            | none ↦ (
              ok (record { outcome = queued; payment = some (pending_payment v); position = none }),
              w',
            )
          ])

  unfoldable pub accept_valid :
      ValidatedNotification A → World A → Result (PaymentResult A) × World A
  unfolding cached_result dispatch
  accept_valid v w =
      let (cached, w') = get_result v.reference w in
      elim cached [ some c ↦ (cached_result c v, w') | none ↦ dispatch v w' ]

  -- `Accept`, the entry point of the webhook.
  unfoldable pub accept :
      Settings → Notification → Str → World A → Result (PaymentResult A) × World A
  unfolding accept_valid
  accept settings n raw w =
      elim (validate n settings.provider_location settings.default_currency raw (e.now w.step)) [
        | err cause ↦ (err cause, w)
        | ok v ↦ accept_valid v w
      ]
