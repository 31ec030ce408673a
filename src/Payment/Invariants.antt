-- ===== src/Payment/Invariants.antt =====
-- What `Process` keeps, and what depends on the tables and the caches only, is kept by `Accept`.
use asset_repayment_service.Prelude.{◌≡◌, inl, inr, arith, Bool-cases, Option-cases}
use asset_repayment_service.Prelude.Text.{Str}
use asset_repayment_service.Errors.{Result-cases}
use asset_repayment_service.Money.Decimal.{Decimal}
use asset_repayment_service.Money.Currency.{Unicode}
use asset_repayment_service.Deployment.Clock.{Floats}
use asset_repayment_service.Payment.Entity.{Notification, ValidatedNotification}
use asset_repayment_service.Payment.Validate.{Calendar, validate}
use asset_repayment_service.Payment.Service.{
  Settings, Codec, process, append_entry, enqueue, dispatch, accept_valid, accept,
}
use asset_repayment_service.World.State.{Environment, World}
use asset_repayment_service.World.Cache.{get_result}

module _ {A : Type 0} where
  -- The tables and the caches stay as they are.
  abbrev pub IsBeside : World A → World A → Type 0
  IsBeside w w' = (w'.db ≡ w.db) × (w'.results ≡ w.results) × (w'.refs ≡ w.refs)

module _ {A : Type 0} ⦃d : Decimal A⦄ ⦃u : Unicode⦄ ⦃e : Environment⦄ ⦃f : Floats⦄ ⦃l : Calendar⦄
    ⦃c : Codec A⦄ where
  get_result-IsBeside : (key : Str) (w : World A) → IsBeside w (get_result key w).1
  unfolding get_result
  get_result-IsBeside key w = ground arith

  enqueue-IsBeside : (v : ValidatedNotification A) (w : World A) → IsBeside w (enqueue v w).1
  unfolding enqueue append_entry
  enqueue-IsBeside v w = ground arith

module _ {A : Type 0} ⦃d : Decimal A⦄ ⦃u : Unicode⦄ ⦃e : Environment⦄ ⦃f : Floats⦄ ⦃l : Calendar⦄
    ⦃c : Codec A⦄ (Holds : World A → Type 0)
    (stays : (w w' : World A) → IsBeside w w' → Holds w → Holds w')
    (processed : (v : ValidatedNotification A) (w : World A)
      → Holds w
      → Holds (process v w).1) where
  dispatch-Holds : (v : ValidatedNotification A) (w : World A) → Holds w → Holds (dispatch v w).1
  unfolding dispatch
  dispatch-Holds v w h = elim (Bool-cases w.queue_on) [
    | inr off ↦
        let inline : dispatch v w ≡ process v w = rw (off, dispatch) in rw inline (processed v w h)
    | inl on ↦
        let kept = stays w (enqueue v w).1 (enqueue-IsBeside v w) h in
        elim (Option-cases (enqueue v w).0) [
          | inl sent ↦ let path : (dispatch v w).1 ≡ (enqueue v w).1 = ground arith in rw path kept
          | inr (cause, failed) ↦
              let path : dispatch v w ≡ process v (enqueue v w).1 = ground arith in
              rw path (processed v (enqueue v w).1 kept)
        ]
  ]

  pub accept-Holds :
      (settings : Settings) (n : Notification) (raw : Str) (w : World A)
      → Holds w
      → Holds (accept settings n raw w).1
  unfolding accept accept_valid
  accept-Holds settings n raw w h =
      elim (Result-cases (
        validate ⦃d = d⦄ n settings.provider_location settings.default_currency raw
          (e.now w.step))) [
            | inr (cause, refused) ↦ rw (refused, accept) h
            | inl (v, valid) ↦
                let looked = (get_result v.reference w).1 in
                let kept = stays w looked (get_result-IsBeside v.reference w) h in
                elim (Option-cases (get_result v.reference w).0) [
                  | inr (x, hit) ↦ rw (valid, accept, hit, accept_valid) kept
                  | inl miss ↦ rw (valid, accept, miss, accept_valid) (dispatch-Holds v looked kept)
                ]
          ]
