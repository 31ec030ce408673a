-- ===== src/World/Cache.antt =====
-- cache.go. A miss covers an absent client, a network fault, an expired entry and an unreadable one;
-- a write that fails is only logged. Entries keep their values through the JSON encoding.
use asset_repayment_service.Prelude.{suc, not, Option, none, some, List, [], ◌∷◌, if◌then◌else◌}
use asset_repayment_service.Prelude.Text.{Str, str_eq}
use asset_repayment_service.Deployment.Contracts.{Ref}
use asset_repayment_service.Payment.Entity.{Payment, PaymentResult}
use asset_repayment_service.World.State.{Fault, healthy, refused, reply_lost, Environment, World}

module _ {V : Type 0} where
  unfoldable pub lookup_entry : Str → List (Str × V) → Option V
  unfolding str_eq
  lookup_entry key [] = none
  lookup_entry key ((k, v) ∷ entries) = if str_eq k key then some v else lookup_entry key entries

  unfoldable pub delete_entry : Str → List (Str × V) → List (Str × V)
  unfolding str_eq
  delete_entry key [] = []
  delete_entry key ((k, v) ∷ entries) =
      let rest = delete_entry key entries in if str_eq k key then rest else (k, v) ∷ rest

  -- Whether a read comes back, and whether a write arrives.
  abbrev read_through : Fault → Option V → Option V
  read_through healthy v = v
  read_through (refused _) v = none
  read_through (reply_lost _) v = none

  abbrev pub write_through : Fault → List (Str × V) → List (Str × V) → List (Str × V)
  write_through healthy old new = new
  write_through (refused _) old new = old
  write_through (reply_lost _) old new = new

module _ {A : Type 0} ⦃e : Environment⦄ where
  unfoldable pub get_ref : Str → World A → Option (Ref A) × World A
  unfolding lookup_entry
  get_ref customer_id w = if not w.cache_on then (none, w) else (
    read_through (e.fault w.step) (lookup_entry customer_id w.refs),
    record w { step = suc w.step },
  )

  unfoldable pub set_ref : Ref A → World A → World A
  set_ref ref w = if not w.cache_on then w else record w {
    refs = write_through (e.fault w.step) w.refs ((ref.customer_id, ref) ∷ w.refs);
    step = suc w.step;
  }

  -- `InvalidateRef`, which no code calls.
  unfoldable pub invalidate_ref : Str → World A → World A
  unfolding delete_entry
  invalidate_ref customer_id w = if not w.cache_on then w else record w {
    refs = write_through (e.fault w.step) w.refs (delete_entry customer_id w.refs);
    step = suc w.step;
  }

  unfoldable pub get_result : Str → World A → Option (PaymentResult A) × World A
  unfolding lookup_entry
  get_result reference w = if not w.cache_on then (none, w) else (
    read_through (e.fault w.step) (lookup_entry reference w.results),
    record w { step = suc w.step },
  )

  -- `SetResult` drops the raw payload of the payment.
  abbrev pub trimmed_payment : Option (Payment A) → Option (Payment A)
  trimmed_payment none = none
  trimmed_payment (some p) = some (record p { raw_payload = [] })

  unfoldable pub set_result : Str → PaymentResult A → World A → World A
  set_result reference result w = if not w.cache_on then w else record w {
    results =
        write_through (e.fault w.step) w.results
          ((reference, record result { payment = trimmed_payment result.payment }) ∷ w.results);
    step = suc w.step;
  }
