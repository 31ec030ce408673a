-- ===== src/System/Replays.antt =====
-- What a cached result says, at every moment of the service's life.
use asset_repayment_service.Prelude.{subst, sym}
use asset_repayment_service.Money.Decimal.{Decimal}
use asset_repayment_service.Money.Currency.{Unicode}
use asset_repayment_service.Deployment.Clock.{Floats}
use asset_repayment_service.Deployment.Registration.{create-Reach}
use asset_repayment_service.Deployment.Service.{create, get_position}
use asset_repayment_service.Payment.Validate.{Calendar}
use asset_repayment_service.Payment.Service.{Codec}
use asset_repayment_service.Payment.Originals.{
  IsReplayable, quiet-IsReplayable, accept-IsReplayable,
}
use asset_repayment_service.Database.Ledger.{Reach, here}
use asset_repayment_service.World.State.{Environment, World}
use asset_repayment_service.Queue.Sound.{run_round-IsReplayable, reclaim_round-IsReplayable}
use asset_repayment_service.System.Startup.{start, start-IsUntouched}
use asset_repayment_service.System.Steps.{
  Step, notify, register, inquire, work, reclaim, look, restart, Steps, started, then_step,
}
use asset_repayment_service.System.Writes.{create-IsQuiet, get_position-IsQuiet, db-get_position}

module _ {A : Type 0} ⦃d : Decimal A⦄ ⦃u : Unicode⦄ ⦃e : Environment⦄ ⦃f : Floats⦄ ⦃l : Calendar⦄
    ⦃c : Codec A⦄ where
  Step-IsReplayable : {w w' : World A} → Step w w' → IsReplayable w → IsReplayable w'
  Step-IsReplayable (notify settings n raw w) h = accept-IsReplayable settings n raw w h
  Step-IsReplayable (register defaults input w) h =
      quiet-IsReplayable w (create defaults input w).1 (create-Reach defaults input w)
        (create-IsQuiet defaults input w).1 h
  Step-IsReplayable (inquire customer_id as_of w) h =
      quiet-IsReplayable w (get_position customer_id as_of w).1
        (subst (Reach w.db) (sym (db-get_position customer_id as_of w)) here)
        (get_position-IsQuiet customer_id as_of w).1 h
  Step-IsReplayable (work q w) h = run_round-IsReplayable q w h
  Step-IsReplayable (reclaim q w) h = reclaim_round-IsReplayable q w h
  Step-IsReplayable (look w) h = record { books = h.books; originals = h.originals }
  Step-IsReplayable (restart ⦃m⦄ config w) h =
      let (tables, refs, stream, results) = start-IsUntouched ⦃m = m⦄ config w in
      quiet-IsReplayable w (start ⦃m = m⦄ config w).1 (subst (Reach w.db) (sym tables) here) results
        h

  -- A result in the cache is the original one: when the books are consistent and every cached result
  -- is that of an applied payment and shows the entry that the ledger holds for its reference, with
  -- its customer, amounts, currency and balances, then both are still so after any requests, rounds
  -- of workers and of the reclaimer, and restarts, in any order and under any faults of the network.
  pub Steps-IsReplayable : {w w' : World A} → IsReplayable w → Steps w w' → IsReplayable w'
  Steps-IsReplayable h started = h
  Steps-IsReplayable h (then_step path step) = Step-IsReplayable step (Steps-IsReplayable h path)
