-- ===== src/System/Loops.antt =====
-- The endless loops of the workers, as sequences of steps.
use asset_repayment_service.Prelude.{suc, inl, inr, List, [], ◌∷◌}
use asset_repayment_service.Money.Decimal.{Decimal}
use asset_repayment_service.Money.Currency.{Unicode}
use asset_repayment_service.Deployment.Clock.{Floats}
use asset_repayment_service.Payment.Validate.{Calendar}
use asset_repayment_service.Payment.Service.{Codec}
use asset_repayment_service.World.State.{Environment, World}
use asset_repayment_service.Queue.Worker.{QueueSettings, run_round, reclaim_round}
use asset_repayment_service.Queue.Kept.{Fault-cases}
use asset_repayment_service.Queue.Loops.{
  Signal, cancelled, ready, observe_depth, run_loop, reclaim_loop,
}
use asset_repayment_service.System.Steps.{work, reclaim, look, Steps, started, then_step}

module _ {A : Type 0} ⦃d : Decimal A⦄ ⦃u : Unicode⦄ ⦃e : Environment⦄ ⦃f : Floats⦄ ⦃l : Calendar⦄
    ⦃c : Codec A⦄ where
  Steps-trans : {a b w : World A} → Steps a b → Steps b w → Steps a w
  Steps-trans path started = path
  Steps-trans path (then_step rest step) = then_step (Steps-trans path rest) step

  run_loop-Steps :
      (q : QueueSettings) (signals : List Signal) (w : World A) → Steps w (run_loop q signals w)
  unfolding run_loop
  run_loop-Steps q [] w = started
  run_loop-Steps q (cancelled ∷ signals) w = started
  run_loop-Steps q (ready ∷ signals) w =
      Steps-trans (then_step started (work q w)) (run_loop-Steps q signals (run_round q w))

  observe_depth-Steps : (w : World A) → Steps w (observe_depth w)
  unfolding observe_depth
  observe_depth-Steps w =
      then_step (then_step started (look w)) (look (record w { step = suc w.step }))

  reclaim_loop-Steps :
      (q : QueueSettings) (signals : List Signal) (w : World A) → Steps w (reclaim_loop q signals w)
  unfolding reclaim_loop
  reclaim_loop-Steps q [] w = started
  reclaim_loop-Steps q (cancelled ∷ signals) w = started
  reclaim_loop-Steps q (ready ∷ signals) w =
      let round = reclaim_round q w in
      let first = then_step started (reclaim q w) in
      let failed = Steps-trans first (reclaim_loop-Steps q signals round) in
      elim (Fault-cases (e.fault w.step)) [
        | inl works ↦
            rw (works, reclaim_loop)
              (Steps-trans first (
                Steps-trans (observe_depth-Steps round)
                  (reclaim_loop-Steps q signals (observe_depth round))))
        | inr (inl (m, down)) ↦ rw (down, reclaim_loop) failed
        | inr (inr (m, lost)) ↦ rw (lost, reclaim_loop) failed
      ]

  -- The loop of a worker and that of the reclaimer, cut off by their contexts at any moment, are
  -- sequences of steps of the service.
  pub loops-Steps :
      (q : QueueSettings) (signals : List Signal) (w : World A)
      → Steps w (run_loop q signals w) × Steps w (reclaim_loop q signals w)
  loops-Steps q signals w = (run_loop-Steps q signals w, reclaim_loop-Steps q signals w)
