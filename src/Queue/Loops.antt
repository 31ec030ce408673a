-- ===== src/Queue/Loops.antt =====
-- The consumer group, the pool of workers, and the endless loops of a worker and of the reclaimer.
use asset_repayment_service.Prelude.{
  ℕ, zero, suc, Option, none, some, List, [], ◌∷◌, ◌++◌, if◌then◌else◌,
}
use asset_repayment_service.Prelude.Text.{Str, text, str_eq, decimal}
use asset_repayment_service.Errors.{GoError, plain, wrapped}
use asset_repayment_service.Money.Decimal.{Decimal}
use asset_repayment_service.Money.Currency.{Unicode}
use asset_repayment_service.Deployment.Clock.{Floats}
use asset_repayment_service.Payment.Service.{Codec}
use asset_repayment_service.World.State.{Environment, World, Fault, healthy, refused, reply_lost}
use asset_repayment_service.Queue.Worker.{QueueSettings, run_round, reclaim_round}

abbrev busy_group : Str
busy_group = text "BUSYGROUP Consumer Group name already exists"

-- The reply to XGROUP CREATE, which is `busy` where the group is there already.
abbrev group_error : Fault → Option GoError
group_error healthy = none
group_error (refused m) =
    if str_eq m busy_group then none else some (wrapped (text "create consumer group") (plain m))
group_error (reply_lost m) =
    if str_eq m busy_group then none else some (wrapped (text "create consumer group") (plain m))

module _ {A : Type 0} ⦃e : Environment⦄ where
  -- `ensureGroup`; a new group starts at the first entry, as the stream of the model does.
  unfoldable pub ensure_group : World A → Option GoError × World A
  unfolding str_eq
  ensure_group w = (group_error (e.fault w.step), record w { step = suc w.step })

  -- `observeDepth`: two reads, for the gauges.
  unfoldable pub observe_depth : World A → World A
  observe_depth w = record w { step = suc (suc w.step) }

-- The names of the workers of `StartWorkers`, from number `i` on.
unfoldable pub worker_names : ℕ → ℕ → List Str
worker_names zero i = []
worker_names (suc n) i = (text "worker-" ++ decimal i) ∷ worker_names n (suc i)

-- What a loop finds when it looks at its context and its ticker.
pub data Signal : Type 0 where
  cancelled ready : Signal

module _ {A : Type 0} ⦃d : Decimal A⦄ ⦃u : Unicode⦄ ⦃e : Environment⦄ ⦃f : Floats⦄
    ⦃c : Codec A⦄ where
  -- `run`: rounds until the context is cancelled.
  unfoldable pub run_loop : QueueSettings → List Signal → World A → World A
  unfolding run_round
  run_loop q [] w = w
  run_loop q (cancelled ∷ signals) w = w
  run_loop q (ready ∷ signals) w = run_loop q signals (run_round q w)

  -- `reclaim`: a round at every tick, then a look at the depth, which a failed claim skips.
  unfoldable pub reclaim_loop : QueueSettings → List Signal → World A → World A
  unfolding reclaim_round observe_depth
  reclaim_loop q [] w = w
  reclaim_loop q (cancelled ∷ signals) w = w
  reclaim_loop q (ready ∷ signals) w =
      let failed = reclaim_loop q signals (reclaim_round q w) in
      let claimed = reclaim_loop q signals (observe_depth (reclaim_round q w)) in
      elim (e.fault w.step) [ healthy ↦ claimed | refused _ ↦ failed | reply_lost _ ↦ failed ]
