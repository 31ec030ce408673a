-- ===== src/Queue/Sound.antt =====
-- The result cache and the routing of money through the rounds of the workers and of the reclaimer.
use asset_repayment_service.Money.Decimal.{Decimal}
use asset_repayment_service.Money.Currency.{Unicode}
use asset_repayment_service.Deployment.Clock.{Floats}
use asset_repayment_service.Payment.Service.{Codec}
use asset_repayment_service.Payment.Acknowledged.{IsCacheSound}
use asset_repayment_service.Payment.CacheSound.{process-IsCacheSound, same_parts_sound}
use asset_repayment_service.Payment.Owners.{
  IsAttributed, same_parts-IsAttributed, process-IsAttributed,
}
use asset_repayment_service.Payment.Originals.{
  IsReplayable, beside-IsReplayable, process-IsReplayable,
}
use asset_repayment_service.World.State.{Environment, World}
use asset_repayment_service.Queue.Invariants.{run_round-Holds, reclaim_round-Holds}
use asset_repayment_service.Queue.Worker.{QueueSettings, run_round, reclaim_round}

module _ {A : Type 0} ⦃d : Decimal A⦄ ⦃u : Unicode⦄ ⦃e : Environment⦄ ⦃f : Floats⦄ ⦃c : Codec A⦄
    (q : QueueSettings) where
  pub run_round-IsCacheSound : (w : World A) → IsCacheSound w → IsCacheSound (run_round q w)
  run_round-IsCacheSound w sound =
      run_round-Holds q IsCacheSound (λ w w' same. same_parts_sound w w' same.0 same.1)
        process-IsCacheSound w sound

  pub reclaim_round-IsCacheSound : (w : World A) → IsCacheSound w → IsCacheSound (reclaim_round q w)
  reclaim_round-IsCacheSound w sound =
      reclaim_round-Holds q IsCacheSound (λ w w' same. same_parts_sound w w' same.0 same.1)
        process-IsCacheSound w sound

  pub run_round-IsAttributed : (w : World A) → IsAttributed w → IsAttributed (run_round q w)
  run_round-IsAttributed w sound =
      run_round-Holds q IsAttributed (λ w w' same. same_parts-IsAttributed w w' same.0 same.2)
        process-IsAttributed w sound

  pub reclaim_round-IsAttributed : (w : World A) → IsAttributed w → IsAttributed (reclaim_round q w)
  reclaim_round-IsAttributed w sound =
      reclaim_round-Holds q IsAttributed (λ w w' same. same_parts-IsAttributed w w' same.0 same.2)
        process-IsAttributed w sound

  pub run_round-IsReplayable : (w : World A) → IsReplayable w → IsReplayable (run_round q w)
  run_round-IsReplayable w h =
      run_round-Holds q IsReplayable beside-IsReplayable process-IsReplayable w h

  pub reclaim_round-IsReplayable : (w : World A) → IsReplayable w → IsReplayable (reclaim_round q w)
  reclaim_round-IsReplayable w h =
      reclaim_round-Holds q IsReplayable beside-IsReplayable process-IsReplayable w h
