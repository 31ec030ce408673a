-- ===== src/System/Steps.antt =====
-- The entry points as steps of the state.
use asset_repayment_service.Prelude.{suc}
use asset_repayment_service.Prelude.Text.{Str}
use asset_repayment_service.Money.Decimal.{Decimal}
use asset_repayment_service.Money.Currency.{Unicode}
use asset_repayment_service.Deployment.Clock.{Floats, Time}
use asset_repayment_service.Deployment.Contracts.{CreateInput}
use asset_repayment_service.Deployment.Service.{Defaults, create, get_position}
use asset_repayment_service.Payment.Entity.{Notification}
use asset_repayment_service.Payment.Validate.{Calendar}
use asset_repayment_service.Payment.Service.{Settings, Codec, accept}
use asset_repayment_service.World.State.{Environment, World}
use asset_repayment_service.Config.Sections.{Sections}
use asset_repayment_service.System.Startup.{Migrations, start}
use asset_repayment_service.Queue.Worker.{QueueSettings, run_round, reclaim_round}

module _ {A : Type 0} ⦃d : Decimal A⦄ ⦃u : Unicode⦄ ⦃e : Environment⦄ ⦃f : Floats⦄ ⦃l : Calendar⦄
    ⦃c : Codec A⦄ where
  pub data Step : World A → World A → Type 0 where
    -- a notification of the bank
    notify :
        (settings : Settings) (n : Notification) (raw : Str) (w : World A)
        → Step w (accept settings n raw w).1
    -- the registration of a deployment
    register :
        (defaults : Defaults A) (input : CreateInput A) (w : World A)
        → Step w (create defaults input w).1
    -- the reading of a position
    inquire :
        (customer_id : Str) (as_of : Time) (w : World A)
        → Step w (get_position customer_id as_of w).1
    -- a round of a worker
    work : (q : QueueSettings) (w : World A) → Step w (run_round q w)
    -- a round of the reclaimer
    reclaim : (q : QueueSettings) (w : World A) → Step w (reclaim_round q w)
    -- a call that changes nothing: a ping, a reading of the queue's depth
    look : (w : World A) → Step w (record w { step = suc w.step })
    -- a start of the process, after any end of the one before it
    restart : ⦃m : Migrations⦄ → (config : Sections) (w : World A) → Step w (start config w).1

  pub data Steps (start : World A) : World A → Type 0 where
    started : Steps start start
    then_step : {w w' : World A} → Steps start w → Step w w' → Steps start w'
