-- ===== src/System/Startup.antt =====
-- The start of the process: the hooks of database.go, cache.go, queue.go and worker.go. What the
-- tables, the caches and the stream hold outlives a process. The migrations are a parameter.
use asset_repayment_service.Prelude.{
  suc, Bool, true, false, not, Option, none, some, List, [], ◌∷◌, ◌++◌, if◌then◌else◌, ◌≡◌, refl,
  arith,
}
use asset_repayment_service.Prelude.Int.{pos_part}
use asset_repayment_service.Prelude.Text.{Str, text}
use asset_repayment_service.Errors.{GoError, plain, wrapped, Result, ok, err}
use asset_repayment_service.World.State.{Environment, World, Fault, healthy, refused, reply_lost}
use asset_repayment_service.Queue.Loops.{ensure_group, worker_names}
use asset_repayment_service.Config.Sections.{Sections}
use asset_repayment_service.Config.Load.{redis_enabled, queue_enabled}

-- `golang-migrate` on the pool: the error of `RunMigrations`.
pub record Migrations : Type 0 where
  pub up : Option GoError

abbrev is_healthy : Fault → Bool
is_healthy healthy = true
is_healthy (refused _) = false
is_healthy (reply_lost _) = false

module _ {A : Type 0} ⦃e : Environment⦄ where
  -- A ping: whether it is answered.
  unfoldable pub ping : World A → Bool × World A
  ping w = (is_healthy (e.fault w.step), record w { step = suc w.step })

  -- The hook of `database.New`.
  unfoldable pub start_database : ⦃m : Migrations⦄ → Sections → World A → Option GoError × World A
  unfolding ping
  start_database ⦃m⦄ c w =
      let (answered, w') = ping w in
      if not answered
      then (some (wrapped (text "ping database") (plain (text "unreachable"))), w')
      else if not c.database.auto_migrate
      then (none, w')
      else (m.up, w')

  -- `cache.New` and its hook: the client is there when Redis is configured and answers.
  unfoldable pub start_cache : Sections → World A → World A
  unfolding ping
  start_cache c w =
      if not (redis_enabled c)
      then record w { cache_on = false }
      else (let (answered, w') = ping w in record w' { cache_on = answered })

  -- `queue.New`; XADD trims to a bound above zero only.
  unfoldable pub open_queue : Sections → World A → World A
  open_queue c w = record w { queue_on = queue_enabled c; queue_max_len = pos_part c.queue.max_len }

  -- The hook of `StartWorkers`: the names of its consumers, none without a queue.
  unfoldable pub start_workers : Sections → World A → Result (List Str) × World A
  unfolding ensure_group worker_names
  start_workers c w =
      if not (queue_enabled c)
      then (ok [], w)
      else (let (failure, w') = ensure_group w in
          elim failure [
            | some cause ↦ (err cause, w')
            | none ↦ (ok (worker_names (pos_part c.queue.workers) 0 ++ text "reclaimer" ∷ []), w')
          ])

  after_database : Sections → Option GoError → World A → Result (List Str) × World A
  unfolding start_workers start_cache
  after_database c (some cause) w = (err cause, w)
  after_database c none w = start_workers c (start_cache c w)

  -- The start, up to the listener: the constructors, then the hooks in their order.
  unfoldable pub start : ⦃m : Migrations⦄ → Sections → World A → Result (List Str) × World A
  unfolding open_queue start_database after_database
  start c w = let (failure, w') = start_database c (open_queue c w) in after_database c failure w'

module _ {A : Type 0} ⦃e : Environment⦄ where
  -- A start leaves the tables, the caches and the stream as they are.
  abbrev pub IsUntouched : World A → World A → Type 0
  IsUntouched w w' =
      (w'.db ≡ w.db) × (w'.refs ≡ w.refs) × (w'.stream ≡ w.stream) × (w'.results ≡ w.results)

  start_database-IsUntouched :
      ⦃m : Migrations⦄ (c : Sections) (w : World A) → IsUntouched w (start_database c w).1
  unfolding start_database ping
  start_database-IsUntouched c w = ground arith

  after_database-IsUntouched :
      (c : Sections) (failure : Option GoError) (w : World A)
      → IsUntouched w (after_database c failure w).1
  unfolding after_database start_workers start_cache ensure_group ping
  after_database-IsUntouched c (some cause) w = (refl, refl, refl, refl)
  after_database-IsUntouched c none w = ground arith

  pub start-IsUntouched :
      ⦃m : Migrations⦄ (c : Sections) (w : World A) → IsUntouched w (start c w).1
  unfolding start open_queue
  start-IsUntouched ⦃m⦄ c w =
      let r = start_database ⦃m = m⦄ c (open_queue c w) in
      ground (
        arith,
        start_database-IsUntouched ⦃m = m⦄ c (open_queue c w),
        after_database-IsUntouched c r.0 r.1,
      )
