-- ===== src/Http/Health.antt =====
-- health_handler.go, and `Healthy` of the cache.
use asset_repayment_service.Prelude.{Bool, true, not, if◌then◌else◌}
use asset_repayment_service.Prelude.Text.{Str, text}
use asset_repayment_service.Errors.{domain, unavailable}
use asset_repayment_service.World.State.{Environment, World}
use asset_repayment_service.System.Startup.{ping}
use asset_repayment_service.Http.Middleware.{Response, Server, success, error_response}

pub record Readiness : Type 0 where
  pub database : Str
  pub cache : Str

-- `Healthz`
abbrev pub healthz : Str
healthz = text "OK"

module _ {A : Type 0} ⦃e : Environment⦄ where
  -- `Healthy`; a cache that is not configured is no trouble.
  unfoldable pub healthy_cache : World A → Bool × World A
  unfolding ping
  healthy_cache w = if not w.cache_on then (true, w) else ping w

  -- `Readyz`
  unfoldable pub readyz : Server A → Response Readiness × Server A
  unfolding ping healthy_cache error_response
  readyz s =
      let (answered, w) = ping s.world in
      if not answered
      then (error_response (domain unavailable), record s { world = w })
      else (let (fine, w') = healthy_cache w in
          (
            success 200 (text "ready") (record {
              database = text "ok";
              cache = if fine then text "ok" else text "degraded";
            }),
            record s { world = w' },
          ))
