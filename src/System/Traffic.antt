-- ===== src/System/Traffic.antt =====
-- HTTP traffic: calls of the mux, one after the other, and what they leave of the books.
use asset_repayment_service.Prelude.{List, [], ◌∷◌}
use asset_repayment_service.Money.Decimal.{Decimal}
use asset_repayment_service.Money.Currency.{Unicode}
use asset_repayment_service.Deployment.Clock.{Floats}
use asset_repayment_service.Payment.Validate.{Calendar}
use asset_repayment_service.Payment.Service.{Codec}
use asset_repayment_service.Payment.Originals.{IsReplayable}
use asset_repayment_service.Payment.Owners.{IsAttributed}
use asset_repayment_service.World.State.{Environment}
use asset_repayment_service.Config.Sections.{Config}
use asset_repayment_service.Http.Middleware.{Hmac}
use asset_repayment_service.Http.Handlers.{Json}
use asset_repayment_service.Http.Outer.{Call, Exchange}
use asset_repayment_service.Http.Setup.{serve}
use asset_repayment_service.System.Requests.{serve-Steps}
use asset_repayment_service.System.Replays.{Steps-IsReplayable}
use asset_repayment_service.System.Owners.{Steps-IsAttributed}

module _ {A : Type 0} ⦃d : Decimal A⦄ ⦃u : Unicode⦄ ⦃e : Environment⦄ ⦃f : Floats⦄ ⦃l : Calendar⦄
    ⦃c : Codec A⦄ ⦃j : Json⦄ ⦃h : Hmac⦄ where
  -- The calls are served in their order, each by the process that the one before has left.
  unfoldable pub serve_all : Config A → List Call → Exchange A → Exchange A
  serve_all config [] x = x
  serve_all config (call ∷ calls) x = serve_all config calls (serve config call x).1

  -- Any sequence of HTTP calls, of any methods, paths, headers and bodies, under any configuration and
  -- any faults of the network, leaves the books consistent, every cached result that of an applied
  -- payment as the ledger holds it, every entry that moved money on a deployment of the customer it
  -- names, and every routing entry on a deployment of its customer, if they were so before.
  pub serve_all_keeps :
      (config : Config A) (calls : List Call) (x : Exchange A)
      → IsReplayable x.server.world
      → IsAttributed x.server.world
      → IsReplayable (serve_all config calls x).server.world
        × IsAttributed (serve_all config calls x).server.world
  unfolding serve_all
  serve_all_keeps config [] x replayable attributed = (replayable, attributed)
  serve_all_keeps config (call ∷ calls) x replayable attributed =
      let steps = serve-Steps config call x in
      serve_all_keeps config calls (serve config call x).1 (Steps-IsReplayable replayable steps)
        (Steps-IsAttributed attributed steps)
