-- ===== src/Tests/Queue.antt =====
-- A stream with one message that a worker has been given.
use asset_repayment_service.Prelude.{◌≡◌, refl, true, false, inl, some, [], ◌∷◌, arith}
use asset_repayment_service.Prelude.Int.{ℤ}
use asset_repayment_service.Prelude.Text.{text, str_eq, trim_space, trim_left}
use asset_repayment_service.Errors.{GoError, plain, wrapped, find_domain, has_routing_variable}
use asset_repayment_service.Deployment.Service.{resolve, resolve_stored}
use asset_repayment_service.Payment.Service.{process, enqueue, is_routing_failure}
use asset_repayment_service.Database.Statements.{select_customer}
use asset_repayment_service.World.Cache.{get_ref}
use asset_repayment_service.World.Repository.{get_by_customer_id}
use asset_repayment_service.World.State.{World, Message, query}
use asset_repayment_service.Queue.Worker.{
  QueueSettings, handle, run_round, settle, is_pending, decode_message, permanent,
}
use asset_repayment_service.Queue.Messages.{awaits, same_message}
use asset_repayment_service.Queue.Effects.{handle_once}
use asset_repayment_service.Queue.Coverage.{IsCovered, handle-IsCovered, handle_retries}
use asset_repayment_service.Payment.Entity.{ValidatedNotification}
use asset_repayment_service.Queue.Handoff.{IsGiven, entry_of, enqueue_then_round}
use asset_repayment_service.Queue.Drains.{handle_drains}
use asset_repayment_service.Tests.Samples.{
  whole_units, ascii, works, loses_reply, down, whole_floats, one_message, old_message, payment_of,
}
use asset_repayment_service.Tests.Books.{books, books_listed}

abbrev message : Message
message = record { id = 0; payload = some (text "{}") }

abbrev world : World ℤ
world = record {
  db = books;
  cache_on = false;
  refs = [];
  results = [];
  queue_on = true;
  queue_max_len = 0;
  stream = record {
    entries = message ∷ [];
    next_entry = 1;
    delivered = 1;
    pending = (message, 1) ∷ [];
    dead = [];
  };
  step = 0;
}

abbrev limits : QueueSettings
limits = record { batch_size = 10; max_attempts = 5 }

-- The reply to the statement that moves the money is lost.
handle-IsCovered_example :
    IsCovered message
      (payment_of (text "VPAY-2") 400 (text "COMPLETE"))
      (handle ⦃e = loses_reply⦄ limits message 1 world)
unfolding awaits same_message str_eq decode_message
handle-IsCovered_example =
    handle-IsCovered ⦃e = loses_reply⦄ limits message 1 message
      (payment_of (text "VPAY-2") 400 (text "COMPLETE")) world refl (λ same. refl) (inl refl)

abbrev outage : GoError
outage = wrapped (text "get deployment by customer") (plain (text "connection refused"))

handle_retries_example : (handle ⦃e = down⦄ limits message 1 world).stream ≡ world.stream
unfolding decode_message permanent find_domain process resolve resolve_stored get_ref
    get_by_customer_id query select_customer is_routing_failure has_routing_variable trim_space
    trim_left
handle_retries_example =
    handle_retries ⦃e = down⦄ limits message 1 (payment_of (text "VPAY-2") 400 (text "COMPLETE"))
      outage world refl refl refl (omega arith)

handle_once_example : (handle ⦃c = old_message⦄ limits message 2 world).db ≡ books
unfolding decode_message
handle_once_example =
    handle_once ⦃c = old_message⦄ limits message 2 world
      (payment_of (text "VPAY-1") 300 (text "COMPLETE")) refl books_listed

abbrev credit_next : ValidatedNotification ℤ
credit_next = payment_of (text "VPAY-2") 400 (text "COMPLETE")

enqueue_then_round_example :
    (given : World ℤ) × (IsGiven (entry_of (text "{}") world) world given
      × (run_round limits (enqueue credit_next world).1
          ≡ settle limits
              (entry_of (text "{}") world)
              1
              (process credit_next given).0
              (process credit_next given).1))
unfolding enqueue
enqueue_then_round_example =
    enqueue_then_round limits 9 credit_next (text "{}") world refl refl refl refl
      (refl, (omega arith, tt)) refl refl

handle_drains_example : is_pending 0 (handle limits message 5 world).stream.pending ≡ false
handle_drains_example = handle_drains limits message 5 world (λ n. refl) (omega arith)
