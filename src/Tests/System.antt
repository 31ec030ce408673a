-- ===== src/Tests/System.antt =====
-- A notification on its way through the stream, after two rounds of the workers.
use asset_repayment_service.Prelude.{refl, some, arith, false}
use asset_repayment_service.Prelude.Int.{ℤ}
use asset_repayment_service.Prelude.Text.{text}
use asset_repayment_service.Payment.Service.{Codec, accept}
use asset_repayment_service.Prelude.{find}
use asset_repayment_service.Prelude.Int.{◌-ℤ◌}
use asset_repayment_service.Prelude.Text.{
  trim_space, trim_left, remove_all, trim_prefix, strip_prefix, byte_len, str_eq,
}
use asset_repayment_service.Money.Currency.{lookup, to_upper_rune}
use asset_repayment_service.Money.Parse.{parse_positive, parse, check_amount, clean}
use asset_repayment_service.Payment.Validate.{
  validate, finish, parse_transaction_date, first_layout, customer_details, reference_details,
  status_details,
}
use asset_repayment_service.Payment.Service.{dispatch, enqueue, append_entry, accept_valid}
use asset_repayment_service.World.Cache.{get_result}
use asset_repayment_service.World.State.{World}
use asset_repayment_service.Queue.Worker.{QueueSettings, run_round, reclaim_round}
use asset_repayment_service.System.Steps.{started, then_step, notify, work, reclaim}
use asset_repayment_service.System.Life.{IsSound, Steps-IsSound}
use asset_repayment_service.System.Kept.{IsOnRecord, acknowledged_never_lost}
use asset_repayment_service.Prelude.{◌≡◌, subst}
use asset_repayment_service.Database.Tables.{find_deployment}
use asset_repayment_service.Database.Statements.{applied_entry, move_row, created_row}
use asset_repayment_service.Database.Owners.{Owns}
use asset_repayment_service.Payment.Owners.{IsAttributed}
use asset_repayment_service.Payment.Originals.{IsReplayable}
use asset_repayment_service.System.Replays.{Steps-IsReplayable}
use asset_repayment_service.System.Owners.{Steps-IsAttributed}
use asset_repayment_service.Tests.Samples.{
  whole_units, ascii, works, whole_floats, one_date, settings, notification_of,
}
use asset_repayment_service.Tests.Books.{books, paid_row, books_sound}
use asset_repayment_service.Tests.Route.{world, validated, answer}

-- The encoding of the notification decodes to it.
instance abbrev pub read_back : Codec ℤ
read_back = record { encode = λ v. some (text "{}"); decode = λ s. some validated }

abbrev pub limits : QueueSettings
limits = record { batch_size = 10; max_attempts = 5 }

abbrev queued_world : World ℤ
queued_world = (accept settings (notification_of (text "VPAY-2") (text "400")) (text "{}") world).1

pub world-IsSound : IsSound world
world-IsSound = record {
  books = books_sound;
  results = tt;
  ordered = record { ascending = omega arith; is_read = omega arith; is_new = λ m above. tt };
}

Steps-IsSound_example : IsSound (reclaim_round limits (run_round limits queued_world))
Steps-IsSound_example =
    Steps-IsSound (λ n. refl) world-IsSound
      (then_step
        (then_step
          (then_step started
            (notify settings (notification_of (text "VPAY-2") (text "400")) (text "{}") world))
          (work limits queued_world))
        (reclaim limits (run_round limits queued_world)))

acknowledged_never_lost_example : IsOnRecord validated (run_round limits queued_world)
unfolding accept accept_valid get_result dispatch enqueue append_entry validate finish
    parse_transaction_date first_layout customer_details reference_details status_details lookup
    parse_positive parse check_amount clean trim_space trim_left remove_all trim_prefix strip_prefix
    byte_len to_upper_rune whole_units str_eq find ◌-ℤ◌
acknowledged_never_lost_example =
    acknowledged_never_lost settings (notification_of (text "VPAY-2") (text "400")) (text "{}")
      world (run_round limits queued_world) validated answer (λ n. refl) (λ payload encoded. refl)
      world-IsSound refl refl (then_step started (work limits queued_world))

pub world-IsAttributed : IsAttributed world
unfolding applied_entry move_row created_row find_deployment trim_space trim_left
world-IsAttributed = record {
  owned = record {
    ids = (omega arith, tt);
    entries = (
      λ id moved_money linked.
          let path : 1 ≡ id = cc in
          subst (λ i. Owns books.deployments i (text "GIG-1")) path
            (record { x = paid_row; found = refl; own = refl }),
      tt,
    );
  };
  routes = tt;
}

Steps-IsAttributed_example : IsAttributed (reclaim_round limits (run_round limits queued_world))
Steps-IsAttributed_example = Steps-IsAttributed world-IsAttributed (
    then_step
      (then_step
        (then_step started
          (notify settings (notification_of (text "VPAY-2") (text "400")) (text "{}") world))
        (work limits queued_world))
      (reclaim limits (run_round limits queued_world)))

-- Without a queue the notification is applied at once, and its result is cached.
abbrev inline_world : World ℤ
inline_world = record world { queue_on = false }

abbrev inline_after : World ℤ
inline_after =
    (accept settings (notification_of (text "VPAY-2") (text "400")) (text "{}") inline_world).1

Steps-IsReplayable_example : IsReplayable (run_round limits inline_after)
Steps-IsReplayable_example =
    Steps-IsReplayable (record { books = books_sound; originals = tt })
      (then_step
        (then_step started
          (notify settings (notification_of (text "VPAY-2") (text "400")) (text "{}") inline_world))
        (work limits inline_after))
