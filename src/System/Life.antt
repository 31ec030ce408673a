-- ===== src/System/Life.antt =====
-- What holds of the service at every moment of its life.
use asset_repayment_service.Prelude.{
  ℕ, ◌≡◌, true, inl, inr, List, [], ◌∷◌, ◌++◌, All-append, arith, subst, sym,
}
use asset_repayment_service.Money.Decimal.{Decimal}
use asset_repayment_service.Money.Currency.{Unicode}
use asset_repayment_service.Deployment.Clock.{Floats}
use asset_repayment_service.Deployment.Registration.{create-Reach, create-IsConsistent}
use asset_repayment_service.Payment.Entity.{ValidatedNotification}
use asset_repayment_service.Payment.Validate.{Calendar}
use asset_repayment_service.Payment.Service.{Codec, accept}
use asset_repayment_service.Payment.Idempotency.{accept-IsConsistent}
use asset_repayment_service.Payment.Acknowledged.{IsCacheSound}
use asset_repayment_service.Payment.CacheSound.{accept-IsCacheSound, quiet_sound, same_parts_sound}
use asset_repayment_service.Database.Tables.{has_reference}
use asset_repayment_service.Database.Consistency.{IsConsistent}
use asset_repayment_service.World.State.{Environment, World, Message, Stream}
use asset_repayment_service.Queue.Worker.{has_entry}
use asset_repayment_service.Queue.Effects.{rounds-IsConsistent}
use asset_repayment_service.Queue.Order.{IsAscending-append}
use asset_repayment_service.Queue.Ordered.{IsOrdered, run_round-IsOrdered, reclaim_round-IsOrdered}
use asset_repayment_service.Queue.Kept.{IsKept}
use asset_repayment_service.System.Steps.{
  Step, notify, register, inquire, work, reclaim, look, restart, Steps, started, then_step,
}
use asset_repayment_service.System.Appends.{NeverTrims, IsAppended, IsWrittenFrom, accept-IsWritten}
use asset_repayment_service.Queue.Sound.{run_round-IsCacheSound, reclaim_round-IsCacheSound}
use asset_repayment_service.Deployment.Service.{create, get_position}
use mathlib.Core.Bool.{false≢true}
use asset_repayment_service.System.Startup.{start, start-IsUntouched}
use asset_repayment_service.System.Writes.{create-IsQuiet, get_position-IsQuiet, db-get_position}

pub has_entry-append :
    (id : ℕ) (ms : List Message) (m : Message)
    → has_entry id ms ≡ true
    → has_entry id (ms ++ m ∷ []) ≡ true
unfolding has_entry
has_entry-append id [] m h = absurd (false≢true h)
has_entry-append id (x ∷ ms) m h = ground (arith, has_entry-append id ms m)

pub appended-IsOrdered :
    (s s' : Stream) (m : Message) → IsAppended s s' m → IsOrdered s → IsOrdered s'
appended-IsOrdered s s' m added o = record {
  ascending =
      ground
        (arith, added, IsAscending-append 0 s.next_entry s.entries m added.next_number o.ascending);
  is_read = ground (arith, added, o);
  is_new = λ x above. rw added.same_pending (o.is_new x (ground (arith, added)));
}

module _ {A : Type 0} where
  pub appended-IsKept :
      (credit : Message) (v : ValidatedNotification A) (w w' : World A) (m : Message)
      → IsAppended w.stream w'.stream m
      → (has_reference v.reference w.db.payments ≡ true
          → has_reference v.reference w'.db.payments ≡ true)
      → IsKept credit v w
      → IsKept credit v w'
  appended-IsKept credit v w w' m added grows kept = record {
    ascending = ground (
      arith,
      added,
      IsAscending-append 0 w.stream.next_entry w.stream.entries m added.next_number kept.ascending,
    );
    is_entry = ground (arith, added, has_entry-append credit.id w.stream.entries m kept.is_entry);
    is_numbered = ground (arith, added, kept);
    is_alone = rw added.last_entry (
        All-append (λ (x : Message). credit.id ≡ x.id → credit ≡ x) w.stream.entries (m ∷ [])
          kept.is_alone
          ((λ same. absurd (omega (arith, added.next_number, kept.is_numbered))), tt));
    is_alone_pending = rw added.same_pending kept.is_alone_pending;
    is_placed = ground (arith, added, kept, grows);
  }

written-IsOrdered : (s s' : Stream) → IsWrittenFrom s s' → IsOrdered s → IsOrdered s'
written-IsOrdered s s' (inl same) o = subst IsOrdered (sym same) o
written-IsOrdered s s' (inr (m, added)) o = appended-IsOrdered s s' m added o

-- The state is sound: the books are consistent, every cached result stands under a listed reference, and
-- the stream is in order.
pub record IsSound {A : Type 0} ⦃d : Decimal A⦄ (w : World A) : Type 0 where
  pub books : IsConsistent w.db
  pub results : IsCacheSound w
  pub ordered : IsOrdered w.stream

module _ {A : Type 0} ⦃d : Decimal A⦄ ⦃u : Unicode⦄ ⦃e : Environment⦄ ⦃f : Floats⦄ ⦃l : Calendar⦄
    ⦃c : Codec A⦄ where
  pub Step-IsSound : {w w' : World A} → NeverTrims e → Step w w' → IsSound w → IsSound w'
  Step-IsSound untrimmed (notify settings n raw w) sound = record {
    books = accept-IsConsistent settings n raw w sound.books;
    results = accept-IsCacheSound settings n raw w sound.results;
    ordered =
        written-IsOrdered w.stream (accept settings n raw w).1.stream
          (accept-IsWritten settings n raw w untrimmed) sound.ordered;
  }
  Step-IsSound untrimmed (register defaults input w) sound =
      let quiet = create-IsQuiet defaults input w in
      record {
        books = create-IsConsistent defaults input w sound.books;
        results =
            quiet_sound w (create defaults input w).1 (create-Reach defaults input w) quiet.1
              sound.results;
        ordered = subst IsOrdered (sym quiet.0) sound.ordered;
      }
  Step-IsSound untrimmed (inquire customer_id as_of w) sound =
      let quiet = get_position-IsQuiet customer_id as_of w in
      let same = db-get_position customer_id as_of w in
      record {
        books = rw same sound.books;
        results =
            same_parts_sound w (get_position customer_id as_of w).1 same quiet.1 sound.results;
        ordered = subst IsOrdered (sym quiet.0) sound.ordered;
      }
  Step-IsSound untrimmed (work q w) sound = record {
    books = (rounds-IsConsistent q w sound.books).0;
    results = run_round-IsCacheSound q w sound.results;
    ordered = run_round-IsOrdered q w sound.ordered;
  }
  Step-IsSound untrimmed (reclaim q w) sound = record {
    books = (rounds-IsConsistent q w sound.books).1;
    results = reclaim_round-IsCacheSound q w sound.results;
    ordered = reclaim_round-IsOrdered q w sound.ordered;
  }
  Step-IsSound untrimmed (look w) sound = record {
    books = sound.books;
    results = sound.results;
    ordered = sound.ordered;
  }
  Step-IsSound untrimmed (restart ⦃m⦄ config w) sound =
      let (tables, refs, stream, results) = start-IsUntouched ⦃m = m⦄ config w in
      record {
        books = rw tables sound.books;
        results = same_parts_sound w (start ⦃m = m⦄ config w).1 tables results sound.results;
        ordered = subst IsOrdered (sym stream) sound.ordered;
      }

  -- While Redis trims nothing from the stream, every state that requests of all kinds, rounds of
  -- workers and of the reclaimer, and restarts with any configuration reach, in any order and under
  -- any faults of the network, is sound if the first one is: the books are consistent, every result in
  -- the cache stands under a reference that the ledger lists, and the numbers of the stream ascend,
  -- with the next number new to it.
  pub Steps-IsSound : {w w' : World A} → NeverTrims e → IsSound w → Steps w w' → IsSound w'
  Steps-IsSound untrimmed sound started = sound
  Steps-IsSound untrimmed sound (then_step path step) =
      Step-IsSound untrimmed step (Steps-IsSound untrimmed sound path)
