-- ===== src/Queue/Messages.antt =====
-- Where a message is, with its content: in the stream, pending, or among the dead letters.
use asset_repayment_service.Prelude.{
  ℕ, ◌≡◌, ◌≢◌, refl, Bool, true, false, inl, inr, Option, none, some, List, [], ◌∷◌, ◌++◌, ◌&&◌,
  All, map, ap, ◌∙◌, arith, subst, Bool-cases, ◌==◌, if◌then◌else◌,
}
use mathlib.Core.Bool.{false≢true}
use asset_repayment_service.Prelude.Text.{Str, str_eq, str_eq_refl}
use asset_repayment_service.World.State.{Message, Reason}
use asset_repayment_service.Queue.Worker.{Pending, without, has_entry, claim}

abbrev same_payload : Option Str → Option Str → Bool
same_payload none none = true
same_payload none (some q) = false
same_payload (some p) none = false
same_payload (some p) (some q) = str_eq p q

-- Two messages of one number and one content.
unfoldable pub same_message : Message → Message → Bool
unfolding str_eq
same_message x m = x.id == m.id && same_payload x.payload m.payload

same_payload_refl : (p : Option Str) → same_payload p p ≡ true
same_payload_refl none = refl
same_payload_refl (some p) = str_eq_refl p

same_message_refl : (m : Message) → same_message m m ≡ true
unfolding same_message
same_message_refl m = ground (arith, same_payload_refl m.payload)

same_message-id : (x m : Message) → same_message x m ≡ true → x.id ≡ m.id
unfolding same_message
same_message-id x m h = ground arith

-- The message, with its content, is in the stream, is pending, or is a dead letter.
unfoldable pub has_message : Message → List Message → Bool
unfolding same_message
has_message m [] = false
has_message m (x ∷ xs) = if same_message x m then true else has_message m xs

unfoldable pub awaits : Message → Pending → Bool
unfolding same_message
awaits m [] = false
awaits m ((x, n) ∷ ps) = if same_message x m then true else awaits m ps

unfoldable pub is_dead : Message → List (Reason × Message) → Bool
unfolding same_message
is_dead m [] = false
is_dead m ((reason, x) ∷ ds) = if same_message x m then true else is_dead m ds

-- Where a number stands for one message only, the message is where its number is.
pub has_entry-has_message :
    (m : Message) (xs : List Message)
    → All (λ (x : Message). m.id ≡ x.id → m ≡ x) xs
    → has_entry m.id xs ≡ true
    → has_message m xs ≡ true
unfolding has_entry has_message
has_entry-has_message m [] one there = absurd (false≢true there)
has_entry-has_message m (x ∷ xs) (first, rest) there = elim (Bool-cases (x.id == m.id)) [
  | inl itself ↦
      let same : same_message x m ≡ true =
        subst (λ y. same_message y m ≡ true) (first (ground arith)) (same_message_refl m) in
      rw (same, has_message)
  | inr other ↦ ground (arith, has_entry-has_message m xs rest)
]

pub awaits-without :
    (m : Message) (other : ℕ) (ps : Pending)
    → m.id ≢ other
    → awaits m (without other ps) ≡ awaits m ps
unfolding awaits without
awaits-without m other [] ne = refl
awaits-without m other ((x, n) ∷ ps) ne =
    ground (arith, awaits-without m other ps ne, same_message-id x m)

pub awaits-append :
    (m : Message) (ps qs : Pending) → awaits m ps ≡ true → awaits m (ps ++ qs) ≡ true
unfolding awaits
awaits-append m [] qs h = absurd (false≢true h)
awaits-append m ((x, n) ∷ ps) qs h = ground (arith, awaits-append m ps qs)

-- A batch that is handed out is pending.
pub awaits-batch :
    (m : Message) (ps : Pending) (ms : List Message)
    → has_message m ms ≡ true
    → awaits m (ps ++ map (λ (x : Message). (x, 1)) ms) ≡ true
unfolding awaits has_message
awaits-batch m [] [] there = absurd (false≢true there)
awaits-batch m [] (x ∷ ms) there = ground (arith, awaits-batch m [] ms)
awaits-batch m ((x, n) ∷ ps) ms there = ground (arith, awaits-batch m ps ms there)

-- A claim keeps what the stream still has.
pub claim-awaits :
    (takes : ℕ → Bool) (entries : List Message) (m : Message) (ps : Pending)
    → has_entry m.id entries ≡ true
    → awaits m ps ≡ true
    → awaits m (claim takes entries ps).1 ≡ true
unfolding claim awaits
claim-awaits takes entries m [] h p = absurd (false≢true p)
claim-awaits takes entries m ((x, n) ∷ ps) h p =
    let itself = λ (same : same_message x m ≡ true).
      ap (λ i. has_entry i entries) (same_message-id x m same) ∙ h in
    ground (arith, claim-awaits takes entries m ps h, itself)

pub is_dead-append :
    (m : Message) (ds new : List (Reason × Message))
    → is_dead m ds ≡ true
    → is_dead m (ds ++ new) ≡ true
unfolding is_dead
is_dead-append m [] new h = absurd (false≢true h)
is_dead-append m ((reason, x) ∷ ds) new h = ground (arith, is_dead-append m ds new)

pub is_dead-last :
    (m : Message) (reason : Reason) (ds : List (Reason × Message))
    → is_dead m (ds ++ (reason, m) ∷ []) ≡ true
unfolding is_dead
is_dead-last m reason [] = ground (arith, same_message_refl m)
is_dead-last m reason ((r, x) ∷ ds) = ground (arith, is_dead-last m reason ds)

pub awaits-last : (m : Message) (n : ℕ) (ps : Pending) → awaits m (ps ++ (m, n) ∷ []) ≡ true
unfolding awaits
awaits-last m n [] = ground (arith, same_message_refl m)
awaits-last m n ((x, k) ∷ ps) = ground (arith, awaits-last m n ps)
