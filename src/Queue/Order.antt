-- ===== src/Queue/Order.antt =====
-- The numbers of the stream's entries ascend, and what a read leaves for the next one.
use asset_repayment_service.Prelude.{
  ℕ, zero, suc, ◌≡◌, ◌≤◌, Bool, true, ◌⊎◌, inl, inr, List, [], ◌∷◌, ◌++◌, map, arith, ltb,
  Bool-cases, ◌==◌,
}
use mathlib.Core.Bool.{false≢true}
use asset_repayment_service.World.State.{Message}
use asset_repayment_service.Queue.Worker.{Pending, unread, after_last, has_entry, without, claim}
use asset_repayment_service.Queue.Rounds.{IsUnique, IsUniquePending}

-- The numbers ascend from `low` on and stay below `high`.
abbrev pub IsAscending : ℕ → List Message → ℕ → Type 0
IsAscending low [] high = low ≤ high
IsAscending low (m ∷ ms) high = (low ≤ m.id) × IsAscending (suc m.id) ms high

pub IsAscending-append :
    (low high : ℕ) (ms : List Message) (m : Message)
    → m.id ≡ high
    → IsAscending low ms high
    → IsAscending low (ms ++ m ∷ []) (suc high)
IsAscending-append low high [] m next h = omega arith
IsAscending-append low high (x ∷ ms) m next (first, rest) =
    (first, IsAscending-append (suc x.id) high ms m next rest)

le-has_entry :
    (low high id : ℕ) (ms : List Message)
    → IsAscending low ms high
    → has_entry id ms ≡ true
    → low ≤ id
unfolding has_entry
le-has_entry low high id [] h there = absurd (false≢true there)
le-has_entry low high id (m ∷ ms) (first, rest) there =
    ground (arith, le-has_entry (suc m.id) high id ms rest)

-- An entry that is not read yet is in the batch, or the next read starts at it or before.
pub unread-reaches :
    (count from low high id last : ℕ) (ms : List Message)
    → IsAscending low ms high
    → has_entry id ms ≡ true
    → from ≤ id
    → last ≤ id
    → (has_entry id (unread count from ms) ≡ true) ⊎ (after_last last (unread count from ms) ≤ id)
unfolding unread has_entry
unread-reaches count from low high id last [] order there new before = absurd (false≢true there)
unread-reaches zero from low high id last (m ∷ ms) order there new before = inr before
unread-reaches (suc count) from low high id last (m ∷ ms) (first, rest) there new before =
    elim (Bool-cases (ltb m.id from)) [
      | inl seen ↦
          rw (seen, unread)
            (unread-reaches (suc count) from (suc m.id) high id last ms rest (ground arith) new
              before)
      | inr fresh ↦ elim (Bool-cases (m.id == id)) [
        | inl itself ↦ rw (fresh, unread) (inl (ground arith))
        | inr other ↦
            let later : has_entry id ms ≡ true = ground arith in
            let next = le-has_entry (suc m.id) high id ms rest later in
            rw (fresh, unread)
              (elim (unread-reaches count from (suc m.id) high id (suc m.id) ms rest later new
                next) [ inl taken ↦ inl (ground arith) | inr waits ↦ inr waits ])
      ]
    ]

pub batch-IsUniquePending :
    (credit : Message) (ps : Pending) (ms : List Message)
    → IsUniquePending credit ps
    → IsUnique credit ms
    → IsUniquePending credit (ps ++ map (λ (m : Message). (m, 1)) ms)
batch-IsUniquePending credit [] [] old new = tt
batch-IsUniquePending credit [] (m ∷ ms) old (first, rest) =
    (first, batch-IsUniquePending credit [] ms old rest)
batch-IsUniquePending credit ((x, n) ∷ ps) ms (first, rest) new =
    (first, batch-IsUniquePending credit ps ms rest new)

pub without-IsUniquePending :
    (credit : Message) (id : ℕ) (ps : Pending)
    → IsUniquePending credit ps
    → IsUniquePending credit (without id ps)
unfolding without
without-IsUniquePending credit id [] h = tt
without-IsUniquePending credit id ((x, n) ∷ ps) (first, rest) = elim (Bool-cases (x.id == id)) [
  | inl gone ↦ rw (gone, without) (without-IsUniquePending credit id ps rest)
  | inr kept ↦ rw (kept, without) (first, without-IsUniquePending credit id ps rest)
]

pub claim-IsUniquePending :
    (takes : ℕ → Bool) (entries : List Message) (credit : Message) (ps : Pending)
    → IsUniquePending credit ps
    → IsUniquePending credit (claim takes entries ps).1
unfolding claim
claim-IsUniquePending takes entries credit [] h = tt
claim-IsUniquePending takes entries credit ((m, n) ∷ ps) (first, rest) =
    let others = claim-IsUniquePending takes entries credit ps rest in
    elim (Bool-cases (takes m.id)) [
      | inr left ↦ rw (left, claim) (first, others)
      | inl taken ↦ elim (Bool-cases (has_entry m.id entries)) [
        | inl there ↦ rw (taken, there, claim) (first, others)
        | inr gone ↦ rw (taken, gone, claim) others
      ]
    ]
