-- ===== src/System/Appends.antt =====
-- What `Accept` writes to the stream, while Redis trims nothing.
use asset_repayment_service.Prelude.{
  ℕ, suc, ◌≡◌, refl, ◌⊎◌, inl, inr, some, [], ◌∷◌, ◌++◌, arith, subst, sym, ◌∙◌, Bool-cases,
  Option-cases,
}
use asset_repayment_service.Prelude.Text.{Str}
use asset_repayment_service.Errors.{Result-cases}
use asset_repayment_service.Money.Decimal.{Decimal}
use asset_repayment_service.Money.Currency.{Unicode}
use asset_repayment_service.Deployment.Clock.{Floats}
use asset_repayment_service.Payment.Entity.{ValidatedNotification, Notification}
use asset_repayment_service.Payment.Validate.{Calendar, validate}
use asset_repayment_service.Payment.Service.{
  Settings, Codec, process, enqueue, append_entry, dispatch, accept_valid, accept,
}
use asset_repayment_service.Payment.CacheSound.{stream-process}
use asset_repayment_service.World.State.{Environment, World, Message, Stream}
use asset_repayment_service.World.Cache.{get_result}
use asset_repayment_service.Queue.Handoff.{trim_to-none}
use asset_repayment_service.Queue.Kept.{Fault-cases}

-- Redis trims nothing from the stream.
abbrev pub NeverTrims : Environment → Type 0
NeverTrims e = (n : ℕ) → e.trim n ≡ 0

-- A message is appended under the next number.
pub record IsAppended (s s' : Stream) (m : Message) : Type 0 where
  pub next_number : m.id ≡ s.next_entry
  pub last_entry : s'.entries ≡ s.entries ++ m ∷ []
  pub one_more : s'.next_entry ≡ suc s.next_entry
  pub same_delivered : s'.delivered ≡ s.delivered
  pub same_pending : s'.pending ≡ s.pending
  pub same_dead : s'.dead ≡ s.dead

-- An entry is appended, or the stream stays as it is.
abbrev pub IsWrittenFrom : Stream → Stream → Type 0
IsWrittenFrom s s' = (s' ≡ s) ⊎ ((m : Message) × IsAppended s s' m)

module _ {A : Type 0} ⦃d : Decimal A⦄ ⦃u : Unicode⦄ ⦃e : Environment⦄ ⦃f : Floats⦄ ⦃l : Calendar⦄
    ⦃c : Codec A⦄ where
  abbrev pub IsWritten : World A → World A → Type 0
  IsWritten w w' = IsWrittenFrom w.stream w'.stream

  pub append_entry-IsAppended :
      (payload : Str) (w : World A)
      → e.trim w.step ≡ 0
      → IsAppended w.stream
          (append_entry payload w).stream
          (record { id = w.stream.next_entry; payload = some payload })
  unfolding append_entry
  append_entry-IsAppended payload w untrimmed = record {
    next_number = refl;
    last_entry = ground (
      arith,
      trim_to-none w.queue_max_len
          (w.stream.entries ++ record { id = w.stream.next_entry; payload = some payload } ∷ []),
    );
    one_more = refl;
    same_delivered = refl;
    same_pending = refl;
    same_dead = refl;
  }

  enqueue-IsWritten :
      (v : ValidatedNotification A) (w : World A) → NeverTrims e → IsWritten w (enqueue v w).1
  unfolding enqueue
  enqueue-IsWritten v w untrimmed = elim (Option-cases (c.encode v)) [
    | inl unencodable ↦ inl (ground arith)
    | inr (payload, encoded) ↦
        let m : Message = record { id = w.stream.next_entry; payload = some payload } in
        let added = append_entry-IsAppended payload w (untrimmed w.step) in
        elim (Fault-cases (e.fault w.step)) [
          | inl works ↦ inr (m, rw (encoded, enqueue, works) added)
          | inr (inl (reason, down)) ↦ inl (ground arith)
          | inr (inr (reason, lost)) ↦ inr (m, rw (encoded, enqueue, lost) added)
        ]
  ]

  -- The stream of one of the two states is that of the other.
  IsWritten-same :
      (w after later : World A)
      → later.stream ≡ after.stream
      → IsWritten w after
      → IsWritten w later
  IsWritten-same w after later same (inl quiet) = inl (same ∙ quiet)
  IsWritten-same w after later same (inr (m, added)) =
      inr (m, subst (λ s. IsAppended w.stream s m) (sym same) added)

  dispatch-IsWritten :
      (v : ValidatedNotification A) (w : World A) → NeverTrims e → IsWritten w (dispatch v w).1
  unfolding dispatch
  dispatch-IsWritten v w untrimmed = elim (Bool-cases w.queue_on) [
    | inr off ↦
        let inline : dispatch v w ≡ process v w = rw (off, dispatch) in
        rw inline (inl (stream-process v w))
    | inl on ↦
        let written = enqueue-IsWritten v w untrimmed in
        elim (Option-cases (enqueue v w).0) [
          | inl sent ↦
              let path : (dispatch v w).1 ≡ (enqueue v w).1 = ground arith in rw path written
          | inr (cause, failed) ↦
              let path : dispatch v w ≡ process v (enqueue v w).1 = ground arith in
              rw path (
                IsWritten-same w (enqueue v w).1 (process v (enqueue v w).1).1
                  (stream-process v (enqueue v w).1) written)
        ]
  ]

  pub stream-get_result : (key : Str) (w : World A) → (get_result key w).1.stream ≡ w.stream
  unfolding get_result
  stream-get_result key w = ground arith

  -- `Accept` appends an entry to the stream or leaves it alone.
  pub accept-IsWritten :
      (settings : Settings) (n : Notification) (raw : Str) (w : World A)
      → NeverTrims e
      → IsWritten w (accept settings n raw w).1
  unfolding accept accept_valid
  accept-IsWritten settings n raw w untrimmed =
      elim (Result-cases (
        validate ⦃d = d⦄ n settings.provider_location settings.default_currency raw
          (e.now w.step))) [
            | inr (cause, refused) ↦ rw (refused, accept) (inl refl)
            | inl (v, valid) ↦
                let looked = (get_result v.reference w).1 in
                let same = stream-get_result v.reference w in
                elim (Option-cases (get_result v.reference w).0) [
                  | inr (x, hit) ↦ rw (valid, accept, hit, accept_valid) (inl same)
                  | inl miss ↦
                      let path : accept settings n raw w ≡ dispatch v looked = ground arith in
                      rw path (
                        subst (λ s. IsWrittenFrom s (dispatch v looked).1.stream) same
                          (dispatch-IsWritten v looked untrimmed))
                ]
          ]
