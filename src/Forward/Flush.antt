-- ===== src/Forward/Flush.antt =====
-- internal/forward/forward.go: a flush with no sender beside it empties the queue.
use defendsec.Prelude.{
  ℕ, zero, suc, ◌<◌, ◌≡◌, refl, ◌∙◌, true, Option, none, some, List, [], ◌∷◌, length, ◌==◌, ltb,
  arith, if◌then◌else◌, length-drop, Bool-cases, inl, inr,
}
use defendsec.Prelude.Text.{Bytes}
use defendsec.Forward.{Record, Forwarder, take_batch, record_outcome, send_all, flush, batch_size}

no_length {ℓ} : {A : Type ℓ} (xs : List A) → (length xs == 0) ≡ true → xs ≡ []
no_length [] h = refl
no_length (x ∷ xs) h = absurd (ground arith)

module _ (now : ℕ) (deliver : Bytes → List Record → Option Bytes) where
  record_outcome-queue :
      (d : Bytes) (n : ℕ) (err : Option Bytes) (f : Forwarder)
      → (record_outcome now d n err f).queue ≡ f.queue
  unfolding record_outcome
  record_outcome-queue d n none f = refl
  record_outcome-queue d n (some e) f = refl

  send_all-queue :
      (ds : List Bytes) (batch : List Record) (f : Forwarder)
      → (send_all now deliver ds batch f).queue ≡ f.queue
  unfolding send_all
  send_all-queue [] batch f = refl
  send_all-queue (d ∷ ds) batch f =
      send_all-queue ds batch _ ∙ record_outcome-queue d (length batch) (deliver d batch) f

  take_batch-shorter :
      (f : Forwarder) → 0 < length f.queue → length ((take_batch f).1).queue < length f.queue
  unfolding take_batch
  take_batch-shorter f h =
      let n : ℕ = if ltb batch_size (length f.queue) then batch_size else length f.queue in
      ground (arith, length-drop n f.queue)

  -- With a round for each record and one more the flush ends, with nothing in the queue, whatever
  -- the destinations answer.
  pub flush_empties :
      (fuel : ℕ) (f : Forwarder)
      → length f.queue < fuel
      → (g : Forwarder) × (flush now deliver fuel f ≡ some g) × (g.queue ≡ [])
  unfolding flush
  flush_empties zero f h = elim h [ ]
  flush_empties (suc fuel) f h = elim (Bool-cases (length f.queue == 0)) [
    | inl empty ↦ rw empty (f, refl, no_length f.queue empty)
    | inr busy ↦
        let next = send_all now deliver f.destinations (take_batch f).0 (take_batch f).1 in
        let shorter = take_batch-shorter f (ground arith) in
        let same = send_all-queue f.destinations (take_batch f).0 (take_batch f).1 in
        rw busy (flush_empties fuel next (rw same (omega (arith, shorter))))
  ]
