-- ===== src/Forward/Queue.antt =====
-- internal/forward/forward.go: senders and the worker as interleaved steps, and what the queue keeps
-- of the records that were accepted.
use defendsec.Prelude.{
  ℕ, suc, ◌+◌, ◌%◌, ◌≤◌, ◌<◌, ◌≡◌, refl, ◌∙◌, ap, Bool, true, false, not, ◌&&◌, Option, none, some,
  List, [], ◌∷◌, ◌++◌, length, if◌then◌else◌, leb, arith, take, drop, take-append-drop,
  length-append, inl, inr, Bool-cases, length-drop, ltb,
}
use mathlib.Core.List.{append_assoc}
use mathlib.Core.Path.{subst}
use defendsec.Prelude.Text.{Bytes}
use defendsec.Forward.{
  Record, Forwarder, new, send, enqueue, make_room, take_batch, record_outcome, close, enabled,
  add_64, batch_size,
}
use defendsec.Forward.Missing.{Missing, Missing-snoc, Missing-remove, length-Missing}

-- The forwarder, the batch that the worker is sending and the destinations it has yet to be sent to,
-- with the records accepted and the records taken off the queue so far.
pub record World : Type 0 where
  pub fwd : Forwarder
  pub batch : List Record
  pub targets : List Bytes
  pub offered : List Record
  pub taken : List Record

abbrev pub accepts : Forwarder → Bool
accepts f = enabled f && not f.closed

abbrev pub after_send : World → Record → World
after_send w r = record w {
  fwd = send w.fwd r;
  offered = if accepts w.fwd then w.offered ++ r ∷ [] else w.offered;
}

abbrev pub after_take : World → World
after_take w = record w {
  fwd = (take_batch w.fwd).1;
  batch = (take_batch w.fwd).0;
  targets = w.fwd.destinations;
  taken = w.taken ++ (take_batch w.fwd).0;
}

-- A step of a sender, of the worker, or of the caller of Close.
pub data Step : World → World → Type 0 where
  sends : (w : World) (r : Record) → Step w (after_send w r)
  takes : (w : World) → w.targets ≡ [] → Step w (after_take w)
  delivers :
      (w : World) (d : Bytes) (ds : List Bytes) (now : ℕ) (err : Option Bytes)
      → w.targets ≡ d ∷ ds
      → Step w (record w { fwd = record_outcome now d (length w.batch) err w.fwd; targets = ds })
  closes : (w : World) → Step w (record w { fwd = close w.fwd })

abbrev pub fresh : ℕ → List Bytes → World
fresh capacity destinations = record {
  fwd = new capacity destinations;
  batch = [];
  targets = [];
  offered = [];
  taken = [];
}

pub data Reachable (capacity : ℕ) (destinations : List Bytes) : World → Type 0 where
  starts : Reachable capacity destinations (fresh capacity destinations)
  goes_on :
      (w w' : World)
      → Reachable capacity destinations w
      → Step w w'
      → Reachable capacity destinations w'

-- What holds of every state. The counters are compared with what they count, in 64 bits.
pub record Sound (w : World) : Type 0 where
  pub positive : 0 < w.fwd.capacity
  pub bounded : length w.fwd.queue ≤ w.fwd.capacity
  pub lost : ℕ
  pub kept : Missing (w.taken ++ w.fwd.queue) w.offered lost
  pub dropped_eq : w.fwd.dropped ≡ lost % 18_446_744_073_709_551_616
  pub accepted_eq : w.fwd.accepted ≡ length w.offered % 18_446_744_073_709_551_616

Sound-fresh : (capacity : ℕ) (destinations : List Bytes) → Sound (fresh capacity destinations)
unfolding new
Sound-fresh capacity destinations = record {
  positive = ground arith;
  bounded = ground arith;
  lost = 0;
  kept = (refl, refl);
  dropped_eq = omega arith;
  accepted_eq = omega arith;
}

-- A state whose queue and counters are those of another is as sound.
Sound-same :
    (w w' : World)
    → w'.fwd.capacity ≡ w.fwd.capacity
    → w'.fwd.dropped ≡ w.fwd.dropped
    → w'.fwd.accepted ≡ w.fwd.accepted
    → w'.taken ++ w'.fwd.queue ≡ w.taken ++ w.fwd.queue
    → length w'.fwd.queue ≤ length w.fwd.queue
    → w'.offered ≡ w.offered
    → Sound w
    → Sound w'
Sound-same w w' c d a q l o s = record {
  positive = rw c s.positive;
  bounded = ground (arith, s.bounded);
  lost = s.lost;
  kept = rw (q, o) s.kept;
  dropped_eq = d ∙ s.dropped_eq;
  accepted_eq = a ∙ (rw o s.accepted_eq);
}

without_oldest :
    (taken queue offered : List Record) (capacity lost dropped : ℕ)
    → 0 < length queue
    → length queue ≤ capacity
    → Missing (taken ++ queue) offered lost
    → dropped ≡ lost % 18_446_744_073_709_551_616
    → (n : ℕ) × Missing (taken ++ drop 1 queue) offered n
      × (add_64 dropped 1 ≡ n % 18_446_744_073_709_551_616)
      × (length (drop 1 queue) < capacity)
without_oldest taken [] offered capacity lost dropped p b h e = absurd (omega arith)
without_oldest taken (q ∷ queue) offered capacity lost dropped p b h e =
    (suc lost, Missing-remove taken q queue offered lost h, omega arith, omega arith)

-- Room for one more record is made, at the price of the oldest one.
room :
    (w : World)
    → Sound w
    → (n : ℕ) × Missing (w.taken ++ (make_room w.fwd).queue) w.offered n
      × ((make_room w.fwd).dropped ≡ n % 18_446_744_073_709_551_616)
      × (length (make_room w.fwd).queue < w.fwd.capacity)
unfolding make_room
room w s = elim (Bool-cases (leb w.fwd.capacity (length w.fwd.queue))) [
  | inl full ↦ rw full (
      without_oldest w.taken w.fwd.queue w.offered w.fwd.capacity s.lost w.fwd.dropped
        (ground (arith, s.positive)) s.bounded s.kept s.dropped_eq)
  | inr free ↦ rw free (s.lost, s.kept, s.dropped_eq, ground arith)
]

make_room-same :
    (f : Forwarder) → ((make_room f).capacity ≡ f.capacity) × ((make_room f).accepted ≡ f.accepted)
unfolding make_room
make_room-same f = ground arith

Sound-enqueue :
    (w : World) (r : Record)
    → Sound w
    → Sound (record w { fwd = enqueue w.fwd r; offered = w.offered ++ r ∷ [] })
unfolding enqueue
Sound-enqueue w r s =
    let (n, kept, lost, free) = room w s in
    let (cap, acc) = make_room-same w.fwd in
    record {
      positive = rw cap s.positive;
      bounded = rw (cap, length-append (make_room w.fwd).queue (r ∷ [])) (omega arith);
      lost = n;
      kept =
          subst (λ l. Missing l (w.offered ++ r ∷ []) n)
            (append_assoc w.taken (make_room w.fwd).queue (r ∷ []))
            (Missing-snoc (w.taken ++ (make_room w.fwd).queue) w.offered n r kept);
      dropped_eq = lost;
      accepted_eq = rw (acc, length-append w.offered (r ∷ [])) (omega (arith, s.accepted_eq));
    }

Sound-send : (w : World) (r : Record) → Sound w → Sound (after_send w r)
unfolding send
Sound-send w r s = by_tests (enabled w.fwd) w.fwd.closed
  where
    by_tests :
        (on shut : Bool)
        → Sound (record w {
          fwd = if not on then w.fwd else (if shut then w.fwd else enqueue w.fwd r);
          offered = if on && not shut then w.offered ++ r ∷ [] else w.offered;
        })
    by_tests false shut = s
    by_tests true true = s
    by_tests true false = Sound-enqueue w r s

Sound-take : (w : World) → Sound w → Sound (after_take w)
unfolding take_batch
Sound-take w s =
    let n : ℕ = if ltb batch_size (length w.fwd.queue) then batch_size else length w.fwd.queue in
    Sound-same w _ refl refl refl
      (append_assoc w.taken (take n w.fwd.queue) (drop n w.fwd.queue)
        ∙ ap (λ l. w.taken ++ l) (take-append-drop n w.fwd.queue))
      (omega (arith, length-drop n w.fwd.queue)) refl s

Sound-deliver :
    (w : World) (d : Bytes) (ds : List Bytes) (now : ℕ) (err : Option Bytes)
    → Sound w
    → Sound (record w { fwd = record_outcome now d (length w.batch) err w.fwd; targets = ds })
unfolding record_outcome
Sound-deliver w d ds now none s = Sound-same w _ refl refl refl refl (omega arith) refl s
Sound-deliver w d ds now (some e) s = Sound-same w _ refl refl refl refl (omega arith) refl s

Sound-close : (w : World) → Sound w → Sound (record w { fwd = close w.fwd })
unfolding close
Sound-close w s = by_test w.fwd.closed
  where
    by_test :
        (t : Bool) → Sound (record w { fwd = if t then w.fwd else record w.fwd { closed = true } })
    by_test true = s
    by_test false = Sound-same w _ refl refl refl refl (omega arith) refl s

Sound-Step : (w w' : World) → Step w w' → Sound w → Sound w'
Sound-Step w _ (sends _ r) s = Sound-send w r s
Sound-Step w _ (takes _ idle) s = Sound-take w s
Sound-Step w _ (delivers _ d ds now err busy) s = Sound-deliver w d ds now err s
Sound-Step w _ (closes _) s = Sound-close w s

Reachable-Sound :
    (capacity : ℕ) (destinations : List Bytes) (w : World)
    → Reachable capacity destinations w
    → Sound w
Reachable-Sound capacity destinations _ starts = Sound-fresh capacity destinations
Reachable-Sound capacity destinations w' (goes_on w _ r step) =
    Sound-Step w w' step (Reachable-Sound capacity destinations w r)

-- However senders, the worker and Close interleave, the queue is never longer than its capacity, and
-- the records that the worker has taken, then those in the queue, are the records accepted, in
-- their order, without as many as the counter of dropped records tells modulo 2^64; the counter of
-- accepted records tells their number modulo 2^64.
pub Reachable-queue :
    (capacity : ℕ) (destinations : List Bytes) (w : World)
    → Reachable capacity destinations w
    → (length w.fwd.queue ≤ w.fwd.capacity)
      × (lost : ℕ) × Missing (w.taken ++ w.fwd.queue) w.offered lost
      × (length w.offered ≡ length w.taken + length w.fwd.queue + lost)
      × (w.fwd.dropped ≡ lost % 18_446_744_073_709_551_616)
      × (w.fwd.accepted ≡ length w.offered % 18_446_744_073_709_551_616)
Reachable-queue capacity destinations w r =
    let s = Reachable-Sound capacity destinations w r in
    let all = length-Missing (w.taken ++ w.fwd.queue) w.offered s.lost s.kept in
    (
      s.bounded,
      s.lost,
      s.kept,
      omega (arith, all, length-append w.taken w.fwd.queue),
      s.dropped_eq,
      s.accepted_eq,
    )
