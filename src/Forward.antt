-- ===== src/Forward.antt =====
-- internal/forward/forward.go: the bounded queue of alerts and their delivery. A destination is its
-- name; the body of a record is its JSON text; times are numbers. The counters are 64 bits wide. A
-- section under a lock is one function, so that calls of it interleave freely. The caller of a
-- forwarder that is nil does nothing and has no state here.
pub mod Missing
pub mod Queue
pub mod Flush
pub mod Tests
use defendsec.Prelude.{
  ℕ, zero, suc, ◌+◌, ◌-◌, ◌*◌, ◌%◌, Bool, true, false, not, Option, none, some, List, [], ◌∷◌, ◌++◌,
  length, if◌then◌else◌, ltb, leb, ◌==◌, take, drop,
}
use defendsec.Prelude.Text.{Bytes, eq_bytes}

pub record Record : Type 0 where
  pub kind : Bytes
  pub at : ℕ
  pub severity : Bytes
  pub device_id : Bytes
  pub hostname : Bytes
  pub summary : Bytes
  pub body : Bytes

pub record DestinationStatus : Type 0 where
  pub name : Bytes
  pub sent : ℕ
  pub failed : ℕ
  pub last_error : Bytes
  pub last_error_at : Option ℕ
  pub last_sent_at : Option ℕ
  pub healthy : Bool

pub record Forwarder : Type 0 where
  pub destinations : List Bytes
  pub queue : List Record
  pub closed : Bool
  pub capacity : ℕ
  pub accepted : ℕ
  pub dropped : ℕ
  pub sent : ℕ
  pub failed : ℕ
  pub status : List DestinationStatus

abbrev pub default_capacity : ℕ
default_capacity = 4096

abbrev pub batch_size : ℕ
batch_size = 256

-- The sum of a counter of 64 bits and a number.
abbrev pub add_64 : ℕ → ℕ → ℕ
add_64 n k = (n + k) % 18_446_744_073_709_551_616

abbrev pub fresh_status : Bytes → Bool → DestinationStatus
fresh_status name healthy = record {
  name = name;
  sent = 0;
  failed = 0;
  last_error = [];
  last_error_at = none;
  last_sent_at = none;
  healthy = healthy;
}

-- An assignment to the map of the statuses, by name.
unfoldable pub put_status : DestinationStatus → List DestinationStatus → List DestinationStatus
unfolding eq_bytes
put_status st [] = st ∷ []
put_status st (old ∷ rest) =
    if eq_bytes old.name st.name then st ∷ rest else old ∷ put_status st rest

unfoldable pub find_status : Bytes → List DestinationStatus → Option DestinationStatus
unfolding eq_bytes
find_status name [] = none
find_status name (st ∷ rest) = if eq_bytes st.name name then some st else find_status name rest

unfoldable pub all_fresh : List Bytes → List DestinationStatus → List DestinationStatus
all_fresh [] acc = acc
all_fresh (d ∷ ds) acc = all_fresh ds (put_status (fresh_status d true) acc)

-- New. The source's test is on an int, of which 0 stands for what is not above 0.
unfoldable pub new : ℕ → List Bytes → Forwarder
new capacity destinations = record {
  destinations = destinations;
  queue = [];
  closed = false;
  capacity = if capacity == 0 then default_capacity else capacity;
  accepted = 0;
  dropped = 0;
  sent = 0;
  failed = 0;
  status = all_fresh destinations [];
}

abbrev pub enabled : Forwarder → Bool
enabled f = elim f.destinations [ [] ↦ false | d ∷ ds ↦ true ]

-- Where the queue is full, the oldest record goes.
unfoldable pub make_room : Forwarder → Forwarder
make_room f =
    if leb f.capacity (length f.queue)
    then record f { queue = drop 1 f.queue; dropped = add_64 f.dropped 1 }
    else f

unfoldable pub enqueue : Forwarder → Record → Forwarder
enqueue f r =
    let g = make_room f in record g { queue = g.queue ++ r ∷ []; accepted = add_64 g.accepted 1 }

unfoldable pub send : Forwarder → Record → Forwarder
send f r = if not (enabled f) then f else (if f.closed then f else enqueue f r)

-- The batch that a round of the flush takes, and the forwarder without it.
unfoldable pub take_batch : Forwarder → List Record × Forwarder
take_batch f =
    let n = if ltb batch_size (length f.queue) then batch_size else length f.queue in
    (take n f.queue, record f { queue = drop n f.queue })

abbrev pub or_fresh : Bytes → Option DestinationStatus → DestinationStatus
or_fresh name none = fresh_status name false
or_fresh name (some st) = st

-- record: the outcome of sending `n` records to a destination, `none` where there was no error.
unfoldable pub record_outcome : ℕ → Bytes → ℕ → Option Bytes → Forwarder → Forwarder
unfolding find_status put_status
record_outcome now name n err f =
    let st = or_fresh name (find_status name f.status) in
    elim err [
      | some e ↦ record f {
        status =
            put_status
              (record st {
                failed = add_64 st.failed n;
                last_error = e;
                last_error_at = some now;
                healthy = false;
              })
              f.status;
        failed = add_64 f.failed n;
      }
      | none ↦ record f {
        status =
            put_status
              (record st { sent = add_64 st.sent n; last_sent_at = some now; healthy = true })
              f.status;
        sent = add_64 f.sent n;
      }
    ]

-- `deliver d batch` is the error of sending a batch, if any.
module _ (now : ℕ) (deliver : Bytes → List Record → Option Bytes) where
  unfoldable pub send_all : List Bytes → List Record → Forwarder → Forwarder
  send_all [] batch f = f
  send_all (d ∷ ds) batch f =
      send_all ds batch (record_outcome now d (length batch) (deliver d batch) f)

  -- flush, with fuel; `none` when the fuel runs out.
  unfoldable pub flush : ℕ → Forwarder → Option Forwarder
  flush zero f = none
  flush (suc fuel) f =
      let next = take_batch f in
      let rest = flush fuel (send_all f.destinations next.0 next.1) in
      if length f.queue == 0 then some f else rest

-- Close: the flag. The worker flushes once more before it stops.
unfoldable pub close : Forwarder → Forwarder
close f = if f.closed then f else record f { closed = true }

-- What the text of the status says.
pub data Detail : Type 0 where
  not_configured all_well : Detail
  records_dropped records_failed : ℕ → Detail

pub record Status : Type 0 where
  pub is_enabled : Bool
  pub accepted : ℕ
  pub dropped : ℕ
  pub sent : ℕ
  pub failed : ℕ
  pub queued : ℕ
  pub capacity : ℕ
  pub destinations : List DestinationStatus
  pub detail : Detail

unfoldable pub statuses_of : List Bytes → List DestinationStatus → List DestinationStatus
unfolding find_status
statuses_of [] known = []
statuses_of (d ∷ ds) known = elim (find_status d known) [
  | none ↦ statuses_of ds known
  | some st ↦ st ∷ statuses_of ds known
]

abbrev pub detail_of : Bool → ℕ → ℕ → Detail
detail_of enabled dropped failed =
    if not enabled
    then not_configured
    else (if ltb 0 dropped
        then records_dropped dropped
        else (if ltb 0 failed then records_failed failed else all_well))

unfoldable pub status_of : Forwarder → Status
unfolding statuses_of
status_of f = record {
  is_enabled = enabled f;
  accepted = f.accepted;
  dropped = f.dropped;
  sent = f.sent;
  failed = f.failed;
  queued = length f.queue;
  capacity = f.capacity;
  destinations = statuses_of f.destinations f.status;
  detail = detail_of (enabled f) f.dropped f.failed;
}
