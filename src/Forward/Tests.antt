-- ===== src/Forward/Tests.antt =====
-- internal/forward/forward.go: a queue of two records that a third one overflows.
use defendsec.Prelude.{
  ℕ, ◌+◌, ◌%◌, ◌≤◌, ◌<◌, ◌≡◌, refl, Option, some, List, [], ◌∷◌, ◌++◌, length, arith,
}
use defendsec.Prelude.Text.{Bytes, codes}
use defendsec.Forward.{Record, Forwarder, new, send, enqueue, make_room, flush}
use defendsec.Forward.Missing.{Missing}
use defendsec.Forward.Queue.{
  World, after_send, after_take, fresh, sends, takes, Reachable, starts, goes_on, Reachable-queue,
}
use defendsec.Forward.Flush.{flush_empties}

abbrev alert : ℕ → Record
alert at = record {
  kind = codes "alert";
  at = at;
  severity = codes "high";
  device_id = codes "d1";
  hostname = codes "web";
  summary = codes "login failures";
  body = [];
}

abbrev collector : List Bytes
collector = codes "syslog" ∷ []

abbrev one : World
one = after_send (fresh 2 collector) (alert 1)

abbrev two : World
two = after_send one (alert 2)

abbrev three : World
three = after_send two (alert 3)

three_reached : Reachable 2 collector (after_take three)
unfolding new send enqueue make_room
three_reached =
    goes_on three (after_take three)
      (goes_on two three
        (goes_on one two
          (goes_on (fresh 2 collector) one starts (sends (fresh 2 collector) (alert 1)))
          (sends one (alert 2)))
        (sends two (alert 3)))
      (takes three refl)

oldest_dropped : three.fwd.queue ≡ alert 2 ∷ alert 3 ∷ []
unfolding new send enqueue make_room
oldest_dropped = refl

Reachable-queue_example :
    (length (after_take three).fwd.queue ≤ (after_take three).fwd.capacity)
    × (lost : ℕ) × Missing
        ((after_take three).taken ++ (after_take three).fwd.queue)
        (after_take three).offered
        lost
    × (length (after_take three).offered
        ≡ length (after_take three).taken + length (after_take three).fwd.queue + lost)
    × ((after_take three).fwd.dropped ≡ lost % 18_446_744_073_709_551_616)
    × ((after_take three).fwd.accepted
        ≡ length (after_take three).offered % 18_446_744_073_709_551_616)
Reachable-queue_example = Reachable-queue 2 collector (after_take three) three_reached

unreachable_collector : Bytes → List Record → Option Bytes
unreachable_collector d batch = some (codes "connection refused")

three_fits : length three.fwd.queue < 3
unfolding new send enqueue make_room
three_fits = omega arith

flush_empties_example :
    (g : Forwarder) × (flush 9 unreachable_collector 3 three.fwd ≡ some g) × (g.queue ≡ [])
flush_empties_example = flush_empties 9 unreachable_collector 3 three.fwd three_fits
