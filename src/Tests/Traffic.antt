-- ===== src/Tests/Traffic.antt =====
-- Queues, senders, events and pings at concrete inputs.

use helicopter.Base.{◌≡◌, refl, true, some, List, [], ◌∷◌, arith, str_eq_inst, nat_eq}
use helicopter.Peer.{make_peer}
use helicopter.Peer.Pings.{answered, answered-kept}
use helicopter.Peer.Sender.{Line, Event, enqueue, act, run, IsSound}
use helicopter.Peer.Sender.Order.{passed, run-nothing_lost}
use helicopter.Peer.Sender.Drain.{acts, drained, run-drained}
use helicopter.Tests.{config, note}

abbrev line : Line
line = record { peer = make_peer 10 0 0; running = 0; accepted = []; taken = [] }

abbrev schedule : List Event
schedule = enqueue note ∷ act ∷ enqueue note ∷ enqueue note ∷ act ∷ []

line-IsSound : IsSound config line
line-IsSound = ground arith

run-nothing_lost_example : passed (run config schedule line) ≡ (run config schedule line).accepted
run-nothing_lost_example =
    run-nothing_lost config schedule line (tt, (tt, (tt, (tt, (tt, tt))))) refl

abbrev waiting : Line
waiting = record line {
  running = 1;
  peer = record (make_peer 10 0 0) { queue = record { items = note ∷ note ∷ []; active = true } };
}

run-drained_example : run config (acts 3) waiting ≡ drained waiting
run-drained_example = run-drained config waiting refl

answered-kept_example :
    ((answered config ((4, 5) ∷ (3, 9) ∷ []) (make_peer 10 0 0)).socket ≡ some 10)
    × ((answered config ((4, 5) ∷ (3, 9) ∷ []) (make_peer 10 0 0)).queue ≡ (make_peer 10 0 0).queue)
answered-kept_example =
    answered-kept config ((4, 5) ∷ (3, 9) ∷ []) (make_peer 10 0 0) (omega arith) (refl, (refl, tt))
