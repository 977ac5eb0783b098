-- ===== src/Server/Crew.antt =====
-- The sender coroutines of all peers of src/game/Peer.cpp over a run of the server: each is started by
-- an effect, acts only while it runs, and ends when it finds its queue empty.
pub mod Manned
pub mod Runs
use helicopter.Base.{ℕ, ◌+◌, ◌<◌, ◌≡◌, ◌≢◌, ◌≤◌, true, false, none, some, Option, List, [], update}
use helicopter.Dto.{MessageDto}
use helicopter.Peer.{Peer, sender_act}
use helicopter.Heap.{Heap}
use helicopter.Heap.Starts.{started}
use helicopter.Reading.{Mapper}
use helicopter.Server.{Step, sends, joins}

-- `finished` counts the senders of each peer that have ended.
pub record Crew : Type 0 where
  pub heap : Heap
  pub finished : ℕ → ℕ

-- Of `started` senders of a peer, `finished` have ended: there is never more than one; a queue that is
-- not active is empty and has none; an active one whose peer has a socket has one.
pub record IsManned (finished started : ℕ) (p : Peer) : Type 0 where
  pub counted : finished ≤ started
  pub single : started ≤ finished + 1
  pub idle_empty : p.queue.active ≡ false → p.queue.items ≡ []
  pub idle_stopped : p.queue.active ≡ false → started ≡ finished
  pub busy_running : p.queue.active ≡ true → p.socket ≢ none → started ≡ finished + 1

-- A round of a sender is a round of one that runs.
unfoldable pub CanAct : {mapper : Mapper} {h k : Heap} → Step mapper h k → (ℕ → ℕ) → Type 0
CanAct (sends r h) finished = finished r < started r h.effects
CanAct _ finished = Unit {0}

unfoldable pub ended : Option MessageDto → ℕ
ended none = 1
ended (some m) = 0

-- A sender that finds nothing ends. What was started for the reference of a new peer is not counted.
unfoldable pub note_finished : {mapper : Mapper} {h k : Heap} → Step mapper h k → (ℕ → ℕ) → ℕ → ℕ
unfolding ended
note_finished (sends r h) finished =
    update finished r (finished r + ended (sender_act (h.peers r).queue).0)
note_finished (joins socket s is_host h lt) finished =
    update finished h.next_peer (started h.next_peer h.effects)
note_finished _ finished = finished

pub data CrewRun (mapper : Mapper) (f : Crew) : Crew → Type 0 where
  here : CrewRun mapper f f
  next :
      {g : Crew} {k : Heap}
      → CrewRun mapper f g
      → (step : Step mapper g.heap k) → CanAct step g.finished
      → CrewRun mapper f (record { heap = k; finished = note_finished step g.finished })
