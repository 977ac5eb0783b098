-- ===== src/Peer/Sender.antt =====
-- A peer's queue and the sender coroutine of src/game/Peer.cpp under every schedule: messages are
-- queued, running senders act, and the socket is invalidated, in any order.
pub mod Order
pub mod Drain
use helicopter.Base.{
  ℕ, ◌+◌, ◌-◌, ◌==◌, ◌≡◌, ◌≢◌, ◌≤◌, Bool, true, false, Option, none, some, List, [], ◌∷◌, ◌++◌,
  length, if◌then◌else◌, arith,
}
use helicopter.Config.{GameConfigDto}
use helicopter.Dto.{MessageDto}
use helicopter.Peer.{Peer, MessageQueue, queue_message, sender_act, invalidate_socket}
use helicopter.Peer.Queue.{senders, queue_message-eq, sender_act-cases, woken}

-- `running` counts the sender coroutines that have not finished. `accepted` and `taken` record the
-- messages that the queue took and that senders took off it, oldest first.
pub record Line : Type 0 where
  pub peer : Peer
  pub running : ℕ
  pub accepted : List MessageDto
  pub taken : List MessageDto

pub data Event : Type 0 where
  enqueue : MessageDto → Event
  act drop : Event

abbrev after_act : Line → Option MessageDto × MessageQueue → Line
after_act l (none, q) = record l { peer = record (l.peer) { queue = q }; running = l.running - 1 }
after_act l (some m, q) = record l {
  peer = record (l.peer) { queue = q };
  taken = l.taken ++ m ∷ [];
}

-- `act` is the next round of a running sender, after its send has ended well or badly.
unfoldable pub step : GameConfigDto → Event → Line → Line
step c (enqueue m) l =
    let (done, p, fx) = queue_message c (some m) l.peer in
    record l {
      peer = p;
      running = l.running + senders fx;
      accepted = if done then l.accepted ++ m ∷ [] else l.accepted;
    }
step c act l = if l.running == 0 then l else after_act l (sender_act l.peer.queue)
step c drop l = record l { peer = (invalidate_socket l.peer).0 }

unfoldable pub run : GameConfigDto → List Event → Line → Line
run c [] l = l
run c (e ∷ es) l = run c es (step c e l)

-- There is never more than one sender; an inactive queue is empty and has none; an active one whose
-- peer has a socket has one. The queue keeps its bound.
pub record IsSound (c : GameConfigDto) (l : Line) : Type 0 where
  pub single : l.running ≤ 1
  pub idle_empty : l.peer.queue.active ≡ false → l.peer.queue.items ≡ []
  pub idle_stopped : l.peer.queue.active ≡ false → l.running ≡ 0
  pub busy_running : l.peer.queue.active ≡ true → l.peer.socket ≢ none → l.running ≡ 1
  pub bounded : length l.peer.queue.items ≤ c.max_queued_messages

enqueue-IsSound :
    (c : GameConfigDto) (m : MessageDto) (l : Line) → IsSound c l → IsSound c (step c (enqueue m) l)
unfolding step
enqueue-IsSound c m l v = ground (arith, queue_message-eq c m l.peer)

act-IsSound : (c : GameConfigDto) (l : Line) → IsSound c l → IsSound c (step c act l)
unfolding step
act-IsSound c l v = ground (arith, sender_act-cases l.peer.queue)

drop-IsSound : (c : GameConfigDto) (l : Line) → IsSound c l → IsSound c (step c drop l)
unfolding step invalidate_socket
drop-IsSound c l v = ground arith

pub step-IsSound : (c : GameConfigDto) (e : Event) (l : Line) → IsSound c l → IsSound c (step c e l)
step-IsSound c (enqueue m) l v = enqueue-IsSound c m l v
step-IsSound c act l v = act-IsSound c l v
step-IsSound c drop l v = drop-IsSound c l v

-- Whatever the schedule, a sound line stays sound: never two senders at once, no message left
-- behind in an inactive queue, a sender running for an active queue while there is a socket, and at
-- most the configured number of queued messages.
pub run-IsSound :
    (c : GameConfigDto) (es : List Event) (l : Line) → IsSound c l → IsSound c (run c es l)
unfolding run
run-IsSound c [] l v = v
run-IsSound c (e ∷ es) l v = run-IsSound c es (step c e l) (step-IsSound c e l v)
