-- ===== src/Server/Crew/Runs.antt =====
-- The senders of src/game/Peer.cpp in the runs of a server that has just started.
use helicopter.Base.{
  ℕ, ◌+◌, ◌<◌, ◌==◌, refl, sym, Bool, Str, true, false, List, [], ◌∷◌, inl, inr, arith, nat_eq,
  for_each, update, Bool-cases, ==_iff,
}
use helicopter.Word.{Int64}
use helicopter.Config.{Games}
use helicopter.Dto.{MessageDto}
use helicopter.Peer.{Peer, make_peer, sender_act}
use helicopter.Peer.Queue.{sender_act-cases}
use helicopter.Heap.{Heap, queue_to}
use helicopter.Heap.Starts.{started}
use helicopter.Members.{
  set_session, hello_message, insert_peer, add_peer, remove_peer_by_id,
  broadcast_synchronized_event,
}
use helicopter.Handlers.{retrieve_string, handle_synchronized_event}
use helicopter.Registry.{create_peer}
use helicopter.Reading.{Mapper, set_buffer}
use helicopter.App.{start_server}
use helicopter.Server.{
  Step, admits, joins, reads, queues, checks, sends, ticks, drops, leaves, starts, closes,
  send_next,
}
use helicopter.Server.Bare.{IsBare, get_session_for_peer-IsBare, close_session-IsBare, start-IsBare}
use helicopter.Server.Receives.{Result-cases}
use helicopter.Server.Reads.{read_message_kept}
use helicopter.Server.Turns.{pinger_act_kept}
use helicopter.Server.Crew.{Crew, IsManned, CanAct, ended, note_finished, CrewRun, here, next}
use helicopter.Server.Crew.Manned.{
  Mans, Mans-refl, Mans-trans, queue_to-Mans, invalidated-Mans, notify_host-Mans, Mans-IsFrameRule,
}

-- Every peer is manned.
abbrev AllManned : (ℕ → ℕ) → Heap → Type 0
AllManned finished h = (q : ℕ) → IsManned (finished q) (started q h.effects) (h.peers q)

for_each-queue_to-Mans :
    (m : MessageDto) (rs : List ℕ) (h : Heap) → Mans h (for_each rs (λ r. queue_to r m) h)
unfolding for_each
for_each-queue_to-Mans m [] h = Mans-refl h
for_each-queue_to-Mans m (r ∷ rs) h =
    let k = queue_to r m h in
    Mans-trans h k (for_each rs (λ q. queue_to q m) k) (queue_to-Mans m r h)
      (for_each-queue_to-Mans m rs k)

broadcast_synchronized_event-Mans :
    (s : ℕ) (sender : Int64) (text : Str) (h : Heap)
    → Mans h (broadcast_synchronized_event s sender text h)
unfolding broadcast_synchronized_event
broadcast_synchronized_event-Mans s sender text h = for_each-queue_to-Mans _ _ (set_session s _ h)

handle_synchronized_event-Mans :
    (me : ℕ) (m : MessageDto) (h : Heap) → Mans h (handle_synchronized_event me m h).1
unfolding handle_synchronized_event
handle_synchronized_event-Mans me m h = elim (Result-cases (retrieve_string m.payload)) [
  | inr (e, bad) ↦ rw (bad, handle_synchronized_event) (Mans-refl h)
  | inl (text, there) ↦
      rw (there, handle_synchronized_event)
        (broadcast_synchronized_event-Mans (h.peers me).game_session (h.peers me).peer_id text h)
]

bare-Mans : (h k : Heap) → IsBare h k → Mans h k
bare-Mans h k b q finished m = rw (b.peers, b.senders q) m

remove_peer_by_id-Mans : (s : ℕ) (id : Int64) (h : Heap) → Mans h (remove_peer_by_id s id h).1
unfolding remove_peer_by_id
remove_peer_by_id-Mans s id h = notify_host-Mans s _ (set_session s _ h)

insert_peer-Mans : (s r : ℕ) (is_host : Bool) (h : Heap) → Mans h (insert_peer s r is_host h)
unfolding insert_peer
insert_peer-Mans s r true h = λ q finished m. m
insert_peer-Mans s r false h = notify_host-Mans s _ (set_session s _ h)

add_peer-Mans : (s r : ℕ) (is_host : Bool) (h : Heap) → Mans h (add_peer s r is_host h)
unfolding add_peer
add_peer-Mans s r is_host h =
    let k = insert_peer s r is_host h in
    let m = hello_message (h.peers r).peer_id is_host in
    Mans-trans h k (queue_to r m k) (insert_peer-Mans s r is_host h) (queue_to-Mans m r k)

-- A peer that was just made needs no sender.
make_peer-IsManned : (socket s : ℕ) (id : Int64) (n : ℕ) → IsManned n n (make_peer socket s id)
make_peer-IsManned socket s id n = record {
  counted = omega arith;
  single = omega arith;
  idle_empty = λ e. refl;
  idle_stopped = λ e. refl;
  busy_running = λ e. absurd (cc);
}

sent-IsManned :
    (finished n : ℕ) (p : Peer)
    → finished < n
    → IsManned finished n p
    → let x = sender_act p.queue in IsManned (finished + ended x.0) n (record p { queue = x.1 })
unfolding ended
sent-IsManned finished n p runs m = elim (sender_act-cases p.queue) [
  | inl (empty, none_left) ↦ rw none_left (ground arith)
  | inr (rest, x, takes, order, active, size) ↦ rw takes (ground arith)
]

sends-AllManned :
    (finished : ℕ → ℕ) (r : ℕ) (h : Heap)
    → finished r < started r h.effects
    → AllManned finished h
    → AllManned
        (update finished r (finished r + ended (sender_act (h.peers r).queue).0))
        (send_next r h)
unfolding send_next
sends-AllManned finished r h runs all q = elim (Bool-cases (q == r)) [
  | inl same ↦
      rw (same, (==_iff q r).0 same)
        (sent-IsManned (finished r) (started r h.effects) (h.peers r) runs (all r))
  | inr other ↦ rw other (all q)
]

joins-AllManned :
    (finished : ℕ → ℕ) (socket s : ℕ) (is_host : Bool) (h : Heap)
    → AllManned finished h
    → AllManned
        (update finished h.next_peer (started h.next_peer h.effects))
        (create_peer socket s is_host h)
unfolding create_peer
joins-AllManned finished socket s is_host h all q =
    add_peer-Mans s h.next_peer is_host _ q _ (elim (Bool-cases (q == h.next_peer)) [
      | inl new ↦ rw (new, sym ((==_iff q h.next_peer).0 new)) (make_peer-IsManned socket s _ _)
      | inr other ↦ rw other (all q)
    ])

Step-AllManned :
    {mapper : Mapper} {h k : Heap} (finished : ℕ → ℕ) (step : Step mapper h k)
    → CanAct step finished
    → AllManned finished h
    → AllManned (note_finished step finished) k
unfolding CanAct note_finished
Step-AllManned finished (admits params h) can all q =
    bare-Mans h _ (get_session_for_peer-IsBare params h) q _ (all q)
Step-AllManned finished (joins socket s b h lt) can all q =
    joins-AllManned finished socket s b h all q
Step-AllManned {mapper} finished (reads now me frame h lt) can all q =
    read_message_kept Mans Mans-IsFrameRule mapper now me frame h
      (λ x end reads code. handle_synchronized_event-Mans me x (set_buffer me [] h)) q _ (all q)
Step-AllManned finished (queues r m h e) can all q = queue_to-Mans m r h q _ (all q)
Step-AllManned finished (checks t r h) can all q = Mans-IsFrameRule.checks t r h q _ (all q)
Step-AllManned finished (sends r h) can all q = sends-AllManned finished r h can all q
Step-AllManned finished (ticks now g h) can all q =
    pinger_act_kept Mans Mans-IsFrameRule now g h q _ (all q)
Step-AllManned finished (drops r h) can all q = invalidated-Mans r h q _ (all q)
Step-AllManned finished (leaves s id h) can all q = remove_peer_by_id-Mans s id h q _ (all q)
Step-AllManned finished (starts fx h loose) can all q =
    bare-Mans h _ (start-IsBare fx h loose) q _ (all q)
Step-AllManned finished (closes s h lt) can all q =
    bare-Mans h _ (close_session-IsBare s h) q _ (all q)

-- A server that has just started, none of whose senders have ended.
abbrev pub idle : Games → Crew
idle games = record { heap = start_server games; finished = λ q. 0 }

idle-AllManned : (games : Games) → AllManned (λ q. 0) (start_server games)
unfolding start_server started
idle-AllManned games q = make_peer-IsManned 0 0 0 0

-- In every run of the server from its start in which senders act only from their start to their end,
-- whoever joins, leaves, is kicked or loses the socket, and whatever frames come: each peer has at most
-- one sender; if its queue is not active, the queue is empty and no sender runs; if it is active and the
-- peer has a socket, a sender runs.
pub CrewRun-IsManned :
    (mapper : Mapper) (games : Games) (q : ℕ) {f : Crew}
    → CrewRun mapper (idle games) f
    → IsManned (f.finished q) (started q f.heap.effects) (f.heap.peers q)
CrewRun-IsManned mapper games q here = idle-AllManned games q
CrewRun-IsManned mapper games q (next {g} r step can) =
    Step-AllManned g.finished step can (λ p. CrewRun-IsManned mapper games p r) q
