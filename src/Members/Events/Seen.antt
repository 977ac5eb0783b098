-- ===== src/Members/Events/Seen.antt =====
-- What the operations of src/game/Peer.cpp and Session.cpp do to the messages that a peer was sent
-- or has queued.
use mathlib.Core.List.{Sublist, append_assoc, append-nil, reverse-cons, sublist-append_left}
use mathlib.Core.List.Sublist
use helicopter.Base.{
  ℕ, ◌≡◌, refl, sym, ap, ◌∙◌, Bool, true, false, some, List, ◌∷◌, ◌++◌, if◌then◌else◌, ltb, length,
  ◌⊎◌, inl, inr, Bool-cases, Option-cases, ◌==◌, arith, [],
}
use mathlib.Core.Path.{subst}
use helicopter.Config.{GameConfigDto}
use helicopter.Word.{Int64}
use helicopter.Dto.{MessageDto}
use helicopter.Peer.{
  Effect, MessageQueue, Peer, queue_message, invalidate_socket, check_pings_rules, count_failed,
}
use helicopter.Peer.Queue.{arrival, enqueued, woken, queue_message-eq}
use helicopter.Session.{Session}
use helicopter.Heap.{Heap, queued, queue_to, on_peer}
use helicopter.Heap.Loops.{local, queue_to-IsLocal, on_peer-peers}
use helicopter.Members.{notify_host}
use helicopter.Members.Events.Flow.{events, events-append, Flow, InOrder}
use helicopter.Members.Events.{is_event}

-- A queue that took the message has it as the newest; one that did not is as it was.
abbrev pub Appended : MessageDto → MessageQueue → MessageQueue → Type 0
Appended m a b = (arrival b ≡ arrival a ++ m ∷ []) ⊎ (arrival b ≡ arrival a)

pub queued-eq_room :
    (c : GameConfigDto) (m : MessageDto) (p : Peer)
    → ltb (length p.queue.items) c.max_queued_messages ≡ true
    → queue_message c (some m) p ≡ (true, enqueued m p, woken p)
queued-eq_room c m p room = queue_message-eq c m p ∙ rw room refl

queued-eq_full :
    (c : GameConfigDto) (m : MessageDto) (p : Peer)
    → ltb (length p.queue.items) c.max_queued_messages ≡ false
    → queue_message c (some m) p ≡ (false, p, [])
queued-eq_full c m p full = queue_message-eq c m p ∙ rw full refl

queued-Appended :
    (m : MessageDto) (ss : ℕ → Session) (p : Peer)
    → Appended m p.queue (local (queued m) ss p).queue
queued-Appended m ss p =
    let c = (ss p.game_session).config in
    let queue_of = λ (r : Bool × Peer × List Effect). arrival r.1.queue in
    elim (Bool-cases (ltb (length p.queue.items) c.max_queued_messages)) [
      | inl room ↦ inl (ap queue_of (queued-eq_room c m p room) ∙ reverse-cons m p.queue.items)
      | inr full ↦ inr (ap queue_of (queued-eq_full c m p full))
    ]

pub unless-Appended :
    (b : Bool) (m : MessageDto) (ss : ℕ → Session) (p : Peer)
    → Appended m p.queue (if b then p else local (queued m) ss p).queue
unless-Appended true m ss p = inr refl
unless-Appended false m ss p = queued-Appended m ss p

when-Appended :
    (b : Bool) (m : MessageDto) (ss : ℕ → Session) (p : Peer)
    → Appended m p.queue (if b then local (queued m) ss p else p).queue
when-Appended true m ss p = queued-Appended m ss p
when-Appended false m ss p = inr refl

pub queue_to-Appended :
    (r q : ℕ) (m : MessageDto) (h : Heap)
    → Appended m (h.peers q).queue ((queue_to r m h).peers q).queue
queue_to-Appended r q m h =
    subst (λ (p : Peer). Appended m (h.peers q).queue p.queue)
      (sym ((queue_to-IsLocal m).peers r q h)) (when-Appended (r == q) m h.sessions (h.peers q))

-- A longer log, and perhaps the same message at the end of what was seen.
pub append-in_order :
    (m : MessageDto) (before : List MessageDto) (a b log : List MessageDto)
    → Sublist (events (before ++ a)) log
    → (b ≡ a ++ m ∷ []) ⊎ (b ≡ a)
    → is_event m ≡ true
    → Sublist (events (before ++ b)) (log ++ m ∷ [])
unfolding events
append-in_order m before a b log s (inl e) ev =
    rw (e, ← append_assoc before a (m ∷ []), events-append (before ++ a) (m ∷ []), ev)
      (Sublist.append s (Sublist.refl (m ∷ [])))
append-in_order m before a b log s (inr e) ev =
    rw e (Sublist.trans s (sublist-append_left log (m ∷ [])))

-- A message that is no event leaves what was seen as it is.
pub other-seen :
    (m : MessageDto) (before : List MessageDto) (a b : List MessageDto)
    → (b ≡ a ++ m ∷ []) ⊎ (b ≡ a)
    → is_event m ≡ false
    → events (before ++ b) ≡ events (before ++ a)
unfolding events
other-seen m before a b (inl e) ev =
    rw (e, ← append_assoc before a (m ∷ []), events-append (before ++ a) (m ∷ []), ev)
      (append-nil (events (before ++ a)))
other-seen m before a b (inr e) ev = rw e refl

-- A queue that was emptied, or left alone.
cleared-in_order :
    (before a b log : List MessageDto)
    → Sublist (events (before ++ a)) log
    → (b ≡ a) ⊎ (b ≡ [])
    → Sublist (events (before ++ b)) log
cleared-in_order before a b log s (inl e) = rw e s
cleared-in_order before a b log s (inr e) =
    rw (e, append-nil before)
      (Sublist.trans (sublist-append_left (events before) (events a))
        (subst (λ (l : List MessageDto). Sublist l log) (events-append before a) s))

-- A method of one peer that leaves the peer's queue as it is, or empties it.
abbrev pub Clears : (GameConfigDto → Peer → Peer × List Effect) → Type 0
Clears f =
    (c : GameConfigDto) (p : Peer)
    → (arrival (f c p).0.queue ≡ arrival p.queue) ⊎ (arrival (f c p).0.queue ≡ [])

pub invalidate_socket-Clears : Clears (λ c p. invalidate_socket p)
unfolding invalidate_socket
invalidate_socket-Clears c p = inr refl

pub check_pings_rules-Clears : (t : Int64) → Clears (check_pings_rules t)
unfolding check_pings_rules count_failed invalidate_socket
check_pings_rules-Clears t c p = ground arith

pub Clears-InOrder :
    (f : GameConfigDto → Peer → Peer × List Effect)
    → Clears f
    → (q r : ℕ) (v : Flow) → InOrder q v
    → InOrder q (record v { heap = on_peer f r v.heap })
Clears-InOrder f clears q r v o =
    let p = v.heap.peers q in
    cleared-in_order (v.taken q) (arrival p.queue) _ v.log o (
      subst (λ (x : Peer). (arrival x.queue ≡ arrival p.queue) ⊎ (arrival x.queue ≡ []))
        (sym (on_peer-peers f r q v.heap)) (cleared_when (r == q)))
  where
    cleared_when :
        (b : Bool)
        → let p = v.heap.peers q in
          let x = if b then local f v.heap.sessions p else p in
          (arrival x.queue ≡ arrival p.queue) ⊎ (arrival x.queue ≡ [])
    cleared_when true =
        clears (v.heap.sessions (v.heap.peers q).game_session).config (v.heap.peers q)
    cleared_when false = inl refl

pub notify_host-Appended :
    (s q : ℕ) (m : MessageDto) (h : Heap)
    → Appended m (h.peers q).queue ((notify_host s m h).peers q).queue
unfolding notify_host
notify_host-Appended s q m h = elim (Option-cases (h.sessions s).host) [
  | inl gone ↦ rw (gone, notify_host) (inr refl)
  | inr (host, there) ↦ rw (there, notify_host) (queue_to-Appended host q m h)
]
