-- ===== src/Peer/Sender/Order.antt =====
-- The order in which the sender of src/game/Peer.cpp takes messages off the queue.
use mathlib.Core.List.{Sublist, nil-sublist, append_assoc, append-nil, reverse-cons}
use mathlib.Core.List.Sublist
use helicopter.Base.{
  ◌≡◌, refl, sym, inl, inr, List, [], ◌∷◌, ◌++◌, ltb, length, Bool-cases, ◌==◌, All,
}
use helicopter.Config.{GameConfigDto}
use helicopter.Dto.{MessageDto}
use helicopter.Peer.{invalidate_socket}
use helicopter.Peer.Queue.{arrival, queue_message-eq, sender_act-cases}
use helicopter.Peer.Sender.{Line, Event, enqueue, act, drop, step, run}

-- The messages that went through or still wait, in order.
abbrev pub passed : Line → List MessageDto
passed l = l.taken ++ arrival l.peer.queue

-- Queueing appends to both logs, or to neither.
enqueue-passed :
    (c : GameConfigDto) (m : MessageDto) (l : Line)
    → (added : List MessageDto) × (passed (step c (enqueue m) l) ≡ passed l ++ added)
      × ((step c (enqueue m) l).accepted ≡ l.accepted ++ added)
unfolding step
enqueue-passed c m l = elim (Bool-cases (ltb (length l.peer.queue.items) c.max_queued_messages)) [
  | inl room ↦ (
    m ∷ [],
    rw (queue_message-eq c m l.peer, room, reverse-cons m l.peer.queue.items)
        (sym (append_assoc l.taken (arrival l.peer.queue) (m ∷ []))),
    rw (queue_message-eq c m l.peer, room),
  )
  | inr full ↦ (
    [],
    rw (queue_message-eq c m l.peer, full) (sym (append-nil _)),
    rw (queue_message-eq c m l.peer, full) (sym (append-nil _)),
  )
]

act-passed :
    (c : GameConfigDto) (l : Line)
    → (passed (step c act l) ≡ passed l) × ((step c act l).accepted ≡ l.accepted)
unfolding step
act-passed c l = elim (Bool-cases (l.running == 0)) [
  | inl stopped ↦ (rw stopped refl, rw stopped refl)
  | inr going ↦ elim (sender_act-cases l.peer.queue) [
    | inl (e, p) ↦ (rw (going, p, e) refl, rw (going, p) refl)
    | inr (rest, m, p, a, _, _) ↦
        (rw (going, p, a) (append_assoc l.taken (m ∷ []) (arrival rest)), rw (going, p) refl)
  ]
]

drop-in_order :
    (c : GameConfigDto) (l : Line)
    → Sublist (passed l) l.accepted
    → Sublist (passed (step c drop l)) (step c drop l).accepted
unfolding step invalidate_socket
drop-in_order c l s =
    Sublist.trans (Sublist.append (Sublist.refl l.taken) (nil-sublist (arrival l.peer.queue))) s

step-in_order :
    (c : GameConfigDto) (e : Event) (l : Line)
    → Sublist (passed l) l.accepted
    → Sublist (passed (step c e l)) (step c e l).accepted
step-in_order c (enqueue m) l s =
    let (added, p, a) = enqueue-passed c m l in rw (p, a) (Sublist.append s (Sublist.refl added))
step-in_order c act l s = let (p, a) = act-passed c l in rw (p, a) s
step-in_order c drop l s = drop-in_order c l s

-- Whatever the schedule: what the senders took, followed by what still waits, is a part of what the
-- queue accepted, in the order in which it was accepted and with nothing doubled.
run-in_order :
    (c : GameConfigDto) (es : List Event) (l : Line)
    → Sublist (passed l) l.accepted
    → Sublist (passed (run c es l)) (run c es l).accepted
unfolding run
run-in_order c [] l s = s
run-in_order c (e ∷ es) l s = run-in_order c es (step c e l) (step-in_order c e l s)

-- No event of the schedule invalidates the socket.
abbrev pub IsKept : Event → Type 0
IsKept (enqueue m) = Unit {0}
IsKept act = Unit {0}
IsKept drop = ⊥

step-nothing_lost :
    (c : GameConfigDto) (e : Event) (l : Line)
    → IsKept e
    → passed l ≡ l.accepted
    → passed (step c e l) ≡ (step c e l).accepted
step-nothing_lost c (enqueue m) l k s =
    let (added, p, a) = enqueue-passed c m l in rw (p, a, s) refl
step-nothing_lost c act l k s = let (p, a) = act-passed c l in rw (p, a) s
step-nothing_lost c drop l k s = absurd k

-- While the socket is not invalidated, every accepted message was taken or still waits, in order.
pub run-nothing_lost :
    (c : GameConfigDto) (es : List Event) (l : Line)
    → All IsKept es
    → passed l ≡ l.accepted
    → passed (run c es l) ≡ (run c es l).accepted
unfolding run
run-nothing_lost c [] l k s = s
run-nothing_lost c (e ∷ es) l k s =
    run-nothing_lost c es (step c e l) k.1 (step-nothing_lost c e l k.0 s)
