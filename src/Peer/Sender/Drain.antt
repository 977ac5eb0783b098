-- ===== src/Peer/Sender/Drain.antt =====
-- The sender of src/game/Peer.cpp ends: a running sender that is left alone empties the queue.
use mathlib.Core.List.{append_assoc, append-nil}
use helicopter.Base.{
  ℕ, zero, suc, ◌≡◌, refl, ap, ◌∙◌, inl, inr, false, some, List, [], ◌∷◌, ◌++◌, arith, length,
}
use helicopter.Config.{GameConfigDto}
use helicopter.Dto.{MessageDto}
use helicopter.Peer.{MessageQueue, sender_act, pop_back}
use helicopter.Peer.Queue.{arrival, sender_act-cases}
use helicopter.Peer.Sender.{Line, Event, act, step, run}

abbrev pub acts : ℕ → List Event
acts zero = []
acts (suc n) = act ∷ acts n

-- The line after the sender took everything and finished.
abbrev pub drained : Line → Line
drained l = record l {
  peer = record (l.peer) { queue = record { items = []; active = false } };
  running = 0;
  taken = l.taken ++ arrival l.peer.queue;
}

step-act_last :
    (c : GameConfigDto) (l : Line)
    → l.running ≡ 1
    → l.peer.queue.items ≡ []
    → step c act l ≡ drained l
unfolding step sender_act pop_back
step-act_last c l one e = rw (one, e, append-nil l.taken) refl

-- One round with a message waiting: it is taken, and the same end is ahead.
step-act_more :
    (c : GameConfigDto) (l : Line) (rest : MessageQueue) (m : MessageDto)
    → l.running ≡ 1
    → sender_act l.peer.queue ≡ (some m, rest)
    → arrival l.peer.queue ≡ m ∷ arrival rest
    → ((step c act l).running ≡ 1)
      × ((step c act l).peer.queue ≡ rest)
      × (drained (step c act l) ≡ drained l)
unfolding step
step-act_more c l rest m one p a = (
  rw (one, p) refl,
  rw (one, p) refl,
  rw (one, p, a, append_assoc l.taken (m ∷ []) (arrival rest)) refl,
)

drain :
    (c : GameConfigDto) (n : ℕ) (l : Line)
    → l.running ≡ 1
    → length l.peer.queue.items ≡ n
    → run c (acts (suc n)) l ≡ drained l
unfolding run
drain c zero l one e = elim (sender_act-cases l.peer.queue) [
  | inl (empty, _) ↦ step-act_last c l one empty
  | inr (_, _, _, _, _, shorter) ↦ absurd (omega arith)
]
drain c (suc n) l one e = elim (sender_act-cases l.peer.queue) [
  | inl (empty, _) ↦ absurd (omega (arith, ap length empty))
  | inr (rest, m, p, a, _, shorter) ↦
      (let (one', q, same) = step-act_more c l rest m one p a in
        drain c n (step c act l) one' (rw q (omega arith)) ∙ same)
]

-- A sender that runs alone takes every waiting message, in order, and finishes: one round for each
-- message and one to find the queue empty. The queue is then inactive.
pub run-drained :
    (c : GameConfigDto) (l : Line)
    → l.running ≡ 1
    → run c (acts (suc (length l.peer.queue.items))) l ≡ drained l
run-drained c l one = drain c (length l.peer.queue.items) l one refl
