-- ===== src/Peer/Queue.antt =====
-- The message queue of src/game/Peer.cpp as a first-in first-out queue with a bound.
use mathlib.Core.List.{reverse, reverse-append}
use helicopter.Base.{
  ℕ, suc, ◌+◌, ◌≡◌, refl, ap, ◌⊎◌, inl, inr, true, false, none, some, List, [], ◌∷◌, ◌++◌, length,
  length-append, arith, ltb, if◌then◌else◌,
}
use helicopter.Config.{GameConfigDto}
use helicopter.Dto.{MessageDto}
use helicopter.Peer.{
  Peer, MessageQueue, Effect, start_sender, activate, queue_message, pop_back, sender_act,
}

-- The queued messages, oldest first.
abbrev pub arrival : MessageQueue → List MessageDto
arrival q = reverse q.items

-- How many sender coroutines a list of effects starts.
abbrev pub senders : List Effect → ℕ
senders [] = 0
senders (start_sender s ∷ fx) = suc (senders fx)
senders (_ ∷ fx) = senders fx

-- The peer once it has taken a message, and the sender that this starts.
abbrev pub enqueued : MessageDto → Peer → Peer
enqueued m p = record p { queue = record { items = m ∷ p.queue.items; active = true } }

abbrev pub woken : Peer → List Effect
woken p = if p.queue.active then [] else elim p.socket [ none ↦ [] | some s ↦ start_sender s ∷ [] ]

pub activate-eq :
    (m : MessageDto) (p : Peer)
    → activate (record p { queue = record { items = m ∷ p.queue.items; active = p.queue.active } })
      ≡ (enqueued m p, woken p)
unfolding activate
activate-eq m p = ground arith

pub queue_message-eq :
    (c : GameConfigDto) (m : MessageDto) (p : Peer)
    → queue_message c (some m) p ≡ (
        if ltb (length p.queue.items) c.max_queued_messages
        then (true, enqueued m p, woken p)
        else (false, p, []))
unfolding queue_message
queue_message-eq c m p = ground (arith, activate-eq m p)

pub pop_back-cases :
    (ms : List MessageDto)
    → ((ms ≡ []) × (pop_back ms ≡ none))
      ⊎ ((rest : List MessageDto) × (last : MessageDto) × (ms ≡ rest ++ last ∷ [])
          × (pop_back ms ≡ some (rest, last)))
unfolding pop_back
pop_back-cases [] = inl (refl, refl)
pop_back-cases (m ∷ ms) = elim (pop_back-cases ms) [
  | inl (e, p) ↦ inr ([], m, ap (◌∷◌ m) e, rw p)
  | inr (rest, last, e, p) ↦ inr (m ∷ rest, last, ap (◌∷◌ m) e, rw p)
]

-- The sender takes the oldest message, or finds none and goes inactive.
pub sender_act-cases :
    (q : MessageQueue)
    → ((q.items ≡ []) × (sender_act q ≡ (none, record { items = []; active = false })))
      ⊎ ((rest : MessageQueue) × (m : MessageDto) × (sender_act q ≡ (some m, rest))
          × (arrival q ≡ m ∷ arrival rest)
          × (rest.active ≡ q.active)
          × (length q.items ≡ length rest.items + 1))
unfolding sender_act
sender_act-cases q = elim (pop_back-cases q.items) [
  | inl (e, p) ↦ inl (e, rw (p, sender_act) (rw e refl))
  | inr (rest, last, e, p) ↦ inr (
    record { items = rest; active = q.active },
    last,
    rw (p, sender_act) refl,
    rw (e, reverse-append rest (last ∷ [])) refl,
    refl,
    rw (e, length-append rest (last ∷ [])) refl,
  )
]
