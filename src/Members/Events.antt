-- ===== src/Members/Events.antt =====
-- Synchronized events of src/game/Session.cpp: one broadcast. Many of them, in between other traffic,
-- are in the children.
pub mod Flow
pub mod Good
pub mod Quiet
pub mod Seen
pub mod Order
pub mod Complete
pub mod Numbers
use mathlib.Core.List.{Sublist, append_assoc, append-nil, reverse-cons, sublist-append_left}
use mathlib.Core.List.Sublist
use helicopter.Base.{
  ℕ, ◌+◌, ◌≡◌, refl, sym, ap, ◌∙◌, Bool, true, false, Option, none, some, List, [], ◌∷◌, ◌++◌,
  arith, Str, ◌==◌, if◌then◌else◌, count, IsDistinct, count-le_one, update, ltb, length, ◌⊎◌, inl,
  inr, Bool-cases, ==_iff, iterate,
}
use mathlib.Core.Path.{subst}
use helicopter.Config.{GameConfigDto}
use helicopter.Word.{Int64, inc}
use helicopter.Dto.{MessageDto, MessageCodes, outgoing_synchronized_event}
use helicopter.Peer.{Effect, MessageQueue, Peer, sender_act, queue_message}
use helicopter.Peer.Queue.{arrival, enqueued, woken, queue_message-eq, sender_act-cases}
use helicopter.Session.{Session}
use helicopter.Heap.{Heap, queue_to, queued, session_of}
use helicopter.Heap.Loops.{
  IsFrame, local, for_each-IsFrame, for_each-peers, queue_to-IsLocal, iterate_once,
}
use helicopter.Dict.{values}
use helicopter.Members.{broadcast_synchronized_event, event_message, set_session, get_all_peers}

unfoldable pub is_event : MessageDto → Bool
is_event m = elim m.code [
  | none ↦ false
  | some c ↦ elim c [ outgoing_synchronized_event ↦ true | _ ↦ false ]
]

-- The session once it has given out an event number.
abbrev pub numbered : ℕ → Heap → Heap
numbered s h =
    let v = h.sessions s in
    set_session s (record v { synchronized_event_id = inc v.synchronized_event_id }) h

abbrev pub next_event : ℕ → Int64 → Str → Heap → MessageDto
next_event s sender text h = event_message (h.sessions s).synchronized_event_id sender text

config-numbered : (s t : ℕ) (h : Heap) → ((numbered s h).sessions t).config ≡ (h.sessions t).config
config-numbered s t h = ground arith

same_config :
    (s : ℕ) (m : MessageDto) (h : Heap) (p : Peer)
    → local (queued m) (numbered s h).sessions p ≡ local (queued m) h.sessions p
same_config s m h p = ap (λ c. (queue_message c (some m) p).1) (config-numbered s p.game_session h)

pub numbered-members : (s : ℕ) (h : Heap) → get_all_peers s (numbered s h) ≡ get_all_peers s h
numbered-members s h = ap values same
  where
    same : ((numbered s h).sessions s).peers ≡ (h.sessions s).peers
    same = ground arith

pub numbered-counter :
    (s : ℕ) (h : Heap)
    → ((numbered s h).sessions s).synchronized_event_id ≡ inc (h.sessions s).synchronized_event_id
numbered-counter s h = ground arith

pub broadcast_synchronized_event-IsFrame :
    (s : ℕ) (sender : Int64) (text : Str) (h : Heap)
    → IsFrame (numbered s h) (broadcast_synchronized_event s sender text h)
unfolding broadcast_synchronized_event
broadcast_synchronized_event-IsFrame s sender text h =
    for_each-IsFrame _ _ (queue_to-IsLocal (next_event s sender text h)) (get_all_peers s h)
      (numbered s h)

-- An event goes to every member of the session once, the sender included, if the member's queue has
-- room; no other peer is touched. Of the rest only the session's event number moves on.
pub broadcast_synchronized_event_lem :
    (s q : ℕ) (sender : Int64) (text : Str) (h : Heap)
    → IsDistinct (get_all_peers s h)
    → let k = broadcast_synchronized_event s sender text h in
      IsFrame (numbered s h) k
      × (k.peers q ≡ (
          if count q (get_all_peers s h) == 0
          then h.peers q
          else local (queued (next_event s sender text h)) h.sessions (h.peers q)))
unfolding broadcast_synchronized_event
broadcast_synchronized_event_lem s q sender text h d =
    let m = next_event s sender text h in
    let b = queue_to-IsLocal m in
    let members = get_all_peers s h in
    (
      for_each-IsFrame _ _ b members (numbered s h),
      for_each-peers _ _ b members q (numbered s h)
          ∙ iterate_once (count q members) _ _ (count-le_one q members d)
          ∙ rw (same_config s m h (h.peers q)) refl,
    )
