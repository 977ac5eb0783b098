-- ===== src/Server/Delivery/Started.antt =====
-- The sender coroutines that a loop of src/game/Peer.cpp over peers starts, as one peer meets them.
use helicopter.Base.{
  ℕ, ◌==◌, ◌≡◌, ◌≢◌, refl, ap, ◌∙◌, true, false, some, List, [], ◌∷◌, ◌++◌, map, inl, inr, count,
  arith, nat_eq, Bool-cases, ==_iff, if◌then◌else◌, for_each,
}
use helicopter.Word.{Int64}
use helicopter.Dto.{MessageDto}
use helicopter.Peer.{Peer, Effect, start_sender}
use helicopter.Members.Events.Seen.{queued-eq_room}
use helicopter.Session.{Session}
use helicopter.Heap.{Heap, of_peer, on_peer, queue_to, queued, session_of}
use helicopter.Heap.Loops.{unless_sender-IsLocal, queue_to-IsLocal}
use helicopter.Members.Events.Complete.{has_room}
use helicopter.Handlers.{unless_sender}
use helicopter.Server.Apart.{effects_of, effects_of-append, on_peer-effects_of}

pub effects_of-own : (q : ℕ) (fx : List Effect) → effects_of q (map (of_peer q) fx) ≡ fx
unfolding effects_of
effects_of-own q [] = refl
effects_of-own q (e ∷ fx) = rw ((==_iff q q).1 refl, effects_of-own q fx) refl

-- What the queueing of a message hands to the executor.
abbrev asked : MessageDto → (ℕ → Session) → Peer → List Effect
asked m sessions p = (queued m (sessions p.game_session).config p).1

abbrev started : MessageDto → ℕ → Heap → List Effect
started m q h = asked m h.sessions (h.peers q)

queue_to-started :
    (m : MessageDto) (q : ℕ) (h : Heap)
    → effects_of q (queue_to q m h).effects ≡ effects_of q h.effects ++ started m q h
unfolding queue_to on_peer
queue_to-started m q h =
    effects_of-append q h.effects _ ∙ rw (effects_of-own q (started m q h)) refl

queue_to-quiet :
    (m : MessageDto) (r q : ℕ) (h : Heap)
    → (r == q) ≡ false
    → effects_of q (queue_to r m h).effects ≡ effects_of q h.effects
unfolding queue_to
queue_to-quiet m r q h other = on_peer-effects_of (queued m) r q h other

module _ (sender : Int64) (m : MessageDto) (q : ℕ) where
  abbrev round : ℕ → Heap → Heap
  round = unless_sender sender (λ r. queue_to r m)

  round-quiet :
      (r : ℕ) (h : Heap)
      → (r == q) ≡ false
      → effects_of q (round r h).effects ≡ effects_of q h.effects
  unfolding unless_sender
  round-quiet r h other = elim (Bool-cases ((h.peers r).peer_id == sender)) [
    | inl self ↦ rw self refl
    | inr apart ↦ rw apart (queue_to-quiet m r q h other)
  ]

  for_each-quiet :
      (rs : List ℕ) (h : Heap)
      → count q rs ≡ 0
      → effects_of q (for_each rs round h).effects ≡ effects_of q h.effects
  unfolding for_each
  for_each-quiet [] h e = refl
  for_each-quiet (r ∷ rs) h e = elim (Bool-cases (r == q)) [
    | inl own ↦ absurd (ground (arith, own, e))
    | inr other ↦ for_each-quiet rs (round r h) (ground (arith, other, e)) ∙ round-quiet r h other
  ]

  round-started :
      (h : Heap)
      → (h.peers q).peer_id ≢ sender
      → effects_of q (round q h).effects ≡ effects_of q h.effects ++ started m q h
  unfolding unless_sender
  round-started h other = elim (Bool-cases ((h.peers q).peer_id == sender)) [
    | inl self ↦ absurd (other ((==_iff _ _).0 self))
    | inr apart ↦ rw apart (queue_to-started m q h)
  ]

  round-same :
      (r : ℕ) (h : Heap)
      → (r == q) ≡ false
      → ((round r h).peers q ≡ h.peers q) × ((round r h).sessions ≡ h.sessions)
  round-same r h other =
      let b = unless_sender-IsLocal _ _ sender (queue_to-IsLocal m) in
      (b.peers r q h ∙ rw other refl, (b.frame r h).sessions)

  -- A loop that comes to the peer once hands over for it what the queueing of the message does.
  pub for_each-started :
      (rs : List ℕ) (h : Heap)
      → count q rs ≡ 1
      → (h.peers q).peer_id ≢ sender
      → effects_of q (for_each rs round h).effects ≡ effects_of q h.effects ++ started m q h
  unfolding for_each
  for_each-started [] h e other = absurd (omega (arith, e))
  for_each-started (r ∷ rs) h e other = elim (Bool-cases (r == q)) [
    | inl own ↦
        rw ((==_iff r q).0 own)
          (for_each-quiet rs (round q h) (ground (arith, own, e)) ∙ round-started h other)
    | inr apart ↦
        (let (peer, sessions) = round-same r h apart in
          for_each-started rs (round r h) (ground (arith, apart, e)) (rw peer other)
          ∙ (λ i. round-quiet r h apart i ++ asked m (sessions i) (peer i)))
  ]

-- One sender, unless the queue has one.
pub started-room :
    (m : MessageDto) (q socket : ℕ) (h : Heap)
    → has_room q h ≡ true
    → (h.peers q).socket ≡ some socket
    → started m q h ≡ (if (h.peers q).queue.active then [] else start_sender socket ∷ [])
unfolding has_room
started-room m q socket h room there =
    ap (λ r. r.2) (queued-eq_room (session_of h q).config m (h.peers q) room)
    ∙ ground (arith, there)

pub queue_to-started_room :
    (m : MessageDto) (q socket : ℕ) (h : Heap)
    → has_room q h ≡ true
    → (h.peers q).socket ≡ some socket
    → effects_of q (queue_to q m h).effects
      ≡ effects_of q h.effects
        ++ (if (h.peers q).queue.active then [] else start_sender socket ∷ [])
queue_to-started_room m q socket h room there =
    queue_to-started m q h ∙ rw (started-room m q socket h room there) refl

pub for_each-started_room :
    (sender : Int64) (m : MessageDto) (q : ℕ) (rs : List ℕ) (h : Heap) {socket : ℕ}
    → count q rs ≡ 1
    → (h.peers q).peer_id ≢ sender
    → has_room q h ≡ true
    → (h.peers q).socket ≡ some socket
    → effects_of q (for_each rs (unless_sender sender (λ r. queue_to r m)) h).effects
      ≡ effects_of q h.effects
        ++ (if (h.peers q).queue.active then [] else start_sender socket ∷ [])
for_each-started_room sender m q rs h {socket} once other room there =
    for_each-started sender m q rs h once other ∙ rw (started-room m q socket h room there) refl
