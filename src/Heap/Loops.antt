-- ===== src/Heap/Loops.antt =====
-- Loops over peers: a body that works on one peer at a time changes each peer as often as it stands
-- in the list, whatever the order, and nothing but peers and effects.
use helicopter.Base.{
  ℕ, zero, suc, ◌≤◌, ◌==◌, ◌≡◌, refl, ◌∙◌, List, [], ◌∷◌, arith, if◌then◌else◌, iterate, count,
  for_each,
}
use helicopter.Config.{GameConfigDto}
use helicopter.Peer.{Peer, Effect}
use helicopter.Session.{Session}
use helicopter.Heap.{Heap, on_peer, queue_to, queued}
use helicopter.Handlers.{unless_sender}
use helicopter.Dto.{MessageDto}

-- Only peers and effects differ.
pub record IsFrame (h k : Heap) : Type 0 where
  pub sessions : k.sessions ≡ h.sessions
  pub games : k.games ≡ h.games
  pub listeners : k.listeners ≡ h.listeners
  pub games_by_id : k.games_by_id ≡ h.games_by_id
  pub configs : k.configs ≡ h.configs
  pub next_peer : k.next_peer ≡ h.next_peer
  pub next_session : k.next_session ≡ h.next_session
  pub next_game : k.next_game ≡ h.next_game

pub IsFrame-refl : (h : Heap) → IsFrame h h
IsFrame-refl h = record {
  sessions = refl;
  games = refl;
  listeners = refl;
  games_by_id = refl;
  configs = refl;
  next_peer = refl;
  next_session = refl;
  next_game = refl;
}

pub IsFrame-trans : {h k l : Heap} → IsFrame h k → IsFrame k l → IsFrame h l
IsFrame-trans a b = record {
  sessions = b.sessions ∙ a.sessions;
  games = b.games ∙ a.games;
  listeners = b.listeners ∙ a.listeners;
  games_by_id = b.games_by_id ∙ a.games_by_id;
  configs = b.configs ∙ a.configs;
  next_peer = b.next_peer ∙ a.next_peer;
  next_session = b.next_session ∙ a.next_session;
  next_game = b.next_game ∙ a.next_game;
}

abbrev pub PeerUpdate : Type 0
PeerUpdate = (ℕ → Session) → Peer → Peer

-- The body changes peer `r` by `F`, and no other.
pub record IsLocal (body : ℕ → Heap → Heap) (F : PeerUpdate) : Type 0 where
  pub frame : (r : ℕ) (h : Heap) → IsFrame h (body r h)
  pub peers :
      (r q : ℕ) (h : Heap)
      → (body r h).peers q ≡ (if r == q then F h.sessions (h.peers q) else h.peers q)

-- What `on_peer f` does to its peer.
abbrev pub local : (GameConfigDto → Peer → Peer × List Effect) → PeerUpdate
local f sessions p = (f (sessions p.game_session).config p).0

abbrev pub guarded : ℕ → PeerUpdate → PeerUpdate
guarded sender F sessions p = if p.peer_id == sender then p else F sessions p

pub on_peer-IsFrame :
    (f : GameConfigDto → Peer → Peer × List Effect) (r : ℕ) (h : Heap) → IsFrame h (on_peer f r h)
unfolding on_peer
on_peer-IsFrame f r h = record {
  sessions = refl;
  games = refl;
  listeners = refl;
  games_by_id = refl;
  configs = refl;
  next_peer = refl;
  next_session = refl;
  next_game = refl;
}

pub on_peer-peers :
    (f : GameConfigDto → Peer → Peer × List Effect) (r q : ℕ) (h : Heap)
    → (on_peer f r h).peers q ≡ (if r == q then local f h.sessions (h.peers q) else h.peers q)
unfolding on_peer
on_peer-peers f r q h = ground arith

pub on_peer-IsLocal :
    (f : GameConfigDto → Peer → Peer × List Effect) → IsLocal (on_peer f) (local f)
on_peer-IsLocal f = record { frame = on_peer-IsFrame f; peers = on_peer-peers f }

pub queue_to-IsLocal : (m : MessageDto) → IsLocal (λ r. queue_to r m) (local (queued m))
unfolding queue_to
queue_to-IsLocal m = on_peer-IsLocal (queued m)

module _ (body : ℕ → Heap → Heap) (F : PeerUpdate) (b : IsLocal body F) where
  unless_sender-IsFrame : (sender r : ℕ) (h : Heap) → IsFrame h (unless_sender sender body r h)
  unfolding unless_sender
  unless_sender-IsFrame sender r h = ground (arith, b.frame r h, IsFrame-refl h)

  unless_sender-peers :
      (sender r q : ℕ) (h : Heap)
      → (unless_sender sender body r h).peers q
        ≡ (if r == q then guarded sender F h.sessions (h.peers q) else h.peers q)
  unfolding unless_sender
  unless_sender-peers sender r q h = ground (arith, b.peers r q h)

  pub for_each-IsFrame : (rs : List ℕ) (h : Heap) → IsFrame h (for_each rs body h)
  unfolding for_each
  for_each-IsFrame [] h = IsFrame-refl h
  for_each-IsFrame (r ∷ rs) h = IsFrame-trans (b.frame r h) (for_each-IsFrame rs (body r h))

  -- Each peer is changed as often as it is listed.
  pub for_each-peers :
      (rs : List ℕ) (q : ℕ) (h : Heap)
      → (for_each rs body h).peers q ≡ iterate (count q rs) (F h.sessions) (h.peers q)
  unfolding for_each
  for_each-peers [] q h = refl
  for_each-peers (r ∷ rs) q h =
      for_each-peers rs q (body r h) ∙ rw ((b.frame r h).sessions, b.peers r q h) (ground arith)

pub unless_sender-IsLocal :
    (body : ℕ → Heap → Heap) (F : PeerUpdate) (sender : ℕ)
    → IsLocal body F
    → IsLocal (unless_sender sender body) (guarded sender F)
unless_sender-IsLocal body F sender b = record {
  frame = unless_sender-IsFrame body F b sender;
  peers = unless_sender-peers body F b sender;
}

pub iterate_once {ℓ} :
    {A : Type ℓ} (n : ℕ) (f : A → A) (a : A) → n ≤ 1 → iterate n f a ≡ (if n == 0 then a else f a)
iterate_once zero f a h = refl
iterate_once (suc zero) f a h = refl
iterate_once (suc (suc n)) f a h = absurd (omega arith)
