-- ===== src/Game/Silence.antt =====
-- Rounds of the pinger of src/game/Game.cpp as one peer meets them, with nothing else going on.
pub mod Rounds
use helicopter.Base.{
  ℕ, zero, suc, ◌+◌, ◌^◌, ◌<◌, ◌≤◌, ◌==◌, ◌≡◌, ◌≢◌, refl, sym, ap, ◌∙◌, Bool, true, false, Option,
  none, some, List, [], ◌∷◌, All, arith, count, IsDistinct, count-le_one, length, ltb,
  if◌then◌else◌, ==_iff, Bool-cases, inl, inr, iterate, for_each, update, Str,
}
use helicopter.Word.{Int64}
use helicopter.Config.{GameConfigDto}
use helicopter.Dict.{Dict, values, is_empty}
use helicopter.Peer.{Peer, Effect, check_pings_rules, ping}
use helicopter.Peer.Pings.{checks, Missed, checks-Missed}
use helicopter.Session.{Session}
use helicopter.Heap.{Heap, on_peer}
use helicopter.Heap.Loops.{
  IsFrame, IsFrame-refl, IsFrame-trans, IsLocal, local, on_peer-IsLocal, for_each-IsFrame,
  for_each-peers, iterate_once,
}
use helicopter.Members.{get_all_peers, check_all_peers_pings, ping_all_peers}
use helicopter.Game.{pinger_act}
use helicopter.Game.Silence.Rounds.{IsAlone, IsRound, pinger_act-IsRound}

-- Some acts of the pinger one after another, each at its times.
unfoldable pub acts : ℕ → List (ℕ → Int64) → Heap → Heap
acts g [] h = h
acts g (now ∷ nows) h = acts g nows (pinger_act now g h).1

-- The timestamps that the acts look for: that of the ping before each.
unfoldable pub awaited : ℕ → Int64 → List (ℕ → Int64) → List Int64
awaited s current [] = []
awaited s current (now ∷ nows) = current ∷ awaited s (now s) nows

-- For a peer that is in one session of a game, acts of the game's pinger are so many looks at its last
-- pong.
acts-checks :
    (g s r : ℕ) (nows : List (ℕ → Int64)) (h : Heap)
    → IsAlone g s r h
    → (acts g nows h).peers r
      ≡ checks
          (h.sessions s).config
          (awaited s (h.sessions s).ping_current_timestamp nows)
          (h.peers r)
unfolding acts checks awaited
acts-checks g s r [] h a = refl
acts-checks g s r (now ∷ nows) h a =
    let k = (pinger_act now g h).1 in
    let round = pinger_act-IsRound now g s r h a in
    acts-checks g s r nows k round.alone ∙ rw (round.peer, round.stamp, round.config) refl

length-awaited :
    (s : ℕ) (current : Int64) (nows : List (ℕ → Int64))
    → length (awaited s current nows) ≡ length nows
unfolding awaited
length-awaited s current [] = refl
length-awaited s current (now ∷ nows) = omega (arith, length-awaited s (now s) nows)

-- A peer that stays silent is dropped: once the pinger has acted so often that the failed pings reach
-- the limit of the session's config, the peer has no socket; before that it keeps its socket. The
-- first act counts against the peer the ping before it, also one sent before the peer joined.
pub acts-Missed :
    (g s r : ℕ) (now : ℕ → Int64) (nows : List (ℕ → Int64)) (h : Heap)
    → IsAlone g s r h
    → All (Missed (h.peers r)) (awaited s (h.sessions s).ping_current_timestamp (now ∷ nows))
    → (h.peers r).failed_pings + length (now ∷ nows) < 2 ^ 64
    → ((acts g (now ∷ nows) h).peers r).socket ≡ (
        if ltb
          ((h.peers r).failed_pings + length (now ∷ nows))
          (h.sessions s).config.max_failed_pings
        then (h.peers r).socket
        else none)
unfolding awaited
acts-Missed g s r now nows h a missed room =
    let current = (h.sessions s).ping_current_timestamp in
    let n = length-awaited s (now s) nows in
    ap (λ (p : Peer). p.socket) (acts-checks g s r (now ∷ nows) h a)
    ∙ (checks-Missed (h.sessions s).config current (awaited s (now s) nows) (h.peers r) missed
        (omega (arith, n))).1
    ∙ rw n refl
