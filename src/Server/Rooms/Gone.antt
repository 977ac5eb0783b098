-- ===== src/Server/Rooms/Gone.antt =====
-- Peers whose socket is destroyed, by the registry of src/game/, and their sessions.
use helicopter.Base.{
  ℕ, ◌^◌, ◌<◌, ◌≡◌, refl, ap, ◌∙◌, none, some, inl, inr, Option-cases, arith, nat_eq, str_eq_inst,
}
use helicopter.Dict.{Dict, find, find-erase_self}
use helicopter.Config.{Games}
use helicopter.Heap.{Heap}
use helicopter.App.{start_server}
use helicopter.Registry.{on_before_destroy}
use helicopter.Registry.Closing.{on_before_destroy_lem}
use helicopter.Reading.{Mapper}
use helicopter.Server.{Reach, here, next}
use helicopter.Server.Invariant.{IsGood}
use helicopter.Server.Trace.Same.{IsSamePeer, Step-IsSamePeer}
use helicopter.Server.Methods.{server-IsGood, Reach-trans, on_before_destroy-Reach}
use helicopter.Server.Rooms.Refines.{server-IsGone, Reach-next_peer}

-- Right after the destruction of a peer's socket, the peer is not in its session.
on_before_destroy-empty :
    (socket r : ℕ) (h : Heap)
    → IsGood h
    → h.listeners socket ≡ some r
    → let s = (h.peers r).game_session in
      find (h.peers r).peer_id ((on_before_destroy socket h).1.sessions s).peers ≡ none
on_before_destroy-empty socket r h i listens =
    let s = (h.peers r).game_session in
    let known = i.known s (i.placed r (i.listening socket r listens)) in
    elim (Option-cases (find (h.sessions s).config.game_id h.games_by_id)) [
      | inl missing ↦ absurd (known missing)
      | inr (g, there) ↦
          (let gone = (on_before_destroy_lem socket r g h listens there).1 in
            ap (λ (d : Dict ℕ ℕ). find (h.peers r).peer_id d) gone.peers
            ∙ find-erase_self (h.peers r).peer_id (h.sessions s).peers)
    ]

Reach-IsSamePeer :
    {mapper : Mapper} {h k : Heap} (q : ℕ) → Reach mapper h k → q < h.next_peer → IsSamePeer q h k
Reach-IsSamePeer q here lt = (refl, refl)
Reach-IsSamePeer q (next r step) lt =
    let (session, id) = Reach-IsSamePeer q r lt in
    let (session', id') = Step-IsSamePeer q step (omega (arith, lt, Reach-next_peer r)) in
    (session' ∙ session, id' ∙ id)

-- Once the destruction of a peer's socket is through, the peer's id is not in its session, and never is
-- again, whatever the server does then, as long as fewer than 2 ^ 64 peers have joined.
pub on_before_destroy-IsGone :
    (mapper : Mapper) (games : Games) (socket r : ℕ) {h l : Heap}
    → Reach mapper (start_server games) h
    → h.next_peer < 2 ^ 64
    → h.listeners socket ≡ some r
    → Reach mapper (on_before_destroy socket h).1 l
    → l.next_peer < 2 ^ 64
    → find (h.peers r).peer_id (l.sessions (h.peers r).game_session).peers ≡ none
on_before_destroy-IsGone mapper games socket r {h} {l} reach less listens after room =
    let k = (on_before_destroy socket h).1 in
    let i = server-IsGood mapper games reach less in
    let through = (on_before_destroy-Reach mapper socket h i).1 in
    let known = i.listening socket r listens in
    let (session, id) = Reach-IsSamePeer r through known in
    let there : r < k.next_peer = omega (arith, known, Reach-next_peer through) in
    let fits : k.next_peer < 2 ^ 64 = omega (arith, room, Reach-next_peer after) in
    let j = server-IsGood mapper games (Reach-trans reach through) fits in
    server-IsGone mapper games (h.peers r).game_session (h.peers r).peer_id
      (Reach-trans reach through) after room (rw session at (j.placed r there))
      (rw (session, id) at (j.issued r there)) (on_before_destroy-empty socket r h i listens)
