-- ===== src/Server/Invariant.antt =====
-- The invariant of the server in src/game/: sessions, games and peers refer to one another as they
-- should, and queues are within their bounds.
use helicopter.Base.{ℕ, ◌≤◌, ◌<◌, ◌≡◌, ◌≢◌, ◌∙◌, none, some, arith, Str, nat_eq, str_eq_inst}
use helicopter.Word.{Int64}
use helicopter.Dict.{find}
use helicopter.Peer.{Peer}
use helicopter.Session.{Session}
use helicopter.Heap.{Heap}
use helicopter.Members.Joining.{IsWell, IsWellIn, IsWell-SameIds}
use helicopter.Server.Core.{IsCore, IsSameSession, Fits}

-- A game is registered under the id.
abbrev pub HasGame : Heap → Str → Type 0
HasGame h id = find id h.games_by_id ≢ none

pub record IsGood (h : Heap) : Type 0 where
  pub well : (s : ℕ) → s < h.next_session → IsWellIn s h
  pub members :
      (s r : ℕ) (id : Int64)
      → s < h.next_session
      → find id (h.sessions s).peers ≡ some r
      → (h.peers r).game_session ≡ s
  pub fits : (q : ℕ) → q < h.next_peer → Fits h q
  pub placed : (q : ℕ) → q < h.next_peer → (h.peers q).game_session < h.next_session
  pub counted : (s : ℕ) → s < h.next_session → (h.sessions s).peer_id_counter ≤ h.next_peer
  pub issued :
      (q : ℕ)
      → q < h.next_peer
      → (h.peers q).peer_id < (h.sessions (h.peers q).game_session).peer_id_counter
  pub unique :
      (q r : ℕ)
      → q < h.next_peer
      → r < h.next_peer
      → (h.peers q).game_session ≡ (h.peers r).game_session
      → (h.peers q).peer_id ≡ (h.peers r).peer_id
      → q ≡ r
  pub known : (s : ℕ) → s < h.next_session → HasGame h (h.sessions s).config.game_id
  pub listed : (g : ℕ) → g < h.next_game → HasGame h (h.games g).config.game_id
  pub registered : (id : Str) (g : ℕ) → find id h.games_by_id ≡ some g → g < h.next_game
  pub found :
      (g s : ℕ) (id : Str)
      → g < h.next_game
      → find id (h.games g).sessions ≡ some s
      → (s < h.next_session) × ((h.sessions s).id ≡ id)
  pub listening : (socket r : ℕ) → h.listeners socket ≡ some r → r < h.next_peer

IsWell-IsSameSession :
    {peers : ℕ → Peer} {n : ℕ} {v w : Session}
    → IsSameSession v w
    → IsWell peers n v
    → IsWell peers n w
IsWell-IsSameSession same w = record {
  named = rw same.peers w.named;
  below = rw (same.peers, same.peer_id_counter) w.below;
  host_in = rw (same.peers, same.host) w.host_in;
}

pub IsCore-IsGood : {h k : Heap} → IsCore h k → IsGood h → IsGood k
IsCore-IsGood {h} {k} core i = record {
  well = λ s lt.
      IsWell-SameIds h.peers k.peers h.next_peer k.next_peer (k.sessions s) (λ q l. core.peer_id q)
        (omega (arith, core.next_peer))
        (IsWell-IsSameSession (core.sessions s) (i.well s (rw core.next_session at lt)));
  members = λ s r id lt e.
      core.game_session r
      ∙ i.members s r id (rw core.next_session at lt) (rw (core.sessions s).peers at e);
  fits = λ q lt. core.fits q (i.fits q (rw core.next_peer at lt));
  placed =
      λ q lt. rw (core.game_session q, core.next_session) (i.placed q (rw core.next_peer at lt));
  counted = λ s lt.
      rw ((core.sessions s).peer_id_counter, core.next_peer)
        (i.counted s (rw core.next_session at lt));
  issued = λ q lt.
      rw
        (
          core.peer_id q,
          core.game_session q,
          (core.sessions (h.peers q).game_session).peer_id_counter,
        )
        (i.issued q (rw core.next_peer at lt));
  unique = λ q r l m e f.
      i.unique q r (rw core.next_peer at l) (rw core.next_peer at m)
        (rw (core.game_session q, core.game_session r) at e)
        (rw (core.peer_id q, core.peer_id r) at f);
  known = λ s lt.
      rw ((core.sessions s).config, core.games_by_id) (i.known s (rw core.next_session at lt));
  listed = λ g lt. rw (core.game_config g, core.games_by_id) (i.listed g (rw core.next_game at lt));
  registered = λ id g e. rw core.next_game (i.registered id g (rw core.games_by_id at e));
  found = λ g s id lt e.
      rw (core.next_session, (core.sessions s).id)
        (i.found g s id (rw core.next_game at lt) (rw (core.game_sessions g) at e));
  listening = λ socket r e. rw core.next_peer (i.listening socket r (rw core.listeners at e));
}
