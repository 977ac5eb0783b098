-- ===== src/Registry/Closing.antt =====
-- The end of sockets and of sessions in src/game/Registry.cpp.
use mathlib.Core.Path.{ap₂}
use helicopter.Base.{
  ℕ, ◌≡◌, ◌≢◌, refl, ap, ◌∙◌, Bool, true, false, Option, none, some, inl, inr, Bool-cases, arith,
  Str, if◌then◌else◌, ◌==◌, str_eq_inst, nat_eq,
}
use helicopter.Word.{Int64}
use helicopter.Dict.{find, erase, is_empty, find-erase_self}
use helicopter.Peer.{Peer, invalidate_socket}
use helicopter.Session.{Session}
use helicopter.Heap.{Game, Heap, on_peer}
use helicopter.Heap.Loops.{on_peer-peers}
use helicopter.Members.{remove_peer_by_id, is_host_peer}
use helicopter.Members.Joining.Steps.{left, remove_peer_by_id-IsQuiet, update_at}
use helicopter.Game.{delete_session}
use helicopter.Handlers.{Result, ok, fault, null_access}
use helicopter.Registry.{close_session, drop_peer, on_before_destroy}
use helicopter.Registry.Lookup.{get_game_by_id-known}

-- The game once a peer has left the session under the key `name`: without the session if nobody is left.
abbrev pub game_after : Bool → Str → Game → Game
game_after gone name v = if gone then record v { sessions = erase name v.sessions } else v

-- The peer of this id has left session `s` of game `g`: its entry is gone from the session, and the
-- session is gone from the game exactly if that was the last entry; no other game or session has
-- changed.
pub record IsDeparted (g s : ℕ) (id : Int64) (h k : Heap) : Type 0 where
  pub peers : (k.sessions s).peers ≡ erase id (h.sessions s).peers
  pub game :
      k.games g
      ≡ game_after (is_empty (erase id (h.sessions s).peers)) (h.sessions s).id (h.games g)
  pub others : (q : ℕ) → (q == g) ≡ false → k.games q ≡ h.games q
  pub sessions : (q : ℕ) → (q == s) ≡ false → k.sessions q ≡ h.sessions q

-- What `drop_peer` does after the socket was invalidated.
abbrev pub depart : ℕ → Int64 → Heap → Result (Unit {0}) × Heap
depart s id h =
    let (gone, k) = remove_peer_by_id s id h in if gone then close_session s k else (ok tt, k)

-- What `close_session` does with the result of the look-up.
close_in : Heap → ℕ → Option ℕ × Heap → Result (Unit {0}) × Heap
close_in h s (g, k) = elim g [
  | none ↦ (fault null_access, k)
  | some v ↦ (ok tt, delete_session v (h.sessions s).id k)
]

pub close_session-known :
    (s g : ℕ) (h : Heap)
    → find (h.sessions s).config.game_id h.games_by_id ≡ some g
    → close_session s h ≡ (ok tt, delete_session g (h.sessions s).id h)
unfolding close_session close_in
close_session-known s g h there =
    ap (close_in h s) (get_game_by_id-known (h.sessions s).config.game_id h there)

remove_peer_by_id-empty :
    (s : ℕ) (id : Int64) (h : Heap)
    → (remove_peer_by_id s id h).0 ≡ is_empty (erase id (h.sessions s).peers)
unfolding remove_peer_by_id
remove_peer_by_id-empty s id h = refl

-- The session that the peer has left, in the state after.
removed-session :
    (s : ℕ) (id : Int64) (h : Heap)
    → ((remove_peer_by_id s id h).1.sessions s) ≡ left id (is_host_peer s id h) (h.sessions s)
removed-session s id h =
    ap (λ (ss : ℕ → Session). ss s) (remove_peer_by_id-IsQuiet s id h).frame.sessions
    ∙ update_at h.sessions s _

removed-others :
    (s : ℕ) (id : Int64) (h : Heap) (q : ℕ)
    → (q == s) ≡ false
    → (remove_peer_by_id s id h).1.sessions q ≡ h.sessions q
removed-others s id h q e =
    ap (λ (ss : ℕ → Session). ss q) (remove_peer_by_id-IsQuiet s id h).frame.sessions ∙ ground arith

removed-known :
    (s g : ℕ) (id : Int64) (h : Heap)
    → find (h.sessions s).config.game_id h.games_by_id ≡ some g
    → let k = (remove_peer_by_id s id h).1 in
      find (k.sessions s).config.game_id k.games_by_id ≡ some g
removed-known s g id h there =
    rw (removed-session s id h, (remove_peer_by_id-IsQuiet s id h).frame.games_by_id) there

deleted-IsDeparted :
    (s g : ℕ) (id : Int64) (h : Heap)
    → is_empty (erase id (h.sessions s).peers) ≡ true
    → let k = (remove_peer_by_id s id h).1 in
      IsDeparted g s id h (delete_session g (k.sessions s).id k)
unfolding delete_session
deleted-IsDeparted s g id h empty =
    let games = (remove_peer_by_id-IsQuiet s id h).frame.games in
    record {
      peers = ap (λ (v : Session). v.peers) (removed-session s id h);
      game = rw (empty, removed-session s id h, games) (update_at h.games g _);
      others = λ q e. rw games (ground arith);
      sessions = removed-others s id h;
    }

kept-IsDeparted :
    (s g : ℕ) (id : Int64) (h : Heap)
    → is_empty (erase id (h.sessions s).peers) ≡ false
    → IsDeparted g s id h (remove_peer_by_id s id h).1
kept-IsDeparted s g id h some_left =
    let games = (remove_peer_by_id-IsQuiet s id h).frame.games in
    record {
      peers = ap (λ (v : Session). v.peers) (removed-session s id h);
      game = rw (some_left, games) refl;
      others = λ q e. rw games refl;
      sessions = removed-others s id h;
    }

depart-IsDeparted :
    (s g : ℕ) (id : Int64) (h : Heap)
    → find (h.sessions s).config.game_id h.games_by_id ≡ some g
    → ((depart s id h).0 ≡ ok tt) × IsDeparted g s id h (depart s id h).1
depart-IsDeparted s g id h there = elim (Bool-cases (is_empty (erase id (h.sessions s).peers))) [
  | inl empty ↦
      rw (remove_peer_by_id-empty s id h, empty)
        (rw (close_session-known s g (remove_peer_by_id s id h).1 (removed-known s g id h there))
          (refl, deleted-IsDeparted s g id h empty))
  | inr some_left ↦
      rw (remove_peer_by_id-empty s id h, some_left) (refl, kept-IsDeparted s g id h some_left)
]

-- Closing the socket of the peer leaves its id and session as they were.
invalidated :
    (r : ℕ) (h : Heap)
    → (on_peer (λ c p. invalidate_socket p) r h).peers r ≡ (invalidate_socket (h.peers r)).0
invalidated r h = on_peer-peers (λ c p. invalidate_socket p) r r h ∙ ground arith

same_member :
    (p : Peer)
    → ((invalidate_socket p).0.peer_id ≡ p.peer_id)
      × ((invalidate_socket p).0.game_session ≡ p.game_session)
unfolding invalidate_socket
same_member p = (ground arith, ground arith)

pub drop_peer-eq :
    (r : ℕ) (h : Heap)
    → drop_peer r h
      ≡ depart
          (h.peers r).game_session
          (h.peers r).peer_id
          (on_peer (λ c p. invalidate_socket p) r h)
unfolding drop_peer
drop_peer-eq r h =
    let k = on_peer (λ c p. invalidate_socket p) r h in
    let (id, session) = same_member (h.peers r) in
    ap₂ (λ (s : ℕ) (i : Int64). depart s i k)
      (ap (λ (p : Peer). p.game_session) (invalidated r h) ∙ session)
      (ap (λ (p : Peer). p.peer_id) (invalidated r h) ∙ id)

-- The destruction of the socket of a peer whose game is registered fails on no null pointer: the
-- peer's entry leaves its session, and the session leaves the game exactly if that was the last
-- entry; no other game or session changes.
pub on_before_destroy_lem :
    (socket r g : ℕ) (h : Heap)
    → h.listeners socket ≡ some r
    → find (h.sessions (h.peers r).game_session).config.game_id h.games_by_id ≡ some g
    → ((on_before_destroy socket h).0 ≡ ok tt)
      × IsDeparted g (h.peers r).game_session (h.peers r).peer_id h (on_before_destroy socket h).1
unfolding on_before_destroy on_peer
on_before_destroy_lem socket r g h listens there =
    rw (listens, on_before_destroy)
      (rw (drop_peer-eq r h) (
        let (fine, d) =
          depart-IsDeparted (h.peers r).game_session g (h.peers r).peer_id
            (on_peer (λ c p. invalidate_socket p) r h) there in
        (
          fine,
          record { peers = d.peers; game = d.game; others = d.others; sessions = d.sessions },
        )))

-- A session is deleted by its id: when the last peer leaves a session that is no longer the one its
-- game has under that id, the other session is gone from the game, whoever is still in it.
pub on_before_destroy-stale :
    (socket r g t : ℕ) (h : Heap)
    → h.listeners socket ≡ some r
    → let s = (h.peers r).game_session in
      let v = h.sessions s in
      find v.config.game_id h.games_by_id ≡ some g
      → is_empty (erase (h.peers r).peer_id v.peers) ≡ true
      → find v.id (h.games g).sessions ≡ some t
      → t ≢ s
      → let k = (on_before_destroy socket h).1 in
        (find v.id (k.games g).sessions ≡ none) × ((k.sessions t).peers ≡ (h.sessions t).peers)
on_before_destroy-stale socket r g t h listens there last live other =
    let v = h.sessions (h.peers r).game_session in
    let d = (on_before_destroy_lem socket r g h listens there).1 in
    (
      ap (λ (u : Game). find v.id u.sessions) d.game
          ∙ rw last (find-erase_self v.id (h.games g).sessions),
      ap (λ (u : Session). u.peers) (d.sessions t (ground (arith, other))),
    )
