-- ===== src/Handlers/Pong.antt =====
-- What a pong does, in `Peer::handlePong` of src/game/Peer.cpp and `Session::reportPeerPong` of
-- src/game/Session.cpp.
use helicopter.Base.{
  ℕ, ◌<◌, ◌==◌, ◌≡◌, refl, ◌∙◌, Bool, true, false, not, ◌&&◌, none, some, arith, if◌then◌else◌,
}
use helicopter.Word.{Int64, sub, is_neg}
use helicopter.Config.{GameConfigDto}
use helicopter.Dto.{MessageDto, Payload}
use helicopter.Peer.{Peer, record_pong, check_pings_rules}
use helicopter.Session.{Session, report_peer_pong}
use helicopter.Heap.{Heap, on_peer, session_of}
use helicopter.Handlers.{ok, retrieve_int64, handle_pong}

-- The pong answers the last ping of the peer's session, and the clock did not run backwards.
abbrev pub is_in_time : Int64 → Int64 → ℕ → Heap → Bool
is_in_time now t me h = t == (session_of h me).ping_current_timestamp && not (is_neg (sub now t))

-- What a peer has of its pings once a pong was recorded.
record IsAnswered (in_time : Bool) (t : Int64) (p q : Peer) : Type 0 where
  failed_pings : q.failed_pings ≡ (if in_time then 0 else p.failed_pings)
  last_ping_timestamp : q.last_ping_timestamp ≡ (if in_time then t else p.last_ping_timestamp)
  socket : q.socket ≡ p.socket
  queue : q.queue ≡ p.queue

handle_pong-eq :
    (now t : Int64) (me : ℕ) (m : MessageDto) (h : Heap)
    → m.payload ≡ some (Payload.int64 t)
    → let r = report_peer_pong now (h.peers me).peer_id t (session_of h me) in
      ((handle_pong now me m h).0 ≡ ok none)
      × ((q : ℕ)
          → (handle_pong now me m h).1.peers q
            ≡ (if q == me then record_pong r.0 t (h.peers me) else h.peers q))
unfolding handle_pong retrieve_int64 on_peer
handle_pong-eq now t me m h e = rw (e, handle_pong) (refl, λ q. refl)

recorded :
    (now t : Int64) (v : Session) (p : Peer)
    → IsAnswered
        (t == v.ping_current_timestamp && not (is_neg (sub now t)))
        t
        p
        (record_pong (report_peer_pong now p.peer_id t v).0 t p)
unfolding report_peer_pong record_pong
recorded now t v p = ground arith

-- A pong in time is all that the next look at the pings asks for, and any other pong is as good as
-- none.
check-IsAnswered :
    (b : Bool) (t current : Int64) (c : GameConfigDto) (p q : Peer)
    → 0 < c.max_failed_pings
    → (b ≡ true → t ≡ current)
    → IsAnswered b t p q
    → (check_pings_rules current c q).0.socket
      ≡ (if b then p.socket else (check_pings_rules current c p).0.socket)
unfolding check_pings_rules
check-IsAnswered true t current c p q pos same a = ground (arith, same refl)
check-IsAnswered false t current c p q pos same a = ground arith

-- A pong answers nothing to the peer and changes no other peer. If it is the answer to the last ping
-- and the clock did not run backwards, the failed pings are forgotten and the peer keeps its socket at
-- the next check, as long as the config allows a failed ping; any other pong leaves the failed pings as
-- they are, and the next check is as without it.
pub handle_pong_lem :
    (now t : Int64) (me : ℕ) (m : MessageDto) (h : Heap)
    → m.payload ≡ some (Payload.int64 t)
    → 0 < (session_of h me).config.max_failed_pings
    → let k = (handle_pong now me m h).1 in
      let v = session_of h me in
      let check = λ (p : Peer). (check_pings_rules v.ping_current_timestamp v.config p).0 in
      ((handle_pong now me m h).0 ≡ ok none)
      × ((q : ℕ) → (q == me) ≡ false → k.peers q ≡ h.peers q)
      × ((k.peers me).failed_pings
          ≡ (if is_in_time now t me h then 0 else (h.peers me).failed_pings))
      × ((check (k.peers me)).socket
          ≡ (if is_in_time now t me h then (h.peers me).socket else (check (h.peers me)).socket))
handle_pong_lem now t me m h e pos =
    let (fine, peers) = handle_pong-eq now t me m h e in
    let a = recorded now t (session_of h me) (h.peers me) in
    let mine : (handle_pong now me m h).1.peers me
        ≡ record_pong (report_peer_pong now (h.peers me).peer_id t (session_of h me)).0 t
            (h.peers me) =
      peers me ∙ ground arith in
    (
      fine,
      λ q other. peers q ∙ rw other refl,
      rw mine a.failed_pings,
      rw mine (
          check-IsAnswered (is_in_time now t me h) t _ (session_of h me).config (h.peers me) _ pos
            (λ i. ground arith) a),
    )
