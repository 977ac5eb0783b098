-- ===== src/Server/Rules.antt =====
-- Relations between states of src/game/ that go from single calls to loops and handlers.
use helicopter.Base.{ℕ, false, ◌≤◌, ◌≡◌, length, for_each, some, List, [], ◌∷◌, Str, All}
use helicopter.Word.{Int64}
use helicopter.Peer.{kick, ping, record_pong, check_pings_rules}
use helicopter.Session.{report_peer_pong}
use helicopter.Heap.{Heap, session_of, on_peer, queue_to}
use helicopter.Members.{get_host, get_all_peers, set_session}
use helicopter.Game.{set_game}
use helicopter.Reading.{set_buffer}
use helicopter.Handlers.{relayed}

-- `Touches h r` says that what a frame asks for may go to peer `r`.
pub record IsReadRule (Touches : Heap → ℕ → Type 0) (R : Heap → Heap → Type 0) : Type 0 where
  pub same : (h : Heap) → R h h
  pub chain : {h k l : Heap} → R h k → R k l → R h l
  pub stays : {h k : Heap} (r : ℕ) → R h k → Touches h r → Touches k r
  pub relays :
      (sender : Int64) (text : Str) (r : ℕ) (h : Heap)
      → Touches h r
      → R h (queue_to r (relayed sender text) h)
  pub kicks : (r : ℕ) (h : Heap) → Touches h r → R h (on_peer (λ c p. (p, kick p)) r h)
  pub pongs :
      (now : Int64) (me : ℕ) (t : Int64) (h : Heap)
      → Touches h me
      → let r = report_peer_pong now (h.peers me).peer_id t (session_of h me) in
        R h (
          on_peer
            (λ c p. (record_pong r.0 t p, []))
            me
            (set_session (h.peers me).game_session r.1 h))
  pub buffers :
      (me : ℕ) (bytes : List ℕ) (h : Heap)
      → length bytes ≤ (session_of h me).config.max_message_size_bytes
      → Touches h me
      → R h (set_buffer me bytes h)

-- A frame of `me` goes to peers that may be touched only.
pub record IsWithin (Touches : Heap → ℕ → Type 0) (me : ℕ) (h : Heap) : Type 0 where
  pub own : Touches h me
  pub members : All (Touches h) (get_all_peers (h.peers me).game_session h)
  pub host : (q : ℕ) → get_host (h.peers me).game_session h ≡ some q → Touches h q

-- A relation that may touch all peers, and that the pinger keeps as well.
pub record IsFrameRule (R : Heap → Heap → Type 0) : Type 0 where
  pub same : (h : Heap) → R h h
  pub chain : {h k l : Heap} → R h k → R k l → R h l
  pub relays :
      (sender : Int64) (text : Str) (r : ℕ) (h : Heap) → R h (queue_to r (relayed sender text) h)
  pub kicks : (r : ℕ) (h : Heap) → R h (on_peer (λ c p. (p, kick p)) r h)
  pub pongs :
      (now : Int64) (me : ℕ) (t : Int64) (h : Heap)
      → let r = report_peer_pong now (h.peers me).peer_id t (session_of h me) in
        R h (
          on_peer
            (λ c p. (record_pong r.0 t p, []))
            me
            (set_session (h.peers me).game_session r.1 h))
  pub checks : (t : Int64) (r : ℕ) (h : Heap) → R h (on_peer (check_pings_rules t) r h)
  pub pings : (now : Int64) (r : ℕ) (h : Heap) → R h (on_peer (λ c p. (p, ping now p)) r h)
  pub stamps :
      (now : Int64) (s : ℕ) (h : Heap)
      → R h (set_session s (record (h.sessions s) { ping_current_timestamp = now }) h)
  pub rests :
      (g : ℕ) (h : Heap) → R h (set_game g (record (h.games g) { is_pinger_active = false }) h)
  pub buffers :
      (me : ℕ) (bytes : List ℕ) (h : Heap)
      → length bytes ≤ (session_of h me).config.max_message_size_bytes
      → R h (set_buffer me bytes h)

abbrev pub Anyone : Heap → ℕ → Type 0
Anyone h r = Unit {0}

pub everyone : (h : Heap) (rs : List ℕ) → All (Anyone h) rs
everyone h [] = tt
everyone h (r ∷ rs) = (tt, everyone h rs)

pub Anyone-IsWithin : (me : ℕ) (h : Heap) → IsWithin Anyone me h
Anyone-IsWithin me h = record { own = tt; members = everyone h _; host = λ q e. tt }

pub IsFrameRule-IsReadRule : (R : Heap → Heap → Type 0) → IsFrameRule R → IsReadRule Anyone R
IsFrameRule-IsReadRule R rule = record {
  same = rule.same;
  chain = rule.chain;
  stays = λ r a b. tt;
  relays = λ sender text r h a. rule.relays sender text r h;
  kicks = λ r h a. rule.kicks r h;
  pongs = λ now me t h a. rule.pongs now me t h;
  buffers = λ me bytes h le a. rule.buffers me bytes h le;
}

module _ (Touches : Heap → ℕ → Type 0) (R : Heap → Heap → Type 0)
    (rule : IsReadRule Touches R) where
  -- Whom the rule lets a frame touch before, it does after.
  pub All-stays : {h k : Heap} (rs : List ℕ) → R h k → All (Touches h) rs → All (Touches k) rs
  All-stays [] moved all = tt
  All-stays (r ∷ rs) moved all = (rule.stays r moved all.0, All-stays rs moved all.1)

  pub for_each_kept :
      (body : ℕ → Heap → Heap)
      → ((r : ℕ) (h : Heap) → Touches h r → R h (body r h))
      → (rs : List ℕ) (h : Heap) → All (Touches h) rs
      → R h (for_each rs body h)
  unfolding for_each
  for_each_kept body kept [] h all = rule.same h
  for_each_kept body kept (r ∷ rs) h all =
      let one = kept r h all.0 in
      rule.chain one (for_each_kept body kept rs (body r h) (All-stays rs one all.1))
