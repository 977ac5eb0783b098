-- ===== src/Server/Turns.antt =====
-- The turns of the coroutines, in src/game/Peer.cpp and Game.cpp: a peer's sender, and the pinger.
use helicopter.Base.{ℕ, ◌≤◌, refl, List, for_each, arith, length, Bool-cases, inl, inr}
use helicopter.Word.{Int64}
use helicopter.Dict.{is_empty}
use helicopter.Peer.{MessageQueue, sender_act}
use helicopter.Peer.Queue.{sender_act-cases}
use helicopter.Heap.{Heap}
use helicopter.Members.{check_all_peers_pings, ping_all_peers}
use helicopter.Game.{pinger_act}
use helicopter.Server.{send_next}
use helicopter.Server.Rules.{IsFrameRule, IsFrameRule-IsReadRule, Anyone, everyone, for_each_kept}
use helicopter.Server.Core.{IsCore, IsSameSession-refl}

sender_act-length : (q : MessageQueue) → length (sender_act q).1.items ≤ length q.items
sender_act-length q = elim (sender_act-cases q) [
  | inl (e, p) ↦ rw p (omega arith)
  | inr (rest, m, p, _, _, n) ↦ rw p (omega (arith, n))
]

pub send_next-IsCore : (r : ℕ) (h : Heap) → IsCore h (send_next r h)
unfolding send_next
send_next-IsCore r h = record {
  peer_id = λ q. ground arith;
  game_session = λ q. ground arith;
  fits = λ q l. ground (arith, sender_act-length (h.peers r).queue);
  sessions = λ s. IsSameSession-refl (h.sessions s);
  game_sessions = λ g. refl;
  game_config = λ g. refl;
  listeners = refl;
  games_by_id = refl;
  next_peer = refl;
  next_session = refl;
  next_game = refl;
}

module _ (R : Heap → Heap → Type 0) (rule : IsFrameRule R) where
  all_kept :
      (body : ℕ → Heap → Heap)
      → ((r : ℕ) (h : Heap) → R h (body r h))
      → (rs : List ℕ) (h : Heap) → R h (for_each rs body h)
  all_kept body kept rs h =
      for_each_kept Anyone R (IsFrameRule-IsReadRule R rule) body (λ r k a. kept r k) rs h
        (everyone h rs)

  check_all_peers_pings_kept : (s : ℕ) (h : Heap) → R h (check_all_peers_pings s h)
  unfolding check_all_peers_pings
  check_all_peers_pings_kept s h =
      all_kept _ (rule.checks (h.sessions s).ping_current_timestamp) _ h

  ping_all_peers_kept : (now : Int64) (s : ℕ) (h : Heap) → R h (ping_all_peers now s h)
  unfolding ping_all_peers
  ping_all_peers_kept now s h = rule.chain (rule.stamps now s h) (all_kept _ (rule.pings now) _ _)

  pub pinger_act_kept : (now : ℕ → Int64) (g : ℕ) (h : Heap) → R h (pinger_act now g h).1
  unfolding pinger_act
  pinger_act_kept now g h = elim (Bool-cases (is_empty (h.games g).sessions)) [
    | inl empty ↦ rw empty (rule.rests g h)
    | inr more ↦ rw more (
        rule.chain (all_kept _ check_all_peers_pings_kept _ h)
          (all_kept _ (λ s. ping_all_peers_kept (now s) s) _ _))
  ]
