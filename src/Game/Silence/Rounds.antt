-- ===== src/Game/Silence/Rounds.antt =====
-- One act of the pinger of src/game/Game.cpp as one peer meets it.
use helicopter.Base.{
  ℕ, ◌==◌, ◌≡◌, refl, ap, ◌∙◌, Bool, true, false, List, [], ◌∷◌, arith, count, if◌then◌else◌,
  ==_iff, Bool-cases, inl, inr, iterate, for_each, Str,
}
use helicopter.Word.{Int64}
use helicopter.Config.{GameConfigDto}
use helicopter.Dict.{Dict, values, is_empty}
use helicopter.Peer.{Peer, Effect, check_pings_rules, ping}
use helicopter.Session.{Session}
use helicopter.Heap.{Heap, on_peer}
use helicopter.Heap.Loops.{
  IsFrame, IsFrame-refl, IsFrame-trans, local, on_peer-IsLocal, for_each-IsFrame, for_each-peers,
}
use helicopter.Members.{get_all_peers, check_all_peers_pings, ping_all_peers}
use helicopter.Game.{pinger_act}

-- Peer `r` belongs to session `s` and is in it, once and nowhere else, and session `s` is in game `g` once.
pub record IsAlone (g s r : ℕ) (h : Heap) : Type 0 where
  pub home : (h.peers r).game_session ≡ s
  pub session : count s (values (h.games g).sessions) ≡ 1
  pub member : count r (get_all_peers s h) ≡ 1
  pub nowhere_else : (t : ℕ) → (t == s) ≡ false → count r (get_all_peers t h) ≡ 0

check_all-peers :
    (t r : ℕ) (h : Heap)
    → (check_all_peers_pings t h).peers r
      ≡ iterate
          (count r (get_all_peers t h))
          (local (check_pings_rules (h.sessions t).ping_current_timestamp) h.sessions)
          (h.peers r)
unfolding check_all_peers_pings
check_all-peers t r h = for_each-peers _ _ (on_peer-IsLocal _) (get_all_peers t h) r h

check_all-IsFrame : (t : ℕ) (h : Heap) → IsFrame h (check_all_peers_pings t h)
unfolding check_all_peers_pings
check_all-IsFrame t h = for_each-IsFrame _ _ (on_peer-IsLocal _) (get_all_peers t h) h

checks_all-IsFrame : (ts : List ℕ) (h : Heap) → IsFrame h (for_each ts check_all_peers_pings h)
unfolding for_each
checks_all-IsFrame [] h = IsFrame-refl h
checks_all-IsFrame (t ∷ ts) h =
    IsFrame-trans (check_all-IsFrame t h) (checks_all-IsFrame ts (check_all_peers_pings t h))

-- What one look at a session makes of the peer, by how often the peer is in it.
check_all-once :
    (t r : ℕ) (h : Heap)
    → count r (get_all_peers t h) ≡ 1
    → (check_all_peers_pings t h).peers r
      ≡ local (check_pings_rules (h.sessions t).ping_current_timestamp) h.sessions (h.peers r)
check_all-once t r h one = check_all-peers t r h ∙ rw one refl

check_all-never :
    (t r : ℕ) (h : Heap)
    → count r (get_all_peers t h) ≡ 0
    → (check_all_peers_pings t h).peers r ≡ h.peers r
check_all-never t r h never = check_all-peers t r h ∙ rw never refl

-- A peer that is in one session only is checked as often as that session is.
checks_all-peers :
    (s r : ℕ) (ss : ℕ → Session) (ts : List ℕ) (h : Heap)
    → h.sessions ≡ ss
    → count r (values (ss s).peers) ≡ 1
    → ((t : ℕ) → (t == s) ≡ false → count r (values (ss t).peers) ≡ 0)
    → (for_each ts check_all_peers_pings h).peers r
      ≡ iterate
          (count s ts)
          (local (check_pings_rules (ss s).ping_current_timestamp) ss)
          (h.peers r)
unfolding for_each
checks_all-peers s r ss [] h e one nowhere = refl
checks_all-peers s r ss (t ∷ ts) h e one nowhere =
    let rest =
      checks_all-peers s r ss ts (check_all_peers_pings t h) ((check_all-IsFrame t h).sessions ∙ e)
        one nowhere in
    let F = local (check_pings_rules (ss s).ping_current_timestamp) ss in
    elim (Bool-cases (t == s)) [
      | inl here ↦ rw here (
          rest
          ∙ ap (iterate (count s ts) F)
              (rw ((==_iff t s).0 here) (check_all-once s r h (rw e one) ∙ rw e refl)))
      | inr other ↦
          rw other
            (rest ∙ ap (iterate (count s ts) F) (check_all-never t r h (rw e (nowhere t other))))
    ]

-- Pinging stamps the sessions and leaves the peers alone.
record IsPinged (now : ℕ → Int64) (ts : List ℕ) (h k : Heap) : Type 0 where
  peers : (q : ℕ) → k.peers q ≡ h.peers q
  games : k.games ≡ h.games
  sessions :
      (t : ℕ)
      → k.sessions t ≡ (
          if count t ts == 0
          then h.sessions t
          else record (h.sessions t) { ping_current_timestamp = now t })

starts_only-peers :
    (fx : Peer → List Effect) (rs : List ℕ) (q : ℕ) (h : Heap)
    → (for_each rs (on_peer (λ c p. (p, fx p))) h).peers q ≡ h.peers q
unfolding for_each on_peer
starts_only-peers fx [] q h = refl
starts_only-peers fx (r ∷ rs) q h = starts_only-peers fx rs q _ ∙ ground (arith, ==_iff q r)

ping_all-IsPinged :
    (now : ℕ → Int64) (t : ℕ) (h : Heap) → IsPinged now (t ∷ []) h (ping_all_peers (now t) t h)
unfolding ping_all_peers
ping_all-IsPinged now t h =
    let frame =
      for_each-IsFrame _ _ (on_peer-IsLocal (λ c p. (p, ping (now t) p))) (get_all_peers t h) _ in
    record {
      peers = λ q. starts_only-peers (ping (now t)) (get_all_peers t h) q _;
      games = frame.games;
      sessions = λ q. ap (λ (ss : ℕ → Session). ss q) frame.sessions ∙ ground (arith, ==_iff t q);
    }

pings_all-IsPinged :
    (now : ℕ → Int64) (ts : List ℕ) (h : Heap)
    → IsPinged now ts h (for_each ts (λ t. ping_all_peers (now t) t) h)
unfolding for_each
pings_all-IsPinged now [] h = record { peers = λ q. refl; games = refl; sessions = λ t. refl }
pings_all-IsPinged now (t ∷ ts) h =
    let first = ping_all-IsPinged now t h in
    let rest = pings_all-IsPinged now ts (ping_all_peers (now t) t h) in
    record {
      peers = λ q. rest.peers q ∙ first.peers q;
      games = rest.games ∙ first.games;
      sessions = λ q. ground (arith, rest.sessions q, first.sessions q);
    }

-- One act of the pinger, for a peer that is in one session of its game.
pub record IsRound (g s r : ℕ) (now : Int64) (h k : Heap) : Type 0 where
  pub peer :
      k.peers r
      ≡ (check_pings_rules
          (h.sessions s).ping_current_timestamp
          (h.sessions s).config
          (h.peers r)).0
  pub stamp : (k.sessions s).ping_current_timestamp ≡ now
  pub config : (k.sessions s).config ≡ (h.sessions s).config
  pub alone : IsAlone g s r k

count-empty : (s : ℕ) (d : Dict Str ℕ) → count s (values d) ≡ 1 → is_empty d ≡ false
count-empty s [] e = absurd (omega (arith, e))
count-empty s (x ∷ d) e = refl

stamped-peers :
    (b : Bool) (now : Int64) (v : Session)
    → (if b then v else record v { ping_current_timestamp = now }).peers ≡ v.peers
stamped-peers true now v = refl
stamped-peers false now v = refl

IsPinged-members :
    (now : ℕ → Int64) (ts : List ℕ) (h k : Heap)
    → IsPinged now ts h k
    → (t : ℕ) → get_all_peers t k ≡ get_all_peers t h
IsPinged-members now ts h k p t =
    ap (λ (v : Session). values v.peers) (p.sessions t)
    ∙ ap values (stamped-peers (count t ts == 0) (now t) (h.sessions t))

checked-home :
    (t : Int64) (c : GameConfigDto) (p : Peer)
    → (check_pings_rules t c p).0.game_session ≡ p.game_session
unfolding check_pings_rules
checked-home t c p = ground arith

pub pinger_act-IsRound :
    (now : ℕ → Int64) (g s r : ℕ) (h : Heap)
    → IsAlone g s r h
    → IsRound g s r (now s) h (pinger_act now g h).1
unfolding pinger_act
pinger_act-IsRound now g s r h a =
    let ts = values (h.games g).sessions in
    let c = for_each ts check_all_peers_pings h in
    let frame = checks_all-IsFrame ts h in
    let k = for_each ts (λ t. ping_all_peers (now t) t) c in
    let p = pings_all-IsPinged now ts c in
    let members = λ (t : ℕ).
      IsPinged-members now ts c k p t
      ∙ ap (λ (ss : ℕ → Session). values (ss t).peers) frame.sessions in
    let peer : k.peers r
        ≡ (check_pings_rules (h.sessions s).ping_current_timestamp (h.sessions s).config
            (h.peers r)).0 =
      p.peers r
      ∙ checks_all-peers s r h.sessions ts h refl a.member a.nowhere_else
      ∙ rw (a.session, a.home) refl in
    let stamped : k.sessions s ≡ record (h.sessions s) { ping_current_timestamp = now s } =
      p.sessions s ∙ rw (a.session, frame.sessions) refl in
    rw (count-empty s (h.games g).sessions a.session) (record {
      peer = peer;
      stamp = ap (λ (v : Session). v.ping_current_timestamp) stamped;
      config = ap (λ (v : Session). v.config) stamped;
      alone = record {
        home = ap (λ (q : Peer). q.game_session) peer ∙ checked-home _ _ (h.peers r) ∙ a.home;
        session = ap (λ gs. count s (values (gs g).sessions)) (p.games ∙ frame.games) ∙ a.session;
        member = ap (count r) (members s) ∙ a.member;
        nowhere_else = λ t e. ap (count r) (members t) ∙ a.nowhere_else t e;
      };
    })
