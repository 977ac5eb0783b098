-- ===== src/Peer/Pings.antt =====
-- The ping rules of src/game/Peer.cpp over several rounds: who is dropped, and when.
use helicopter.Base.{
  ◌+◌, ◌^◌, ◌<◌, ◌≡◌, ◌≢◌, refl, false, none, List, [], ◌∷◌, length, All, arith, ltb, if◌then◌else◌,
}
use helicopter.Word.{Int64, is_neg}
use helicopter.Config.{GameConfigDto}
use helicopter.Peer.{Peer, check_pings_rules, record_pong}

-- Rounds of checks, at the timestamp of each round's ping, with no pong between them.
unfoldable pub checks : GameConfigDto → List Int64 → Peer → Peer
checks c [] p = p
checks c (t ∷ ts) p = checks c ts (check_pings_rules t c p).0

abbrev pub Missed : Peer → Int64 → Type 0
Missed p t = p.last_ping_timestamp ≢ t

check-Missed :
    (c : GameConfigDto) (t : Int64) (p : Peer)
    → Missed p t
    → p.failed_pings + 1 < 2 ^ 64
    → let q = (check_pings_rules t c p).0 in
      (q.failed_pings ≡ p.failed_pings + 1)
      × (q.last_ping_timestamp ≡ p.last_ping_timestamp)
      × (q.socket ≡ (if ltb (p.failed_pings + 1) c.max_failed_pings then p.socket else none))
unfolding check_pings_rules
check-Missed c t p miss room = ground arith

Missed-transport :
    (p q : Peer) (ts : List Int64)
    → q.last_ping_timestamp ≡ p.last_ping_timestamp
    → All (Missed p) ts
    → All (Missed q) ts
Missed-transport p q [] e h = tt
Missed-transport p q (t ∷ ts) e h = (ground arith, Missed-transport p q ts e h.1)

-- A peer that answers none of a row of one ping or more has as many failed pings more, and keeps its
-- socket exactly if their number stays below the limit.
pub checks-Missed :
    (c : GameConfigDto) (t : Int64) (ts : List Int64) (p : Peer)
    → All (Missed p) (t ∷ ts)
    → p.failed_pings + length (t ∷ ts) < 2 ^ 64
    → let q = checks c (t ∷ ts) p in
      let n = p.failed_pings + length (t ∷ ts) in
      (q.failed_pings ≡ n) × (q.socket ≡ (if ltb n c.max_failed_pings then p.socket else none))
unfolding checks
checks-Missed c t [] p h room = ground (arith, check-Missed c t p h.0)
checks-Missed c t (u ∷ ts) p h room =
    let q = (check_pings_rules t c p).0 in
    let (failed, last, kept) = check-Missed c t p h.0 (omega arith) in
    ground (
      arith,
      failed,
      kept,
      checks-Missed c u ts q (Missed-transport p q (u ∷ ts) last h.1) (omega (arith, failed)),
    )

-- Rounds in each of which the pong comes in before the check: the ping time and the timestamp.
pub answered : GameConfigDto → List (Int64 × Int64) → Peer → Peer
answered c [] p = p
answered c ((pt, t) ∷ rounds) p = answered c rounds (check_pings_rules t c (record_pong pt t p)).0

-- If at least one failed ping is allowed and before every check a pong came in that answers the current
-- ping, with a ping time that is not negative, the peer keeps its socket and its queue, however many
-- checks there are.
pub answered-kept :
    (c : GameConfigDto) (rounds : List (Int64 × Int64)) (p : Peer)
    → 0 < c.max_failed_pings
    → All (λ r. is_neg r.0 ≡ false) rounds
    → ((answered c rounds p).socket ≡ p.socket) × ((answered c rounds p).queue ≡ p.queue)
unfolding answered check_pings_rules record_pong
answered-kept c [] p pos h = (refl, refl)
answered-kept c ((pt, t) ∷ rounds) p pos h =
    ground (arith, answered-kept c rounds (check_pings_rules t c (record_pong pt t p)).0 pos h.1)
