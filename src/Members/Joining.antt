-- ===== src/Members/Joining.antt =====
-- Who is in a session of src/game/Session.cpp: the invariant of its map of peers and its host.
pub mod Steps
use mathlib.Core.Path.{subst}
use helicopter.Base.{
  ℕ, suc, ◌+◌, ◌^◌, ◌≤◌, ◌<◌, ◌≡◌, ◌≢◌, refl, sym, ap, ◌∙◌, ◌⊎◌, inl, inr, Bool, true, false,
  Option, none, some, List, [], ◌∷◌, arith, ◌==◌, if◌then◌else◌, count, IsDistinct, All, nat_eq,
}
use helicopter.Word.{Int64, inc}
use helicopter.Dict.{Dict, values, find, insert, erase, find-insert_self_new}
use helicopter.Dto.{MessageDto}
use helicopter.Peer.{Peer, queue_message, activate}
use helicopter.Session.{Session}
use helicopter.Heap.{Heap, queue_to, queued}
use helicopter.Heap.Loops.{IsFrame, local, queue_to-IsLocal}

-- Each entry holds an allocated peer under that peer's own id, and no id is listed twice.
abbrev pub Named : (ℕ → Peer) → ℕ → Dict ℕ ℕ → Type 0
Named peers next [] = Unit {0}
Named peers next ((id, r) ∷ d) =
    ((peers r).peer_id ≡ id) × (r < next) × (find id d ≡ none) × Named peers next d

-- Every id was given out already.
abbrev pub Below : Int64 → Dict ℕ ℕ → Type 0
Below n [] = Unit {0}
Below n ((id, r) ∷ d) = (id < n) × Below n d

-- The host, if there is one, is in the map.
abbrev pub HostIn : (ℕ → Peer) → Dict ℕ ℕ → Option ℕ → Type 0
HostIn peers d none = Unit {0}
HostIn peers d (some r) = find (peers r).peer_id d ≡ some r

pub record IsWell (peers : ℕ → Peer) (next : ℕ) (v : Session) : Type 0 where
  pub named : Named peers next v.peers
  pub below : Below v.peer_id_counter v.peers
  pub host_in : HostIn peers v.peers v.host

-- The session is well-formed in this state of the server.
abbrev pub IsWellIn : ℕ → Heap → Type 0
IsWellIn s h = IsWell h.peers h.next_peer (h.sessions s)

pub count-Named :
    (peers : ℕ → Peer) (n r : ℕ) (d : Dict ℕ ℕ)
    → Named peers n d
    → (count r (values d) ≡ 0) ⊎ (find (peers r).peer_id d ≡ some r)
unfolding find
count-Named peers n r [] h = inl refl
count-Named peers n r ((id, q) ∷ d) h = ground (arith, h.0, h.2, count-Named peers n r d h.3)

-- So no peer is listed twice.
pub Named-IsDistinct :
    (peers : ℕ → Peer) (n : ℕ) (d : Dict ℕ ℕ) → Named peers n d → IsDistinct (values d)
Named-IsDistinct peers n [] h = tt
Named-IsDistinct peers n ((id, r) ∷ d) h =
    (ground (arith, h.0, h.2, count-Named peers n r d h.3), Named-IsDistinct peers n d h.3)

pub find-Below : (n : Int64) (d : Dict ℕ ℕ) → Below n d → find n d ≡ none
unfolding find
find-Below n [] h = refl
find-Below n ((id, r) ∷ d) h = ground (arith, find-Below n d h.1)

Below-mono : (m n : Int64) (d : Dict ℕ ℕ) → m ≤ n → Below m d → Below n d
Below-mono m n [] le h = tt
Below-mono m n ((id, r) ∷ d) le h = (omega arith, Below-mono m n d le h.1)

Below-insert : (n id : Int64) (r : ℕ) (d : Dict ℕ ℕ) → id < n → Below n d → Below n (insert id r d)
unfolding insert
Below-insert n id r [] lt h = (lt, tt)
Below-insert n id r ((j, q) ∷ d) lt h = ground (arith, Below-insert n id r d)

Below-erase : (n id : Int64) (d : Dict ℕ ℕ) → Below n d → Below n (erase id d)
unfolding erase
Below-erase n id [] h = tt
Below-erase n id ((j, q) ∷ d) h = ground (arith, Below-erase n id d h.1)

find-insert_ne : (id j : Int64) (r : ℕ) (d : Dict ℕ ℕ) → id ≢ j → find j (insert id r d) ≡ find j d
unfolding find insert
find-insert_ne id j r [] ne = ground arith
find-insert_ne id j r ((i, q) ∷ d) ne = ground (arith, find-insert_ne id j r d)

find-none-erase : (id j : Int64) (d : Dict ℕ ℕ) → find j d ≡ none → find j (erase id d) ≡ none
unfolding find erase
find-none-erase id j [] h = refl
find-none-erase id j ((i, q) ∷ d) h = ground (arith, find-none-erase id j d)

Named-insert :
    (peers : ℕ → Peer) (n : ℕ) (id : Int64) (r : ℕ) (d : Dict ℕ ℕ)
    → (peers r).peer_id ≡ id
    → r < n
    → find id d ≡ none
    → Named peers n d
    → Named peers n (insert id r d)
unfolding find insert
Named-insert peers n id r [] e lt new h = (e, lt, refl, tt)
Named-insert peers n id r ((j, q) ∷ d) e lt new h =
    ground (arith, Named-insert peers n id r d, find-insert_ne id j r d)

Named-erase :
    (peers : ℕ → Peer) (n : ℕ) (id : Int64) (d : Dict ℕ ℕ)
    → Named peers n d
    → Named peers n (erase id d)
unfolding erase
Named-erase peers n id [] h = tt
Named-erase peers n id ((j, q) ∷ d) h =
    ground (arith, Named-erase peers n id d, find-none-erase id j d)

-- Peers that were allocated keep their ids.
abbrev pub SameIds : ℕ → (ℕ → Peer) → (ℕ → Peer) → Type 0
SameIds n peers peers' = (q : ℕ) → q < n → (peers' q).peer_id ≡ (peers q).peer_id

Named-SameIds :
    (peers peers' : ℕ → Peer) (n n' : ℕ) (d : Dict ℕ ℕ)
    → SameIds n peers peers'
    → n ≤ n'
    → Named peers n d
    → Named peers' n' d
Named-SameIds peers peers' n n' [] same le h = tt
Named-SameIds peers peers' n n' ((id, q) ∷ d) same le h =
    (same q h.1 ∙ h.0, omega arith, h.2, Named-SameIds peers peers' n n' d same le h.3)

pub find-lt :
    (peers : ℕ → Peer) (n id r : ℕ) (d : Dict ℕ ℕ) → Named peers n d → find id d ≡ some r → r < n
unfolding find
find-lt peers n id r [] h e = cc
find-lt peers n id r ((j, q) ∷ d) h e = ground (arith, find-lt peers n id r d h.3)

pub find-Named :
    (peers : ℕ → Peer) (n id r : ℕ) (d : Dict ℕ ℕ)
    → Named peers n d
    → find id d ≡ some r
    → (peers r).peer_id ≡ id
unfolding find
find-Named peers n id r [] h e = absurd (cc e)
find-Named peers n id r ((j, q) ∷ d) h e = ground (arith, h.0, find-Named peers n id r d h.3)

HostIn-SameIds :
    (peers peers' : ℕ → Peer) (n : ℕ) (d : Dict ℕ ℕ) (host : Option ℕ)
    → Named peers n d
    → SameIds n peers peers'
    → HostIn peers d host
    → HostIn peers' d host
HostIn-SameIds peers peers' n d none named same h = tt
HostIn-SameIds peers peers' n d (some r) named same h =
    rw (same r (find-lt peers n _ r d named h)) h

pub IsWell-SameIds :
    (peers peers' : ℕ → Peer) (n n' : ℕ) (v : Session)
    → SameIds n peers peers'
    → n ≤ n'
    → IsWell peers n v
    → IsWell peers' n' v
IsWell-SameIds peers peers' n n' v same le w = record {
  named = Named-SameIds peers peers' n n' v.peers same le w.named;
  below = w.below;
  host_in = HostIn-SameIds peers peers' n v.peers v.host w.named same w.host_in;
}

HostIn-insert :
    (peers : ℕ → Peer) (id r : ℕ) (d : Dict ℕ ℕ) (host : Option ℕ)
    → find id d ≡ none
    → HostIn peers d host
    → HostIn peers (insert id r d) host
HostIn-insert peers id r d none new h = tt
HostIn-insert peers id r d (some q) new h =
    find-insert_ne id (peers q).peer_id r d (λ e. cc (h, rw e at new)) ∙ h

-- The session that a new peer has joined under the id that was given out last.
abbrev pub joined : Bool → Int64 → ℕ → Session → Session
joined is_host id r v = record v {
  peers = insert id r v.peers;
  host = if is_host then some r else v.host;
}

pub joined-IsWell :
    (peers : ℕ → Peer) (n r : ℕ) (is_host : Bool) (v : Session)
    → (peers r).peer_id ≡ v.peer_id_counter
    → r < n
    → v.peer_id_counter + 1 < 2 ^ 64
    → IsWell peers n v
    → IsWell peers n
        (joined is_host v.peer_id_counter r (record v { peer_id_counter = inc v.peer_id_counter }))
joined-IsWell peers n r is_host v e lt room w =
    let new = find-Below v.peer_id_counter v.peers w.below in
    record {
      named = Named-insert peers n v.peer_id_counter r v.peers e lt new w.named;
      below =
          Below-insert (inc v.peer_id_counter) v.peer_id_counter r v.peers (omega arith)
            (Below-mono v.peer_id_counter (inc v.peer_id_counter) v.peers (omega arith) w.below);
      host_in = host is_host;
    }
  where
    host :
        (b : Bool)
        → HostIn peers (insert v.peer_id_counter r v.peers) (if b then some r else v.host)
    host true = rw e (
        find-insert_self_new v.peer_id_counter r v.peers
          (find-Below v.peer_id_counter v.peers w.below))
    host false =
        HostIn-insert peers v.peer_id_counter r v.peers v.host
          (find-Below v.peer_id_counter v.peers w.below) w.host_in
