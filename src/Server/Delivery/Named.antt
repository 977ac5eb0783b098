-- ===== src/Server/Delivery/Named.antt =====
-- How often a list of ids, as `Session::getPeers` of src/game/Session.cpp is given one, names a member.
use helicopter.Base.{
  ℕ, suc, ◌==◌, ◌≡◌, refl, Option, none, some, List, [], ◌∷◌, inl, inr, count, arith, nat_eq,
  Option-cases, Bool-cases, ==_iff, if◌then◌else◌,
}
use helicopter.Word.{Int64}
use helicopter.Dict.{Dict, find}
use helicopter.Peer.{Peer}
use helicopter.Members.{lookup_peers}
use helicopter.Members.Joining.{Named, find-Named}

-- How often the id stands in the list.
unfoldable pub times_named : Int64 → List (Option Int64) → ℕ
times_named id [] = 0
times_named id (none ∷ ids) = times_named id ids
times_named id (some j ∷ ids) = let rest = times_named id ids in if j == id then suc rest else rest

module _ (peers : ℕ → Peer) (n q : ℕ) (d : Dict ℕ ℕ) (named : Named peers n d) where
  -- A member is found as often as its id is named.
  pub count-lookup_peers :
      (ids : List (Option Int64))
      → find (peers q).peer_id d ≡ some q
      → count q (lookup_peers ids d) ≡ times_named (peers q).peer_id ids
  unfolding lookup_peers times_named
  count-lookup_peers [] there = refl
  count-lookup_peers (none ∷ ids) there = count-lookup_peers ids there
  count-lookup_peers (some j ∷ ids) there =
      let rest = count-lookup_peers ids there in
      elim (Bool-cases (j == (peers q).peer_id)) [
        | inl own ↦ rw (own, (==_iff j _).0 own, there, lookup_peers) (ground (arith, rest))
        | inr other ↦ elim (Option-cases (find j d)) [
          | inl gone ↦ rw (gone, lookup_peers, other) rest
          | inr (r, found) ↦
              (let id = find-Named peers n j r d named found in
                rw (found, lookup_peers, other) (ground (arith, rest, id, other)))
        ]
      ]
