-- ===== src/Game/Sessions.antt =====
-- The map of sessions of a game in src/game/Game.cpp.
use helicopter.Base.{
  Option-cases, inl, inr, ℕ, ◌+◌, ◌≡◌, refl, sym, ap, ◌∙◌, Option, none, some, arith, Str,
  str_eq_inst, update,
}
use helicopter.Dict.{find, insert, find-insert_self_new}
use helicopter.Session.{make_session}
use helicopter.Heap.{Heap}
use helicopter.Game.{launch_pinger, create_new_session}

-- The pinger's start changes no map.
pub record IsSameMaps (h k : Heap) : Type 0 where
  pub games : (q : ℕ) → (k.games q).sessions ≡ (h.games q).sessions
  pub games_by_id : k.games_by_id ≡ h.games_by_id
  pub configs : k.configs ≡ h.configs

launch_pinger-IsSameMaps : (g : ℕ) (h : Heap) → IsSameMaps h (launch_pinger g h)
unfolding launch_pinger
launch_pinger-IsSameMaps g h = record {
  games = λ q. ground arith;
  games_by_id = ground arith;
  configs = ground arith;
}

-- The server with the new session in the game's map, before the pinger is looked at.
abbrev pub added : ℕ → Str → Heap → Heap
added g id h =
    let v = h.games g in
    record h {
      games = update h.games g (record v { sessions = insert id h.next_session v.sessions });
      sessions = update h.sessions h.next_session (make_session id v.config);
      next_session = h.next_session + 1;
    }

module _ (g : ℕ) (id : Str) (h : Heap) where
  pub create_new_session-eq :
      find id (h.games g).sessions ≡ none
      → create_new_session g id h ≡ (some h.next_session, launch_pinger g (added g id h))
  unfolding create_new_session
  create_new_session-eq new = rw (new, create_new_session) refl

  pub create_new_session-exists :
      {s : ℕ} → find id (h.games g).sessions ≡ some s → create_new_session g id h ≡ (none, h)
  unfolding create_new_session
  create_new_session-exists there = rw (there, create_new_session) refl

  added-found :
      find id (h.games g).sessions ≡ none
      → find id ((added g id h).games g).sessions ≡ some h.next_session
  added-found new =
      ap (find id) same ∙ find-insert_self_new id h.next_session (h.games g).sessions new
    where
      same : ((added g id h).games g).sessions ≡ insert id h.next_session (h.games g).sessions
      same = ground arith

  pub create_new_session-found :
      (s : ℕ)
      → (create_new_session g id h).0 ≡ some s
      → let k = (create_new_session g id h).1 in
        (find id (k.games g).sessions ≡ some s)
        × (k.games_by_id ≡ h.games_by_id)
        × (k.configs ≡ h.configs)
  create_new_session-found s e = elim (Option-cases (find id (h.games g).sessions)) [
    | inr (old, there) ↦ absurd (cc (e, create_new_session-exists there))
    | inl new ↦
        (let made = create_new_session-eq new in
          let maps = launch_pinger-IsSameMaps g (added g id h) in
          let named : some h.next_session ≡ some s =
            sym (ap (λ (r : Option ℕ × Heap). r.0) made) ∙ e in
          rw made
            (ap (find id) (maps.games g) ∙ added-found new ∙ named, maps.games_by_id, maps.configs))
  ]
