-- ===== src/Server/Admits.antt =====
-- Games and sessions that come and go, in src/game/Registry.cpp and Game.cpp, keep the invariant of
-- the server.
use mathlib.Core.Path.{subst}
use helicopter.Base.{
  ℕ, ◌<◌, ◌==◌, ◌≡◌, ◌≢◌, refl, sym, Bool, true, false, none, some, [], ◌⊎◌, inl, inr, arith, Str,
  nat_eq, str_eq_inst, beq_str_iff, if◌then◌else◌, Option-cases, Bool-cases, ==_iff,
}
use helicopter.Word.{Int64}
use helicopter.Dict.{
  Dict, find, insert, insert_present, find-insert_new, find-insert_self_new, find-erase_from,
}
use helicopter.Config.{GameConfigDto, get_game_config}
use helicopter.Heap.{Heap}
use helicopter.Game.{launch_pinger, create_new_session, delete_session}
use helicopter.Game.Sessions.{added, create_new_session-eq, create_new_session-exists}
use helicopter.Registry.{
  Params, get_game_by_id, open_session, join_session, enter_game, get_session_for_peer,
  close_session,
}
use helicopter.Registry.Lookup.{
  started, get_game_by_id-known, get_game_by_id-missing, get_game_by_id-new,
}
use helicopter.Registry.Requests.{
  get_session_for_peer-cases, open_session-state, join_session-state,
}
use helicopter.Registry.Closing.{close_session-known}
use helicopter.Handlers.{ok}
use helicopter.Server.Core.{IsCore, IsCore-refl, IsSameSession-refl}
use helicopter.Server.Invariant.{IsGood, IsCore-IsGood}

-- A key that is there stays, and a key that is put is there.
find-insert_kept :
    (k j : Str) (v : ℕ) (d : Dict Str ℕ) → find j d ≢ none → find j (insert k v d) ≢ none
find-insert_kept k j v d there = elim (Option-cases (find k d)) [
  | inl new ↦ ground (arith, find-insert_new k j v d)
  | inr (w, old) ↦ rw (insert_present k v w d old) there
]

find-insert_put : (k : Str) (v : ℕ) (d : Dict Str ℕ) → find k (insert k v d) ≢ none
find-insert_put k v d = elim (Option-cases (find k d)) [
  | inl new ↦ ground (arith, find-insert_self_new k v d)
  | inr (w, old) ↦ ground (arith, insert_present k v w d)
]

find-insert_from :
    (k j : Str) (v g : ℕ) (d : Dict Str ℕ)
    → find j (insert k v d) ≡ some g
    → (find j d ≡ some g) ⊎ ((g ≡ v) × (k ≡ j))
find-insert_from k j v g d e = elim (Option-cases (find k d)) [
  | inl new ↦ ground (arith, find-insert_new k j v d, beq_str_iff k j)
  | inr (w, old) ↦ inl (rw (insert_present k v w d old) at e)
]

not-find-nil : (id : Str) (s : ℕ) → find {V = ℕ} id [] ≢ some s
unfolding find
not-find-nil id s e = cc

not-find-nil_id : (id : Int64) (r : ℕ) → find {V = ℕ} id [] ≢ some r
unfolding find
not-find-nil_id id r e = cc

started-IsGood : (c : GameConfigDto) (h : Heap) → IsGood h → IsGood (started c h)
started-IsGood c h i = record {
  well = i.well;
  members = i.members;
  fits = i.fits;
  placed = i.placed;
  counted = i.counted;
  issued = i.issued;
  unique = i.unique;
  known = λ s lt. find-insert_kept c.game_id _ h.next_game h.games_by_id (i.known s lt);
  listed = λ g lt. elim (Bool-cases (g == h.next_game)) [
    | inl new ↦ rw new (find-insert_put c.game_id h.next_game h.games_by_id)
    | inr old ↦
        rw old
          (find-insert_kept c.game_id _ h.next_game h.games_by_id (i.listed g (ground (arith, lt))))
  ];
  registered = λ id g e. elim (find-insert_from c.game_id id h.next_game g h.games_by_id e) [
    | inl old ↦ ground (arith, i.registered id g old)
    | inr (new, _) ↦ omega (arith, new)
  ];
  found = λ g s id lt e. elim (Bool-cases (g == h.next_game)) [
    | inl new ↦ absurd (not-find-nil id s (rw new at e))
    | inr old ↦ i.found g s id (ground (arith, lt)) (rw old at e)
  ];
  listening = i.listening;
}

pub get_game_by_id-IsGood : (id : Str) (h : Heap) → IsGood h → IsGood (get_game_by_id id h).1
get_game_by_id-IsGood id h i = elim (Option-cases (find id h.games_by_id)) [
  | inr (g, there) ↦ rw (get_game_by_id-known id h there) i
  | inl new ↦ elim (Option-cases (get_game_config id h.configs)) [
    | inl unknown ↦ rw (get_game_by_id-missing id h new unknown) i
    | inr (c, known) ↦ rw (get_game_by_id-new id h new known) (started-IsGood c h i)
  ]
]

-- The game that it gives out is allocated.
pub get_game_by_id-lt :
    (id : Str) (g : ℕ) (h : Heap)
    → IsGood h
    → (get_game_by_id id h).0 ≡ some g
    → g < (get_game_by_id id h).1.next_game
get_game_by_id-lt id g h i = elim (Option-cases (find id h.games_by_id)) [
  | inr (g', there) ↦
      rw (get_game_by_id-known id h there) (λ e. ground (arith, i.registered id g' there))
  | inl new ↦ elim (Option-cases (get_game_config id h.configs)) [
    | inl unknown ↦ rw (get_game_by_id-missing id h new unknown) (λ e. absurd cc)
    | inr (c, known) ↦ rw (get_game_by_id-new id h new known) (λ e. ground arith)
  ]
]

launch_pinger-IsCore : (g : ℕ) (h : Heap) → IsCore h (launch_pinger g h)
unfolding launch_pinger
launch_pinger-IsCore g h = elim (Bool-cases (h.games g).is_pinger_active) [
  | inl active ↦ rw active (IsCore-refl h)
  | inr idle ↦ rw idle (record {
    peer_id = λ q. refl;
    game_session = λ q. refl;
    fits = λ q l. l;
    sessions = λ s. IsSameSession-refl (h.sessions s);
    game_sessions = λ q. ground arith;
    game_config = λ q. ground arith;
    listeners = refl;
    games_by_id = refl;
    next_peer = refl;
    next_session = refl;
    next_game = refl;
  })
]

added-found :
    (g : ℕ) (id : Str) (h : Heap) (q s : ℕ) (j : Str)
    → find j ((added g id h).games q).sessions ≡ some s
    → (find j (h.games q).sessions ≡ some s) ⊎ ((s ≡ h.next_session) × (id ≡ j))
added-found g id h q s j e = elim (Bool-cases (q == g)) [
  | inl here ↦
      rw ((==_iff q g).0 here)
        (find-insert_from id j h.next_session s (h.games g).sessions (rw here at e))
  | inr other ↦ inl (rw other at e)
]

added-IsGood : (g : ℕ) (id : Str) (h : Heap) → g < h.next_game → IsGood h → IsGood (added g id h)
added-IsGood g id h lt i = record {
  well = λ s l. elim (Bool-cases (s == h.next_session)) [
    | inl new ↦ rw new (record { named = tt; below = tt; host_in = tt })
    | inr old ↦ rw old (i.well s (ground (arith, l)))
  ];
  members = λ s r j l e. elim (Bool-cases (s == h.next_session)) [
    | inl new ↦ absurd (not-find-nil_id j r (rw new at e))
    | inr old ↦ i.members s r j (ground (arith, l)) (rw old at e)
  ];
  fits = λ q l. ground (arith, i.fits q l, i.placed q l);
  placed = λ q l. omega (arith, i.placed q l);
  counted = λ s l. elim (Bool-cases (s == h.next_session)) [
    | inl new ↦ rw new (omega arith)
    | inr old ↦ rw old (i.counted s (ground (arith, l)))
  ];
  issued = λ q l. ground (arith, i.issued q l, i.placed q l);
  unique = i.unique;
  known = λ s l. elim (Bool-cases (s == h.next_session)) [
    | inl new ↦ rw new (i.listed g lt)
    | inr old ↦ rw old (i.known s (ground (arith, l)))
  ];
  listed = λ q l. elim (Bool-cases (q == g)) [
    | inl here ↦ rw here (i.listed g lt)
    | inr other ↦ rw other (i.listed q l)
  ];
  registered = i.registered;
  found = λ q s j l e. elim (added-found g id h q s j e) [
    | inl old ↦
        (let (less, same) = i.found q s j l old in (omega (arith, less), ground (arith, less)))
    | inr (new, same) ↦ (omega (arith, new), ground arith)
  ];
  listening = i.listening;
}

pub create_new_session-IsGood :
    (g : ℕ) (id : Str) (h : Heap)
    → g < h.next_game
    → IsGood h
    → IsGood (create_new_session g id h).1
create_new_session-IsGood g id h lt i = elim (Option-cases (find id (h.games g).sessions)) [
  | inr (s, there) ↦ rw (create_new_session-exists g id h there) i
  | inl new ↦
      rw (create_new_session-eq g id h new)
        (IsCore-IsGood (launch_pinger-IsCore g (added g id h)) (added-IsGood g id h lt i))
]

enter_game-IsGood :
    (game_id session_id : Str) (is_host : Bool) (h : Heap)
    → IsGood h
    → IsGood (enter_game game_id session_id is_host h).1
unfolding enter_game
enter_game-IsGood game_id session_id is_host h i =
    let k = (get_game_by_id game_id h).1 in
    let j = get_game_by_id-IsGood game_id h i in
    elim (Option-cases (get_game_by_id game_id h).0) [
      | inl missing ↦ rw (missing, enter_game) j
      | inr (g, there) ↦
          (let lt = get_game_by_id-lt game_id g h i there in
            rw (there, enter_game) (entered g lt is_host j))
    ]
  where
    entered :
        (g : ℕ)
        → g < (get_game_by_id game_id h).1.next_game
        → (b : Bool) → IsGood (get_game_by_id game_id h).1
        → IsGood
            (if b
              then open_session g session_id (get_game_by_id game_id h).1
              else join_session g session_id (get_game_by_id game_id h).1).1
    entered g lt true j =
        subst IsGood (sym (open_session-state g session_id _))
          (create_new_session-IsGood g session_id _ lt j)
    entered g lt false j = subst IsGood (sym (join_session-state g session_id _)) j

pub get_session_for_peer-IsGood :
    (params : Params) (h : Heap) → IsGood h → IsGood (get_session_for_peer params h).1
get_session_for_peer-IsGood params h i = elim (get_session_for_peer-cases params h) [
  | inl (name, missing) ↦ rw missing i
  | inr (g, s, b, goes_on) ↦ rw goes_on (enter_game-IsGood g s b h i)
]

delete_session-IsGood : (g : ℕ) (id : Str) (h : Heap) → IsGood h → IsGood (delete_session g id h)
unfolding delete_session
delete_session-IsGood g id h i = record {
  well = i.well;
  members = i.members;
  fits = i.fits;
  placed = i.placed;
  counted = i.counted;
  issued = i.issued;
  unique = i.unique;
  known = i.known;
  listed = λ q l. elim (Bool-cases (q == g)) [
    | inl here ↦ rw (here, sym ((==_iff q g).0 here)) (i.listed q l)
    | inr other ↦ rw other (i.listed q l)
  ];
  registered = i.registered;
  found = λ q s j l e. elim (Bool-cases (q == g)) [
    | inl here ↦
        i.found q s j l
          (find-erase_from id j s (h.games q).sessions (rw (here, sym ((==_iff q g).0 here)) at e))
    | inr other ↦ i.found q s j l (rw other at e)
  ];
  listening = i.listening;
}

-- A session's game is registered, so its end is never an access through a null pointer.
pub close_session-IsGood :
    (s : ℕ) (h : Heap)
    → s < h.next_session
    → IsGood h
    → ((close_session s h).0 ≡ ok tt) × IsGood (close_session s h).1
close_session-IsGood s h lt i =
    elim (Option-cases (find (h.sessions s).config.game_id h.games_by_id)) [
      | inl gone ↦ absurd (i.known s lt gone)
      | inr (g, there) ↦
          rw (close_session-known s g h there) (refl, delete_session-IsGood g (h.sessions s).id h i)
    ]
