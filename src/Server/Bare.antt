-- ===== src/Server/Bare.antt =====
-- What the registry and the games of src/game/ do besides sessions and peers: games are started, found
-- and given pingers, and sessions are entered in a game's map and taken off it.
use helicopter.Base.{
  List, [], ◌∷◌, ◌++◌, ℕ, ◌≤◌, ◌<◌, ◌≡◌, refl, sym, ◌∙◌, Bool, true, false, inl, inr, arith, Str,
  Option-cases, Bool-cases, if◌then◌else◌, ltb, str_eq_inst,
}
use mathlib.Core.Path.{subst}
use helicopter.Dict.{find}
use helicopter.Config.{GameConfigDto, get_game_config}
use helicopter.Session.{Session, make_session}
use helicopter.Heap.{
  Heap, ServerEffect, of_peer, start_pinger, start_socket_error, invalidate_unbound,
}
use helicopter.Game.{launch_pinger, create_new_session, delete_session}
use helicopter.Game.Sessions.{added, create_new_session-eq, create_new_session-exists}
use helicopter.Registry.{
  Params, get_game_by_id, open_session, join_session, enter_game, get_session_for_peer,
  close_session,
}
use helicopter.Registry.Lookup.{get_game_by_id-known, get_game_by_id-missing, get_game_by_id-new}
use helicopter.Registry.Lookup
use helicopter.Registry.Requests.{
  get_session_for_peer-cases, open_session-state, join_session-state,
}
use helicopter.Server.{start, is_of_peer}
use helicopter.Heap.Starts.{started, starts_of, started-append}

-- A session as it is made.
abbrev pub IsNew : Session → Type 0
IsNew v = (id : Str) × (c : GameConfigDto) × (v ≡ make_session id c)

-- Peers and sessions are left alone, but that new sessions may be made.
pub record IsBare (h k : Heap) : Type 0 where
  pub peers : k.peers ≡ h.peers
  pub next_peer : k.next_peer ≡ h.next_peer
  pub next_session : h.next_session ≤ k.next_session
  pub sessions : (s : ℕ) → s < h.next_session → k.sessions s ≡ h.sessions s
  pub senders : (q : ℕ) → started q k.effects ≡ started q h.effects
  pub made : (s : ℕ) → h.next_session ≤ s → s < k.next_session → IsNew (k.sessions s)

IsBare-refl : (h : Heap) → IsBare h h
IsBare-refl h = record {
  peers = refl;
  next_peer = refl;
  next_session = omega arith;
  sessions = λ s lt. refl;
  senders = λ q. refl;
  made = λ s le lt. absurd (omega arith);
}

IsBare-trans : {h k l : Heap} → IsBare h k → IsBare k l → IsBare h l
IsBare-trans {h} {k} {l} a b = record {
  peers = b.peers ∙ a.peers;
  next_peer = b.next_peer ∙ a.next_peer;
  next_session = omega (arith, a.next_session, b.next_session);
  sessions = λ s lt. b.sessions s (omega (arith, a.next_session)) ∙ a.sessions s lt;
  senders = λ q. b.senders q ∙ a.senders q;
  made = λ s le lt. elim (Bool-cases (ltb s k.next_session)) [
    | inl early ↦
        (let less : s < k.next_session = ground arith in
          subst IsNew (sym (b.sessions s less)) (a.made s le less))
    | inr late ↦ b.made s (ground arith) lt
  ];
}

-- Only the games, their map or the effects differ.
games_only :
    (h k : Heap)
    → k.peers ≡ h.peers
    → k.next_peer ≡ h.next_peer
    → k.sessions ≡ h.sessions
    → k.next_session ≡ h.next_session
    → ((q : ℕ) → started q k.effects ≡ started q h.effects)
    → IsBare h k
games_only h k peers next_peer sessions next_session senders = record {
  peers = peers;
  next_peer = next_peer;
  next_session = omega (arith, next_session);
  sessions = λ s lt. rw sessions refl;
  senders = senders;
  made = λ s le lt. absurd (omega (arith, next_session));
}

loose_one : (q : ℕ) (fx : ServerEffect) → is_of_peer fx ≡ false → started q (fx ∷ []) ≡ 0
unfolding is_of_peer started starts_of
loose_one q (of_peer r e) loose = cc
loose_one q (start_pinger g) loose = omega arith
loose_one q (start_socket_error s m b) loose = omega arith
loose_one q (invalidate_unbound s) loose = omega arith

loose-started :
    (q : ℕ) (fx : ServerEffect) (effects : List ServerEffect)
    → is_of_peer fx ≡ false
    → started q (effects ++ fx ∷ []) ≡ started q effects
unfolding is_of_peer
loose-started q fx effects loose =
    omega (arith, started-append q effects (fx ∷ []), loose_one q fx loose)

launch_pinger-IsBare : (g : ℕ) (h : Heap) → IsBare h (launch_pinger g h)
unfolding launch_pinger is_of_peer
launch_pinger-IsBare g h = elim (Bool-cases (h.games g).is_pinger_active) [
  | inl active ↦ rw active (IsBare-refl h)
  | inr idle ↦
      rw idle
        (games_only h _ refl refl refl refl (λ q. loose-started q (start_pinger g) h.effects refl))
]

added-IsBare : (g : ℕ) (id : Str) (h : Heap) → IsBare h (added g id h)
added-IsBare g id h = record {
  peers = refl;
  next_peer = refl;
  next_session = omega arith;
  sessions = λ s lt. ground arith;
  senders = λ q. refl;
  made = λ s le lt. (id, (h.games g).config, ground arith);
}

create_new_session-IsBare : (g : ℕ) (id : Str) (h : Heap) → IsBare h (create_new_session g id h).1
create_new_session-IsBare g id h = elim (Option-cases (find id (h.games g).sessions)) [
  | inr (s, there) ↦ rw (create_new_session-exists g id h there) (IsBare-refl h)
  | inl new ↦
      rw (create_new_session-eq g id h new)
        (IsBare-trans (added-IsBare g id h) (launch_pinger-IsBare g (added g id h)))
]

get_game_by_id-IsBare : (id : Str) (h : Heap) → IsBare h (get_game_by_id id h).1
get_game_by_id-IsBare id h = elim (Option-cases (find id h.games_by_id)) [
  | inr (g, there) ↦ rw (get_game_by_id-known id h there) (IsBare-refl h)
  | inl new ↦ elim (Option-cases (get_game_config id h.configs)) [
    | inl unknown ↦ rw (get_game_by_id-missing id h new unknown) (IsBare-refl h)
    | inr (c, known) ↦
        rw (get_game_by_id-new id h new known)
          (games_only h (Lookup.started c h) refl refl refl refl (λ q. refl))
  ]
]

way-IsBare :
    (g : ℕ) (id : Str) (is_host : Bool) (h : Heap)
    → IsBare h (if is_host then open_session g id h else join_session g id h).1
way-IsBare g id true h =
    subst (IsBare h) (sym (open_session-state g id h)) (create_new_session-IsBare g id h)
way-IsBare g id false h = subst (IsBare h) (sym (join_session-state g id h)) (IsBare-refl h)

enter_game-IsBare :
    (game_id session_id : Str) (is_host : Bool) (h : Heap)
    → IsBare h (enter_game game_id session_id is_host h).1
unfolding enter_game
enter_game-IsBare game_id session_id is_host h = elim (Option-cases (get_game_by_id game_id h).0) [
  | inl missing ↦ rw (missing, enter_game) (get_game_by_id-IsBare game_id h)
  | inr (g, there) ↦
      rw (there, enter_game)
        (IsBare-trans (get_game_by_id-IsBare game_id h) (way-IsBare g session_id is_host _))
]

pub get_session_for_peer-IsBare :
    (params : Params) (h : Heap) → IsBare h (get_session_for_peer params h).1
get_session_for_peer-IsBare params h = elim (get_session_for_peer-cases params h) [
  | inl (name, missing) ↦ rw missing (IsBare-refl h)
  | inr (g, s, b, goes_on) ↦ rw goes_on (enter_game-IsBare g s b h)
]

delete_session-IsBare : (g : ℕ) (id : Str) (h : Heap) → IsBare h (delete_session g id h)
unfolding delete_session
delete_session-IsBare g id h = games_only h _ refl refl refl refl (λ q. refl)

pub close_session-IsBare : (s : ℕ) (h : Heap) → IsBare h (close_session s h).1
unfolding close_session
close_session-IsBare s h =
    let id = (h.sessions s).config.game_id in
    elim (Option-cases (get_game_by_id id h).0) [
      | inl gone ↦ rw (gone, close_session) (get_game_by_id-IsBare id h)
      | inr (g, there) ↦
          rw (there, close_session)
            (IsBare-trans (get_game_by_id-IsBare id h)
              (delete_session-IsBare g (h.sessions s).id _))
    ]

pub start-IsBare : (fx : ServerEffect) (h : Heap) → is_of_peer fx ≡ false → IsBare h (start fx h)
start-IsBare fx h loose =
    games_only h _ refl refl refl refl (λ q. loose-started q fx h.effects loose)
