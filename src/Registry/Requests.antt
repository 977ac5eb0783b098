-- ===== src/Registry/Requests.antt =====
-- What a request for a session can come to, in src/game/Registry.cpp.
use helicopter.Base.{◌≡◌, refl, Bool, Option-cases, ◌⊎◌, inl, inr, arith, String, Str, ℕ, some}
use helicopter.Heap.{Heap}
use helicopter.Game.{create_new_session}
use helicopter.Registry.{
  Params, missing_parameter, refused, get_required_parameter, is_host_type, enter_game,
  open_session, join_session, get_session_for_peer,
}

-- A parameter is missing, or the request goes on to the game.
pub get_session_for_peer-cases :
    (params : Params) (h : Heap)
    → ((name : String) × (get_session_for_peer params h ≡ (refused (missing_parameter name), h)))
      ⊎ ((g : Str) × (s : Str) × (b : Bool) × (get_session_for_peer params h ≡ enter_game g s b h))
unfolding get_session_for_peer
get_session_for_peer-cases params h = elim (Option-cases (get_required_parameter "gameId" params)) [
  | inl missing ↦ inl ("gameId", rw (missing, get_session_for_peer) refl)
  | inr (g, a) ↦ elim (Option-cases (get_required_parameter "sessionId" params)) [
    | inl missing ↦ inl ("sessionId", rw (a, missing, get_session_for_peer) refl)
    | inr (s, b) ↦ elim (Option-cases (get_required_parameter "peerType" params)) [
      | inl missing ↦ inl ("peerType", rw (a, b, missing, get_session_for_peer) refl)
      | inr (t, c) ↦
          inr (some g, some s, is_host_type (some t), rw (a, b, c, get_session_for_peer) refl)
    ]
  ]
]

-- Neither way into a session changes more than its making.
pub open_session-state :
    (g : ℕ) (id : Str) (h : Heap) → (open_session g id h).1 ≡ (create_new_session g id h).1
unfolding open_session
open_session-state g id h = elim (Option-cases (create_new_session g id h).0) [
  | inl taken ↦ rw (taken, open_session) refl
  | inr (s, made) ↦ rw (made, open_session) refl
]

pub join_session-state : (g : ℕ) (id : Str) (h : Heap) → (join_session g id h).1 ≡ h
unfolding join_session
join_session-state g id h = ground arith
