-- ===== src/Handlers/Kick.antt =====
-- Kicking, in src/game/Peer.cpp: only the host may, and it kicks exactly whom it names.
use mathlib.Core.List.{append_assoc, append-nil}
use helicopter.Base.{
  ℕ, ◌≡◌, refl, ap, ◌∙◌, fun_ext, true, false, Option, none, some, List, [], ◌∷◌, ◌++◌, map, arith,
  ◌==◌, if◌then◌else◌, for_each, update, Bool-cases, Option-cases, inl, inr,
}
use helicopter.Word.{Int64}
use helicopter.Dto.{MessageDto, invalid_state, operation_not_permitted}
use helicopter.Peer.{Peer, kick, text_frame}
use helicopter.Handlers.Answers.{answer_calls, error_message, send_error_async-calls}
use helicopter.Heap.{Heap, ServerEffect, of_peer, on_peer}
use helicopter.Members.{get_peers, get_host, is_host_peer}
use helicopter.Handlers.{ok, retrieve_ids, unless_sender, no_ids, handle_kick_message, kick_ids}

update_self {ℓ} : {A : Type ℓ} (f : ℕ → A) (r : ℕ) → update f r (f r) ≡ f
update_self f r = fun_ext (λ q. ground arith)

-- The coroutines that a kick of the peers in a list starts, the sender passed over.
unfoldable pub kicks : Int64 → (ℕ → Peer) → List ℕ → List ServerEffect
kicks sender peers [] = []
kicks sender peers (r ∷ rs) =
    (if (peers r).peer_id == sender then [] else map (of_peer r) (kick (peers r)))
    ++ kicks sender peers rs

kick_round :
    (sender : Int64) (r : ℕ) (h : Heap)
    → unless_sender sender (on_peer (λ c p. (p, kick p))) r h ≡ record h {
      effects =
          h.effects
          ++ (if (h.peers r).peer_id == sender then [] else map (of_peer r) (kick (h.peers r)));
    }
unfolding unless_sender on_peer
kick_round sender r h = elim (Bool-cases ((h.peers r).peer_id == sender)) [
  | inl self ↦ rw (self, append-nil h.effects) refl
  | inr other ↦ rw (other, update_self h.peers r) refl
]

kick_loop :
    (sender : Int64) (rs : List ℕ) (h : Heap)
    → for_each rs (unless_sender sender (on_peer (λ c p. (p, kick p)))) h
      ≡ record h { effects = h.effects ++ kicks sender h.peers rs }
unfolding for_each kicks
kick_loop sender [] h = rw (append-nil h.effects) refl
kick_loop sender (r ∷ rs) h =
    ap (for_each rs (unless_sender sender (on_peer (λ c p. (p, kick p))))) (kick_round sender r h)
    ∙ kick_loop sender rs _
    ∙ rw append_assoc refl

-- What a peer that may not kick is told: that there is no host, or that only the host can kick.
abbrev pub refusal : Option ℕ → MessageDto
refusal none = error_message invalid_state "There is no game host."
refusal (some host) = error_message operation_not_permitted "Only Host peer can kick others."

pub handle_kick_message-refused :
    (me : ℕ) (m : MessageDto) {socket : ℕ} (h : Heap)
    → is_host_peer (h.peers me).game_session (h.peers me).peer_id h ≡ false
    → (h.peers me).socket ≡ some socket
    → let (reply, k) = handle_kick_message me m h in
      (answer_calls reply ≡ text_frame (refusal (get_host (h.peers me).game_session h)) ∷ [])
      × (k ≡ h)
unfolding handle_kick_message is_host_peer
handle_kick_message-refused me m h e there =
    let p = h.peers me in
    elim (Option-cases (get_host p.game_session h)) [
      | inl gone ↦
          rw (gone, handle_kick_message)
            (send_error_async-calls invalid_state "There is no game host." false p there, refl)
      | inr (host, known) ↦
          rw (known, handle_kick_message)
            (rw (rw (known, is_host_peer) at e) (
              send_error_async-calls operation_not_permitted "Only Host peer can kick others." false
                  p there,
              refl,
            ))
    ]

kick_ids-eq :
    (me : ℕ) (m : MessageDto) {ids : Option (List (Option Int64))} (h : Heap)
    → retrieve_ids m.payload ≡ ok ids
    → no_ids ids ≡ false
    → kick_ids me m h ≡ (
      ok none,
      for_each
          (get_peers (h.peers me).game_session ids h)
          (unless_sender (h.peers me).peer_id (on_peer (λ c p. (p, kick p))))
          h,
    )
unfolding kick_ids
kick_ids-eq me m h r some_ids = rw (r, kick_ids) (rw some_ids refl)

allowed :
    (me : ℕ) (m : MessageDto) (h : Heap)
    → is_host_peer (h.peers me).game_session (h.peers me).peer_id h ≡ true
    → handle_kick_message me m h ≡ kick_ids me m h
unfolding handle_kick_message is_host_peer
allowed me m h e = ground arith

-- The host's kick of peers that it names calls the kick of each of them that the session has, as
-- often as it is named and in that order, but never of the host; nothing else changes.
pub handle_kick_message-by_host :
    (me : ℕ) (m : MessageDto) {ids : Option (List (Option Int64))} (h : Heap)
    → is_host_peer (h.peers me).game_session (h.peers me).peer_id h ≡ true
    → retrieve_ids m.payload ≡ ok ids
    → no_ids ids ≡ false
    → let named = get_peers (h.peers me).game_session ids h in
      handle_kick_message me m h
      ≡ (ok none, record h { effects = h.effects ++ kicks (h.peers me).peer_id h.peers named })
handle_kick_message-by_host me m {ids} h e r some_ids =
    allowed me m h e
    ∙ kick_ids-eq me m h r some_ids
    ∙ ap (λ k. (ok none, k)) (kick_loop (h.peers me).peer_id _ h)
