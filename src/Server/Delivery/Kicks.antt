-- ===== src/Server/Delivery/Kicks.antt =====
-- A kick through the server of src/game/, from the host's frames to what happens on the socket of a peer.
use mathlib.Core.List.{flatten, append_assoc}
use helicopter.Base.{
  ℕ, suc, false, ◌≤◌, ◌<◌, ◌==◌, ◌≡◌, ◌≢◌, refl, ap, ◌∙◌, true, false, Option, none, some, List, [],
  ◌∷◌, ◌++◌, map, inl, inr, nat_eq, count, length, All, Bool-cases, ==_iff, if◌then◌else◌, zero,
}
use helicopter.Word.{Int64}
use helicopter.Dict.{find}
use helicopter.Dto.{
  MessageDto, Payload, make_message, outgoing_client_kicked, incoming_host_kick_clients,
}
use helicopter.Peer.{
  Peer, Effect, SocketCall, text_frame, invalidate_connection, effect_calls, kick,
}
use helicopter.Heap.{Heap, ServerEffect, of_peer}
use helicopter.Members.{is_host_peer, get_host}
use helicopter.Handlers.{ok, retrieve_ids, dispatch}
use helicopter.Handlers.Answers.{answer_calls}
use helicopter.Handlers.Kick.{
  kicks, refusal, handle_kick_message-by_host, handle_kick_message-refused,
}
use helicopter.Reading.{Mapper, parsed, read_message}
use helicopter.Reading.Frames.{buffer, limit, IsPart, read_frames}
use helicopter.Server.Apart.{effects_of, effects_of-append, effects_of-other}
use helicopter.Server.Invariant.{IsGood}
use helicopter.Server.Delivery.{dispatched}
use helicopter.Server.Delivery.Direct.{no_ids-times_named, count-get_peers}
use helicopter.Server.Delivery.Started.{effects_of-own}
use helicopter.Server.Delivery.Named.{times_named}

-- What coroutines do on their socket, one after the other, if no call fails.
unfoldable pub calls : List Effect → List SocketCall
calls [] = []
calls (e ∷ fx) = effect_calls e ++ calls fx

-- What is done on the socket of peer `q`, but for its sender.
abbrev pub calls_of : ℕ → List ServerEffect → List SocketCall
calls_of q fx = calls (effects_of q fx)

calls-append : (a b : List Effect) → calls (a ++ b) ≡ calls a ++ calls b
unfolding calls
calls-append [] b = refl
calls-append (e ∷ a) b = rw (calls-append a b, append_assoc) refl

-- The list so many times.
unfoldable pub copies {ℓ} : {A : Type ℓ} → ℕ → List A → List A
copies zero xs = []
copies (suc n) xs = xs ++ copies n xs

-- The peer is told, and then its connection is invalidated.
abbrev pub kicked_calls : List SocketCall
kicked_calls =
    text_frame (make_message outgoing_client_kicked (Payload.text "you were kicked."))
    ∷ invalidate_connection
    ∷ []

calls_of-append :
    (q : ℕ) (a b : List ServerEffect) → calls_of q (a ++ b) ≡ calls_of q a ++ calls_of q b
calls_of-append q a b =
    rw (effects_of-append q a b) (calls-append (effects_of q a) (effects_of q b))

kick-calls :
    (q : ℕ) (p : Peer) {socket : ℕ}
    → p.socket ≡ some socket
    → calls_of q (map (of_peer q) (kick p)) ≡ kicked_calls
unfolding kick effect_calls calls
kick-calls q p there = ap calls (effects_of-own q (kick p)) ∙ rw (there, kick) refl

-- A kick of another peer.
apart-calls : (q r : ℕ) (fx : List Effect) → (r == q) ≡ false → calls_of q (map (of_peer r) fx) ≡ []
unfolding calls
apart-calls q r fx apart = ap calls (effects_of-other q r fx apart)

-- One round of the loop, as the peer `q` meets it.
round-calls :
    (sender : Int64) (q r : ℕ) (peers : ℕ → Peer) {socket : ℕ}
    → (peers q).peer_id ≢ sender
    → (peers q).socket ≡ some socket
    → calls_of q (if (peers r).peer_id == sender then [] else map (of_peer r) (kick (peers r)))
      ≡ (if r == q then kicked_calls else [])
unfolding effects_of calls
round-calls sender q r peers other there = elim (Bool-cases (r == q)) [
  | inl own ↦ elim (Bool-cases ((peers q).peer_id == sender)) [
    | inl self ↦ absurd (other ((==_iff _ _).0 self))
    | inr apart ↦ rw (own, (==_iff r q).0 own, apart) (kick-calls q (peers q) there)
  ]
  | inr away ↦ rw away (elim (Bool-cases ((peers r).peer_id == sender)) [
    | inl self ↦ rw self refl
    | inr apart ↦ rw apart (apart-calls q r (kick (peers r)) away)
  ])
]

count-copies {ℓ} :
    {A : Type ℓ} (q r : ℕ) (rs : List ℕ) (xs : List A)
    → (if r == q then xs else []) ++ copies (count q rs) xs ≡ copies (count q (r ∷ rs)) xs
unfolding copies
count-copies q r rs xs = elim (Bool-cases (r == q)) [
  | inl own ↦ rw own refl
  | inr apart ↦ rw apart refl
]

kicks-calls_of :
    (sender : Int64) (q : ℕ) (rs : List ℕ) (peers : ℕ → Peer) {socket : ℕ}
    → (peers q).peer_id ≢ sender
    → (peers q).socket ≡ some socket
    → calls_of q (kicks sender peers rs) ≡ copies (count q rs) kicked_calls
unfolding kicks copies effects_of calls
kicks-calls_of sender q [] peers other there = refl
kicks-calls_of sender q (r ∷ rs) peers other there =
    calls_of-append q (if (peers r).peer_id == sender then [] else map (of_peer r) (kick (peers r)))
      (kicks sender peers rs)
    ∙ rw (round-calls sender q r peers other there, kicks-calls_of sender q rs peers other there)
        (count-copies q r rs kicked_calls)

-- From a good state: a kick that the host's socket receives in frames within the limit is answered by
-- nothing. For each other member of the session that it names and that has its socket, it hands over
-- as many kicks as it names it, after what was handed over for it before; each of them, if no call
-- fails, sends the notice to the member and then invalidates its connection.
pub kick-calls_of :
    (mapper : Mapper) (now : Int64) (me q socket : ℕ) (fs : List (List ℕ)) (m : MessageDto)
    (ids : List (Option Int64)) {n : ℕ} (h : Heap)
    → me < h.next_peer
    → IsGood h
    → All IsPart fs
    → buffer me h ≡ []
    → length (flatten fs) ≤ limit me h
    → mapper.read_from_string (flatten fs) ≡ parsed (some m)
    → m.code ≡ some incoming_host_kick_clients
    → retrieve_ids m.payload ≡ ok (some ids)
    → is_host_peer (h.peers me).game_session (h.peers me).peer_id h ≡ true
    → find (h.peers q).peer_id (h.sessions (h.peers me).game_session).peers ≡ some q
    → (h.peers q).peer_id ≢ (h.peers me).peer_id
    → (h.peers q).socket ≡ some socket
    → times_named (h.peers q).peer_id ids ≡ suc n
    → let (reply, k) = read_message mapper now me [] (read_frames mapper now me fs h) in
      (reply ≡ ok none)
      × (calls_of q k.effects ≡ calls_of q h.effects ++ copies (suc n) kicked_calls)
unfolding dispatch
kick-calls_of mapper now me q socket fs m ids h here i parts empty fits reads code there host member
      other open_socket times =
    let s = (h.peers me).game_session in
    let named = count-get_peers s q ids h (i.placed me here) i member in
    rw
      (
        dispatched mapper now me fs m incoming_host_kick_clients h parts empty fits reads code,
        handle_kick_message-by_host me m h host there (no_ids-times_named _ ids times),
      )
      (
        refl,
        calls_of-append q h.effects _
            ∙ rw (kicks-calls_of (h.peers me).peer_id q _ h.peers other open_socket, named, times)
                refl,
      )

-- In any state: a kick that the socket of a peer that is not the host receives in frames within the limit
-- is answered on that socket with an error, which says that there is no host or that only the host can
-- kick, and the connection stays open; and the state is as before the first frame.
pub kick-refused :
    (mapper : Mapper) (now : Int64) (me : ℕ) {socket : ℕ} (fs : List (List ℕ)) (m : MessageDto)
    (h : Heap)
    → All IsPart fs
    → buffer me h ≡ []
    → length (flatten fs) ≤ limit me h
    → mapper.read_from_string (flatten fs) ≡ parsed (some m)
    → m.code ≡ some incoming_host_kick_clients
    → is_host_peer (h.peers me).game_session (h.peers me).peer_id h ≡ false
    → (h.peers me).socket ≡ some socket
    → let (reply, k) = read_message mapper now me [] (read_frames mapper now me fs h) in
      (answer_calls reply ≡ text_frame (refusal (get_host (h.peers me).game_session h)) ∷ [])
      × (k ≡ h)
unfolding dispatch
kick-refused mapper now me fs m h parts empty fits reads code other there =
    rw (dispatched mapper now me fs m incoming_host_kick_clients h parts empty fits reads code)
      (handle_kick_message-refused me m h other there)
