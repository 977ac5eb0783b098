-- ===== src/Server/Receives.antt =====
-- What the handlers of src/game/Peer.cpp do to the state, as far as it is a matter of single relays,
-- kicks and pongs: a relation between states that these keep is kept by every handler, but for
-- synchronized events.
use helicopter.Base.{
  ℕ, All, arith, nat_eq, ◌==◌, ◌≡◌, refl, ap, ◌∙◌, Bool, true, false, Option, none, some, List, [],
  ◌∷◌, Str, if◌then◌else◌, Bool-cases, Option-cases, ◌⊎◌, inl, inr,
}
use mathlib.Core.Path.{subst}
use helicopter.Word.{Int64}
use helicopter.Dict.{Dict, find, values}
use helicopter.Server.Rules.{IsReadRule, IsWithin, All-stays, for_each_kept}
use helicopter.Dto.{
  MessageDto, MessageCodes, Payload, incoming_pong, incoming_broadcast, incoming_direct_message,
  incoming_synchronized_event, incoming_host_kick_clients, incoming_client_message,
}
use helicopter.Heap.{Heap}
use helicopter.Members.{get_host, get_all_peers, get_peers, lookup_peers}
use helicopter.Handlers.{
  Fault, Result, ok, fault, Reply, relay_to, broadcast_to, retrieve_string, retrieve_int64,
  retrieve_direct, retrieve_ids, unless_sender, no_ids, kick_ids, tell_host, handle_pong,
  handle_broadcast, handle_direct_message, handle_synchronized_event, handle_kick_message,
  handle_client_message, dispatch, handle_message,
}

pub All-find {ℓ} :
    (P : ℕ → Type ℓ) (id r : ℕ) (d : Dict ℕ ℕ) → find id d ≡ some r → All P (values d) → P r
unfolding find
All-find P id r [] e all = absurd (cc e)
All-find P id r ((j, q) ∷ d) e all = elim (Bool-cases (j == id)) [
  | inl own ↦ subst P (ground (arith, e, own)) all.0
  | inr other ↦ All-find P id r d (rw other at e) all.1
]

pub Result-cases {ℓ} :
    {A : Type ℓ} (x : Result A) → ((a : A) × (x ≡ ok a)) ⊎ ((e : Fault) × (x ≡ fault e))
Result-cases (ok a) = inl (a, refl)
Result-cases (fault e) = inr (e, refl)

module _ (Touches : Heap → ℕ → Type 0) (R : Heap → Heap → Type 0)
    (rule : IsReadRule Touches R) where
  -- A state that a computation of state `h` may end in, if it does.
  abbrev Kept : Heap → Result Heap → Type 0
  Kept h (fault e) = Unit {0}
  Kept h (ok k) = R h k

  relay_to-Kept :
      (sender : Int64) (t : Result Str) (r : ℕ) (h : Heap)
      → Touches h r
      → Kept h (relay_to sender t r h)
  unfolding relay_to
  relay_to-Kept sender (fault e) r h a = tt
  relay_to-Kept sender (ok text) r h a = rule.relays sender text r h a

  unless-Kept :
      (b : Bool) (sender : Int64) (t : Result Str) (r : ℕ) (h : Heap)
      → Touches h r
      → Kept h (if b then ok h else relay_to sender t r h)
  unless-Kept true sender t r h a = rule.same h
  unless-Kept false sender t r h a = relay_to-Kept sender t r h a

  broadcast_to_kept :
      (sender : Int64) (payload : Option Payload) (rs : List ℕ) (h : Heap)
      → All (Touches h) rs
      → R h (broadcast_to sender payload rs h).1
  unfolding broadcast_to
  broadcast_to_kept sender payload [] h all = rule.same h
  broadcast_to_kept sender payload (r ∷ rs) h all =
      elim (if (h.peers r).peer_id == sender
            then ok h
            else relay_to sender (retrieve_string payload) r h)
          as (λ x.
            Kept h x
            → R h
                (elim x as (λ x'. Reply) [
                  | fault e ↦ (fault e, h)
                  | ok k ↦ broadcast_to sender payload rs k
                ]).1) [
                  | fault e ↦ λ kept. rule.same h
                  | ok k ↦ λ kept. rule.chain kept (
                      broadcast_to_kept sender payload rs k
                        (All-stays Touches R rule rs kept all.1))
                ]
        (unless-Kept ((h.peers r).peer_id == sender) sender (retrieve_string payload) r h all.0)

  handle_broadcast_kept :
      (me : ℕ) (m : MessageDto) (h : Heap) → IsWithin Touches me h → R h (handle_broadcast me m h).1
  unfolding handle_broadcast
  handle_broadcast_kept me m h w = broadcast_to_kept (h.peers me).peer_id m.payload _ h w.members

  unless_sender_kept :
      (sender : Int64) (body : ℕ → Heap → Heap)
      → ((r : ℕ) (h : Heap) → Touches h r → R h (body r h))
      → (r : ℕ) (h : Heap) → Touches h r
      → R h (unless_sender sender body r h)
  unfolding unless_sender
  unless_sender_kept sender body core r h a = elim (Bool-cases ((h.peers r).peer_id == sender)) [
    | inl own ↦ rw own (rule.same h)
    | inr other ↦ rw other (core r h a)
  ]

  -- The code refuses the message, or goes on to a state that keeps the core.
  choice_kept : (b : Bool) (h : Heap) (x y : Reply) → R h x.1 → R h y.1 → R h (if b then x else y).1
  choice_kept true h x y c d = c
  choice_kept false h x y c d = d

  -- The peers that ids find are members.
  lookup_peers-Touches :
      (ids : List (Option Int64)) (d : Dict ℕ ℕ) (h : Heap)
      → All (Touches h) (values d)
      → All (Touches h) (lookup_peers ids d)
  unfolding lookup_peers
  lookup_peers-Touches [] d h all = tt
  lookup_peers-Touches (none ∷ ids) d h all = lookup_peers-Touches ids d h all
  lookup_peers-Touches (some id ∷ ids) d h all = elim (Option-cases (find id d)) [
    | inl gone ↦ rw (gone, lookup_peers) (lookup_peers-Touches ids d h all)
    | inr (r, there) ↦
        rw (there, lookup_peers)
          (All-find (Touches h) id r d there all, lookup_peers-Touches ids d h all)
  ]

  get_peers-Touches :
      (s : ℕ) (ids : Option (List (Option Int64))) (h : Heap)
      → All (Touches h) (get_all_peers s h)
      → All (Touches h) (get_peers s ids h)
  unfolding get_peers
  get_peers-Touches s none h all = tt
  get_peers-Touches s (some ids) h all = lookup_peers-Touches ids (h.sessions s).peers h all

  handle_direct_message_kept :
      (me : ℕ) (m : MessageDto) (h : Heap)
      → IsWithin Touches me h
      → R h (handle_direct_message me m h).1
  unfolding handle_direct_message
  handle_direct_message_kept me m h w = elim (Result-cases (retrieve_direct m.payload)) [
    | inr (e, bad) ↦ rw (bad, handle_direct_message) (rule.same h)
    | inl (none, null) ↦ rw (null, handle_direct_message) (rule.same h)
    | inl (some dm, there) ↦
        rw (there, handle_direct_message)
          (choice_kept (no_ids dm.peer_ids) h _ _ (rule.same h) (
            for_each_kept Touches R rule _
              (unless_sender_kept (h.peers me).peer_id _ (rule.relays (h.peers me).peer_id dm.text))
              _ h (get_peers-Touches _ dm.peer_ids h w.members)))
  ]

  kick_ids_kept :
      (me : ℕ) (m : MessageDto) (h : Heap) → IsWithin Touches me h → R h (kick_ids me m h).1
  unfolding kick_ids
  kick_ids_kept me m h w = elim (Result-cases (retrieve_ids m.payload)) [
    | inr (e, bad) ↦ rw (bad, kick_ids) (rule.same h)
    | inl (ids, there) ↦
        rw (there, kick_ids)
          (choice_kept (no_ids ids) h _ _ (rule.same h) (
            for_each_kept Touches R rule _ (unless_sender_kept (h.peers me).peer_id _ rule.kicks) _
              h (get_peers-Touches _ ids h w.members)))
  ]

  handle_kick_message_kept :
      (me : ℕ) (m : MessageDto) (h : Heap)
      → IsWithin Touches me h
      → R h (handle_kick_message me m h).1
  unfolding handle_kick_message
  handle_kick_message_kept me m h w = elim (Option-cases (get_host (h.peers me).game_session h)) [
    | inl gone ↦ rw (gone, handle_kick_message) (rule.same h)
    | inr (host, there) ↦
        rw (there, handle_kick_message) (choice_kept _ h _ _ (kick_ids_kept me m h w) (rule.same h))
  ]

  tell_host_kept :
      (host me : ℕ) (m : MessageDto) (h : Heap) → Touches h host → R h (tell_host host me m h).1
  unfolding tell_host relay_to
  tell_host_kept host me m h a = elim (Result-cases (retrieve_string m.payload)) [
    | inr (e, bad) ↦ rw (bad, tell_host) (rule.same h)
    | inl (text, there) ↦ rw (there, tell_host) (rule.relays (h.peers me).peer_id text host h a)
  ]

  handle_client_message_kept :
      (me : ℕ) (m : MessageDto) (h : Heap)
      → IsWithin Touches me h
      → R h (handle_client_message me m h).1
  unfolding handle_client_message
  handle_client_message_kept me m h w = elim (Option-cases (get_host (h.peers me).game_session h)) [
    | inl gone ↦ rw (gone, handle_client_message) (rule.same h)
    | inr (host, there) ↦
        rw (there, handle_client_message)
          (choice_kept _ h _ _ (rule.same h) (tell_host_kept host me m h (w.host host there)))
  ]

  handle_pong_kept :
      (now : Int64) (me : ℕ) (m : MessageDto) (h : Heap)
      → Touches h me
      → R h (handle_pong now me m h).1
  unfolding handle_pong
  handle_pong_kept now me m h a = elim (Result-cases (retrieve_int64 m.payload)) [
    | inr (e, bad) ↦ rw (bad, handle_pong) (rule.same h)
    | inl (none, null) ↦ rw (null, handle_pong) (rule.same h)
    | inl (some t, there) ↦ rw (there, handle_pong) (rule.pongs now me t h a)
  ]

  dispatch_kept :
      (c : MessageCodes) (now : Int64) (me : ℕ) (m : MessageDto) (h : Heap)
      → IsWithin Touches me h
      → (c ≡ incoming_synchronized_event → R h (handle_synchronized_event me m h).1)
      → R h (dispatch c now me m h).1
  unfolding dispatch
  dispatch_kept incoming_pong now me m h w event = handle_pong_kept now me m h w.own
  dispatch_kept incoming_broadcast now me m h w event = handle_broadcast_kept me m h w
  dispatch_kept incoming_direct_message now me m h w event = handle_direct_message_kept me m h w
  dispatch_kept incoming_synchronized_event now me m h w event = event refl
  dispatch_kept incoming_host_kick_clients now me m h w event = handle_kick_message_kept me m h w
  dispatch_kept incoming_client_message now me m h w event = handle_client_message_kept me m h w
  dispatch_kept _ now me m h w event = rule.same h

  pub handle_message_kept :
      (now : Int64) (me : ℕ) (m : Option MessageDto) (h : Heap)
      → IsWithin Touches me h
      → ((x : MessageDto)
          → m ≡ some x
          → x.code ≡ some incoming_synchronized_event
          → R h (handle_synchronized_event me x h).1)
      → R h (handle_message now me m h).1
  unfolding handle_message
  handle_message_kept now me none h w event = rule.same h
  handle_message_kept now me (some m) h w event = elim (Option-cases m.code) [
    | inl bare ↦ rw (bare, handle_message) (rule.same h)
    | inr (c, there) ↦
        rw (there, handle_message)
          (dispatch_kept c now me m h w (λ e. event m refl (there ∙ ap some e)))
  ]
