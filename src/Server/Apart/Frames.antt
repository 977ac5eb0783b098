-- ===== src/Server/Apart/Frames.antt =====
-- What a frame of a peer, in `Peer::readMessage` of src/game/Peer.cpp, leaves alone.
use helicopter.Base.{
  ℕ, ◌^◌, ◌<◌, ◌≡◌, refl, ◌∙◌, some, List, [], ◌∷◌, All, inl, inr, arith, nat_eq, Str,
}
use helicopter.Word.{Int64}
use helicopter.Dict.{Dict, find, values}
use helicopter.Config.{Games}
use helicopter.Dto.{MessageDto}
use helicopter.App.{start_server}
use helicopter.Peer.{Peer, record_pong}
use helicopter.Session.{report_peer_pong}
use helicopter.Heap.{Heap, session_of}
use helicopter.Members.{set_session, get_all_peers, broadcast_synchronized_event}
use helicopter.Members.Joining.{Named}
use helicopter.Handlers.{relayed, retrieve_string, handle_synchronized_event}
use helicopter.Reading.{Mapper, set_buffer, read_message}
use helicopter.Server.{Reach}
use helicopter.Server.Core.{on_peer-IsCore, record_pong-IsKind}
use helicopter.Server.Invariant.{IsGood}
use helicopter.Server.Messages.{IsCore-IsFrameRule}
use helicopter.Server.Methods.{server-IsGood}
use helicopter.Server.Rules.{IsReadRule, IsWithin, for_each_kept}
use helicopter.Server.Receives.{Result-cases}
use helicopter.Server.Reads.{read_message_within, reset-IsWithin}
use helicopter.Server.Apart.{
  IsApart, InSession, IsApart-refl, IsApart-trans, on_peer-IsApart, set_session-IsApart,
  queue_to-IsApart, set_buffer-IsApart,
}

module _ (s : ℕ) where
  IsApart-IsReadRule : IsReadRule (InSession s) (IsApart s)
  IsApart-IsReadRule = record {
    same = IsApart-refl s;
    chain = λ a b. IsApart-trans s a b;
    stays = λ r a own. a.stay r ∙ own;
    relays = λ sender text r h. queue_to-IsApart s (relayed sender text) r h;
    kicks = λ r h. on_peer-IsApart s _ r h (IsCore-IsFrameRule.kicks r h);
    pongs = λ now me t h own.
        (let r = report_peer_pong now (h.peers me).peer_id t (session_of h me) in
          let k = set_session (h.peers me).game_session r.1 h in
          IsApart-trans s (set_session-IsApart s (h.peers me).game_session r.1 h own) (
            on_peer-IsApart s (λ c p. (record_pong r.0 t p, [])) me k
              (on_peer-IsCore _ (record_pong-IsKind r.0 t) me k) own));
    buffers = set_buffer-IsApart s;
  }

  broadcast_synchronized_event-IsApart :
      (sender : Int64) (text : Str) (h : Heap)
      → All (InSession s h) (get_all_peers s h)
      → IsApart s h (broadcast_synchronized_event s sender text h)
  unfolding broadcast_synchronized_event
  broadcast_synchronized_event-IsApart sender text h all =
      IsApart-trans s (set_session-IsApart s s _ h refl) (
        for_each_kept (InSession s) (IsApart s) IsApart-IsReadRule _ (queue_to-IsApart s _) _ _ all)

  handle_synchronized_event-IsApart :
      (me : ℕ) (m : MessageDto) (h : Heap)
      → IsWithin (InSession s) me h
      → IsApart s h (handle_synchronized_event me m h).1
  unfolding handle_synchronized_event
  handle_synchronized_event-IsApart me m h w = elim (Result-cases (retrieve_string m.payload)) [
    | inr (e, bad) ↦ rw (bad, handle_synchronized_event) (IsApart-refl s h)
    | inl (text, there) ↦
        rw (there, handle_synchronized_event, w.own)
          (broadcast_synchronized_event-IsApart (h.peers me).peer_id text h (rw w.own at w.members))
  ]

-- What holds of whatever an id finds holds of all values.
All-values {ℓ} :
    (P : ℕ → Type ℓ) (peers : ℕ → Peer) (n : ℕ) (d : Dict ℕ ℕ)
    → Named peers n d
    → ((id r : ℕ) → find id d ≡ some r → P r)
    → All P (values d)
unfolding find
All-values P peers n [] named all = tt
All-values P peers n ((id, r) ∷ d) named all = (
  all id r (ground arith),
  All-values P peers n d named.3 (λ j q there. all j q (ground (arith, named.2, there))),
)

session-IsWithin :
    (me : ℕ) (h : Heap)
    → me < h.next_peer
    → IsGood h
    → IsWithin (InSession (h.peers me).game_session) me h
session-IsWithin me h here i =
    let s = (h.peers me).game_session in
    let lt = i.placed me here in
    record {
      own = refl;
      members =
          All-values (InSession s h) h.peers h.next_peer (h.sessions s).peers (i.well s lt).named
            (λ id r there. i.members s r id lt there);
      host = λ q there. i.members s q (h.peers q).peer_id lt (rw there at ((i.well s lt).host_in));
    }

-- In every state that the server gets to, with fewer than 2 ^ 64 peers in all: whatever frame a peer's
-- socket receives, peers of other sessions stay as they are, nothing is handed to the executor for them
-- or done to their sockets, the other sessions stay as they are, and so do the registry and the games.
pub read_message-IsApart :
    (mapper : Mapper) (games : Games) (now : Int64) (me : ℕ) (frame : List ℕ) {h : Heap}
    → Reach mapper (start_server games) h
    → h.next_peer < 2 ^ 64
    → me < h.next_peer
    → IsApart (h.peers me).game_session h (read_message mapper now me frame h).1
read_message-IsApart mapper games now me frame {h} reach room here =
    let s = (h.peers me).game_session in
    let w = session-IsWithin me h here (server-IsGood mapper games reach room) in
    read_message_within (InSession s) (IsApart s) (IsApart-IsReadRule s) mapper now me frame h w
      (λ x end reads code. handle_synchronized_event-IsApart s me x (set_buffer me [] h) (
        reset-IsWithin (InSession s) (IsApart s) (IsApart-IsReadRule s) me h
          (set_buffer-IsApart s me [] h (omega arith) refl) w))
