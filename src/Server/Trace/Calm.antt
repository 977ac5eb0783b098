-- ===== src/Server/Trace/Calm.antt =====
-- Steps of src/game/ by which no event reaches a queue and none is counted.
use mathlib.Core.Path.{subst}
use mathlib.Core.List.{append-nil}
use helicopter.Base.{
  ℕ, ◌≡◌, refl, sym, ap, ◌∙◌, ◌==◌, Bool, true, false, List, [], ◌∷◌, ◌++◌, ◌⊎◌, inl, inr,
  Option-cases, arith, if◌then◌else◌,
}
use helicopter.Word.{Int64}
use helicopter.Config.{GameConfigDto}
use helicopter.Dto.{MessageDto}
use helicopter.Peer.{Peer, Effect, kick, ping, record_pong, check_pings_rules, invalidate_socket}
use helicopter.Peer.Queue.{arrival}
use helicopter.Session.{Session, report_peer_pong}
use helicopter.Heap.{Heap, session_of, on_peer, queue_to}
use helicopter.Heap.Loops.{on_peer-peers, on_peer-IsFrame}
use helicopter.Members.{set_session, notify_host}
use helicopter.Members.Events.{is_event}
use helicopter.Members.Events.Flow.{events, events-append}
use helicopter.Members.Events.Seen.{
  Clears, queue_to-Appended, invalidate_socket-Clears, check_pings_rules-Clears,
}
use helicopter.Handlers.{relayed}
use helicopter.Server.Rules.{IsFrameRule}
use helicopter.Server.Trace.{waiting}

-- The events that wait for a peer stay, or are dropped with its socket; no session counts one.
pub record IsCalm (h k : Heap) : Type 0 where
  pub calm : (q : ℕ) → (waiting q k ≡ waiting q h) ⊎ (waiting q k ≡ [])
  pub number : (s : ℕ) → (k.sessions s).synchronized_event_id ≡ (h.sessions s).synchronized_event_id

pub IsCalm-refl : (h : Heap) → IsCalm h h
IsCalm-refl h = record { calm = λ q. inl refl; number = λ s. refl }

-- A list that stays or is emptied, twice.
stays_twice :
    (a b c : List MessageDto) → (b ≡ a) ⊎ (b ≡ []) → (c ≡ b) ⊎ (c ≡ []) → (c ≡ a) ⊎ (c ≡ [])
stays_twice a b c (inl e) (inl f) = inl (f ∙ e)
stays_twice a b c (inr e) (inl f) = inr (f ∙ e)
stays_twice a b c e (inr f) = inr f

pub IsCalm-trans : {h k l : Heap} → IsCalm h k → IsCalm k l → IsCalm h l
IsCalm-trans {h} {k} {l} a b = record {
  calm = λ q. stays_twice (waiting q h) (waiting q k) (waiting q l) (a.calm q) (b.calm q);
  number = λ s. b.number s ∙ a.number s;
}

pub appended-waiting :
    (m : MessageDto) (a b : List MessageDto)
    → (b ≡ a ++ m ∷ []) ⊎ (b ≡ a)
    → is_event m ≡ false
    → events b ≡ events a
unfolding events
appended-waiting m a b (inl e) ev = rw (e, events-append a (m ∷ []), ev) (append-nil (events a))
appended-waiting m a b (inr e) ev = ap events e

pub queue_to-IsCalm :
    (r : ℕ) (m : MessageDto) (h : Heap) → is_event m ≡ false → IsCalm h (queue_to r m h)
unfolding queue_to on_peer
queue_to-IsCalm r m h ev = record {
  calm = λ q. inl (appended-waiting m _ _ (queue_to-Appended r q m h) ev);
  number = λ s. refl;
}

cleared :
    (f : GameConfigDto → Peer → Peer × List Effect)
    → Clears f
    → (b : Bool) (c : GameConfigDto) (p : Peer)
    → let x = if b then (f c p).0 else p in
      (events (arrival x.queue) ≡ events (arrival p.queue)) ⊎ (events (arrival x.queue) ≡ [])
unfolding events
cleared f clears true c p = elim (clears c p) [
  | inl same ↦ inl (ap events same)
  | inr empty ↦ inr (ap events empty)
]
cleared f clears false c p = inl refl

pub on_peer-IsCalm :
    (f : GameConfigDto → Peer → Peer × List Effect)
    → Clears f
    → (r : ℕ) (h : Heap) → IsCalm h (on_peer f r h)
on_peer-IsCalm f clears r h = record {
  calm = λ q.
      subst
        (λ (x : Peer). (events (arrival x.queue) ≡ waiting q h) ⊎ (events (arrival x.queue) ≡ []))
        (sym (on_peer-peers f r q h))
        (cleared f clears (r == q) (session_of h q).config (h.peers q));
  number =
      λ s. ap (λ (ss : ℕ → Session). (ss s).synchronized_event_id) (on_peer-IsFrame f r h).sessions;
}

pub set_session-IsCalm :
    (s : ℕ) (v : Session) (h : Heap)
    → v.synchronized_event_id ≡ (h.sessions s).synchronized_event_id
    → IsCalm h (set_session s v h)
set_session-IsCalm s v h same = record { calm = λ q. inl refl; number = λ t. ground (arith, same) }

pub notify_host-IsCalm :
    (s : ℕ) (m : MessageDto) (h : Heap) → is_event m ≡ false → IsCalm h (notify_host s m h)
unfolding notify_host
notify_host-IsCalm s m h ev = elim (Option-cases (h.sessions s).host) [
  | inl gone ↦ rw (gone, notify_host) (IsCalm-refl h)
  | inr (host, there) ↦ rw (there, notify_host) (queue_to-IsCalm host m h ev)
]

record_pong-queue : (pt t : Int64) (p : Peer) → (record_pong pt t p).queue ≡ p.queue
unfolding record_pong
record_pong-queue pt t p = ground arith

report_peer_pong-number :
    (now id t : Int64) (v : Session)
    → (report_peer_pong now id t v).1.synchronized_event_id ≡ v.synchronized_event_id
unfolding report_peer_pong
report_peer_pong-number now id t v = ground arith

pub IsCalm-IsFrameRule : IsFrameRule IsCalm
unfolding is_event
IsCalm-IsFrameRule = record {
  same = IsCalm-refl;
  chain = λ a b. IsCalm-trans a b;
  relays = λ sender text r h. queue_to-IsCalm r (relayed sender text) h refl;
  kicks = on_peer-IsCalm (λ c p. (p, kick p)) (λ c p. inl refl);
  pongs = λ now me t h.
      (let r = report_peer_pong now (h.peers me).peer_id t (session_of h me) in
        IsCalm-trans
          (set_session-IsCalm (h.peers me).game_session r.1 h
            (report_peer_pong-number now (h.peers me).peer_id t (session_of h me)))
          (on_peer-IsCalm (λ c p. (record_pong r.0 t p, []))
            (λ c p. inl (ap arrival (record_pong-queue r.0 t p))) me _));
  checks = λ t. on_peer-IsCalm (check_pings_rules t) (check_pings_rules-Clears t);
  pings = λ now. on_peer-IsCalm (λ c p. (p, ping now p)) (λ c p. inl refl);
  stamps = λ now s h. set_session-IsCalm s _ h refl;
  rests = λ g h. record { calm = λ q. inl refl; number = λ s. refl };
  buffers = λ me bytes h fits. record { calm = λ q. ground arith; number = λ s. refl };
}

pub invalidated-IsCalm : (r : ℕ) (h : Heap) → IsCalm h (on_peer (λ c p. invalidate_socket p) r h)
invalidated-IsCalm = on_peer-IsCalm (λ c p. invalidate_socket p) invalidate_socket-Clears
