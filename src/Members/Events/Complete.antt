-- ===== src/Members/Events/Complete.antt =====
-- A member of a session of src/game/Session.cpp whose queue has room misses no synchronized event.
use mathlib.Core.List.{append_assoc, reverse-cons}
use helicopter.Base.{
  ℕ, ◌+◌, ◌^◌, ◌<◌, ◌≡◌, refl, sym, ap, ◌∙◌, Bool, true, false, not, List, [], ◌∷◌, ◌++◌, Str, ◌==◌,
  if◌then◌else◌, count, IsDistinct, length, ltb, leb, inl, inr, Bool-cases, arith, nat_eq,
}
use helicopter.Word.{Int64}
use helicopter.Config.{GameConfigDto}
use helicopter.Dto.{MessageDto}
use helicopter.Peer.{Peer, Effect, invalidate_socket, check_pings_rules, count_failed}
use helicopter.Peer.Queue.{arrival}
use helicopter.Heap.{Heap, on_peer, queued}
use helicopter.Heap.Loops.{local, on_peer-peers}
use helicopter.Members.{get_all_peers}
use helicopter.Members.Events.{next_event, broadcast_synchronized_event_lem}
use helicopter.Members.Events.Flow.{
  events, events-append, Happening, broadcast, sends, other, joins, leaves, drops, checks, Flow,
  happen, happens, seen,
}
use helicopter.Members.Events.{is_event}
use helicopter.Members.Events.Seen.{queued-eq_room}
use helicopter.Members.Events.Quiet.{entered, sends-seen, queued-seen, joins-seen, leaves-seen}
use helicopter.Members.Events.Good.{members-IsDistinct, happen-IsGood, happen-Counts}
use helicopter.Server.Invariant.{IsGood}

-- The peer's queue takes one more message.
unfoldable pub has_room : ℕ → Heap → Bool
has_room q h =
    let p = h.peers q in
    ltb (length p.queue.items) (h.sessions p.game_session).config.max_queued_messages

-- The check of the peer's pings finds them below the limit of failed ones.
unfoldable pub is_answering : Int64 → ℕ → Heap → Bool
is_answering t q h =
    let p = h.peers q in
    not (leb (h.sessions p.game_session).config.max_failed_pings (count_failed t p).failed_pings)

-- The peer is there for it: a broadcast meets it as a member with room in its queue, a check of its
-- pings finds enough answered, and neither its socket nor its place in memory is taken away.
unfoldable pub attends : ℕ → ℕ → Happening → Flow → Bool
unfolding has_room is_answering
attends s q (broadcast sender text) f =
    if count q (get_all_peers s f.heap) == 0 then false else has_room q f.heap
attends s q (sends r) f = true
attends s q (other r m e) f = true
attends s q (joins socket is_host) f = not (q == f.heap.next_peer)
attends s q (leaves id) f = true
attends s q (drops r) f = not (r == q)
attends s q (checks t r) f = if r == q then is_answering t q f.heap else true

-- The peer is there for all of it.
abbrev pub Attends : ℕ → ℕ → List Happening → Flow → Type 0
Attends s q [] f = Unit {0}
Attends s q (e ∷ es) f = (attends s q e f ≡ true) × Attends s q es (happen s e f)

-- What the peer has seen is the log from some event on.
abbrev pub IsCaughtUp : List MessageDto → ℕ → Flow → Type 0
IsCaughtUp before q f = f.log ≡ before ++ seen q f

pub append_one-arrival :
    (m : MessageDto) (h : Heap) (q : ℕ)
    → has_room q h ≡ true
    → arrival (local (queued m) h.sessions (h.peers q)).queue ≡ arrival (h.peers q).queue ++ m ∷ []
unfolding has_room
append_one-arrival m h q room =
    let p = h.peers q in
    ap (λ (r : Bool × Peer × List Effect). arrival r.1.queue)
      (queued-eq_room (h.sessions p.game_session).config m p room)
    ∙ reverse-cons m p.queue.items

events-append_event :
    (m : MessageDto) (ms : List MessageDto)
    → is_event m ≡ true
    → events (ms ++ m ∷ []) ≡ events ms ++ m ∷ []
unfolding events
events-append_event m ms e = events-append ms (m ∷ []) ∙ rw e refl

broadcast-seen :
    (s q : ℕ) (sender : Int64) (text : Str) (f : Flow)
    → IsDistinct (get_all_peers s f.heap)
    → (count q (get_all_peers s f.heap) == 0) ≡ false
    → has_room q f.heap ≡ true
    → seen q (happen s (broadcast sender text) f) ≡ seen q f ++ next_event s sender text f.heap ∷ []
unfolding happen is_event
broadcast-seen s q sender text f d member room =
    let m = next_event s sender text f.heap in
    let p = f.heap.peers q in
    rw ((broadcast_synchronized_event_lem s q sender text f.heap d).1, member)
      (ap (λ (a : List MessageDto). events (f.taken q ++ a)) (append_one-arrival m f.heap q room)
        ∙ rw (← append_assoc (f.taken q) (arrival p.queue) (m ∷ []))
            (events-append_event m (f.taken q ++ arrival p.queue) refl))

entered-seen :
    (socket s q : ℕ) (f : Flow)
    → (q == f.heap.next_peer) ≡ false
    → seen q (entered socket s f) ≡ seen q f
entered-seen socket s q f old = rw old refl

-- What is done to another peer is not seen.
apart-seen :
    (g : GameConfigDto → Peer → Peer × List Effect) (q r : ℕ) (f : Flow)
    → (r == q) ≡ false
    → seen q (record f { heap = on_peer g r f.heap }) ≡ seen q f
apart-seen g q r f apart = rw (on_peer-peers g r q f.heap, apart) refl

stays :
    (before : List MessageDto) {x y log : List MessageDto}
    → y ≡ x
    → log ≡ before ++ x
    → log ≡ before ++ y
stays before e c = c ∙ ap (λ (l : List MessageDto). before ++ l) (sym e)

not-true : {b : Bool} → not b ≡ true → b ≡ false
not-true {b} e = ground (arith, e)

checked-queue :
    (t : Int64) (c : GameConfigDto) (p : Peer)
    → leb c.max_failed_pings (count_failed t p).failed_pings ≡ false
    → (check_pings_rules t c p).0.queue ≡ p.queue
unfolding check_pings_rules count_failed
checked-queue t c p below = ground (arith, below)

checks-seen :
    (t : Int64) (q r : ℕ) (f : Flow)
    → (if r == q then is_answering t q f.heap else true) ≡ true
    → seen q (record f { heap = on_peer (check_pings_rules t) r f.heap }) ≡ seen q f
unfolding is_answering
checks-seen t q r f there = elim (Bool-cases (r == q)) [
  | inl same ↦
      let p = f.heap.peers q in
      rw
        (
          on_peer-peers (check_pings_rules t) r q f.heap,
          same,
          checked-queue t (f.heap.sessions p.game_session).config p (not-true (rw same at there)),
        )
        refl
  | inr apart ↦ apart-seen (check_pings_rules t) q r f apart
]

broadcast-IsCaughtUp :
    (before : List MessageDto) (s q : ℕ) (sender : Int64) (text : Str) (f : Flow)
    → IsDistinct (get_all_peers s f.heap)
    → attends s q (broadcast sender text) f ≡ true
    → IsCaughtUp before q f
    → IsCaughtUp before q (happen s (broadcast sender text) f)
unfolding attends happen
broadcast-IsCaughtUp before s q sender text f d there c =
    let m = next_event s sender text f.heap in
    elim (Bool-cases (count q (get_all_peers s f.heap) == 0)) [
      | inl gone ↦ ground (arith, there, gone)
      | inr member ↦
          ap (λ (l : List MessageDto). l ++ m ∷ []) c
          ∙ append_assoc before (seen q f) (m ∷ [])
          ∙ ap (λ (l : List MessageDto). before ++ l)
              (sym (broadcast-seen s q sender text f d member (rw member at there)))
    ]

happen-IsCaughtUp :
    (before : List MessageDto) (s q : ℕ) (e : Happening) (f : Flow)
    → IsDistinct (get_all_peers s f.heap)
    → attends s q e f ≡ true
    → IsCaughtUp before q f
    → IsCaughtUp before q (happen s e f)
unfolding attends happen
happen-IsCaughtUp before s q (broadcast sender text) f d there c =
    broadcast-IsCaughtUp before s q sender text f d there c
happen-IsCaughtUp before s q (sends r) f d there c = stays before (sends-seen s q r f) c
happen-IsCaughtUp before s q (other r m e) f d there c = stays before (queued-seen q r m f e) c
happen-IsCaughtUp before s q (joins socket is_host) f d there c =
    stays before (joins-seen s q socket is_host f ∙ entered-seen socket s q f (not-true there)) c
happen-IsCaughtUp before s q (leaves id) f d there c = stays before (leaves-seen s q id f) c
happen-IsCaughtUp before s q (drops r) f d there c =
    stays before (apart-seen (λ c p. invalidate_socket p) q r f (not-true there)) c
happen-IsCaughtUp before s q (checks t r) f d there c = stays before (checks-seen t q r f there) c

-- From a good state on, in a session that is there and with fewer than 2 ^ 64 peers in all: a peer
-- whose events are the log from some event on stays so, if it is not one that joins on the way, each
-- broadcast meets it as a member with room in its queue, each check of its pings below the limit of
-- failed ones, and its socket is not dropped, whatever happens to the others.
pub happens-IsCaughtUp :
    (before : List MessageDto) (s q : ℕ) (es : List Happening) (f : Flow)
    → s < f.heap.next_session
    → f.heap.next_peer + length es < 2 ^ 64
    → IsGood f.heap
    → Attends s q es f
    → IsCaughtUp before q f
    → IsCaughtUp before q (happens s es f)
unfolding happens
happens-IsCaughtUp before s q [] f lt room i there c = c
happens-IsCaughtUp before s q (e ∷ es) f lt room i there c =
    let n = happen-Counts s e f in
    happens-IsCaughtUp before s q es (happen s e f) (omega (arith, n.1)) (omega (arith, n.0))
      (happen-IsGood s e f lt (omega arith) i) there.1
      (happen-IsCaughtUp before s q e f (members-IsDistinct s f.heap lt i) there.0 c)
