-- ===== src/Server/Rooms/Refines.antt =====
-- The sessions of src/game/ refine rooms: over the steps of the server a session takes steps of its room
-- or none.
use helicopter.Base.{
  ℕ, ◌^◌, ◌≤◌, ◌<◌, ◌==◌, ◌≡◌, refl, sym, ap, Bool, true, false, Option, none, some, inl, inr,
  Bool-cases, arith, nat_eq, if◌then◌else◌, ltb, [], ◌∷◌,
}
use mathlib.Core.Path.{subst}
use helicopter.Word.{Int64}
use helicopter.Dict.{Dict, find}
use helicopter.Config.{Games}
use helicopter.Heap.{Heap}
use helicopter.App.{start_server}
use helicopter.Reading.{Mapper}
use helicopter.Room.{
  Room, empty_room, enter_next, leave, RoomReach, RoomReach-trans, RoomReach-IsGone,
  RoomReach-next_id, enter_next-RoomReach,
}
use helicopter.Room.{leaves as leaves_room, here as room_here, next as room_next}
use helicopter.Server.{
  Step, admits, joins, reads, queues, checks, sends, ticks, drops, leaves, closes, starts, Reach,
  here, next,
}
use helicopter.Server.Bare.{IsBare, get_session_for_peer-IsBare, close_session-IsBare, start-IsBare}
use helicopter.Server.Core.{IsCore, queue_to-IsCore}
use helicopter.Server.Invariant.{IsGood}
use helicopter.Server.Messages.{read_message-IsCore, pinger_act-IsCore}
use helicopter.Server.Methods.{server-IsGood, Reach-trans}
use helicopter.Members.Joining.{Below}
use helicopter.Server.Sound.{invalidated-IsCore, checked-IsCore, Step-next_peer, Reach-IsGood}
use helicopter.Server.Turns.{send_next-IsCore}
use helicopter.Server.Joins.{
  create_peer-next_peer, create_peer-next_session, remove_peer_by_id-next_session,
}
use helicopter.Server.Rooms.{
  is_some, room, core-room, bare-room, new-room, create_peer-room, remove_peer_by_id-room,
}

-- What a step does to the sessions: those that are there go on as rooms, and new ones start empty.
record IsRoomly (h k : Heap) : Type 0 where
  old : (s : ℕ) → s < h.next_session → RoomReach (room s h) (room s k)
  new : (s : ℕ) → h.next_session ≤ s → s < k.next_session → RoomReach empty_room (room s k)
  grows : h.next_session ≤ k.next_session

same-RoomReach : {r t : Room} → t ≡ r → RoomReach r t
same-RoomReach {r} e = subst (RoomReach r) (sym e) room_here

core-IsRoomly : {h k : Heap} → IsCore h k → IsRoomly h k
core-IsRoomly core = record {
  old = λ s lt. same-RoomReach (core-room s core);
  new = λ s le lt. absurd (omega (arith, core.next_session));
  grows = omega (arith, core.next_session);
}

bare-IsRoomly : {h k : Heap} → IsBare h k → IsRoomly h k
bare-IsRoomly {h} {k} bare = record {
  old = λ s lt. same-RoomReach (bare-room s lt bare);
  new = λ s le lt. same-RoomReach (new-room k.peers (k.sessions s) (bare.made s le lt));
  grows = bare.next_session;
}

join_if :
    (b is_host : Bool) (r t : Room) → t ≡ (if b then enter_next is_host r else r) → RoomReach r t
join_if true is_host r t e = subst (RoomReach r) (sym e) (enter_next-RoomReach is_host r)
join_if false is_host r t e = same-RoomReach e

leave_if : (b : Bool) (id : ℕ) (r t : Room) → t ≡ (if b then leave id r else r) → RoomReach r t
leave_if true id r t e = subst (RoomReach r) (sym e) (room_next room_here (leaves_room id))
leave_if false id r t e = same-RoomReach e

Step-IsRoomly :
    {mapper : Mapper} {h k : Heap}
    → Step mapper h k
    → k.next_peer < 2 ^ 64
    → IsGood h
    → IsRoomly h k
Step-IsRoomly (admits params h) fits i = bare-IsRoomly (get_session_for_peer-IsBare params h)
Step-IsRoomly (joins socket s b h lt) fits i = record {
  old = λ t there. join_if (t == s) b (room t h) _ (
      create_peer-room socket s t b h (i.well t there)
        (omega (arith, i.counted t there, create_peer-next_peer socket s b h)));
  new = λ t le less. absurd (omega (arith, create_peer-next_session socket s b h));
  grows = omega (arith, create_peer-next_session socket s b h);
}
Step-IsRoomly {mapper} (reads now me frame h lt) fits i =
    core-IsRoomly (read_message-IsCore mapper now me frame h)
Step-IsRoomly (queues r m h e) fits i = core-IsRoomly (queue_to-IsCore m r h)
Step-IsRoomly (checks t r h) fits i = core-IsRoomly (checked-IsCore t r h)
Step-IsRoomly (sends r h) fits i = core-IsRoomly (send_next-IsCore r h)
Step-IsRoomly (ticks now g h) fits i = core-IsRoomly (pinger_act-IsCore now g h)
Step-IsRoomly (drops r h) fits i = core-IsRoomly (invalidated-IsCore r h)
Step-IsRoomly (leaves s id h) fits i = record {
  old = λ t there. leave_if (t == s) id (room t h) _ (remove_peer_by_id-room s t id h);
  new = λ t le less. absurd (omega (arith, remove_peer_by_id-next_session s id h));
  grows = omega (arith, remove_peer_by_id-next_session s id h);
}
Step-IsRoomly (starts fx h loose) fits i = bare-IsRoomly (start-IsBare fx h loose)
Step-IsRoomly (closes s h lt) fits i = bare-IsRoomly (close_session-IsBare s h)

IsRoomly-trans : {h k l : Heap} → IsRoomly h k → IsRoomly k l → IsRoomly h l
IsRoomly-trans {h} {k} {l} a b = record {
  old = λ s lt. RoomReach-trans (a.old s lt) (b.old s (omega (arith, a.grows)));
  new = λ s le lt. elim (Bool-cases (ltb s k.next_session)) [
    | inl early ↦ RoomReach-trans (a.new s le (ground arith)) (b.old s (ground arith))
    | inr late ↦ b.new s (ground arith) lt
  ];
  grows = omega (arith, a.grows, b.grows);
}

IsRoomly-refl : (h : Heap) → IsRoomly h h
IsRoomly-refl h = record {
  old = λ s lt. room_here;
  new = λ s le lt. absurd (omega arith);
  grows = omega arith;
}

Reach-IsRoomly :
    {mapper : Mapper} {h k : Heap}
    → Reach mapper h k
    → k.next_peer < 2 ^ 64
    → IsGood h
    → IsRoomly h k
Reach-IsRoomly {mapper} {h} here fits i = IsRoomly-refl h
Reach-IsRoomly (next {k} r step) fits i =
    let less : k.next_peer < 2 ^ 64 = omega (arith, Step-next_peer step) in
    IsRoomly-trans (Reach-IsRoomly r less i) (Step-IsRoomly step fits (Reach-IsGood r less i))

pub Reach-next_peer : {mapper : Mapper} {h k : Heap} → Reach mapper h k → h.next_peer ≤ k.next_peer
Reach-next_peer here = omega arith
Reach-next_peer (next r step) = omega (arith, Reach-next_peer r, Step-next_peer step)

start_server-unused : (games : Games) → (start_server games).next_session ≡ 0
unfolding start_server
start_server-unused games = refl

pub server-refines :
    (mapper : Mapper) (games : Games) (s : ℕ) {h k : Heap}
    → Reach mapper (start_server games) h
    → Reach mapper h k
    → k.next_peer < 2 ^ 64
    → s < h.next_session
    → RoomReach empty_room (room s h) × RoomReach (room s h) (room s k)
server-refines mapper games s {h} {k} r q fits lt =
    let less : h.next_peer < 2 ^ 64 = omega (arith, Reach-next_peer q) in
    let start = start_server games in
    let i : IsGood start = server-IsGood mapper games here (omega (arith, Reach-next_peer r)) in
    (
      (Reach-IsRoomly r less i).new s (omega (arith, start_server-unused games)) lt,
      (Reach-IsRoomly q fits (Reach-IsGood r less i)).old s lt,
    )

none_is : (o : Option ℕ) → is_some o ≡ false → o ≡ none
none_is none e = refl
none_is (some r) e = absurd (cc e)

-- An id below the counter that is not in the session does not come in: no step leaves an id waiting.
pub server-IsGone :
    (mapper : Mapper) (games : Games) (s : ℕ) (id : Int64) {h k : Heap}
    → Reach mapper (start_server games) h
    → Reach mapper h k
    → k.next_peer < 2 ^ 64
    → s < h.next_session
    → id < (h.sessions s).peer_id_counter
    → find id (h.sessions s).peers ≡ none
    → find id (k.sessions s).peers ≡ none
server-IsGone mapper games s id {h} {k} r q fits lt given gone =
    none_is (find id (k.sessions s).peers)
      (RoomReach-IsGone (server-refines mapper games s r q fits lt).1 id
        (given, ap is_some gone, refl)).1

find-id_lt : (n id : Int64) {r : ℕ} (d : Dict ℕ ℕ) → Below n d → find id d ≡ some r → id < n
unfolding find
find-id_lt n id [] below there = absurd (cc there)
find-id_lt n id ((j, q) ∷ d) below there = elim (Bool-cases (j == id)) [
  | inl own ↦ ground (arith, own, below.0)
  | inr other ↦ find-id_lt n id d below.1 (rw other at there)
]

-- An id that was in a session and later is not in it any more never comes in again, whatever the server
-- does, as long as fewer than 2 ^ 64 peers have joined.
pub member-IsGone :
    (mapper : Mapper) (games : Games) (s : ℕ) (id : Int64) {r : ℕ} {g h k : Heap}
    → Reach mapper (start_server games) g
    → Reach mapper g h
    → Reach mapper h k
    → k.next_peer < 2 ^ 64
    → s < g.next_session
    → find id (g.sessions s).peers ≡ some r
    → find id (h.sessions s).peers ≡ none
    → find id (k.sessions s).peers ≡ none
member-IsGone mapper games s id {r} {g} {h} {k} before between after fits lt there gone =
    let room_h : h.next_peer < 2 ^ 64 = omega (arith, Reach-next_peer after) in
    let i = server-IsGood mapper games before (omega (arith, room_h, Reach-next_peer between)) in
    let given =
      find-id_lt (g.sessions s).peer_id_counter id (g.sessions s).peers (i.well s lt).below there in
    let grown = RoomReach-next_id (server-refines mapper games s before between room_h lt).1 in
    let goes_on = Reach-IsRoomly between room_h i in
    server-IsGone mapper games s id (Reach-trans before between) after fits
      (omega (arith, goes_on.grows)) (omega (arith, given, grown)) gone
