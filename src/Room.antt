-- ===== src/Room.antt =====
-- What a session of src/game/Session.cpp promises, without maps, pointers and locks: who is in, who is
-- the host, which id is given out next, and which ids were given out to peers that are yet to come in.
use helicopter.Base.{
  ℕ, ◌+◌, ◌≤◌, ◌<◌, ◌==◌, ◌≡◌, Bool, true, false, Option, none, some, if◌then◌else◌, arith, nat_eq,
}

pub record Room : Type 0 where
  pub members : ℕ → Bool
  pub host : Option ℕ
  pub next_id : ℕ
  pub waiting : ℕ → Bool

abbrev pub empty_room : Room
empty_room = record { members = λ id. false; host = none; next_id = 0; waiting = λ id. false }

-- The next id is given out.
unfoldable pub issue : Room → Room
issue r = record r {
  next_id = r.next_id + 1;
  waiting = λ id. if r.next_id == id then true else r.waiting id;
}

-- An id comes in, as the host if asked for.
unfoldable pub enter : Bool → ℕ → Room → Room
enter is_host id r = record r {
  members = λ j. if id == j then true else r.members j;
  host = if is_host then some id else r.host;
  waiting = λ j. if id == j then false else r.waiting j;
}

unfoldable pub is_host_id : Option ℕ → ℕ → Bool
is_host_id none id = false
is_host_id (some host) id = host == id

-- The id is out, and if it was the host's, so is the host.
unfoldable pub leave : ℕ → Room → Room
leave id r = record r {
  members = λ j. if id == j then false else r.members j;
  host = if is_host_id r.host id then none else r.host;
}

-- An id comes in once, at any time after it was given out, so that ids may overtake one another.
pub data RoomStep (r : Room) : Room → Type 0 where
  issues : RoomStep r (issue r)
  enters : (is_host : Bool) (id : ℕ) → r.waiting id ≡ true → RoomStep r (enter is_host id r)
  leaves : (id : ℕ) → RoomStep r (leave id r)

pub data RoomReach (r : Room) : Room → Type 0 where
  here : RoomReach r r
  next : {q t : Room} → RoomReach r q → RoomStep q t → RoomReach r t

pub RoomReach-trans : {r q t : Room} → RoomReach r q → RoomReach q t → RoomReach r t
RoomReach-trans a here = a
RoomReach-trans a (next b step) = next (RoomReach-trans a b) step

-- The next id is given out and comes in at once.
abbrev pub enter_next : Bool → Room → Room
enter_next is_host r = enter is_host r.next_id (issue r)

pub enter_next-RoomReach : (is_host : Bool) (r : Room) → RoomReach r (enter_next is_host r)
unfolding issue
enter_next-RoomReach is_host r = next (next here issues) (enters is_host r.next_id (ground arith))

-- An id that was given out, and is not in nor waiting to come in.
abbrev pub IsGone : ℕ → Room → Type 0
IsGone id r = (id < r.next_id) × (r.members id ≡ false) × (r.waiting id ≡ false)

RoomStep-IsGone : {r t : Room} → RoomStep r t → (id : ℕ) → IsGone id r → IsGone id t
unfolding issue enter leave
RoomStep-IsGone issues id gone = ground arith
RoomStep-IsGone {r} (enters is_host j w) id gone = ground (arith, w)
RoomStep-IsGone (leaves j) id gone = ground arith

-- It never comes in again.
pub RoomReach-IsGone : {r t : Room} → RoomReach r t → (id : ℕ) → IsGone id r → IsGone id t
RoomReach-IsGone here id gone = gone
RoomReach-IsGone (next a step) id gone = RoomStep-IsGone step id (RoomReach-IsGone a id gone)

RoomStep-next_id : {r t : Room} → RoomStep r t → r.next_id ≤ t.next_id
unfolding issue enter leave
RoomStep-next_id issues = omega arith
RoomStep-next_id (enters is_host id w) = omega arith
RoomStep-next_id (leaves id) = omega arith

pub RoomReach-next_id : {r t : Room} → RoomReach r t → r.next_id ≤ t.next_id
RoomReach-next_id here = omega arith
RoomReach-next_id (next a step) = omega (arith, RoomReach-next_id a, RoomStep-next_id step)
