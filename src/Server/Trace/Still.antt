-- ===== src/Server/Trace/Still.antt =====
-- Steps of src/game/ that are calm and leave who is there as it is, and what they leave of the events.
use mathlib.Core.List.{Sublist, append-nil, sublist-append_left}
use mathlib.Core.List.Sublist
use helicopter.Base.{ℕ, ◌≤◌, ◌<◌, ◌≡◌, refl, List, [], ◌++◌, ◌⊎◌, inl, inr, arith, nat_eq}
use helicopter.Word.{Int64}
use helicopter.Dto.{MessageDto}
use helicopter.Heap.{Heap}
use helicopter.Members.{remove_peer_by_id}
use helicopter.Members.Events.{is_event}
use helicopter.Members.Events.Flow.{events}
use helicopter.Members.Events.Numbers.{Numbered}
use helicopter.Server.Core.{IsCore}
use helicopter.Server.Joins.{
  remove_peer_by_id-game_session, remove_peer_by_id-next_peer, remove_peer_by_id-next_session,
}
use helicopter.Server.Trace.{Trace, waiting, seen}
use helicopter.Server.Trace.Calm.{IsCalm, IsCalm-trans, set_session-IsCalm, notify_host-IsCalm}

pub record IsStill (h k : Heap) : Type 0 where
  pub calm : IsCalm h k
  pub game_session : (q : ℕ) → (k.peers q).game_session ≡ (h.peers q).game_session
  pub next_peer : k.next_peer ≡ h.next_peer
  pub next_session : k.next_session ≡ h.next_session

pub IsCore-IsStill : {h k : Heap} → IsCore h k → IsCalm h k → IsStill h k
IsCore-IsStill core calm = record {
  calm = calm;
  game_session = core.game_session;
  next_peer = core.next_peer;
  next_session = core.next_session;
}

remove_peer_by_id-IsCalm : (s : ℕ) (id : Int64) (h : Heap) → IsCalm h (remove_peer_by_id s id h).1
unfolding remove_peer_by_id is_event
remove_peer_by_id-IsCalm s id h =
    IsCalm-trans (set_session-IsCalm s _ h refl) (notify_host-IsCalm s _ _ refl)

pub remove_peer_by_id-IsStill :
    (s : ℕ) (id : Int64) (h : Heap) → IsStill h (remove_peer_by_id s id h).1
remove_peer_by_id-IsStill s id h = record {
  calm = remove_peer_by_id-IsCalm s id h;
  game_session = λ q. remove_peer_by_id-game_session s q id h;
  next_peer = remove_peer_by_id-next_peer s id h;
  next_session = remove_peer_by_id-next_session s id h;
}

-- Each peer has seen events of its session in their order; a session's events are numbered without
-- gaps; and no event is of a session that is not there.
pub record IsLogged (f : Trace) : Type 0 where
  pub ordered :
      (q : ℕ) → q < f.heap.next_peer → Sublist (seen q f) (f.logs (f.heap.peers q).game_session)
  pub numbered :
      (s : ℕ)
      → s < f.heap.next_session
      → Numbered 0 (f.logs s) (f.heap.sessions s).synchronized_event_id
  pub unlogged : (s : ℕ) → f.heap.next_session ≤ s → f.logs s ≡ []

-- What waits stays, or is dropped.
pub stays-in_order :
    (before a b log : List MessageDto)
    → Sublist (before ++ a) log
    → (b ≡ a) ⊎ (b ≡ [])
    → Sublist (before ++ b) log
stays-in_order before a b log o (inl e) = rw e o
stays-in_order before a b log o (inr e) =
    rw (e, append-nil before) (Sublist.trans (sublist-append_left before a) o)

pub still-IsLogged :
    (f : Trace) (k : Heap) → IsStill f.heap k → IsLogged f → IsLogged (record f { heap = k })
still-IsLogged f k still l = record {
  ordered = λ q lt. rw (still.game_session q) (
      stays-in_order (events (f.taken q)) (waiting q f.heap) (waiting q k) _
        (l.ordered q (omega (arith, still.next_peer))) (still.calm.calm q));
  numbered = λ s lt. rw (still.calm.number s) (l.numbered s (omega (arith, still.next_session)));
  unlogged = λ s le. l.unlogged s (omega (arith, still.next_session));
}
