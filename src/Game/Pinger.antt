-- ===== src/Game/Pinger.antt =====
-- The pinger of a game in src/game/Game.cpp over the life of its sessions: a coroutine that the first
-- session starts and that ends when it finds none.
use helicopter.Base.{
  ℕ, ◌+◌, ◌≡◌, refl, sym, ◌∙◌, true, false, Option, List, [], ◌∷◌, ◌++◌, inl, inr, Bool-cases,
  Option-cases, arith, Str, ◌==◌, if◌then◌else◌, update, for_each, map, str_eq_inst,
}
use helicopter.Word.{Int64}
use helicopter.Config.{GameConfigDto}
use helicopter.Dict.{Dict, find, erase, is_empty}
use helicopter.Peer.{Peer, Effect}
use helicopter.Heap.{
  Heap, ServerEffect, of_peer, start_pinger, start_socket_error, invalidate_unbound, on_peer,
}
use helicopter.Members.{check_all_peers_pings, ping_all_peers}
use mathlib.Core.Path.{subst}
use helicopter.Game.Sessions.{added, create_new_session-eq, create_new_session-exists}
use helicopter.Game.{launch_pinger, create_new_session, delete_session, pinger_act}

-- How often the pinger of game `g` was started.
unfoldable pub starts : ℕ → List ServerEffect → ℕ
starts g [] = 0
starts g (start_pinger q ∷ fx) = (if q == g then 1 else 0) + starts g fx
starts g (of_peer r e ∷ fx) = starts g fx
starts g (start_socket_error s m f ∷ fx) = starts g fx
starts g (invalidate_unbound s ∷ fx) = starts g fx

starts-append :
    (g : ℕ) (xs ys : List ServerEffect) → starts g (xs ++ ys) ≡ starts g xs + starts g ys
unfolding starts
starts-append g [] ys = omega arith
starts-append g (start_pinger q ∷ xs) ys = ground (arith, starts-append g xs ys)
starts-append g (of_peer r e ∷ xs) ys = starts-append g xs ys
starts-append g (start_socket_error s m f ∷ xs) ys = starts-append g xs ys
starts-append g (invalidate_unbound s ∷ xs) ys = starts-append g xs ys

starts-of_peer : (g r : ℕ) (fx : List Effect) → starts g (map (of_peer r) fx) ≡ 0
unfolding starts
starts-of_peer g r [] = refl
starts-of_peer g r (e ∷ fx) = starts-of_peer g r fx

-- Games and started pingers are as they were.
record IsCalm (g : ℕ) (h k : Heap) : Type 0 where
  games : k.games ≡ h.games
  started : starts g k.effects ≡ starts g h.effects

IsCalm-trans : {g : ℕ} {h k l : Heap} → IsCalm g h k → IsCalm g k l → IsCalm g h l
IsCalm-trans a b = record { games = b.games ∙ a.games; started = b.started ∙ a.started }

for_each-IsCalm :
    (g : ℕ) (body : ℕ → Heap → Heap)
    → ((r : ℕ) (h : Heap) → IsCalm g h (body r h))
    → (rs : List ℕ) (h : Heap) → IsCalm g h (for_each rs body h)
unfolding for_each
for_each-IsCalm g body calm [] h = record { games = refl; started = refl }
for_each-IsCalm g body calm (r ∷ rs) h =
    IsCalm-trans (calm r h) (for_each-IsCalm g body calm rs (body r h))

on_peer-IsCalm :
    (g : ℕ) (f : GameConfigDto → Peer → Peer × List Effect) (r : ℕ) (h : Heap)
    → IsCalm g h (on_peer f r h)
unfolding on_peer
on_peer-IsCalm g f r h = record {
  games = refl;
  started =
      let fx = (f (h.sessions (h.peers r).game_session).config (h.peers r)).1 in
      omega (arith, starts-append g h.effects (map (of_peer r) fx), starts-of_peer g r fx);
}

check_all_peers_pings-IsCalm : (g s : ℕ) (h : Heap) → IsCalm g h (check_all_peers_pings s h)
unfolding check_all_peers_pings
check_all_peers_pings-IsCalm g s h = for_each-IsCalm g _ (on_peer-IsCalm g _) _ h

ping_all_peers-IsCalm :
    (g : ℕ) (now : Int64) (s : ℕ) (h : Heap) → IsCalm g h (ping_all_peers now s h)
unfolding ping_all_peers
ping_all_peers-IsCalm g now s h =
    IsCalm-trans (record { games = refl; started = refl })
      (for_each-IsCalm g _ (on_peer-IsCalm g _) _ _)

-- Calls on a game: a session is opened or closed, or its pinger gets to act at some times.
pub data Call : Type 0 where
  opens : Str → Call
  closes : Str → Call
  ticks : (ℕ → Int64) → Call

-- `finished` counts the pingers that have come to their end.
pub record Watch : Type 0 where
  pub heap : Heap
  pub finished : ℕ

-- A pinger acts only if one was started that has not finished.
unfoldable pub turn : ℕ → (ℕ → Int64) → Watch → Watch
turn g now w =
    if starts g w.heap.effects == w.finished
    then w
    else (let (goes_on, h) = pinger_act now g w.heap in
        record { heap = h; finished = if goes_on then w.finished else w.finished + 1 })

unfoldable pub called : ℕ → Call → Watch → Watch
unfolding turn
called g (opens id) w = record w { heap = (create_new_session g id w.heap).1 }
called g (closes id) w = record w { heap = delete_session g id w.heap }
called g (ticks now) w = turn g now w

unfoldable pub calls : ℕ → List Call → Watch → Watch
calls g [] w = w
calls g (c ∷ cs) w = calls g cs (called g c w)

-- The flag tells whether the one pinger runs, and it does while there are sessions.
pub record IsWatched (g : ℕ) (w : Watch) : Type 0 where
  pub pingers :
      starts g w.heap.effects ≡ w.finished + (if (w.heap.games g).is_pinger_active then 1 else 0)
  pub idle : (w.heap.games g).is_pinger_active ≡ false → is_empty (w.heap.games g).sessions ≡ true

launch_pinger-active : (g : ℕ) (h : Heap) → ((launch_pinger g h).games g).is_pinger_active ≡ true
unfolding launch_pinger
launch_pinger-active g h = ground arith

launch_pinger-starts :
    (g : ℕ) (h : Heap)
    → starts g (launch_pinger g h).effects
      ≡ starts g h.effects + (if (h.games g).is_pinger_active then 0 else 1)
unfolding launch_pinger starts
launch_pinger-starts g h = ground (arith, starts-append g h.effects (start_pinger g ∷ []))

-- A game with the flag set needs only the count of its pingers.
active-IsWatched :
    (g n : ℕ) (h : Heap)
    → (h.games g).is_pinger_active ≡ true
    → starts g h.effects ≡ n + 1
    → IsWatched g (record { heap = h; finished = n })
active-IsWatched g n h active e = record { pingers = rw active e; idle = λ i. cc }

opens-IsWatched :
    (g : ℕ) (id : Str) (w : Watch) → IsWatched g w → IsWatched g (called g (opens id) w)
unfolding called
opens-IsWatched g id w i = elim (Option-cases (find id (w.heap.games g).sessions)) [
  | inr (s, there) ↦
      subst Watched (sym (create_new_session-exists g id w.heap there))
        (record { pingers = i.pingers; idle = i.idle })
  | inl new ↦ subst Watched (sym (create_new_session-eq g id w.heap new)) (
      active-IsWatched g w.finished _ (launch_pinger-active g (added g id w.heap))
        (launch_pinger-starts g (added g id w.heap) ∙ ground (arith, i.pingers)))
]
  where
    Watched : Option ℕ × Heap → Type 0
    Watched r = IsWatched g (record w { heap = r.1 })

erase-empty : (id : Str) (d : Dict Str ℕ) → is_empty d ≡ true → is_empty (erase id d) ≡ true
unfolding erase
erase-empty id [] e = refl
erase-empty id (x ∷ d) e = absurd cc

closes-IsWatched :
    (g : ℕ) (id : Str) (w : Watch) → IsWatched g w → IsWatched g (called g (closes id) w)
unfolding called delete_session
closes-IsWatched g id w i = record {
  pingers = ground (arith, i.pingers);
  idle = ground (arith, i.idle, erase-empty id (w.heap.games g).sessions);
}

-- One act of the pinger: it ends at a game without sessions and is calm otherwise.
pinger_act-ends :
    (now : ℕ → Int64) (g : ℕ) (h : Heap)
    → is_empty (h.games g).sessions ≡ true
    → pinger_act now g h ≡ (
      false,
      record h { games = update h.games g (record (h.games g) { is_pinger_active = false }) },
    )
unfolding pinger_act
pinger_act-ends now g h e = rw e refl

pinger_act-goes_on :
    (now : ℕ → Int64) (g : ℕ) (h : Heap)
    → is_empty (h.games g).sessions ≡ false
    → ((pinger_act now g h).0 ≡ true) × IsCalm g h (pinger_act now g h).1
unfolding pinger_act
pinger_act-goes_on now g h e = rw e (
  refl,
  IsCalm-trans (for_each-IsCalm g _ (check_all_peers_pings-IsCalm g) _ h)
      (for_each-IsCalm g _ (λ s. ping_all_peers-IsCalm g (now s) s) _ _),
)

acted-IsWatched :
    (g : ℕ) (now : ℕ → Int64) (w : Watch)
    → (starts g w.heap.effects == w.finished) ≡ false
    → IsWatched g w
    → IsWatched g (turn g now w)
unfolding turn
acted-IsWatched g now w running i = elim (Bool-cases (is_empty (w.heap.games g).sessions)) [
  | inl empty ↦
      rw (running, pinger_act-ends now g w.heap empty)
        (record { pingers = ground (arith, i.pingers); idle = λ a. ground arith })
  | inr more ↦
      (let (stays, calm) = pinger_act-goes_on now g w.heap more in
        rw (running, stays)
          (record {
            pingers = rw (calm.started, calm.games) i.pingers;
            idle = rw calm.games i.idle;
          }))
]

ticks-IsWatched :
    (g : ℕ) (now : ℕ → Int64) (w : Watch) → IsWatched g w → IsWatched g (called g (ticks now) w)
unfolding called
ticks-IsWatched g now w i = elim (Bool-cases (starts g w.heap.effects == w.finished)) [
  | inl none_runs ↦ rw (none_runs, turn) i
  | inr running ↦ acted-IsWatched g now w running i
]

called-IsWatched : (g : ℕ) (c : Call) (w : Watch) → IsWatched g w → IsWatched g (called g c w)
called-IsWatched g (opens id) w i = opens-IsWatched g id w i
called-IsWatched g (closes id) w i = closes-IsWatched g id w i
called-IsWatched g (ticks now) w i = ticks-IsWatched g now w i

-- Whatever sessions of a game are opened and closed and however its pinger is scheduled: at most one
-- pinger runs, the game's flag tells whether it does, and it runs as long as there is a session; if
-- that is so at the start.
pub calls-IsWatched :
    (g : ℕ) (cs : List Call) (w : Watch) → IsWatched g w → IsWatched g (calls g cs w)
unfolding calls
calls-IsWatched g [] w i = i
calls-IsWatched g (c ∷ cs) w i = calls-IsWatched g cs (called g c w) (called-IsWatched g c w i)
