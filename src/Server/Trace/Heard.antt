-- ===== src/Server/Trace/Heard.antt =====
-- What a peer of src/game/ sees of its session's events over a run in which its queue has room.
use mathlib.Core.List.{append_assoc, append-nil}
use helicopter.Base.{
  ℕ, ◌^◌, ◌≤◌, ◌<◌, ◌≡◌, ◌≢◌, refl, sym, ap, ◌∙◌, none, some, List, [], ◌++◌, nat_eq, inl, inr,
  Option-cases, arith,
}
use helicopter.Dict.{find}
use helicopter.Config.{Games}
use helicopter.Dto.{MessageDto}
use helicopter.Heap.{Heap}
use helicopter.App.{start_server}
use helicopter.Members.Joining.{find-lt, find-Named}
use helicopter.Reading.{Mapper}
use helicopter.Server.{Step, Reach}
use helicopter.Server.Invariant.{IsGood}
use helicopter.Server.Methods.{server-IsGood, Reach-trans}
use helicopter.Server.Rooms.Refines.{server-IsGone}
use helicopter.Server.Sound.{Step-next_peer}
use helicopter.Server.Trace.{Trace, Run, seen}
use helicopter.Server.Trace.Complete.{IsListed}
use helicopter.Server.Trace.Same.{IsSamePeer, Step-IsSamePeer}
use helicopter.Server.Trace.Attend.{AttendedRun, here, next, Step-IsMore}
use helicopter.Server.Trace.Order.{after, started, Run-Reach}

-- A peer that is listed after a step was listed before, since ids do not come back.
step-IsListed :
    (mapper : Mapper) (games : Games) (q : ℕ) {h k : Heap}
    → Reach mapper (start_server games) h
    → Step mapper h k
    → k.next_peer < 2 ^ 64
    → q < h.next_peer
    → IsGood h
    → IsListed q k
    → IsListed q h
step-IsListed mapper games q {h} {k} reach step room lt i listed =
    let id = (h.peers q).peer_id in
    let s = (h.peers q).game_session in
    let there = i.placed q lt in
    let same : IsSamePeer q h k = Step-IsSamePeer q step lt in
    elim (Option-cases (find id (h.sessions s).peers)) [
      | inl gone ↦
          (let still =
              server-IsGone mapper games s id reach (Reach.next Reach.here step) room there
                (i.issued q lt) gone in
            let back : find id (k.sessions s).peers ≡ some q = rw (same.0, same.1) at listed in
            absurd cc)
      | inr (r, found) ↦
          (let named = (i.well s there).named in
            let own : r ≡ q =
              i.unique r q (find-lt h.peers h.next_peer id r _ named found) lt
                (i.members s r id there found)
                (find-Named h.peers h.next_peer id r _ named found) in
            found ∙ ap some own)
    ]

-- The events added to the log of the peer's session are those that the peer has seen in addition.
abbrev pub IsHeard : ℕ → Trace → Trace → Type 0
IsHeard q f g =
    let s = (f.heap.peers q).game_session in
    (new : List MessageDto) × (g.logs s ≡ f.logs s ++ new) × (seen q g ≡ seen q f ++ new)

AttendedRun-Run :
    {mapper : Mapper} {q : ℕ} {f g : Trace} → AttendedRun mapper q f g → Run mapper f g
AttendedRun-Run here = Run.here
AttendedRun-Run (next a step room) = Run.next (AttendedRun-Run a) step

AttendedRun-next_peer :
    {mapper : Mapper} {q : ℕ} {f g : Trace}
    → AttendedRun mapper q f g
    → f.heap.next_peer ≤ g.heap.next_peer
AttendedRun-next_peer here = omega arith
AttendedRun-next_peer (next a step room) =
    omega (arith, AttendedRun-next_peer a, Step-next_peer step)

two_parts :
    (a b c new more : List MessageDto) → b ≡ a ++ new → c ≡ b ++ more → c ≡ a ++ (new ++ more)
two_parts a b c new more e f =
    f ∙ ap (λ (l : List MessageDto). l ++ more) e ∙ append_assoc a new more

-- What was heard in a first part and in a second.
IsHeard-append :
    (q : ℕ) (f g k : Trace)
    → (g.heap.peers q).game_session ≡ (f.heap.peers q).game_session
    → IsHeard q f g
    → IsHeard q g k
    → IsHeard q f k
IsHeard-append q f g k same (new, log, saw) (more, log', saw') =
    let s = (f.heap.peers q).game_session in
    (
      new ++ more,
      two_parts (f.logs s) (g.logs s) (k.logs s) new more log (rw same at log'),
      two_parts (seen q f) (seen q g) (seen q k) new more saw saw',
    )

AttendedRun-kept :
    (mapper : Mapper) (games : Games) (q : ℕ) {f g : Trace}
    → Run mapper (started games) f
    → AttendedRun mapper q f g
    → g.heap.next_peer < 2 ^ 64
    → q < f.heap.next_peer
    → (g.heap.peers q).socket ≢ none
    → IsListed q g.heap
    → IsSamePeer q f.heap g.heap × IsHeard q f g
AttendedRun-kept mapper games q r here room lt socket listed =
    ((refl, refl), ([], sym (append-nil _), sym (append-nil _)))
AttendedRun-kept mapper games q {f} r (next {g} {k} a step att) room lt socket listed =
    let less : g.heap.next_peer < 2 ^ 64 = omega (arith, Step-next_peer step) in
    let there : q < g.heap.next_peer = omega (arith, AttendedRun-next_peer a) in
    let reach = Reach-trans (Run-Reach r) (Run-Reach (AttendedRun-Run a)) in
    let i = server-IsGood mapper games reach less in
    let before = step-IsListed mapper games q reach step room there i listed in
    let same : IsSamePeer q g.heap k = Step-IsSamePeer q step there in
    elim (Step-IsMore q g.taken g.logs step there i before att) [
      | inl gone ↦ absurd (socket gone)
      | inr (kept, (more, log, saw)) ↦
          (let (first, h) =
              AttendedRun-kept mapper games q r a less lt (λ e. socket (kept ∙ e)) before in
            (
              (same.0 ∙ first.0, same.1 ∙ first.1),
              IsHeard-append q f g (after g step) first.0 h (more, log, saw),
            ))
    ]

-- In every run of the server from its start, with fewer than 2 ^ 64 peers in all: from any point on, a
-- peer that was there at that point, and at the end still is in its session and has its socket, was sent
-- or has queued in addition all the events that its session broadcast since, in their order, if at each
-- of these its queue had room; whatever else the server did.
pub AttendedRun-IsHeard :
    (mapper : Mapper) (games : Games) (q : ℕ) {f g : Trace}
    → Run mapper (started games) f
    → AttendedRun mapper q f g
    → g.heap.next_peer < 2 ^ 64
    → q < f.heap.next_peer
    → (g.heap.peers q).socket ≢ none
    → IsListed q g.heap
    → IsHeard q f g
AttendedRun-IsHeard mapper games q r a room lt socket listed =
    (AttendedRun-kept mapper games q r a room lt socket listed).1
