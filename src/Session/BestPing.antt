-- ===== src/Session/BestPing.antt =====
-- The best ping of a session in src/game/Session.cpp over its whole history of pings and pongs.
use helicopter.Base.{
  ◌^◌, ◌≤◌, ◌<◌, ◌≡◌, refl, sym, Bool-cases, ◌⊎◌, inl, inr, List, [], ◌∷◌, All, arith, ◌==◌, Str,
  if◌then◌else◌,
}
use mathlib.Core.Path.{subst, subst₂}
use helicopter.Word.{Int64, minus_one, sub}
use helicopter.Config.{GameConfigDto}
use helicopter.Session.{Session, make_session, improve_best, report_peer_pong}

-- A round of pings at a time, or a pong: the time of its arrival, the peer and its timestamp.
pub data Event : Type 0 where
  ping : Int64 → Event
  pong : Int64 → Int64 → Int64 → Event

abbrev pub Log : Type 0
Log = List (Int64 × Int64)

-- The session, and the log of the pongs that counted: the peer and its ping time, newest first.
unfoldable pub step : Event → Session × Log → Session × Log
step (ping now) (s, log) = (record s { ping_current_timestamp = now }, log)
step (pong now peer t) (s, log) = (
  (report_peer_pong now peer t s).1,
  if t == s.ping_current_timestamp then (peer, sub now t) ∷ log else log,
)

unfoldable pub run : List Event → Session × Log → Session × Log
run [] a = a
run (e ∷ es) a = run es (step e a)

abbrev Has : Int64 → Int64 → Log → Type 0
Has peer time [] = ⊥
Has peer time ((p, t) ∷ log) = ((p ≡ peer) × (t ≡ time)) ⊎ Has peer time log

-- No counted ping time is negative: the clock does not run backwards.
abbrev pub Forward : Log → Type 0
Forward log = All (λ e. e.1 < 2 ^ 63) log

-- With no counted pong there is no best time. Else it is the least ping time that was counted, and
-- the best peer is one that reached it.
abbrev pub IsBestOf : Int64 → Int64 → Log → Type 0
IsBestOf best peer [] = best ≡ minus_one
IsBestOf best peer (e ∷ log) =
    (best < 2 ^ 63) × All (λ f. best ≤ f.1) (e ∷ log) × Has peer best (e ∷ log)

abbrev pub IsBest : Session → Log → Type 0
IsBest s = IsBestOf s.ping_best_time s.ping_best_peer_id

abbrev LeAll : Int64 → Log → Type 0
LeAll b log = All (λ f. b ≤ f.1) log

LeAll-mono : (a b : Int64) (log : Log) → a ≤ b → LeAll b log → LeAll a log
LeAll-mono a b [] h l = tt
LeAll-mono a b (e ∷ log) h l = (omega arith, LeAll-mono a b log h l.1)

improve_best_first :
    (peer t time : Int64) (s : Session)
    → s.ping_best_time ≡ minus_one
    → ((improve_best peer t time s).ping_best_time ≡ time)
      × ((improve_best peer t time s).ping_best_peer_id ≡ peer)
unfolding improve_best
improve_best_first peer t time s b = ground arith

improve_best_next :
    (peer t time : Int64) (s : Session)
    → s.ping_best_time < 2 ^ 63
    → time < 2 ^ 63
    → let v = improve_best peer t time s in
      ((time < s.ping_best_time) × (v.ping_best_time ≡ time) × (v.ping_best_peer_id ≡ peer))
      ⊎ ((s.ping_best_time ≤ time) × (v ≡ s))
unfolding improve_best
improve_best_next peer t time s b h = ground arith

improve_best-IsBest :
    (peer t time : Int64) (s : Session) (log : Log)
    → time < 2 ^ 63
    → IsBest s log
    → IsBest (improve_best peer t time s) ((peer, time) ∷ log)
improve_best-IsBest peer t time s [] h b = ground (arith, improve_best_first peer t time s b)
improve_best-IsBest peer t time s (e ∷ log) h (b, l, w) =
    elim (improve_best_next peer t time s b h) [
      | inl (less, e₁, e₂) ↦
          subst₂ (λ best who. IsBestOf best who ((peer, time) ∷ e ∷ log)) (sym e₁) (sym e₂)
            (
              h,
              (omega arith, LeAll-mono time s.ping_best_time (e ∷ log) (omega arith) l),
              inl (refl, refl),
            )
      | inr (more, same) ↦
          subst (λ v. IsBest v ((peer, time) ∷ e ∷ log)) (sym same) (b, (more, l), inr w)
    ]

pong-IsBest :
    (now peer t : Int64) (s : Session) (log : Log)
    → Forward (step (pong now peer t) (s, log)).1
    → IsBest s log
    → IsBest (step (pong now peer t) (s, log)).0 (step (pong now peer t) (s, log)).1
unfolding step report_peer_pong
pong-IsBest now peer t s log f b = elim (Bool-cases (t == s.ping_current_timestamp)) [
  | inl current ↦ rw current (improve_best-IsBest peer t (sub now t) s log (ground arith) b)
  | inr other ↦ rw other b
]

step-IsBest :
    (e : Event) (s : Session) (log : Log)
    → Forward (step e (s, log)).1
    → IsBest s log
    → IsBest (step e (s, log)).0 (step e (s, log)).1
unfolding step report_peer_pong
step-IsBest (ping now) s log f b = b
step-IsBest (pong now peer t) s log f b = pong-IsBest now peer t s log f b

step-Forward : (e : Event) (a : Session × Log) → Forward (step e a).1 → Forward a.1
unfolding step
step-Forward (ping now) a f = f
step-Forward (pong now peer t) a f = ground arith

run-Forward : (es : List Event) (a : Session × Log) → Forward (run es a).1 → Forward a.1
unfolding run
run-Forward [] a f = f
run-Forward (e ∷ es) a f = step-Forward e a (run-Forward es (step e a) f)

run_from-IsBest :
    (es : List Event) (a : Session × Log)
    → Forward (run es a).1
    → IsBest a.0 a.1
    → IsBest (run es a).0 (run es a).1
unfolding run
run_from-IsBest [] a f b = b
run_from-IsBest (e ∷ es) a f b =
    run_from-IsBest es (step e a) f (step-IsBest e a.0 a.1 (run-Forward es (step e a) f) b)

-- After any history of a new session in which no counted ping time is negative, the best time is the
-- least that was counted, or -1 if none was, and the best peer is one that reached it.
pub run-IsBest :
    (id : Str) (c : GameConfigDto) (es : List Event)
    → Forward (run es (make_session id c, [])).1
    → IsBest (run es (make_session id c, [])).0 (run es (make_session id c, [])).1
run-IsBest id c es f = run_from-IsBest es (make_session id c, []) f refl
