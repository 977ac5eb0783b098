-- ===== src/Heap/Starts.antt =====
-- How many sender coroutines of src/game/Peer.cpp were started for a peer.
use helicopter.Base.{ℕ, ◌+◌, ◌==◌, ◌≡◌, List, [], ◌∷◌, ◌++◌, map, arith, if◌then◌else◌}
use helicopter.Peer.{Effect, start_sender, start_ping, start_kick, invalidate}
use helicopter.Peer.Queue.{senders}
use helicopter.Heap.{ServerEffect, of_peer}

unfoldable pub starts_of : ℕ → ServerEffect → ℕ
starts_of q (of_peer r e) = if r == q then senders (e ∷ []) else 0
starts_of q _ = 0

unfoldable pub started : ℕ → List ServerEffect → ℕ
unfolding starts_of
started q [] = 0
started q (fx ∷ fxs) = starts_of q fx + started q fxs

pub started-append :
    (q : ℕ) (a b : List ServerEffect) → started q (a ++ b) ≡ started q a + started q b
unfolding started
started-append q [] b = omega arith
started-append q (fx ∷ a) b = omega (arith, started-append q a b)

senders-cons : (e : Effect) (fx : List Effect) → senders (e ∷ fx) ≡ senders (e ∷ []) + senders fx
senders-cons (start_sender s) fx = omega arith
senders-cons (start_ping s m) fx = omega arith
senders-cons (start_kick s m) fx = omega arith
senders-cons (invalidate s) fx = omega arith

pub started-of_peer :
    (q r : ℕ) (fx : List Effect)
    → started q (map (of_peer r) fx) ≡ (if r == q then senders fx else 0)
unfolding started starts_of
started-of_peer q r [] = ground arith
started-of_peer q r (e ∷ fx) = ground (arith, started-of_peer q r fx, senders-cons e fx)
