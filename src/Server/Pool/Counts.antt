-- ===== src/Server/Pool/Counts.antt =====
-- The threads of the pool in each part of `Runner`, counted (src/thread/thread_pool.cc).
use net_frame.Common.{ℕ, ◌+◌, ◌≡◌, refl, List, [], ◌∷◌, ◌++◌, map, arith, zero, suc}
use net_frame.Server.Pool.{
  Worker, serving, waiting, executing, draining, finishing, ended, wake, workers,
}

-- 1 for a thread that waits; that is on its way to the queue, in the first loop, and runs no task; and that
-- has left the first loop.
abbrev pub waits : Worker → ℕ
waits waiting = 1
waits _ = 0

abbrev pub serves : Worker → ℕ
serves serving = 1
serves _ = 0

abbrev pub leaves : Worker → ℕ
leaves draining = 1
leaves (finishing t) = 1
leaves ended = 1
leaves _ = 0

abbrev pub count : (Worker → ℕ) → List Worker → ℕ
count f [] = 0
count f (w ∷ ws) = f w + count f ws

pub count-append :
    (f : Worker → ℕ) (vs ws : List Worker) → count f (vs ++ ws) ≡ count f vs + count f ws
count-append f [] ws = omega arith
count-append f (v ∷ vs) ws = omega (arith, count-append f vs ws)

pub count-between :
    (f : Worker → ℕ) (before : List Worker) (r : Worker) (after : List Worker)
    → count f (before ++ r ∷ after) ≡ f r + (count f before + count f after)
count-between f before r after = omega (arith, count-append f before (r ∷ after))

pub count-workers : (n : ℕ) → (count waits (workers n) ≡ 0) × (count leaves (workers n) ≡ 0)
count-workers zero = (refl, refl)
count-workers (suc n) = omega (arith, count-workers n)

pub count-map-wake :
    (ws : List Worker)
    → (count waits (map wake ws) ≡ 0) × (count leaves (map wake ws) ≡ count leaves ws)
count-map-wake [] = (refl, refl)
count-map-wake (waiting ∷ ws) = omega (arith, count-map-wake ws)
count-map-wake (serving ∷ ws) = omega (arith, count-map-wake ws)
count-map-wake (executing t ∷ ws) = omega (arith, count-map-wake ws)
count-map-wake (draining ∷ ws) = omega (arith, count-map-wake ws)
count-map-wake (finishing t ∷ ws) = omega (arith, count-map-wake ws)
count-map-wake (ended ∷ ws) = omega (arith, count-map-wake ws)
