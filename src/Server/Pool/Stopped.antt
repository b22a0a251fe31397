-- ===== src/Server/Pool/Stopped.antt =====
-- The end of the pool (src/thread/thread_pool.cc): `Stop` behind its joins.
use mathlib.Core.List.{append_assoc, append-nil}
use net_frame.Common.{
  ℕ, ◌≡◌, ◌≤◌, ◌<◌, ◌⊎◌, ◌≢◌, refl, ap, ◌∙◌, sym, Bool, Bool-cases, true, false, List, [], ◌∷◌,
  ◌++◌, map, inl, inr, arith, length, zero, suc,
}
use net_frame.Server.Pool.{
  Stat, stop, running, stopping, Worker, serving, waiting, executing, draining, finishing, ended,
  Pool, is_running, serve, drain, runner, put_thread, start, begin_stop, add_task, start_from,
  stop_from, Notified, one, nobody, World, Step, starts, adds, stops, stopped, runs, wakes, Reach,
  here, then_step, created, wake, workers, record_task, record_start, all_ended,
}
use net_frame.Server.Bytes.{length-append}
use net_frame.Server.Pool.Order.{IsInOrder, Reach-IsInOrder, created-IsInOrder}
use net_frame.Server.Pool.Counts.{count, leaves, count-append, count-between}
use net_frame.Server.Pool.Awake.{IsAwake, Reach-IsAwake, created-IsAwake}

abbrev pub ends : Worker → ℕ
ends ended = 1
ends _ = 0

-- `queue` is the end of `late`.
abbrev pub IsEndOf : List ℕ → List ℕ → Type 0
IsEndOf queue late = (x : List ℕ) × (late ≡ x ++ queue)

count-ends : (ws : List Worker) → count ends ws ≤ count leaves ws
count-ends [] = omega arith
count-ends (waiting ∷ ws) = omega (arith, count-ends ws)
count-ends (serving ∷ ws) = omega (arith, count-ends ws)
count-ends (executing t ∷ ws) = omega (arith, count-ends ws)
count-ends (draining ∷ ws) = omega (arith, count-ends ws)
count-ends (finishing t ∷ ws) = omega (arith, count-ends ws)
count-ends (ended ∷ ws) = omega (arith, count-ends ws)

ends-map-wake : (ws : List Worker) → count ends (map wake ws) ≡ count ends ws
ends-map-wake [] = refl
ends-map-wake (waiting ∷ ws) = omega (arith, ends-map-wake ws)
ends-map-wake (serving ∷ ws) = omega (arith, ends-map-wake ws)
ends-map-wake (executing t ∷ ws) = omega (arith, ends-map-wake ws)
ends-map-wake (draining ∷ ws) = omega (arith, ends-map-wake ws)
ends-map-wake (finishing t ∷ ws) = omega (arith, ends-map-wake ws)
ends-map-wake (ended ∷ ws) = omega (arith, ends-map-wake ws)

ends-workers : (n : ℕ) → count ends (workers n) ≡ 0
ends-workers zero = refl
ends-workers (suc n) = omega (arith, ends-workers n)

-- A thread ends only where the queue is empty; otherwise a section takes from its front.
abbrev IsDrain : Worker → Pool → Worker × Pool → Type 0
IsDrain r p (s, q) = (q.queue ≡ []) ⊎ ((ends s ≡ ends r) × IsEndOf q.queue p.queue)

serve-IsDrain : (ts : List ℕ) (p : Pool) → p.queue ≡ ts → IsDrain serving p (serve ts p)
serve-IsDrain [] p e = elim (Bool-cases (is_running p.stat)) [
  | inl on ↦ rw on (inl e)
  | inr off ↦ rw off (inl e)
]
serve-IsDrain (t ∷ ts) p e = elim (Bool-cases (is_running p.stat)) [
  | inl on ↦ rw on (inr (refl, (t ∷ [], e)))
  | inr off ↦ rw off (inr (refl, ([], refl)))
]

drain-IsDrain : (ts : List ℕ) (p : Pool) → p.queue ≡ ts → IsDrain draining p (drain ts p)
drain-IsDrain [] p e = inl e
drain-IsDrain (t ∷ ts) p e = inr (refl, (t ∷ [], e))

runner-IsDrain : (r : Worker) (p : Pool) → IsDrain r p (runner r p)
unfolding runner
runner-IsDrain serving p = serve-IsDrain p.queue p refl
runner-IsDrain waiting p = inr (refl, ([], refl))
runner-IsDrain (executing t) p = inr (refl, ([], refl))
runner-IsDrain draining p = drain-IsDrain p.queue p refl
runner-IsDrain (finishing t) p = inr (refl, ([], refl))
runner-IsDrain ended p = inr (refl, ([], refl))

-- Once a thread has ended, the tasks that wait were added late.
abbrev pub IsDrained : World → Type 0
IsDrained w = 0 < count ends w.pool.threads → IsEndOf w.pool.queue w.late

not_none : (n : ℕ) → 0 < n → n ≢ 0
not_none n h e = omega (arith, h, e)

start_from-IsDrained :
    (s : Stat) (w : World)
    → w.pool.stat ≡ s
    → IsAwake w.pool
    → IsDrained w
    → IsDrained (record_start (start_from s w.pool) w)
start_from-IsDrained stop w e a d = λ some_ended.
    elim (not_none (count ends (w.pool.threads ++ workers w.pool.size)) some_ended (
      omega (
        arith,
        ends-workers w.pool.size,
        ap (count ends) (a.none e),
        count-append ends w.pool.threads (workers w.pool.size),
      ))) [ ]
start_from-IsDrained running w e a d = d
start_from-IsDrained stopping w e a d = d

stop_from-IsDrained :
    (s : Stat) (w : World)
    → w.pool.stat ≡ s
    → IsDrained w
    → IsDrained (record w { pool = stop_from s w.pool })
stop_from-IsDrained stop w e d = d
stop_from-IsDrained running w e d =
    λ some_ended. d (omega (arith, some_ended, ends-map-wake w.pool.threads))
stop_from-IsDrained stopping w e d = d

notified-ends : {ws vs : List Worker} → Notified ws vs → count ends vs ≡ count ends ws
notified-ends (one before after) =
    omega (arith, count-between ends before waiting after, count-between ends before serving after)
notified-ends (nobody ws e) = refl

record_task-IsDrained :
    (t : ℕ) (woken : List Worker) (on : Bool) (w : World)
    → is_running w.pool.stat ≡ on
    → count ends woken ≡ count ends w.pool.threads
    → IsAwake w.pool
    → IsDrained w
    → IsDrained (record (record_task t on w) { pool = (add_task t woken w.pool).0 })
record_task-IsDrained t woken true w e same a d some_ended =
    elim (not_none (count ends woken) some_ended
      (omega (arith, same, count-ends w.pool.threads, a.stay e))) [ ]
record_task-IsDrained t woken false w e same a d some_ended =
    let (x, h) = d (omega (arith, some_ended, same)) in
    (x, ap (λ l. l ++ t ∷ []) h ∙ append_assoc x w.pool.queue (t ∷ []))

runs-IsDrained :
    (before after : List Worker) (r : Worker) (w : World)
    → w.pool.threads ≡ before ++ r ∷ after
    → IsInOrder w
    → IsDrained w
    → IsDrained (record w { pool = put_thread before (runner r w.pool) after })
runs-IsDrained before after r w e o d some_ended = elim (runner-IsDrain r w.pool) [
  | inl drained ↦ (w.late, sym (ap (λ q. w.late ++ q) drained ∙ append-nil w.late))
  | inr (same, (y, h)) ↦
      let (x, l) = d (
        omega (
          arith,
          some_ended,
          same,
          ap (count ends) e,
          count-between ends before r after,
          count-between ends before ((runner r w.pool).0) after,
        )) in
      (x ++ y, l ∙ ap (λ q. x ++ q) h ∙ sym (append_assoc x y ((runner r w.pool).1.queue)))
]

wakes-IsDrained :
    (before after : List Worker) (w : World)
    → w.pool.threads ≡ before ++ waiting ∷ after
    → IsDrained w
    → IsDrained (record w { pool = put_thread before (serving, w.pool) after })
wakes-IsDrained before after w e d some_ended = d (
    omega (
      arith,
      some_ended,
      ap (count ends) e,
      count-between ends before waiting after,
      count-between ends before serving after,
    ))

step-IsDrained : {u v : World} → Step u v → IsInOrder u → IsAwake u.pool → IsDrained u → IsDrained v
unfolding start begin_stop
step-IsDrained (starts w) o a d = start_from-IsDrained w.pool.stat w refl a d
step-IsDrained (adds t woken w n) o a d =
    record_task-IsDrained t woken (is_running w.pool.stat) w refl (notified-ends n) a d
step-IsDrained (stops w) o a d = stop_from-IsDrained w.pool.stat w refl d
step-IsDrained (stopped w e all) o a d = λ some_ended. elim (not_none 0 some_ended refl) [ ]
step-IsDrained (runs before after r w e) o a d = runs-IsDrained before after r w e o d
step-IsDrained (wakes before after w e) o a d = wakes-IsDrained before after w e d

Reach-IsDrained :
    {u v : World} → Reach u v → IsInOrder u → IsAwake u.pool → IsDrained u → IsDrained v
Reach-IsDrained (here w) o a d = d
Reach-IsDrained (then_step u v w r s) o a d =
    step-IsDrained s (Reach-IsInOrder r o) (Reach-IsAwake r a) (Reach-IsDrained r o a d)

all_ended-ends : (ws : List Worker) → all_ended ws ≡ true → count ends ws ≡ length ws
all_ended-ends [] all = refl
all_ended-ends (ended ∷ ws) all = omega (arith, all_ended-ends ws all)
all_ended-ends (serving ∷ ws) all = cc
all_ended-ends (waiting ∷ ws) all = cc
all_ended-ends (draining ∷ ws) all = cc
all_ended-ends (executing t ∷ ws) all = cc
all_ended-ends (finishing t ∷ ws) all = cc

append_lengthens : (y : ℕ) (ys zs : List ℕ) → zs ≢ y ∷ ys ++ zs
append_lengthens y ys zs e = omega (arith, ap length e, length-append ys zs)

append-cancel : (xs ys zs : List ℕ) → xs ++ zs ≡ ys ++ zs → xs ≡ ys
append-cancel [] [] zs e = refl
append-cancel [] (y ∷ ys) zs e = elim (append_lengthens y ys zs e) [ ]
append-cancel (x ∷ xs) [] zs e = elim (append_lengthens x xs zs (sym e)) [ ]
append-cancel (x ∷ xs) (y ∷ ys) zs e = let t = append-cancel xs ys zs cc in cc

-- Behind the joins of `Stop` of a pool that has a thread, all tasks were taken that were added before
-- `Stop` began; what may be left in the queue was added after it.
pub Reach-stopped :
    {size : ℕ} {w : World}
    → Reach (created size) w
    → all_ended w.pool.threads ≡ true
    → 0 < length w.pool.threads
    → (x : List ℕ) × (w.late ≡ x ++ w.pool.queue) × (w.pool.taken ≡ w.on_time ++ x)
Reach-stopped {size} {w} r all threads =
    let (x, h) =
      Reach-IsDrained r (created-IsInOrder size) (created-IsAwake size)
        (λ some_ended. elim (not_none 0 some_ended refl) [ ])
        (omega (arith, threads, all_ended-ends w.pool.threads all)) in
    (
      x,
      h,
      append-cancel w.pool.taken (w.on_time ++ x) w.pool.queue (
          (Reach-IsInOrder r (created-IsInOrder size)).order
          ∙ ap (λ l. w.on_time ++ l) h
          ∙ sym (append_assoc w.on_time x w.pool.queue)),
    )
