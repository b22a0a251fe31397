-- ===== src/Server/Pool/Order.antt =====
-- The order of the tasks of the pool (src/thread/thread_pool.cc).
use mathlib.Core.List.{append_assoc, append-nil}
use net_frame.Common.{
  ℕ, ◌≡◌, refl, ap, ◌∙◌, sym, Bool, Bool-cases, true, false, List, [], ◌∷◌, ◌++◌, inl, inr,
}
use net_frame.Server.Pool.{
  Stat, stop, running, stopping, Worker, serving, waiting, executing, draining, finishing, ended,
  Pool, is_running, serve, drain, runner, start, begin_stop, add_task, start_from, stop_from, World,
  Step, starts, adds, stops, stopped, runs, wakes, Reach, here, then_step, created, record_task,
  record_start,
}

-- A section takes at most the first task.
pub record IsTaken (p q : Pool) : Type 0 where
  pub order : q.taken ++ q.queue ≡ p.taken ++ p.queue
  pub stat : q.stat ≡ p.stat

take_first :
    (t : ℕ) (ts : List ℕ) (p : Pool)
    → p.queue ≡ t ∷ ts
    → IsTaken p (record p { queue = ts; taken = p.taken ++ t ∷ [] })
take_first t ts p e = record {
  order = append_assoc p.taken (t ∷ []) ts ∙ ap (λ q. p.taken ++ q) (sym e);
  stat = refl;
}

serve-IsTaken : (ts : List ℕ) (p : Pool) → p.queue ≡ ts → IsTaken p (serve ts p).1
serve-IsTaken [] p e = elim (Bool-cases (is_running p.stat)) [
  | inl on ↦ rw on (record { order = refl; stat = refl })
  | inr off ↦ rw off (record { order = refl; stat = refl })
]
serve-IsTaken (t ∷ ts) p e = elim (Bool-cases (is_running p.stat)) [
  | inl on ↦ rw on (take_first t ts p e)
  | inr off ↦ rw off (record { order = refl; stat = refl })
]

drain-IsTaken : (ts : List ℕ) (p : Pool) → p.queue ≡ ts → IsTaken p (drain ts p).1
drain-IsTaken [] p e = record { order = refl; stat = refl }
drain-IsTaken (t ∷ ts) p e = take_first t ts p e

pub runner-IsTaken : (r : Worker) (p : Pool) → IsTaken p (runner r p).1
unfolding runner
runner-IsTaken serving p = serve-IsTaken p.queue p refl
runner-IsTaken waiting p = record { order = refl; stat = refl }
runner-IsTaken (executing t) p = record { order = refl; stat = refl }
runner-IsTaken draining p = drain-IsTaken p.queue p refl
runner-IsTaken (finishing t) p = record { order = refl; stat = refl }
runner-IsTaken ended p = record { order = refl; stat = refl }

pub record IsInOrder (w : World) : Type 0 where
  pub order : w.pool.taken ++ w.pool.queue ≡ w.on_time ++ w.late
  pub early : is_running w.pool.stat ≡ true → w.late ≡ []

start_from-IsInOrder :
    (s : Stat) (w : World)
    → w.pool.stat ≡ s
    → IsInOrder w
    → IsInOrder (record_start (start_from s w.pool) w)
start_from-IsInOrder stop w e o = record {
  order = o.order ∙ sym (append-nil (w.on_time ++ w.late));
  early = λ _. refl;
}
start_from-IsInOrder running w e o = o
start_from-IsInOrder stopping w e o = o

stop_from-IsInOrder :
    (s : Stat) (w : World)
    → w.pool.stat ≡ s
    → IsInOrder w
    → IsInOrder (record w { pool = stop_from s w.pool })
stop_from-IsInOrder stop w e o = o
stop_from-IsInOrder running w e o = record { order = o.order; early = λ on. cc }
stop_from-IsInOrder stopping w e o = o

record_task-IsInOrder :
    (t : ℕ) (woken : List Worker) (on : Bool) (w : World)
    → is_running w.pool.stat ≡ on
    → IsInOrder w
    → IsInOrder (record (record_task t on w) { pool = (add_task t woken w.pool).0 })
record_task-IsInOrder t woken true w e o = record {
  order =
      sym (append_assoc w.pool.taken w.pool.queue (t ∷ []))
      ∙ ap (λ q. q ++ t ∷ [])
          (o.order ∙ ap (λ l. w.on_time ++ l) (o.early e) ∙ append-nil w.on_time)
      ∙ sym (ap (λ l. (w.on_time ++ t ∷ []) ++ l) (o.early e) ∙ append-nil (w.on_time ++ t ∷ []));
  early = o.early;
}
record_task-IsInOrder t woken false w e o = record {
  order =
      sym (append_assoc w.pool.taken w.pool.queue (t ∷ []))
      ∙ ap (λ q. q ++ t ∷ []) o.order
      ∙ append_assoc w.on_time w.late (t ∷ []);
  early = λ on. cc;
}

step-IsInOrder : {u v : World} → Step u v → IsInOrder u → IsInOrder v
unfolding start begin_stop
step-IsInOrder (starts w) o = start_from-IsInOrder w.pool.stat w refl o
step-IsInOrder (adds t woken w n) o =
    record_task-IsInOrder t woken (is_running w.pool.stat) w refl o
step-IsInOrder (stops w) o = stop_from-IsInOrder w.pool.stat w refl o
step-IsInOrder (stopped w e all) o = record { order = o.order; early = λ on. cc }
step-IsInOrder (runs before after r w e) o =
    let k = runner-IsTaken r w.pool in
    record { order = k.order ∙ o.order; early = λ on. o.early (ap is_running (sym k.stat) ∙ on) }
step-IsInOrder (wakes before after w e) o = record { order = o.order; early = o.early }

pub Reach-IsInOrder : {u v : World} → Reach u v → IsInOrder u → IsInOrder v
Reach-IsInOrder (here w) o = o
Reach-IsInOrder (then_step u v w r s) o = step-IsInOrder s (Reach-IsInOrder r o)

pub created-IsInOrder : (size : ℕ) → IsInOrder (created size)
created-IsInOrder size = record { order = refl; early = λ on. refl }

-- The tasks leave the queue in the order in which they were added, each of them once, whatever the
-- threads do: those that were taken and those that wait are together all that were added.
pub Reach-created-IsInOrder : {size : ℕ} {w : World} → Reach (created size) w → IsInOrder w
Reach-created-IsInOrder {size} r = Reach-IsInOrder r (created-IsInOrder size)
