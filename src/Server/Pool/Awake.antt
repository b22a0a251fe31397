-- ===== src/Server/Pool/Awake.antt =====
-- The threads of the pool that wait (src/thread/thread_pool.cc).
use mathlib.Core.Path.{subst}
use net_frame.Common.{
  ℕ, ◌≡◌, ◌≤◌, ◌⊎◌, refl, ap, ◌∙◌, sym, Bool, true, false, List, [], ◌∷◌, ◌++◌, inl, inr, ◌≢◌,
  arith, length, suc,
}
use net_frame.Server.Pool.{
  Stat, stop, running, stopping, Worker, serving, waiting, Pool, is_running, runner, put_thread,
  start, begin_stop, add_task, start_from, stop_from, Notified, one, nobody, World, Step, starts,
  adds, stops, stopped, runs, wakes, Reach, here, then_step, created, workers, record_start,
}
use net_frame.Server.Pool.Order.{runner-IsTaken}
use net_frame.Server.Pool.Counts.{
  waits, serves, leaves, count, count-append, count-between, count-workers, count-map-wake,
}
use net_frame.Server.Pool.Sections.{runner-IsServed, runner-waits}

-- While the pool runs no thread has left the first loop, and for each task that waits there is a thread
-- on its way to it, unless no thread waits.
pub record IsAwake (p : Pool) : Type 0 where
  pub stay : is_running p.stat ≡ true → count leaves p.threads ≡ 0
  pub served :
      is_running p.stat ≡ true
      → (length p.queue ≤ count serves p.threads) ⊎ (count waits p.threads ≡ 0)
  pub woken : p.stat ≡ stopping → count waits p.threads ≡ 0
  pub none : p.stat ≡ stop → p.threads ≡ []

start_from-IsAwake : (s : Stat) (p : Pool) → p.stat ≡ s → IsAwake p → IsAwake (start_from s p).0
start_from-IsAwake stop p e a =
    let c = count-workers p.size in
    record {
      stay = λ _.
          omega (
            arith,
            c,
            count-append leaves p.threads (workers p.size),
            ap (count leaves) (a.none e),
          );
      served = λ _. inr (
          omega
            (arith, c, count-append waits p.threads (workers p.size), ap (count waits) (a.none e)));
      woken = λ e. cc;
      none = λ e. cc;
    }
start_from-IsAwake running p e a = a
start_from-IsAwake stopping p e a = a

stop_from-IsAwake : (s : Stat) (p : Pool) → p.stat ≡ s → IsAwake p → IsAwake (stop_from s p)
stop_from-IsAwake stop p e a = a
stop_from-IsAwake running p e a = record {
  stay = λ e. cc;
  served = λ e. cc;
  woken = λ _. (count-map-wake p.threads).0;
  none = λ e. cc;
}
stop_from-IsAwake stopping p e a = a

length-snoc : (ts : List ℕ) (t : ℕ) → length (ts ++ t ∷ []) ≡ suc (length ts)
length-snoc [] t = refl
length-snoc (u ∷ ts) t = ap suc (length-snoc ts t)

-- What `notify_one` changes.
record IsNotified (ws vs : List Worker) : Type 0 where
  leave : count leaves vs ≡ count leaves ws
  fewer : count waits vs ≤ count waits ws
  helps : (count serves vs ≡ suc (count serves ws)) ⊎ (count waits vs ≡ 0)
  empty : ws ≡ [] → vs ≡ []

not_empty : (before : List Worker) (r : Worker) (after : List Worker) → before ++ r ∷ after ≢ []
not_empty [] r after e = cc
not_empty (b ∷ before) r after e = cc

notified-IsNotified : {ws vs : List Worker} → Notified ws vs → IsNotified ws vs
notified-IsNotified (one before after) = record {
  leave =
      omega (
        arith,
        count-between leaves before waiting after,
        count-between leaves before serving after,
      );
  fewer =
      omega
        (arith, count-between waits before waiting after, count-between waits before serving after);
  helps = inl (
      omega (
        arith,
        count-between serves before waiting after,
        count-between serves before serving after,
      ));
  empty = λ e. elim (not_empty before waiting after e) [ ];
}
notified-IsNotified (nobody ws e) = record {
  leave = refl;
  fewer = omega arith;
  helps = inr (ap (count waits) (sym e) ∙ (count-map-wake ws).0);
  empty = λ e. e;
}

add_task-IsAwake :
    (t : ℕ) (woken : List Worker) (p : Pool)
    → IsNotified p.threads woken
    → IsAwake p
    → IsAwake (add_task t woken p).0
add_task-IsAwake t woken p n a = record {
  stay = λ on. n.leave ∙ a.stay on;
  served = λ on. elim (a.served on) [
    | inl enough ↦ elim n.helps [
      | inl more ↦ inl (omega (arith, length-snoc p.queue t, enough, more))
      | inr all ↦ inr all
    ]
    | inr all ↦ inr (omega (arith, n.fewer, all))
  ];
  woken = λ e. omega (arith, n.fewer, a.woken e);
  none = λ e. n.empty (a.none e);
}

module _ (before after : List Worker) (p : Pool) where
  runner-IsAwake :
      (r : Worker)
      → p.threads ≡ before ++ r ∷ after
      → IsAwake p
      → IsAwake (put_thread before (runner r p) after)
  runner-IsAwake r e a =
      let k = runner-IsTaken r p in
      let leave = ap (count leaves) e ∙ count-between leaves before r after in
      let wait = ap (count waits) e ∙ count-between waits before r after in
      let serve = ap (count serves) e ∙ count-between serves before r after in
      let s = (runner r p).0 in
      let section_of = λ (on : is_running (runner r p).1.stat ≡ true).
        runner-IsServed r p (ap is_running (sym k.stat) ∙ on)
          (omega (arith, leave, a.stay (ap is_running (sym k.stat) ∙ on))) in
      record {
        stay = λ on. omega (
          arith,
          leave,
          a.stay (ap is_running (sym k.stat) ∙ on),
          (section_of on).stays,
          count-between leaves before s after,
        );
        served = λ on. elim ((section_of on).kept) [
          | inr idle ↦ inl (omega (arith, idle))
          | inl (less, wait_same) ↦ elim (a.served (ap is_running (sym k.stat) ∙ on)) [
            | inl enough ↦
                inl (omega (arith, enough, serve, less, count-between serves before s after))
            | inr all ↦
                inr (omega (arith, all, wait, wait_same, count-between waits before s after))
          ]
        ];
        woken = λ stops. omega (
          arith,
          wait,
          a.woken (sym k.stat ∙ stops),
          count-between waits before s after,
          runner-waits r p (ap is_running (sym k.stat ∙ stops)),
        );
        none = λ stops. elim (not_empty before r after (sym e ∙ a.none (sym k.stat ∙ stops))) [ ];
      }

  wakes-IsAwake :
      p.threads ≡ before ++ waiting ∷ after
      → IsAwake p
      → IsAwake (put_thread before (serving, p) after)
  wakes-IsAwake e a =
      let leave = ap (count leaves) e ∙ count-between leaves before waiting after in
      let wait = ap (count waits) e ∙ count-between waits before waiting after in
      let serve = ap (count serves) e ∙ count-between serves before waiting after in
      record {
        stay = λ on. omega (arith, leave, a.stay on, count-between leaves before serving after);
        served = λ on. elim (a.served on) [
          | inl enough ↦
              inl (omega (arith, enough, serve, count-between serves before serving after))
          | inr all ↦ inr (omega (arith, all, wait))
        ];
        woken = λ stops. omega (arith, wait, a.woken stops);
        none = λ stops. elim (not_empty before waiting after (sym e ∙ a.none stops)) [ ];
      }

record_start-pool : (q : Pool × Bool) (w : World) → (record_start q w).pool ≡ q.0
record_start-pool (q, true) w = refl
record_start-pool (q, false) w = refl

step-IsAwake : {u v : World} → Step u v → IsAwake u.pool → IsAwake v.pool
unfolding start begin_stop
step-IsAwake (starts w) a =
    subst IsAwake (sym (record_start-pool (start w.pool) w))
      (start_from-IsAwake w.pool.stat w.pool refl a)
step-IsAwake (adds t woken w n) a = add_task-IsAwake t woken w.pool (notified-IsNotified n) a
step-IsAwake (stops w) a = stop_from-IsAwake w.pool.stat w.pool refl a
step-IsAwake (stopped w e all) a = record {
  stay = λ on. refl;
  served = λ on. inr refl;
  woken = λ e. refl;
  none = λ e. refl;
}
step-IsAwake (runs before after r w e) a = runner-IsAwake before after w.pool r e a
step-IsAwake (wakes before after w e) a = wakes-IsAwake before after w.pool e a

pub Reach-IsAwake : {u v : World} → Reach u v → IsAwake u.pool → IsAwake v.pool
Reach-IsAwake (here w) a = a
Reach-IsAwake (then_step u v w r s) a = step-IsAwake s (Reach-IsAwake r a)

pub created-IsAwake : (size : ℕ) → IsAwake (created size).pool
created-IsAwake size = record {
  stay = λ on. refl;
  served = λ on. inr refl;
  woken = λ e. refl;
  none = λ e. refl;
}

-- No wake-up is lost: while the pool runs, none of its threads has left the first loop, and there are as
-- many threads on their way to the queue as tasks that wait in it, threads that run a task not counted, or
-- else no thread waits at all; whatever the threads did before.
pub Reach-awake :
    {size : ℕ} {w : World}
    → Reach (created size) w
    → is_running w.pool.stat ≡ true
    → (count leaves w.pool.threads ≡ 0)
      × ((length w.pool.queue ≤ count serves w.pool.threads) ⊎ (count waits w.pool.threads ≡ 0))
Reach-awake {size} r on = let a = Reach-IsAwake r (created-IsAwake size) in (a.stay on, a.served on)
