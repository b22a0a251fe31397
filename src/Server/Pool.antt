-- ===== src/Server/Pool.antt =====
-- The pool of threads (src/thread/thread_pool.cc): its state, and a step for each of the sections that its
-- mutex makes atomic. `Runner` is cut where it takes or gives up the lock.
pub mod Order
pub mod Counts
pub mod Sections
pub mod Awake
pub mod Stopped
use net_frame.Common.{
  ℕ, zero, suc, ◌≡◌, Bool, true, false, ◌&&◌, List, [], ◌∷◌, ◌++◌, map, if◌then◌else◌,
}

-- `THREADPOOL_STAT`
pub data Stat : Type 0 where
  stop running stopping : Stat

-- Where a thread stands in `Runner`: before the first loop's lock, in `wait`, at `Run` of a task; before
-- the second loop's lock, at `Run` there; at the end. A task is its number.
pub data Worker : Type 0 where
  serving waiting draining ended : Worker
  executing finishing : ℕ → Worker

-- `taken` are the tasks that left the queue, in that order: a worker runs what it takes.
pub record Pool : Type 0 where
  pub stat : Stat
  pub size : ℕ
  pub queue : List ℕ
  pub taken : List ℕ
  pub threads : List Worker

abbrev pub is_running : Stat → Bool
is_running stop = false
is_running running = true
is_running stopping = false

-- One section of `Runner`.
abbrev pub serve : List ℕ → Pool → Worker × Pool
serve [] p = if is_running p.stat then (waiting, p) else (draining, p)
serve (t ∷ ts) p =
    if is_running p.stat
    then (executing t, record p { queue = ts; taken = p.taken ++ t ∷ [] })
    else (draining, p)

abbrev pub drain : List ℕ → Pool → Worker × Pool
drain [] p = (ended, p)
drain (t ∷ ts) p = (finishing t, record p { queue = ts; taken = p.taken ++ t ∷ [] })

unfoldable pub runner : Worker → Pool → Worker × Pool
runner serving p = serve p.queue p
runner waiting p = (waiting, p)
runner (executing t) p = (serving, p)
runner draining p = drain p.queue p
runner (finishing t) p = (draining, p)
runner ended p = (ended, p)

abbrev pub wake : Worker → Worker
wake waiting = serving
wake w = w

abbrev pub workers : ℕ → List Worker
workers zero = []
workers (suc n) = serving ∷ workers n

-- The number of threads is set only while the pool is stopped.
abbrev set_thread_num : ℕ → Pool → Pool × Bool
set_thread_num size p = elim (p.stat) [ stop ↦ (record p { size = size }, true) | _ ↦ (p, false) ]

abbrev pub start_from : Stat → Pool → Pool × Bool
start_from stop p = (record p { stat = running; threads = p.threads ++ workers p.size }, true)
start_from running p = (p, false)
start_from stopping p = (p, false)

unfoldable pub start : Pool → Pool × Bool
start p = start_from p.stat p

-- `Stop` before and behind the joins.
abbrev pub stop_from : Stat → Pool → Pool
stop_from stop p = p
stop_from running p = record p { stat = stopping; threads = map wake p.threads }
stop_from stopping p = p

unfoldable pub begin_stop : Pool → Pool
begin_stop p = stop_from p.stat p

abbrev pub finish_stop : Pool → Pool
finish_stop p = record p { stat = stop; threads = [] }

-- `notify_one` wakes one of the threads that wait, where one does.
pub data Notified : List Worker → List Worker → Type 0 where
  one :
      (before after : List Worker)
      → Notified (before ++ waiting ∷ after) (before ++ serving ∷ after)
  nobody : (ws : List Worker) → map wake ws ≡ ws → Notified ws ws

-- A task is queued whether the pool runs or not; the answer is always true.
abbrev pub add_task : ℕ → List Worker → Pool → Pool × Bool
add_task t woken p = (record p { queue = p.queue ++ t ∷ []; threads = woken }, true)

-- The pool with the tasks that were added while it ran or before it was started, and those after it was
-- told to stop.
pub record World : Type 0 where
  pub pool : Pool
  pub on_time : List ℕ
  pub late : List ℕ

abbrev pub record_task : ℕ → Bool → World → World
record_task t true w = record w { on_time = w.on_time ++ t ∷ [] }
record_task t false w = record w { late = w.late ++ t ∷ [] }

-- What is late is for the next start.
abbrev pub record_start : Pool × Bool → World → World
record_start (p, true) w = record { pool = p; on_time = w.on_time ++ w.late; late = [] }
record_start (p, false) w = record w { pool = p }

abbrev pub is_ended : Worker → Bool
is_ended ended = true
is_ended _ = false

-- The joins of `Stop` pass.
abbrev pub all_ended : List Worker → Bool
all_ended [] = true
all_ended (w ∷ ws) = is_ended w && all_ended ws

-- A thread at `w`, between others, runs a section of `Runner`.
abbrev pub put_thread : List Worker → Worker × Pool → List Worker → Pool
put_thread before (w, p) after = record p { threads = before ++ w ∷ after }

-- What any thread of the program may do next; `wait` may also return by itself.
pub data Step : World → World → Type 0 where
  starts : (w : World) → Step w (record_start (start w.pool) w)
  adds :
      (t : ℕ) (woken : List Worker) (w : World)
      → Notified w.pool.threads woken
      → Step w
          (record (record_task t (is_running w.pool.stat) w) { pool = (add_task t woken w.pool).0 })
  stops : (w : World) → Step w (record w { pool = begin_stop w.pool })
  stopped :
      (w : World)
      → w.pool.stat ≡ stopping
      → all_ended w.pool.threads ≡ true
      → Step w (record w { pool = finish_stop w.pool })
  runs :
      (before after : List Worker) (r : Worker) (w : World)
      → w.pool.threads ≡ before ++ r ∷ after
      → Step w (record w { pool = put_thread before (runner r w.pool) after })
  wakes :
      (before after : List Worker) (w : World)
      → w.pool.threads ≡ before ++ waiting ∷ after
      → Step w (record w { pool = put_thread before (serving, w.pool) after })

pub data Reach : World → World → Type 0 where
  here : (w : World) → Reach w w
  then_step : (u v w : World) → Reach u v → Step v w → Reach u w

-- A pool of `size` threads that was not started yet.
abbrev pub created : ℕ → World
created size = record {
  pool = record { stat = stop; size = size; queue = []; taken = []; threads = [] };
  on_time = [];
  late = [];
}
