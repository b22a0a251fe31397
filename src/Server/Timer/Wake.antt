-- ===== src/Server/Timer/Wake.antt =====
-- The timer between threads (src/io_loop/timer.cc). Every section under
-- `_Mutex` is one step, and between the rounds of `Process` the lock is free.
use net_frame.Common.{
  ℕ, ◌+◌, ◌-◌, ◌≤◌, ◌<◌, ◌≡◌, refl, ◌⊎◌, inl, inr, Bool-cases, Option, none, some, [], ◌∷◌, ltb,
  arith, ltb→lt,
}
use Prim.Native.Nat.{◌%◌}
use net_frame.Common.Int.{ℤ, pos, negsuc}
use net_frame.Server.Timer.{
  TimeMap, Timer, clip, add_time_item, delete_time_item, Round, stopped, dropped, fired,
  process_round, int_difference, at_least_0, get_net_expire_time,
}
use net_frame.Server.Timer.Order.{
  IsOrdered, left, AreRising-weaken, add_time_item-IsOrdered, delete_time_item-IsOrdered,
  process_round-IsOrdered,
}

-- The timer, the wall clock, and the time at which a `Process` that is under way began.
pub record Clocked : Type 0 where
  pub timer : Timer
  pub clock : ℕ
  pub processing : Option ℕ

abbrev pub after_round : ℕ → Round → Option ℕ
after_round now (stopped t) = none
after_round now (dropped t) = some now
after_round now (fired i t) = some now

-- Any thread adds and deletes, at any time; one thread runs `Process`. A timeout is an `int`.
pub data Step (s : Clocked) : Clocked → Type 0 where
  tick : (n : ℕ) → Step s (record s { clock = s.clock + n })
  add :
      (i : ℕ) (timeout : ℤ)
      → clip timeout < 2147483648
      → Step s (record s { timer = add_time_item s.clock i timeout s.timer })
  delete : (i : ℕ) → Step s (record s { timer = (delete_time_item i s.timer).0 })
  begin : s.processing ≡ none → Step s (record s { processing = some s.clock })
  round :
      (now : ℕ)
      → s.processing ≡ some now
      → Step s (record s {
        timer = left (process_round now s.timer);
        processing = after_round now (process_round now s.timer);
      })

pub data Reach (start : Clocked) : Clocked → Type 0 where
  here : Reach start start
  next : {s t : Clocked} → Reach start s → Step s t → Reach start t

abbrev pub new_timer : Timer
new_timer = record { time_map = []; net_expire = 0; times = λ i. 0 }

abbrev pub started : ℕ → Clocked
started now = record { timer = new_timer; clock = now; processing = none }

record IsKept (s : Clocked) : Type 0 where
  running : 0 < s.clock
  ordered : IsOrdered (s.clock + 2147483647) s.timer

IsOrdered-weaken : (high top : ℕ) {t : Timer} → high ≤ top → IsOrdered high t → IsOrdered top t
IsOrdered-weaken high top {t} le v = record {
  rising = AreRising-weaken 0 0 high top t.time_map (omega arith) le v.rising;
  due = v.due;
}

Step-IsKept : {s t : Clocked} → IsKept s → Step s t → IsKept t
Step-IsKept {s} v (tick n) = record {
  running = omega (arith, v.running);
  ordered = IsOrdered-weaken _ _ (omega arith) v.ordered;
}
Step-IsKept {s} v (add i timeout bounded) = record {
  running = v.running;
  ordered = add_time_item-IsOrdered _ s.clock i timeout v.running (omega arith) v.ordered;
}
Step-IsKept {s} v (delete i) = record {
  running = v.running;
  ordered = delete_time_item-IsOrdered _ i v.ordered;
}
Step-IsKept {s} v (begin idle) = record { running = v.running; ordered = v.ordered }
Step-IsKept {s} v (round now busy) = record {
  running = v.running;
  ordered = process_round-IsOrdered _ now v.ordered;
}

Reach-IsKept : {s t : Clocked} → IsKept s → Reach s t → IsKept t
Reach-IsKept v here = v
Reach-IsKept v (next r st) = Step-IsKept (Reach-IsKept v r) st

-- Within half of the range of 32 bits the difference is exact.
wrapped_pos :
    (a b : ℕ)
    → b ≤ a
    → a < b + 2147483648
    → (a % 4294967296 + 4294967296 - b % 4294967296) % 4294967296 ≡ a - b
wrapped_pos a b le lt = omega arith

wrapped_neg :
    (a b : ℕ)
    → a < b
    → b ≤ a + 2147483648
    → (a % 4294967296 + 4294967296 - b % 4294967296) % 4294967296 ≡ 4294967296 - (b - a)
wrapped_neg a b lt le = omega arith

int_difference-pos : (a b : ℕ) → b ≤ a → a < b + 2147483648 → int_difference a b ≡ pos (a - b)
unfolding int_difference
int_difference-pos a b le lt = rw (wrapped_pos a b le lt) (ground arith)

int_difference-negsuc :
    (a b : ℕ) → a < b → b ≤ a + 2147483648 → int_difference a b ≡ negsuc (b - a - 1)
unfolding int_difference
int_difference-negsuc a b lt le = rw (wrapped_neg a b lt le) (ground arith)

-- The wait, for a map with a first key: it ends no later than this key.
abbrev pub WakesBy : ℕ → ℤ → Type 0
WakesBy k (pos n) = n ≤ k
WakesBy k (negsuc n) = ⊥

wait_bound :
    (net k clock : ℕ)
    → net ≤ k
    → net < clock + 2147483648
    → clock ≤ net + 2147483648
    → WakesBy (k - clock) (at_least_0 (int_difference net clock))
wait_bound net k clock first near recent = elim (Bool-cases (ltb net clock)) [
  | inl past ↦ rw (int_difference-negsuc net clock (ltb→lt net clock past) recent) (omega arith)
  | inr ahead ↦ rw (int_difference-pos net clock (ground arith) near) (omega arith)
]

-- What the wait must be: none without an item, and otherwise at most the time to the first expiry.
abbrev pub IsInTime : ℕ → TimeMap → ℤ → Type 0
IsInTime clock [] wait = wait ≡ negsuc 0
IsInTime clock ((k, is) ∷ m) wait = WakesBy (k - clock) wait

wait-IsInTime :
    (clock net : ℕ) (times : ℕ → ℕ) (m : TimeMap)
    → (m ≡ []) ⊎ (clock ≤ net + 2147483648)
    → IsOrdered (clock + 2147483647) (record { time_map = m; net_expire = net; times = times })
    → IsInTime clock m
        (get_net_expire_time clock (record { time_map = m; net_expire = net; times = times }))
unfolding get_net_expire_time
wait-IsInTime clock net times [] recent v = refl
wait-IsInTime clock net times ((k, is) ∷ m) (inl e) v = cc
wait-IsInTime clock net times ((k, is) ∷ m) (inr recent) v =
    let due = v.due.1 in let high = v.rising.1 in wait_bound net k clock due (omega arith) recent

-- Whatever threads add and delete, also between the rounds of `Process`: `GetNetExpireTime` answers a wait
-- without end only if no item waits, and otherwise one no longer than to the first expiry; where an item
-- waits, this holds while the stored expiry is not 2 ^ 31 milliseconds in the past. What `Run` makes of the
-- answer, from which it subtracts the clock again, is not claimed.
pub get_net_expire_time-IsInTime :
    (now : ℕ) {s : Clocked}
    → 0 < now
    → Reach (started now) s
    → (s.timer.time_map ≡ []) ⊎ (s.clock ≤ s.timer.net_expire + 2147483648)
    → IsInTime s.clock s.timer.time_map (get_net_expire_time s.clock s.timer)
get_net_expire_time-IsInTime now {s} running r recent =
    let v =
      Reach-IsKept (record { running = running; ordered = record { rising = tt; due = tt } }) r in
    wait-IsInTime s.clock s.timer.net_expire s.timer.times s.timer.time_map recent v.ordered
