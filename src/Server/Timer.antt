-- ===== src/Server/Timer.antt =====
-- The timer of the event loop (src/io_loop/timer.cc): a map from expiry times to queues of items, and
-- the expiry that the loop waits for. Times are milliseconds since the epoch; an item is its address.
pub mod Order
pub mod Wake
pub mod Run
pub mod Delete
use net_frame.Common.{
  ℕ, zero, suc, ◌+◌, ◌-◌, ◌≤◌, ◌<◌, ◌≡◌, Bool, true, false, ◌||◌, Option, none, some, List, [], ◌∷◌,
  ◌++◌, ◌==◌, ltb, leb, if◌then◌else◌,
}
use net_frame.Common.Int.{ℤ, pos, negsuc}
use Prim.Native.Nat.{◌%◌}

-- `_TimeMap`: the keys of a `std::map` rise.
abbrev pub TimeMap : Type 0
TimeMap = List (ℕ × List ℕ)

-- `_TimeMap[expire].push_back(timeItem)`
unfoldable pub push_item : ℕ → ℕ → TimeMap → TimeMap
push_item e i [] = (e, i ∷ []) ∷ []
push_item e i ((k, is) ∷ m) =
    let rest = push_item e i m in
    if ltb e k
    then (e, i ∷ []) ∷ (k, is) ∷ m
    else (if e == k then (k, is ++ i ∷ []) ∷ m else (k, is) ∷ rest)

-- `_TimeMap.find(expire)`
unfoldable pub find_list : ℕ → TimeMap → Option (List ℕ)
find_list e [] = none
find_list e ((k, is) ∷ m) = if k == e then some is else find_list e m

-- The search in a queue, and its `erase`: the first item with the address goes.
unfoldable pub holds : ℕ → List ℕ → Bool
holds i [] = false
holds i (j ∷ js) = if j == i then true else holds i js

unfoldable pub erase_item : ℕ → List ℕ → List ℕ
erase_item i [] = []
erase_item i (j ∷ js) = let rest = erase_item i js in if j == i then js else j ∷ rest

abbrev pub keep_list : ℕ → List ℕ → TimeMap → TimeMap
keep_list e [] m = m
keep_list e (i ∷ is) m = (e, i ∷ is) ∷ m

-- The item is erased from the queue of its time, and an empty queue from the map.
unfoldable pub erase_at : ℕ → ℕ → TimeMap → TimeMap
erase_at e i [] = []
erase_at e i ((k, is) ∷ m) =
    let rest = erase_at e i m in if k == e then keep_list k (erase_item i is) m else (k, is) ∷ rest

-- `_TimeMap.begin()->first`, and 0 for an empty map.
abbrev pub first_key : TimeMap → ℕ
first_key [] = 0
first_key ((k, is) ∷ m) = k

-- The timer, and `_Time` of every item.
pub record Timer : Type 0 where
  pub time_map : TimeMap
  pub net_expire : ℕ
  pub times : ℕ → ℕ

abbrev pub set_time : ℕ → ℕ → (ℕ → ℕ) → ℕ → ℕ
set_time i t times j = if j == i then t else times j

-- A negative timeout is one of 0.
abbrev pub clip : ℤ → ℕ
clip (pos n) = n
clip (negsuc n) = 0

unfoldable pub add_time_item : ℕ → ℕ → ℤ → Timer → Timer
unfolding push_item
add_time_item now i timeout t =
    let expire = now + clip timeout in
    record {
      time_map = push_item expire i t.time_map;
      net_expire = if ltb expire t.net_expire || t.net_expire == 0 then expire else t.net_expire;
      times = set_time i expire t.times;
    }

-- `_NetExpireTime` follows the first key once the queue of this time is gone.
abbrev pub expire_after : ℕ → List ℕ → TimeMap → ℕ → ℕ
expire_after e [] m net = if net == e then first_key m else net
expire_after e (i ∷ is) m net = net

unfoldable pub delete_time_item : ℕ → Timer → Timer × Bool
unfolding find_list holds erase_at erase_item
delete_time_item i t =
    let e = t.times i in
    elim (find_list e t.time_map) [
      | none ↦ (t, false)
      | some is ↦
          if holds i is
          then (let m = erase_at e i t.time_map in
              (
                record {
                  time_map = m;
                  net_expire = expire_after e (erase_item i is) m t.net_expire;
                  times = set_time i 0 t.times;
                },
                true,
              ))
          else (t, false)
    ]

-- `int time = a - b` of two 64-bit times: the difference wraps to 32 bits.
unfoldable pub int_difference : ℕ → ℕ → ℤ
int_difference a b =
    let d = (a % 4294967296 + 4294967296 - b % 4294967296) % 4294967296 in
    if ltb d 2147483648 then pos d else negsuc (4294967296 - d - 1)

abbrev pub at_least_0 : ℤ → ℤ
at_least_0 (pos n) = pos n
at_least_0 (negsuc n) = pos 0

-- How long to wait for the next item; -1 if there is none.
unfoldable pub get_net_expire_time : ℕ → Timer → ℤ
unfolding int_difference
get_net_expire_time now t = elim (t.time_map) [
  | [] ↦ negsuc 0
  | _ ∷ _ ↦ at_least_0 (int_difference t.net_expire now)
]

-- One round of the loop of `Process`, under the lock: it stops, drops an empty queue, or takes the first
-- item out, whose callback runs without the lock.
pub data Round : Type 0 where
  stopped : Timer → Round
  dropped : Timer → Round
  fired : ℕ → Timer → Round

unfoldable pub process_round : ℕ → Timer → Round
process_round now t = elim (t.time_map) [
  | [] ↦ stopped t
  | (k, is) ∷ m ↦ if ltb now k then stopped (record t { net_expire = k }) else elim is [
    | [] ↦
        dropped (record t { time_map = m; net_expire = elim m [ [] ↦ 0 | _ ∷ _ ↦ t.net_expire ] })
    | i ∷ rest ↦ fired i (record t { time_map = (k, rest) ∷ m; times = set_time i 0 t.times })
  ]
]

-- The whole of `Process`: the items that are fired, and the timer that is left. The lock is released
-- around each callback: `callback` is what the callback of an item, and the other threads meanwhile, make of
-- the timer. `none` means that the fuel ran out.
abbrev pub fire_first : ℕ → Option (List ℕ × Timer) → Option (List ℕ × Timer)
fire_first i none = none
fire_first i (some (is, t)) = some (i ∷ is, t)

unfoldable pub process : ℕ → ℕ → (ℕ → Timer → Timer) → Timer → Option (List ℕ × Timer)
unfolding process_round
process zero now callback t = none
process (suc fuel) now callback t = elim (process_round now t) [
  | stopped t' ↦ some ([], t')
  | dropped t' ↦ process fuel now callback t'
  | fired i t' ↦ fire_first i (process fuel now callback (callback i t'))
]
