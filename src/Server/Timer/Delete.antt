-- ===== src/Server/Timer/Delete.antt =====
-- Adding and deleting (src/io_loop/timer.cc): a deletion takes back the item that was added.
use net_frame.Common.{
  ℕ, ◌+◌, ◌≡◌, inl, inr, Bool, Bool-cases, true, false, some, List, [], ◌∷◌, ◌++◌, ◌==◌, ltb,
  if◌then◌else◌, arith, ◌∙◌,
}
use net_frame.Common.Int.{ℤ}
use net_frame.Server.Timer.{
  TimeMap, Timer, push_item, find_list, holds, erase_item, erase_at, clip, set_time, add_time_item,
  delete_time_item,
}
use net_frame.Server.Timer.Order.{AreRising, IsOrdered}

-- The item is in no queue of the map.
abbrev pub holds_none : ℕ → TimeMap → Bool
holds_none i [] = true
holds_none i ((k, is) ∷ m) = if holds i is then false else holds_none i m

holds-snoc : (i : ℕ) (is : List ℕ) → holds i (is ++ i ∷ []) ≡ true
unfolding holds
holds-snoc i [] = ground arith
holds-snoc i (j ∷ js) = ground (arith, holds-snoc i js)

erase_item-snoc : (i : ℕ) (is : List ℕ) → holds i is ≡ false → erase_item i (is ++ i ∷ []) ≡ is
unfolding holds erase_item
erase_item-snoc i [] h = ground arith
erase_item-snoc i (j ∷ js) h = ground (arith, erase_item-snoc i js)

-- No queue of a map is empty between two calls of `Process`.
abbrev pub AreFilled : TimeMap → Type 0
AreFilled [] = Unit {0}
AreFilled ((k, []) ∷ m) = ⊥
AreFilled ((k, i ∷ is) ∷ m) = AreFilled m

find-push :
    (e i low high : ℕ) (m : TimeMap)
    → AreRising low high m
    → holds_none i m ≡ true
    → (is : List ℕ) × (find_list e (push_item e i m) ≡ some is) × (holds i is ≡ true)
unfolding find_list push_item holds
find-push e i low high [] r h = (i ∷ [], ground arith, ground arith)
find-push e i low high ((k, is) ∷ m) (a, b, r) h = elim (Bool-cases (ltb e k)) [
  | inl less ↦ (i ∷ [], ground arith, ground arith)
  | inr more ↦ elim (Bool-cases (e == k)) [
    | inl same ↦ (is ++ i ∷ [], ground arith, holds-snoc i is)
    | inr other ↦
        let (js, found, there) = find-push e i k high m r (ground arith) in
        (js, ground arith, there)
  ]
]

erase-push :
    (e i low high : ℕ) (m : TimeMap)
    → AreRising low high m
    → AreFilled m
    → holds_none i m ≡ true
    → erase_at e i (push_item e i m) ≡ m
unfolding erase_at push_item erase_item
erase-push e i low high [] r f h = ground arith
erase-push e i low high ((k, []) ∷ m) (a, b, r) f h = absurd f
erase-push e i low high ((k, j ∷ js) ∷ m) (a, b, r) f h =
    ground (arith, erase-push e i k high m, erase_item-snoc i (j ∷ js))

set_time_self : (i t : ℕ) (times : ℕ → ℕ) → set_time i t times i ≡ t
set_time_self i t times = ground arith

delete_found :
    (i e : ℕ) (is : List ℕ) (t : Timer)
    → t.times i ≡ e
    → find_list e t.time_map ≡ some is
    → holds i is ≡ true
    → ((delete_time_item i t).1 ≡ true)
      × ((delete_time_item i t).0.time_map ≡ erase_at e i t.time_map)
      × ((delete_time_item i t).0.times i ≡ 0)
unfolding delete_time_item
delete_found i e is t at_e found there = ground (arith, set_time_self i 0 t.times)

-- A timer that was added and is deleted at once is found, and the map is what it was; the item must not
-- have waited before, and no queue be empty, as is so between two calls of `Process`.
pub delete-add_time_item :
    (high now i : ℕ) (timeout : ℤ) (t : Timer)
    → IsOrdered high t
    → AreFilled t.time_map
    → holds_none i t.time_map ≡ true
    → let (t', found) = delete_time_item i (add_time_item now i timeout t) in
      (found ≡ true) × (t'.time_map ≡ t.time_map) × (t'.times i ≡ 0)
unfolding add_time_item
delete-add_time_item high now i timeout t v filled new =
    let e = now + clip timeout in
    let (is, found, there) = find-push e i 0 high t.time_map v.rising new in
    let (ok, map_left, time_left) =
      delete_found i e is (add_time_item now i timeout t) (set_time_self i e t.times) found there in
    (ok, map_left ∙ erase-push e i 0 high t.time_map v.rising filled new, time_left)
