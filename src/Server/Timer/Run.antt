-- ===== src/Server/Timer/Run.antt =====
-- What one `Process` fires (src/io_loop/timer.cc), whatever its callbacks and other threads do to the items
-- that are not due.
use net_frame.Common.{
  ℕ, zero, suc, ◌+◌, ◌≤◌, ◌<◌, ◌≡◌, refl, inl, inr, Bool-cases, true, false, some, List, [], ◌∷◌,
  ◌++◌, ltb, leb, if◌then◌else◌, arith, length, ap, ◌∙◌, sym,
}
use mathlib.Core.Path.{subst}
use net_frame.Common.Int.{ℤ}
use net_frame.Server.Timer.{
  TimeMap, Timer, push_item, set_time, clip, add_time_item, process, fire_first,
}
use net_frame.Server.Timer.Order.{AreRising, AreRising-weaken, push_item-AreRising}

-- The items that are due, each queue in its order, and the queues that are not.
abbrev pub due : ℕ → TimeMap → List ℕ
due now [] = []
due now ((k, is) ∷ m) = if leb k now then is ++ due now m else due now m

abbrev pub later : ℕ → TimeMap → TimeMap
later now [] = []
later now ((k, is) ∷ m) = if leb k now then later now m else (k, is) ∷ later now m

-- As many rounds as there are items and queues that are due.
abbrev pub rounds : ℕ → TimeMap → ℕ
rounds now [] = 0
rounds now ((k, is) ∷ m) = if leb k now then suc (length is + rounds now m) else rounds now m

-- The times rise.
abbrev pub AreSorted : TimeMap → Type 0
AreSorted m = (high : ℕ) × AreRising 0 high m

none_due :
    (now low high : ℕ) (m : TimeMap)
    → now ≤ low
    → AreRising low high m
    → (due now m ≡ []) × (later now m ≡ m)
none_due now low high [] le r = (refl, refl)
none_due now low high ((k, is) ∷ m) le (h, g, r) =
    let (a, b) = none_due now k high m (omega arith) r in ground arith

-- What a callback may do: it keeps the times rising and the items that are due, and what `Holds` says of
-- the queues that are not.
pub record Spares (now : ℕ) (Holds : TimeMap → Type 0) (t u : Timer) : Type 0 where
  pub sorted : AreSorted t.time_map → AreSorted u.time_map
  pub same_due : due now u.time_map ≡ due now t.time_map
  pub no_more : rounds now u.time_map ≤ rounds now t.time_map
  pub held : Holds (later now t.time_map) → Holds (later now u.time_map)

-- The expiry that is awaited is that of the first queue that is left.
abbrev pub AwaitsFirst : TimeMap → ℕ → Type 0
AwaitsFirst [] net = Unit {0}
AwaitsFirst ((k, is) ∷ m) net = net ≡ k

-- `Process` ends, having fired the items that were due, and none that is left is due.
abbrev pub IsProcessed : ℕ → ℕ → (TimeMap → Type 0) → (ℕ → Timer → Timer) → Timer → Type 0
IsProcessed fuel now Holds callback t =
    (final : Timer) × (process fuel now callback t ≡ some (due now t.time_map, final))
    × (due now final.time_map ≡ [])
    × (later now final.time_map ≡ final.time_map)
    × Holds final.time_map
    × AwaitsFirst final.time_map final.net_expire

abbrev of_parts : TimeMap → ℕ → (ℕ → ℕ) → Timer
of_parts m net times = record { time_map = m; net_expire = net; times = times }

module _ (now : ℕ) (Holds : TimeMap → Type 0) (callback : ℕ → Timer → Timer) where
  process_stops :
      (fuel k : ℕ) (is : List ℕ) (m : TimeMap) (net : ℕ) (times : ℕ → ℕ)
      → ltb now k ≡ true
      → process (suc fuel) now callback (of_parts ((k, is) ∷ m) net times)
        ≡ some ([], of_parts ((k, is) ∷ m) k times)
  unfolding process
  process_stops fuel k is m net times waits = ground arith

  process_drops :
      (fuel k : ℕ) (m : TimeMap) (net : ℕ) (times : ℕ → ℕ)
      → ltb now k ≡ false
      → process (suc fuel) now callback (of_parts ((k, []) ∷ m) net times)
        ≡ process fuel now callback (of_parts m (elim m [ [] ↦ 0 | _ ∷ _ ↦ net ]) times)
  unfolding process
  process_drops fuel k [] net times passed = ground arith
  process_drops fuel k (entry ∷ m) net times passed = ground arith

  process_fires :
      (fuel k i : ℕ) (is : List ℕ) (m : TimeMap) (net : ℕ) (times : ℕ → ℕ)
      → ltb now k ≡ false
      → process (suc fuel) now callback (of_parts ((k, i ∷ is) ∷ m) net times)
        ≡ fire_first i (
            process fuel now callback
              (callback i (of_parts ((k, is) ∷ m) net (set_time i 0 times))))
  unfolding process
  process_fires fuel k i is m net times passed = ground arith

  -- The first queue is not due, and so none is.
  stopped-IsProcessed :
      (fuel k high : ℕ) (is : List ℕ) (m : TimeMap) (net : ℕ) (times : ℕ → ℕ)
      → ltb now k ≡ true
      → AreRising k high m
      → Holds (later now ((k, is) ∷ m))
      → IsProcessed (suc fuel) now Holds callback (of_parts ((k, is) ∷ m) net times)
  stopped-IsProcessed fuel k high is m net times waits r holds =
      let (nothing, all) = none_due now k high m (ground arith) r in
      let not_due : leb k now ≡ false = ground arith in
      let stays : later now ((k, is) ∷ m) ≡ (k, is) ∷ m = rw (not_due, all) refl in
      (
        of_parts ((k, is) ∷ m) k times,
        process_stops fuel k is m net times waits ∙ rw (not_due, nothing) refl,
        rw (not_due, nothing) refl,
        stays,
        subst Holds stays holds,
        refl,
      )

  module _ (spares : (i : ℕ) (t : Timer) → Spares now Holds t (callback i t)) where
    -- One round, and then what `fuel` is enough for.
    round-IsProcessed :
        (fuel : ℕ) (net : ℕ) (times : ℕ → ℕ) (m : TimeMap)
        → ((u : Timer)
            → AreSorted u.time_map
            → Holds (later now u.time_map)
            → rounds now u.time_map < fuel
            → IsProcessed fuel now Holds callback u)
        → AreSorted m
        → Holds (later now m)
        → rounds now m < suc fuel
        → IsProcessed (suc fuel) now Holds callback (of_parts m net times)
    unfolding process
    round-IsProcessed fuel net times [] run s h e = (of_parts [] net times, refl, refl, refl, h, tt)
    round-IsProcessed fuel net times ((k, []) ∷ m) run (high, (low, top, r)) h e =
        elim (Bool-cases (ltb now k)) [
          | inl waits ↦ stopped-IsProcessed fuel k high [] m net times waits r h
          | inr passed ↦
              let is_due : leb k now ≡ true = ground arith in
              let (final, runs, none_left, all_later, holds, awaits) =
                run (of_parts m (elim m [ [] ↦ 0 | _ ∷ _ ↦ net ]) times)
                  (high, AreRising-weaken 0 k high high m (omega arith) (omega arith) r)
                  (rw is_due at h) (let f = rw is_due at e in omega (arith, f)) in
              (
                final,
                process_drops fuel k m net times passed ∙ runs ∙ rw is_due refl,
                none_left,
                all_later,
                holds,
                awaits,
              )
        ]
    round-IsProcessed fuel net times ((k, i ∷ is) ∷ m) run (high, (low, top, r)) h e =
        elim (Bool-cases (ltb now k)) [
          | inl waits ↦ stopped-IsProcessed fuel k high (i ∷ is) m net times waits r h
          | inr passed ↦
              let is_due : leb k now ≡ true = ground arith in
              let u = of_parts ((k, is) ∷ m) net (set_time i 0 times) in
              let kept = spares i u in
              let left : rounds now u.time_map ≡ suc (length is + rounds now m) = rw is_due refl in
              let (final, runs, none_left, all_later, holds, awaits) =
                run (callback i u) (kept.sorted (high, (low, top, r)))
                  (kept.held (rw is_due (rw is_due at h)))
                  (let f = rw is_due at e in omega (arith, f, left, kept.no_more)) in
              (
                final,
                process_fires fuel k i is m net times passed
                    ∙ ap (fire_first i) (runs ∙ ap (λ js. some (js, final)) kept.same_due)
                    ∙ rw is_due refl,
                none_left,
                all_later,
                holds,
                awaits,
              )
        ]

    processed :
        (fuel : ℕ) (t : Timer)
        → AreSorted t.time_map
        → Holds (later now t.time_map)
        → rounds now t.time_map < fuel
        → IsProcessed fuel now Holds callback t
    processed zero t sorted holds enough = absurd (omega arith)
    processed (suc fuel) t sorted holds enough =
        round-IsProcessed fuel t.net_expire t.times t.time_map (processed fuel) sorted holds enough

-- `Process` ends, after as many rounds as there are items and queues that are due and one more, if each
-- callback, with what other threads do meanwhile, keeps the times rising and the items that are due. It
-- then fires exactly the items whose time has come, by their times and of one time in the order in which
-- they were added; of the other queues all that the callbacks keep still holds; none that is left is due,
-- and the first of these is awaited.
pub process-IsProcessed :
    (now : ℕ) (Holds : TimeMap → Type 0) (callback : ℕ → Timer → Timer)
    → ((i : ℕ) (t : Timer) → Spares now Holds t (callback i t))
    → (fuel : ℕ) (t : Timer) → AreSorted t.time_map
    → Holds (later now t.time_map)
    → rounds now t.time_map < fuel
    → IsProcessed fuel now Holds callback t
process-IsProcessed now Holds callback spares fuel t sorted holds enough =
    processed now Holds callback spares fuel t sorted holds enough

-- An item that is added for later is spared with the items that are due.
push_item-spares :
    (now e i : ℕ) (m : TimeMap)
    → now < e
    → (due now (push_item e i m) ≡ due now m)
      × (rounds now (push_item e i m) ≡ rounds now m)
      × (later now (push_item e i m) ≡ push_item e i (later now m))
unfolding push_item
push_item-spares now e i [] h = ground arith
push_item-spares now e i ((k, is) ∷ m) h =
    let (a, b, c) = push_item-spares now e i m h in ground arith

-- Adding an item for later, as a callback or another thread may do, spares what `Process` has to do.
pub add_time_item-Spares :
    (now clock i : ℕ) (timeout : ℤ) (Holds : TimeMap → Type 0) (t : Timer)
    → now < clock + clip timeout
    → ((m : TimeMap) → Holds m → Holds (push_item (clock + clip timeout) i m))
    → Spares now Holds t (add_time_item clock i timeout t)
unfolding add_time_item
add_time_item-Spares now clock i timeout Holds t ahead kept =
    let e = clock + clip timeout in
    let (a, b, c) = push_item-spares now e i t.time_map ahead in
    record {
      sorted = λ (high, r). (
        high + e,
        push_item-AreRising 0 (high + e) e i t.time_map (omega arith) (omega arith)
            (AreRising-weaken 0 0 high (high + e) t.time_map (omega arith) (omega arith) r),
      );
      same_due = a;
      no_more = omega (arith, b);
      held = λ h. subst Holds (sym c) (kept (later now t.time_map) h);
    }
