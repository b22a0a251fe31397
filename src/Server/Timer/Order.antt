-- ===== src/Server/Timer/Order.antt =====
-- The order of the timer's map (src/io_loop/timer.cc), and that `_NetExpireTime` is never past its first
-- key: what each operation keeps.
use net_frame.Common.{
  ℕ, ◌+◌, ◌≤◌, ◌<◌, ◌≡◌, inl, inr, Bool-cases, Option-cases, ◌||◌, some, List, [], ◌∷◌, ◌==◌, ltb,
  if◌then◌else◌, arith,
}
use net_frame.Common.Int.{ℤ}
use net_frame.Server.Timer.{
  TimeMap, Timer, push_item, find_list, holds, erase_item, keep_list, erase_at, clip, add_time_item,
  expire_after, delete_time_item, set_time, Round, stopped, dropped, fired, process_round,
}

-- The keys rise, from above a bound, and stay under another.
abbrev pub AreRising : ℕ → ℕ → TimeMap → Type 0
AreRising low high [] = Unit {0}
AreRising low high ((k, is) ∷ m) = (low < k) × (k ≤ high) × AreRising k high m

-- The expiry that is waited for is that of the first key or an earlier one.
abbrev pub IsDue : ℕ → TimeMap → Type 0
IsDue net [] = Unit {0}
IsDue net ((k, is) ∷ m) = (0 < net) × (net ≤ k)

pub record IsOrdered (high : ℕ) (t : Timer) : Type 0 where
  pub rising : AreRising 0 high t.time_map
  pub due : IsDue t.net_expire t.time_map

pub AreRising-weaken :
    (a b high top : ℕ) (m : TimeMap) → a ≤ b → high ≤ top → AreRising b high m → AreRising a top m
AreRising-weaken a b high top [] le up h = tt
AreRising-weaken a b high top ((k, is) ∷ m) le up (h, g, r) =
    (omega arith, omega arith, AreRising-weaken k k high top m (omega arith) up r)

pub push_item-AreRising :
    (low high e i : ℕ) (m : TimeMap)
    → low < e
    → e ≤ high
    → AreRising low high m
    → AreRising low high (push_item e i m)
unfolding push_item
push_item-AreRising low high e i [] above below h = (above, below, tt)
push_item-AreRising low high e i ((k, is) ∷ m) above below (h, g, r) =
    ground (arith, push_item-AreRising k high e i m)

erase_at-AreRising :
    (low high e i : ℕ) (m : TimeMap) → AreRising low high m → AreRising low high (erase_at e i m)
unfolding erase_at
erase_at-AreRising low high e i [] h = tt
erase_at-AreRising low high e i ((k, is) ∷ m) (h, g, r) = elim (Bool-cases (k == e)) [
  | inl same ↦ rw same (kept (erase_item i is))
  | inr other ↦ rw other (h, g, erase_at-AreRising k high e i m r)
]
  where
    kept : (js : List ℕ) → AreRising low high (keep_list k js m)
    kept [] = AreRising-weaken low k high high m (omega arith) (omega arith) r
    kept (j ∷ js) = (h, g, r)

push_item-IsDue :
    (net e i : ℕ) (m : TimeMap)
    → 0 < e
    → IsDue net m
    → IsDue (if ltb e net || net == 0 then e else net) (push_item e i m)
unfolding push_item
push_item-IsDue net e i [] positive due = ground arith
push_item-IsDue net e i ((k, is) ∷ m) positive (more, first) = ground arith

pub add_time_item-IsOrdered :
    (high now i : ℕ) (timeout : ℤ) {t : Timer}
    → 0 < now
    → now + clip timeout ≤ high
    → IsOrdered high t
    → IsOrdered high (add_time_item now i timeout t)
unfolding add_time_item
add_time_item-IsOrdered high now i timeout {t} running below v =
    let e = now + clip timeout in
    record {
      rising = push_item-AreRising 0 high e i t.time_map (omega arith) below v.rising;
      due = push_item-IsDue t.net_expire e i t.time_map (omega arith) v.due;
    }

expire_after-IsDue :
    (k high net e : ℕ) (js : List ℕ) (is : List ℕ) (m : TimeMap)
    → 0 < k
    → 0 < net
    → net ≤ k
    → AreRising k high m
    → IsDue (expire_after e js (keep_list k js m) net) (keep_list k js m)
expire_after-IsDue k high net e [] is [] low more first r = tt
expire_after-IsDue k high net e [] is ((j, js) ∷ m) low more first r = ground arith
expire_after-IsDue k high net e (j ∷ js) is m low more first r = (more, first)

stays-IsDue :
    (k net e : ℕ) (js is : List ℕ) (m : TimeMap)
    → 0 < k
    → 0 < net
    → net ≤ k
    → IsDue (expire_after e js ((k, is) ∷ m) net) ((k, is) ∷ m)
stays-IsDue k net e [] is m low more first = ground arith
stays-IsDue k net e (j ∷ js) is m low more first = (more, first)

erase_at-IsDue :
    (low high net e i : ℕ) (m : TimeMap) (is : List ℕ)
    → find_list e m ≡ some is
    → AreRising low high m
    → IsDue net m
    → IsDue (expire_after e (erase_item i is) (erase_at e i m) net) (erase_at e i m)
unfolding find_list erase_at
erase_at-IsDue low high net e i [] is found r due = cc
erase_at-IsDue low high net e i ((k, js) ∷ m) is found (h, g, r) (more, first) =
    elim (Bool-cases (k == e)) [
      | inl same ↦
          let here : js ≡ is = ground arith in
          rw (← here) (
            rw same
              (expire_after-IsDue k high net e (erase_item i js) js m (omega arith) more first r))
      | inr other ↦
          rw other
            (stays-IsDue k net e (erase_item i is) js (erase_at e i m) (omega arith) more first)
    ]

pub delete_time_item-IsOrdered :
    (high i : ℕ) {t : Timer} → IsOrdered high t → IsOrdered high (delete_time_item i t).0
unfolding delete_time_item
delete_time_item-IsOrdered high i {t} v = elim (Option-cases (find_list (t.times i) t.time_map)) [
  | inl e ↦ rw (e, delete_time_item) v
  | inr (is, e) ↦ elim (Bool-cases (holds i is)) [
    | inl there ↦
        rw (e, there, delete_time_item)
          (record {
            rising = erase_at-AreRising 0 high (t.times i) i t.time_map v.rising;
            due = erase_at-IsDue 0 high t.net_expire (t.times i) i t.time_map is e v.rising v.due;
          })
    | inr gone ↦ rw (e, gone, delete_time_item) v
  ]
]

-- Whatever the round comes to, what it leaves is in order.
abbrev pub left : Round → Timer
left (stopped t) = t
left (dropped t) = t
left (fired i t) = t

dropped-IsDue :
    (k high net : ℕ) (m : TimeMap)
    → 0 < net
    → net ≤ k
    → AreRising k high m
    → IsDue (elim m [ [] ↦ 0 | _ ∷ _ ↦ net ]) m
dropped-IsDue k high net [] more first r = tt
dropped-IsDue k high net ((j, js) ∷ m) more first r = (more, omega arith)

round-IsOrdered :
    (high now net : ℕ) (times : ℕ → ℕ) (m : TimeMap)
    → IsOrdered high (record { time_map = m; net_expire = net; times = times })
    → IsOrdered high
        (left (process_round now (record { time_map = m; net_expire = net; times = times })))
unfolding process_round
round-IsOrdered high now net times [] v = v
round-IsOrdered high now net times ((k, is) ∷ m) v = elim (Bool-cases (ltb now k)) [
  | inl late ↦ rw late (record { rising = v.rising; due = (v.rising.0, omega arith) })
  | inr passed ↦ rw passed (taken is v)
]
  where
    taken :
        (is : List ℕ)
        → IsOrdered high (record { time_map = (k, is) ∷ m; net_expire = net; times = times })
        → IsOrdered high (
            left (elim is [
              | [] ↦ dropped (record {
                time_map = m;
                net_expire = elim m [ [] ↦ 0 | _ ∷ _ ↦ net ];
                times = times;
              })
              | i ∷ rest ↦ fired i (record {
                time_map = (k, rest) ∷ m;
                net_expire = net;
                times = set_time i 0 times;
              })
            ]))
    taken [] w = record {
      rising = AreRising-weaken 0 k high high m (omega arith) (omega arith) w.rising.2;
      due = dropped-IsDue k high net m w.due.0 w.due.1 w.rising.2;
    }
    taken (i ∷ rest) w = record { rising = w.rising; due = w.due }

pub process_round-IsOrdered :
    (high now : ℕ) {t : Timer} → IsOrdered high t → IsOrdered high (left (process_round now t))
process_round-IsOrdered high now {t} v = round-IsOrdered high now t.net_expire t.times t.time_map v
