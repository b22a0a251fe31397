-- ===== src/Dialogs/Settling.antt =====
-- The classes `reveal` and `hide` of dialogs (resource/js/slides.js, "Dialog Windows") come to rest.
use Prim.Native.String.{String}
use native.Mathlib.Nat.{zero-add}
use text.Mathlib.Text.{◌==◌ as str_eq}
use net_frame.Common.{
  ℕ, zero, suc, ◌≡◌, refl, ◌⊎◌, inl, inr, ap, Bool, true, false, ◌||◌, some, List, [], ◌∷◌, ◌++◌,
  map, ◌==◌, if◌then◌else◌, arith, update_where, indices_from, contains, get_elem?,
  get_elem?-update_where, map-eq-some, contains-indices_from, Bool-cases,
}
use net_frame.Dialogs.{
  Dialog, Cookies, Waiting, reveal_later, hide_later, slid_down, slid_up, Dialogs, reveal_at,
  hide_at, show_dialog, run_waiting, load_dialogs, take_out, Step, show, press, run, Reach, here,
  next,
}

-- A callback waits that takes `reveal`, or `hide`, from the dialog at a position.
abbrev pub is_down : ℕ → Waiting → Bool
is_down i (slid_down k) = i == k
is_down i w = false

abbrev pub is_up : ℕ → Waiting → Bool
is_up i (slid_up k closes) = i == k
is_up i w = false

abbrev pub waits : (Waiting → Bool) → List Waiting → Bool
waits test [] = false
waits test (w ∷ ws) = test w || waits test ws

-- A class of a dialog stands only while a callback waits that takes it away.
pub record IsSettling {Jar : Type 0} (s : Dialogs Jar) : Type 0 where
  pub down :
      (i : ℕ) (d : Dialog)
      → get_elem? s.dialogs i ≡ some d
      → (d.reveal ≡ false) ⊎ (waits (is_down i) s.waiting ≡ true)
  pub up :
      (i : ℕ) (d : Dialog)
      → get_elem? s.dialogs i ≡ some d
      → (d.hide ≡ false) ⊎ (waits (is_up i) s.waiting ≡ true)

waits-take_out :
    (test : Waiting → Bool) (n : ℕ) (w : Waiting) (ws : List Waiting)
    → get_elem? ws n ≡ some w
    → waits test ws ≡ true
    → (test w ≡ true) ⊎ (waits test (take_out n ws) ≡ true)
waits-take_out test n w [] found h = cc
waits-take_out test zero w (x ∷ xs) found h = let same : x ≡ w = cc in ground (arith, ap test same)
waits-take_out test (suc n) w (x ∷ xs) found h = elim (Bool-cases (test x)) [
  | inl e ↦ inr (rw e refl)
  | inr e ↦ elim (waits-take_out test n w xs found (rw e at h)) [
    | inl now ↦ inl now
    | inr rest ↦ inr (rw e rest)
  ]
]

waits-map-slid_down :
    (i : ℕ) (ks : List ℕ) (ws : List Waiting)
    → waits (is_down i) (map slid_down ks ++ ws) ≡ (contains i ks || waits (is_down i) ws)
waits-map-slid_down i [] ws = refl
waits-map-slid_down i (k ∷ ks) ws = ground (arith, waits-map-slid_down i ks ws)

waits_up-map-slid_down :
    (i : ℕ) (ks : List ℕ) (ws : List Waiting)
    → waits (is_up i) (map slid_down ks ++ ws) ≡ waits (is_up i) ws
waits_up-map-slid_down i [] ws = refl
waits_up-map-slid_down i (k ∷ ks) ws = ground (arith, waits_up-map-slid_down i ks ws)

module _ {Jar : Type 0} where
  reveal_at-IsSettling : (k : ℕ) (s : Dialogs Jar) → IsSettling s → IsSettling (reveal_at k s)
  unfolding reveal_at
  reveal_at-IsSettling k s v = record {
    down = λ i d h.
        let (old, e, u) = map-eq-some _ _ (get_elem?-update_where _ _ s.dialogs i) h in
        let before = v.down i old e in ground arith;
    up = λ i d h.
        let (old, e, u) = map-eq-some _ _ (get_elem?-update_where _ _ s.dialogs i) h in
        let before = v.up i old e in ground arith;
  }

  hide_at-IsSettling :
      (k : ℕ) (closes : Bool) (s : Dialogs Jar) → IsSettling s → IsSettling (hide_at k closes s)
  unfolding hide_at
  hide_at-IsSettling k closes s v = record {
    down = λ i d h.
        let (old, e, u) = map-eq-some _ _ (get_elem?-update_where _ _ s.dialogs i) h in
        let before = v.down i old e in ground arith;
    up = λ i d h.
        let (old, e, u) = map-eq-some _ _ (get_elem?-update_where _ _ s.dialogs i) h in
        let before = v.up i old e in ground arith;
  }

  show_dialog-IsSettling :
      (id : String) (visible : Bool) (s : Dialogs Jar)
      → IsSettling s
      → IsSettling (show_dialog id visible s)
  unfolding show_dialog
  show_dialog-IsSettling id true s v = v
  show_dialog-IsSettling id false s v = record {
    down = λ i d h.
        let (old, e, u) = map-eq-some _ _ (get_elem?-update_where _ _ s.dialogs i) h in
        rw (waits-map-slid_down i (indices_from 0 named s.dialogs) s.waiting)
          (shown i old d e u (v.down i old e));
    up = λ i d h.
        let (old, e, u) = map-eq-some _ _ (get_elem?-update_where _ _ s.dialogs i) h in
        rw (waits_up-map-slid_down i (indices_from 0 named s.dialogs) s.waiting)
          (let before = v.up i old e in ground arith);
  }
    where
      named : Dialog → Bool
      named d = str_eq d.id id

      shown :
          (i : ℕ) (old d : Dialog)
          → get_elem? s.dialogs i ≡ some old
          → (if named old then record old { reveal = true } else old) ≡ d
          → (old.reveal ≡ false) ⊎ (waits (is_down i) s.waiting ≡ true)
          → (d.reveal ≡ false)
            ⊎ (contains i (indices_from 0 named s.dialogs) || waits (is_down i) s.waiting ≡ true)
      shown i old d e u before = elim (Bool-cases (named old)) [
        | inl fits ↦
            let among = contains-indices_from named 0 i s.dialogs e fits in
            inr (rw (rw zero-add at among) refl)
        | inr differs ↦
            let same : old ≡ d = rw differs at u in
            ground (arith, before, ap (λ (x : Dialog). x.reveal) same)
      ]

  -- The callback at a position is out, and has not run yet.
  record IsTaken (w : Waiting) (s : Dialogs Jar) : Type 0 where
    down_taken :
        (i : ℕ) (d : Dialog)
        → get_elem? s.dialogs i ≡ some d
        → (d.reveal ≡ false) ⊎ ((is_down i w ≡ true) ⊎ (waits (is_down i) s.waiting ≡ true))
    up_taken :
        (i : ℕ) (d : Dialog)
        → get_elem? s.dialogs i ≡ some d
        → (d.hide ≡ false) ⊎ ((is_up i w ≡ true) ⊎ (waits (is_up i) s.waiting ≡ true))

  take_out-IsTaken :
      (n : ℕ) (w : Waiting) (s : Dialogs Jar)
      → get_elem? s.waiting n ≡ some w
      → IsSettling s
      → IsTaken w (record s { waiting = take_out n s.waiting })
  take_out-IsTaken n w s found v = record {
    down_taken = λ i d h. elim (v.down i d h) [
      | inl e ↦ inl e
      | inr e ↦ inr (waits-take_out (is_down i) n w s.waiting found e)
    ];
    up_taken = λ i d h. elim (v.up i d h) [
      | inl e ↦ inl e
      | inr e ↦ inr (waits-take_out (is_up i) n w s.waiting found e)
    ];
  }

  taken-IsSettling :
      (w : Waiting) (f : Dialog → Dialog) (k : ℕ) (jar : Jar) (s : Dialogs Jar)
      → ((d : Dialog) → ((f d).reveal ≡ d.reveal) ⊎ ((f d).reveal ≡ false))
      → ((d : Dialog) → ((f d).hide ≡ d.hide) ⊎ ((f d).hide ≡ false))
      → ((i : ℕ) (d : Dialog) → is_down i w ≡ true → (i ≡ k) × ((f d).reveal ≡ false))
      → ((i : ℕ) (d : Dialog) → is_up i w ≡ true → (i ≡ k) × ((f d).hide ≡ false))
      → IsTaken w s
      → IsSettling (record s { dialogs = update_where (λ i _. i == k) f s.dialogs; jar = jar })
  taken-IsSettling w f k jar s reveals hides downs ups v = record {
    down = λ i d h.
        let (old, e, u) = map-eq-some _ _ (get_elem?-update_where _ _ s.dialogs i) h in
        let before = v.down_taken i old e in ground (arith, reveals old, downs i old);
    up = λ i d h.
        let (old, e, u) = map-eq-some _ _ (get_elem?-update_where _ _ s.dialogs i) h in
        let before = v.up_taken i old e in ground (arith, hides old, ups i old);
  }

  untaken-IsSettling :
      (w : Waiting) (s : Dialogs Jar)
      → ((i : ℕ) → (is_down i w ≡ false) × (is_up i w ≡ false))
      → IsTaken w s
      → IsSettling s
  untaken-IsSettling w s neither v = record {
    down = λ i d h. let before = v.down_taken i d h in ground (arith, neither i);
    up = λ i d h. let before = v.up_taken i d h in ground (arith, neither i);
  }

run_waiting-IsSettling :
    (C : Cookies) (w : Waiting) (s : Dialogs (C.Jar)) → IsTaken w s → IsSettling (run_waiting C w s)
unfolding run_waiting
run_waiting-IsSettling C (reveal_later k) s v =
    reveal_at-IsSettling k s (untaken-IsSettling (reveal_later k) s (λ i. (refl, refl)) v)
run_waiting-IsSettling C (hide_later k) s v =
    hide_at-IsSettling k false s (untaken-IsSettling (hide_later k) s (λ i. (refl, refl)) v)
run_waiting-IsSettling C (slid_down k) s v =
    taken-IsSettling (slid_down k) _ k s.jar s (λ d. inr refl) (λ d. inl refl)
      (λ i d h. (ground arith, refl)) (λ i d h. absurd (ground arith)) v
run_waiting-IsSettling C (slid_up k closes) s v =
    taken-IsSettling (slid_up k closes) _ k _ s (λ d. inl refl) (λ d. inr refl)
      (λ i d h. absurd (ground arith)) (λ i d h. (ground arith, refl)) v

-- No dialog is on its way down or up.
abbrev pub AreAtRest : List Dialog → Type 0
AreAtRest ds =
    (i : ℕ) (d : Dialog) → get_elem? ds i ≡ some d → (d.reveal ≡ false) × (d.hide ≡ false)

module _ (C : Cookies) where
  Step-IsSettling : {s t : Dialogs (C.Jar)} → IsSettling s → Step C s t → IsSettling t
  Step-IsSettling v (show id visible) = show_dialog-IsSettling id visible _ v
  Step-IsSettling v (press k closes) = hide_at-IsSettling k closes _ v
  Step-IsSettling {s} v (run n w found) =
      run_waiting-IsSettling C w _ (take_out-IsTaken n w s found v)

  Reach-IsSettling : {s t : Dialogs (C.Jar)} → IsSettling s → Reach C s t → IsSettling t
  Reach-IsSettling v here = v
  Reach-IsSettling v (next r st) = Step-IsSettling (Reach-IsSettling v r) st

  load_dialogs-IsSettling :
      (ds : List Dialog) (jar : C.Jar) → AreAtRest ds → IsSettling (load_dialogs C ds jar)
  unfolding load_dialogs
  load_dialogs-IsSettling ds jar rest = record {
    down = λ i d h.
        let (old, e, u) = map-eq-some _ _ (get_elem?-update_where _ _ ds i) h in
        let before = rest i old e in inl (ground arith);
    up = λ i d h.
        let (old, e, u) = map-eq-some _ _ (get_elem?-update_where _ _ ds i) h in
        let before = rest i old e in inl (ground arith);
  }

  -- Dialogs come to rest: from dialogs that are at rest when the page is loaded, whatever is clicked and
  -- in whatever order the callbacks run, once no callback waits no dialog has the class `reveal` or `hide`.
  pub sessions-AreAtRest :
      (ds : List Dialog) (jar : C.Jar) {t : Dialogs (C.Jar)}
      → AreAtRest ds
      → Reach C (load_dialogs C ds jar) t
      → t.waiting ≡ []
      → AreAtRest t.dialogs
  sessions-AreAtRest ds jar rest r none_waits i d h =
      let v = Reach-IsSettling (load_dialogs-IsSettling ds jar rest) r in
      let down = v.down i d h in
      let up = v.up i d h in
      let nothing_down = ap (waits (is_down i)) none_waits in
      let nothing_up = ap (waits (is_up i)) none_waits in ground arith
