-- ===== src/Slider/Round.antt =====
-- Runs of a slider's handlers (resource/js/slides.js, "Slider"): the buttons undo each other, the clicks
-- that `autoplay` triggers come to every item, and a slider of one item.
use native.Mathlib.Nat.{add-zero, zero-add, add-suc, suc-add}
use net_frame.Common.{
  ℕ, zero, suc, ◌+◌, ◌-◌, ◌≤◌, ◌<◌, ◌≡◌, inl, inr, Bool-cases, refl, Bool, true, false, none, [],
  ◌∷◌, ◌==◌, ltb, arith, update_where, update_from, find_index, index_from,
}
use net_frame.Slider.{
  Item, Slider, leave, next_or_first, prev_or_last, selected_item, unselect_items, select_item,
  click_slider, next, prev, desired, press_button,
}
use net_frame.Slider.Cycle.{StandsAt}
use net_frame.Slider.Moves.{following, preceding, press_button-StandsAt, click_slider-StandsAt}

preceding-following : (n k : ℕ) → 1 < n → k < n → preceding n (following n k) ≡ k
preceding-following n k many h = elim (Bool-cases (suc k == n)) [
  | inl e ↦ rw e (ground arith)
  | inr e ↦ rw e refl
]

following-preceding : (n k : ℕ) → 1 < n → k < n → following n (preceding n k) ≡ k
following-preceding n zero many h = ground arith
following-preceding n (suc k) many h = ground arith

module _ (n k : ℕ) (s : Slider) (many : 1 < n) (at : StandsAt n k s) (status : Bool) where
  -- The buttons for the next and for the previous item undo each other, in both orders and at both
  -- ends: a slider of two items or more and its controller stand where they stood.
  pub press_button-press_button :
      StandsAt n k (press_button status prev (press_button status next s))
      × StandsAt n k (press_button status next (press_button status prev s))
  press_button-press_button =
      let on = (press_button-StandsAt n k s at status next many).0 in
      let back = (press_button-StandsAt n k s at status prev many).0 in
      (
        rw (preceding-following n k many at.inside) at
            (press_button-StandsAt n _ _ on status prev many).0,
        rw (following-preceding n k many at.inside) at
            (press_button-StandsAt n _ _ back status next many).0,
      )

-- The events `next` that the interval of `autoplay` triggers, one after another.
unfoldable pub clicks : Bool → ℕ → Slider → Slider
clicks status zero s = s
clicks status (suc m) s = clicks status m (click_slider status false s)

clicks-add :
    (status : Bool) (a b : ℕ) (s : Slider)
    → clicks status (a + b) s ≡ clicks status b (clicks status a s)
unfolding clicks
clicks-add status zero b s = rw zero-add refl
clicks-add status (suc a) b s = rw suc-add (clicks-add status a b (click_slider status false s))

step-inside :
    (status : Bool) (n k : ℕ) (s : Slider)
    → 1 < n
    → suc k < n
    → StandsAt n k s
    → StandsAt n (suc k) (click_slider status false s)
step-inside status n k s many h at =
    rw (next_inside) at (click_slider-StandsAt n k s at status false many).0
  where
    next_inside : following n k ≡ suc k
    next_inside = ground arith

step-round :
    (status : Bool) (n k : ℕ) (s : Slider)
    → 1 < n
    → suc k ≡ n
    → StandsAt n k s
    → StandsAt n 0 (click_slider status false s)
step-round status n k s many e at =
    rw (next_round) at (click_slider-StandsAt n k s at status false many).0
  where
    next_round : following n k ≡ 0
    next_round = ground arith

clicks-climb :
    (status : Bool) (n m k : ℕ) (s : Slider)
    → 1 < n
    → k + m < n
    → StandsAt n k s
    → StandsAt n (k + m) (clicks status m s)
unfolding clicks
clicks-climb status n zero k s many h at = rw add-zero at
clicks-climb status n (suc m) k s many h at =
    rw (add-suc, ← suc-add)
      (clicks-climb status n m (suc k) _ many (omega arith)
        (step-inside status n k s many (omega arith) at))

-- From item `k` to the last one and on to item 0.
clicks-wrap :
    (status : Bool) (n m k : ℕ) (s : Slider)
    → 1 < n
    → k + suc m ≡ n
    → StandsAt n k s
    → StandsAt n 0 (clicks status (suc m) s)
unfolding clicks
clicks-wrap status n zero k s many e at = step-round status n k s many (omega arith) at
clicks-wrap status n (suc m) k s many e at =
    clicks-wrap status n m (suc k) _ many (omega arith)
      (step-inside status n k s many (omega arith) at)

-- The clicks of `autoplay` show every item: from any item of a slider of two or more, some number of
-- them smaller than the number of items brings the slider and its controller to any other item.
pub clicks-StandsAt :
    (status : Bool) (n k j : ℕ) (s : Slider)
    → 1 < n
    → j < n
    → StandsAt n k s
    → (m : ℕ) × (m < n) × StandsAt n j (clicks status m s)
clicks-StandsAt status n k j s many h at = elim (Bool-cases (ltb j k)) [
  | inl e ↦ (n - k + j, omega (arith, behind e, at.inside), round e)
  | inr e ↦ (j - k, omega (arith, at.inside), ahead e)
]
  where
    behind : ltb j k ≡ true → j < k
    behind e = ground arith

    front : ltb j k ≡ false → k ≤ j
    front e = ground arith

    round : ltb j k ≡ true → StandsAt n j (clicks status (n - k + j) s)
    round e =
        let first = clicks-wrap status n (n - suc k) k s many (omega (arith, at.inside)) at in
        let gap : suc (n - suc k) ≡ n - k = omega (arith, at.inside) in
        rw (clicks-add status (n - k) j s, ← gap)
          (rw zero-add at (clicks-climb status n j 0 _ many (omega arith) first))

    ahead : ltb j k ≡ false → StandsAt n j (clicks status (j - k) s)
    ahead e =
        let reached : k + (j - k) ≡ j = omega (arith, front e) in
        rw reached at (clicks-climb status n (j - k) k s many (omega (arith, front e)) at)

-- A slider of one item loses it: a click, or a button for the next or the previous item, leaves no
-- item selected.
pub click_slider-single :
    (s : Slider) (i : Item) (status : Bool)
    → s.items ≡ i ∷ []
    → i.selected ≡ true
    → (selected_item (click_slider status false s).items ≡ none)
      × (selected_item (press_button status next s).items ≡ none)
      × (selected_item (press_button status prev s).items ≡ none)
unfolding click_slider press_button desired next_or_first prev_or_last selected_item find_index
    index_from select_item unselect_items leave update_where update_from
click_slider-single s i status e chosen = rw e (ground arith)
