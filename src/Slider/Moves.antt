-- ===== src/Slider/Moves.antt =====
-- Where the handlers of a slider leave it (resource/js/slides.js, "Slider" and "controller").
use net_frame.Common.{
  ℕ, zero, suc, ◌-◌, ◌<◌, ◌≡◌, inl, inr, Bool-cases, refl, ◌∙◌, Bool, true, false, Option, some,
  ◌==◌, if◌then◌else◌, arith,
}
use net_frame.Slider.{
  Slider, Leaving, plain, hidden, stuck, next_or_first, prev_or_last, selected_item, unselect_items,
  select_item, mark_item, set_status, click_slider, Action, next, prev, go_to, desired,
  press_button, click_controller, is_selected_at,
}
use net_frame.Slider.Cycle.{
  StandsAt, select_item-IsAt, mark_item-IsAt, length-select_item, length-mark_item,
  selected_item-IsAt, is_selected_at-IsAt,
}

-- Independent of the code: the position that an action asks for, of `n` positions in a circle.
abbrev pub following : ℕ → ℕ → ℕ
following n k = if suc k == n then 0 else suc k

abbrev pub preceding : ℕ → ℕ → ℕ
preceding n zero = n - 1
preceding n (suc k) = k

abbrev pub moved : ℕ → Action → ℕ → ℕ
moved n next k = following n k
moved n prev k = preceding n k
moved n (go_to j) k = j

-- Only a number of an item is a number to go to.
abbrev pub IsAction : ℕ → Action → Type 0
IsAction n next = 1 < n
IsAction n prev = 1 < n
IsAction n (go_to j) = j < n

-- What a handler makes of the slider and its controller, when the item to show is at `j`.
abbrev shown : Leaving → Option (Option ℕ) → Leaving → Slider → ℕ → Slider
shown hides status marks s j = record {
  items = select_item (some j) (unselect_items hides s.items);
  controller = mark_item (some j) (unselect_items marks s.controller);
  last_status = status;
}

shown-StandsAt :
    (hides marks : Leaving) (status : Option (Option ℕ)) (n k j : ℕ) (s : Slider)
    → j < n
    → StandsAt n k s
    → StandsAt n j (shown hides status marks s j)
shown-StandsAt hides marks status n k j s inside at = record {
  inside = inside;
  items_count = length-select_item j hides s.items (some j) ∙ at.items_count;
  controls_count = length-mark_item j marks s.controller (some j) ∙ at.controls_count;
  items_at = select_item-IsAt j hides s.items;
  controller_at = mark_item-IsAt j marks s.controller;
}

preceding_lt : (n k : ℕ) → k < n → preceding n k < n
preceding_lt n zero h = omega arith
preceding_lt n (suc k) h = omega arith

next_or_first_lem : (n k : ℕ) → 1 < n → k < n → next_or_first n k ≡ some (following n k)
unfolding next_or_first
next_or_first_lem n k many h = ground arith

prev_or_last_lem : (n k : ℕ) → 1 < n → k < n → prev_or_last n k ≡ some (preceding n k)
unfolding prev_or_last
prev_or_last_lem n zero many h = ground arith
prev_or_last_lem n (suc k) many h = ground arith

module _ (n k : ℕ) (s : Slider) (at : StandsAt n k s) where
  selected_at_k : selected_item s.items ≡ some k
  selected_at_k =
      selected_item-IsAt k s.items (omega (arith, at.inside, at.items_count)) at.items_at

  desired_cases : (a : Action) → IsAction n a → desired a s.items ≡ some (moved n a k)
  unfolding desired
  desired_cases next h = rw (selected_at_k, at.items_count) (next_or_first_lem n k h at.inside)
  desired_cases prev h = rw (selected_at_k, at.items_count) (prev_or_last_lem n k h at.inside)
  desired_cases (go_to j) h = rw at.items_count (ground arith)

  moved_lt : (a : Action) → IsAction n a → moved n a k < n
  moved_lt next h = let i = at.inside in ground arith
  moved_lt prev h = preceding_lt n k at.inside
  moved_lt (go_to j) h = h

  -- A button that asks for an item of a slider that stands at an item together with its controller (the
  -- next or the one before, in a circle, or one by its number) brings both to that item, and where a status is kept
  -- it is the number of that item.
  pub press_button-StandsAt :
      (status : Bool) (a : Action)
      → IsAction n a
      → StandsAt n (moved n a k) (press_button status a s)
        × ((press_button status a s).last_status
            ≡ set_status status (some (moved n a k)) s.last_status)
  unfolding press_button
  press_button-StandsAt status a h =
      rw (desired_cases a h)
        (shown-StandsAt plain stuck _ n k (moved n a k) s (moved_lt a h) at, refl)

  -- A click on a slider of two items or more shows the next item in a circle, unless its target
  -- cancels it: from a slider that stands at an item together with its controller, the two stand at the
  -- next one together, and where a status is kept it is the number of that item.
  pub click_slider-StandsAt :
      (status cancels : Bool)
      → 1 < n
      → StandsAt n (if cancels then k else following n k) (click_slider status cancels s)
        × ((click_slider status cancels s).last_status ≡ (
            if cancels
            then s.last_status
            else set_status status (some (following n k)) s.last_status))
  unfolding click_slider
  click_slider-StandsAt status true many = (at, refl)
  click_slider-StandsAt status false many =
      rw (selected_at_k, at.items_count, next_or_first_lem n k many at.inside)
        (shown-StandsAt hidden plain _ n k (following n k) s (moved_lt next many) at, refl)

  -- A click on an item of the controller brings slider and controller to that item together, and
  -- never changes the status.
  pub click_controller-StandsAt :
      (j : ℕ)
      → j < n
      → StandsAt n j (click_controller j s) × ((click_controller j s).last_status ≡ s.last_status)
  unfolding click_controller
  click_controller-StandsAt j h = elim (Bool-cases (j == k)) [
    | inl e ↦ rw (pressed, e) (rw (equal e) at, refl)
    | inr e ↦ rw (pressed, e) (shown-StandsAt hidden plain _ n k j s h at, refl)
  ]
    where
      pressed : is_selected_at j s.controller ≡ (j == k)
      pressed =
          is_selected_at-IsAt j k s.controller (omega (arith, at.controls_count)) at.controller_at

      equal : (j == k) ≡ true → j ≡ k
      equal e = ground arith
