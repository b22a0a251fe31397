-- ===== src/Tests/Slider.antt =====
-- The sliders at a slider of three items.
use net_frame.Common.{ℕ, zero, suc, ◌<◌, refl, true, false, none, List, [], ◌∷◌, arith}
use net_frame.Slider.{
  Item, Slider, next, prev, press_button, click, press, pick, transition, on_events,
}
use net_frame.Slider.Cycle.{IsAt, StandsAt}
use net_frame.Slider.Round.{clicks, clicks-StandsAt, press_button-press_button}
use net_frame.Slider.Events.{no_event, one_event, on_events-StandsAt}

abbrev shown_item : Item
shown_item = record { selected = true; hide = false; waits = false }

abbrev other_item : Item
other_item = record { selected = false; hide = false; waits = false }

abbrev three_items : List Item
three_items = other_item ∷ other_item ∷ shown_item ∷ []

abbrev three : Slider
three = record { items = three_items; controller = three_items; last_status = none }

abbrev lone : Slider
lone = record { items = shown_item ∷ []; controller = []; last_status = none }

three_items-IsAt : IsAt 2 three_items
three_items-IsAt zero s h = cc
three_items-IsAt (suc zero) s h = cc
three_items-IsAt (suc (suc zero)) s h = cc
three_items-IsAt (suc (suc (suc i))) s h = cc

three-StandsAt : StandsAt 3 2 three
three-StandsAt = record {
  inside = omega arith;
  items_count = refl;
  controls_count = refl;
  items_at = three_items-IsAt;
  controller_at = three_items-IsAt;
}

press_button-press_button_example :
    StandsAt 3 2 (press_button true prev (press_button true next three))
    × StandsAt 3 2 (press_button true next (press_button true prev three))
press_button-press_button_example =
    press_button-press_button 3 2 three (omega arith) three-StandsAt true

clicks-StandsAt_example : (m : ℕ) × (m < 3) × StandsAt 3 1 (clicks true m three)
clicks-StandsAt_example =
    clicks-StandsAt true 3 2 1 three (omega arith) (omega arith) three-StandsAt

on_events-StandsAt_example :
    StandsAt 3 1 (on_events true (click false ∷ transition 2 ∷ pick 2 ∷ press prev ∷ []) three)
on_events-StandsAt_example =
    on_events-StandsAt true 3 2 (click false ∷ transition 2 ∷ pick 2 ∷ press prev ∷ []) three
      (one_event (omega arith)
        (one_event (omega arith) (one_event (omega arith) (one_event (omega arith) no_event))))
      three-StandsAt
