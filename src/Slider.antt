-- ===== src/Slider.antt =====
-- Sliders and their controllers (resource/js/slides.js, "Slider"; resource/js/plugins.js, `nextOrFirst`
-- and `prevOrLast`). The classes that only start an animation are left out.
pub mod Cycle
pub mod Moves
pub mod Round
pub mod Events
pub mod Status
use net_frame.Common.{
  ℕ, zero, suc, ◌+◌, ◌-◌, Bool, true, false, not, ◌&&◌, Option, none, some, List, [], ◌∷◌, ◌==◌,
  ltb, if◌then◌else◌, update_where, find_index, length,
}
use net_frame.Slides.Show.{is_at}

-- One `li` of a slider or of a controller. The code reads the selected item as one element, as it is
-- read here: the first that is selected.
pub record Item : Type 0 where
  pub selected : Bool
  pub hide : Bool
  pub waits : Bool

-- `controller` is `$('.controller[data-slider-id=…]')`, empty if there is none; `last_status`
-- is the number with which this slider last called `window.sliderStatus`, where `none` stands for -1. The
-- classes of `<html>` are shared by the sliders: what such a call makes of them is in Slider/Status.
pub record Slider : Type 0 where
  pub items : List Item
  pub controller : List Item
  pub last_status : Option (Option ℕ)

-- `next(…)` is empty behind the last element, and `prevAll(…).last()` is the first element, if there
-- is one in front.
unfoldable pub next_or_first : ℕ → ℕ → Option ℕ
next_or_first count k =
    if ltb (suc k) count then some (suc k) else (if ltb 0 k then some 0 else none)

unfoldable pub prev_or_last : ℕ → ℕ → Option ℕ
prev_or_last count k =
    if ltb 0 k then some (k - 1) else (if ltb (suc k) count then some (count - 1) else none)

abbrev pub is_selected : Item → Bool
is_selected i = i.selected

-- `$selected` of a slider or a controller.
unfoldable pub selected_item : List Item → Option ℕ
selected_item = find_index is_selected

-- From the item that is selected, if there is one.
abbrev pub from_selected : (ℕ → ℕ → Option ℕ) → List Item → Option ℕ → Option ℕ
from_selected move items none = none
from_selected move items (some k) = move (length items) k

-- `:eq(index)` and `eq(index)`; the index -1 is the last element.
abbrev pub item_at : Option ℕ → List Item → Option ℕ
item_at (some k) items = some k
item_at none [] = none
item_at none (i ∷ is) = some (length is)

-- What becomes of the item that was selected: only unselected; hidden up to the end of its transition;
-- hidden, where the handler of the transition's end takes `hide` from the button and not from the item.
pub data Leaving : Type 0 where
  plain : Leaving
  hidden : Leaving
  stuck : Leaving

unfoldable pub leave : Leaving → Item → Item
leave plain i = record i { selected = false }
leave hidden i = record i { selected = false; hide = true; waits = true }
leave stuck i = record i { selected = false; hide = true }

unfoldable pub unselect_items : Leaving → List Item → List Item
unfolding leave
unselect_items leaving = update_where (λ _ i. is_selected i) (leave leaving)

unfoldable pub select_item : Option ℕ → List Item → List Item
select_item new =
    update_where (λ j _. is_at new j) (λ i. record i { selected = true; hide = false })

-- `addClass('selected')` alone, as on the controllers.
unfoldable pub mark_item : Option ℕ → List Item → List Item
mark_item new = update_where (λ j _. is_at new j) (λ i. record i { selected = true })

-- A call of `window.sliderStatus`, where the page keeps a status.
abbrev pub set_status : Bool → Option ℕ → Option (Option ℕ) → Option (Option ℕ)
set_status true new old = some new
set_status false new old = old

-- The handler of `click` and `next` on a slider; `cancels` is the target's `data-slider-event`.
unfoldable pub click_slider : Bool → Bool → Slider → Slider
click_slider status cancels s =
    let new = from_selected next_or_first s.items (selected_item s.items) in
    if cancels then s else record {
      items = select_item new (unselect_items hidden s.items);
      controller = mark_item (item_at new s.controller) (unselect_items plain s.controller);
      last_status = set_status status new s.last_status;
    }

-- The values of `data-slider-action`.
pub data Action : Type 0 where
  next : Action
  prev : Action
  go_to : ℕ → Action

unfoldable pub desired : Action → List Item → Option ℕ
unfolding next_or_first prev_or_last selected_item
desired next items = from_selected next_or_first items (selected_item items)
desired prev items = from_selected prev_or_last items (selected_item items)
desired (go_to k) items = if ltb k (length items) then some k else none

-- The handler of `[data-slider-action]`.
unfoldable pub press_button : Bool → Action → Slider → Slider
press_button status a s =
    let new = desired a s.items in
    record {
      items = select_item new (unselect_items plain s.items);
      controller = mark_item (item_at new s.controller) (unselect_items stuck s.controller);
      last_status = set_status status new s.last_status;
    }

abbrev pub is_selected_at : ℕ → List Item → Bool
is_selected_at k [] = false
is_selected_at zero (i ∷ is) = i.selected
is_selected_at (suc k) (i ∷ is) = is_selected_at k is

-- The handler of `click` on item `k` of a controller. With a status the statement that sets it raises
-- a ReferenceError (`sliderID` is not in scope, the variable is `sliderId`), so it never changes.
unfoldable pub click_controller : ℕ → Slider → Slider
click_controller k s = if is_selected_at k s.controller then s else record s {
  items = select_item (some k) (unselect_items hidden s.items);
  controller = mark_item (some k) (unselect_items plain s.controller);
}

-- The end of the transition of item `k`; `one` binds a handler for one such event.
unfoldable pub end_transition : ℕ → List Item → List Item
end_transition k =
    update_where (λ j i. j == k && i.waits) (λ i. record i { hide = false; waits = false })

-- What the page does with a slider when it is set up: `sliderStatus` is called with the number of the
-- selected item.
unfoldable pub init_slider : Bool → Slider → Slider
init_slider status s = record s {
  last_status = set_status status (selected_item s.items) s.last_status;
}

-- The events on a slider: a click on it or the `next` of `autoplay`, a button, a click on an item of
-- the controller, the end of an item's transition.
pub data SliderEvent : Type 0 where
  click : Bool → SliderEvent
  press : Action → SliderEvent
  pick : ℕ → SliderEvent
  transition : ℕ → SliderEvent

unfoldable pub on_event : Bool → SliderEvent → Slider → Slider
on_event status (click cancels) s = click_slider status cancels s
on_event status (press a) s = press_button status a s
on_event status (pick k) s = click_controller k s
on_event status (transition k) s = record s { items = end_transition k s.items }

unfoldable pub on_events : Bool → List SliderEvent → Slider → Slider
unfolding on_event
on_events status [] s = s
on_events status (e ∷ es) s = on_events status es (on_event status e s)
