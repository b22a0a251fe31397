-- ===== src/Slider/Events.antt =====
-- A slider and its controller as one counter in a circle (resource/js/slides.js, "Slider",
-- "controller" and "Next and prev buttons").
use net_frame.Common.{
  ℕ, ◌<◌, ◌≡◌, ◌∙◌, Bool, true, false, not, List, [], ◌∷◌, if◌then◌else◌, arith,
  get_elem?-update_where, length-update_where, map-eq-some,
}
use net_frame.Slider.{
  Item, Slider, end_transition, SliderEvent, click, press, pick, transition, on_event, on_events,
}
use net_frame.Slider.Cycle.{IsAt, StandsAt}
use net_frame.Slider.Moves.{
  following, moved, IsAction, press_button-StandsAt, click_slider-StandsAt,
  click_controller-StandsAt,
}

-- Independent of the code: the position of the counter after an event.
abbrev pub position : ℕ → SliderEvent → ℕ → ℕ
position n (click cancels) k = if cancels then k else following n k
position n (press a) k = moved n a k
position n (pick j) k = j
position n (transition j) k = k

abbrev pub positions : ℕ → List SliderEvent → ℕ → ℕ
positions n [] k = k
positions n (e ∷ es) k = positions n es (position n e k)

-- The numbers that the events carry are numbers of items.
abbrev pub IsEvent : ℕ → SliderEvent → Type 0
IsEvent n (click cancels) = 1 < n
IsEvent n (press a) = IsAction n a
IsEvent n (pick j) = j < n
IsEvent n (transition j) = 1 < n

pub data AreEvents (n : ℕ) : List SliderEvent → Type 0 where
  no_event : AreEvents n []
  one_event :
      {e : SliderEvent} {es : List SliderEvent}
      → IsEvent n e
      → AreEvents n es
      → AreEvents n (e ∷ es)

end_transition-IsAt : (j k : ℕ) (items : List Item) → IsAt k items → IsAt k (end_transition j items)
unfolding end_transition
end_transition-IsAt j k items o i t h =
    let (s, e, u) = map-eq-some _ _ (get_elem?-update_where _ _ items i) h in
    let old = o i s e in ground arith

end_transition-StandsAt :
    (n k j : ℕ) (s : Slider)
    → StandsAt n k s
    → StandsAt n k (record s { items = end_transition j s.items })
unfolding end_transition
end_transition-StandsAt n k j s at = record {
  inside = at.inside;
  items_count = length-update_where _ _ s.items ∙ at.items_count;
  controls_count = at.controls_count;
  items_at = end_transition-IsAt j k s.items at.items_at;
  controller_at = at.controller_at;
}

on_event-StandsAt :
    (status : Bool) (n k : ℕ) (e : SliderEvent) (s : Slider)
    → IsEvent n e
    → StandsAt n k s
    → StandsAt n (position n e k) (on_event status e s)
unfolding on_event
on_event-StandsAt status n k (click cancels) s h at =
    (click_slider-StandsAt n k s at status cancels h).0
on_event-StandsAt status n k (press a) s h at = (press_button-StandsAt n k s at status a h).0
on_event-StandsAt status n k (pick j) s h at = (click_controller-StandsAt n k s at j h).0
on_event-StandsAt status n k (transition j) s h at = end_transition-StandsAt n k j s at

-- A slider and its controller are one counter in a circle: whatever events with numbers of items
-- follow each other, from where the two stand together on they stand together at the position that the
-- counter has after these events.
pub on_events-StandsAt :
    (status : Bool) (n k : ℕ) (es : List SliderEvent) (s : Slider)
    → AreEvents n es
    → StandsAt n k s
    → StandsAt n (positions n es k) (on_events status es s)
unfolding on_events
on_events-StandsAt status n k [] s h at = at
on_events-StandsAt status n k (e ∷ es) s (one_event h hs) at =
    on_events-StandsAt status n (position n e k) es (on_event status e s) hs
      (on_event-StandsAt status n k e s h at)

-- Whether the handler of an event reaches the statement that sets the status.
abbrev pub sets_status : SliderEvent → Bool
sets_status (click cancels) = not cancels
sets_status (press a) = true
sets_status (pick j) = false
sets_status (transition j) = false

abbrev pub is_pick : SliderEvent → Bool
is_pick (pick j) = true
is_pick e = false

-- No event is a click on the controller.
pub data AreUnpicked : List SliderEvent → Type 0 where
  no_pick : AreUnpicked []
  not_pick :
      {e : SliderEvent} {es : List SliderEvent}
      → is_pick e ≡ false
      → AreUnpicked es
      → AreUnpicked (e ∷ es)
