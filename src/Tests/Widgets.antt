-- ===== src/Tests/Widgets.antt =====
-- The form, sounds, layout, moving elements, hashes of popups and the status of sliders.
use net_frame.Common.{◌≡◌, refl, true, false, none, some, List, [], ◌∷◌, update_where}
use net_frame.Form.{Form, success_content, success_class_of}
use net_frame.Form.Restore.{runs, succeeds, has, runs-succeeds}
use net_frame.Sound.{Sound, toggle, click, faded, start_sound, on_sounds}
use net_frame.Sound.Silence.{trigger_off}
use net_frame.Layout.{Measured, fit_panel, show_compact, Grid, missing}
use net_frame.Layout.Compact.{fit_panel_lem}
use net_frame.Overlay.Placement.{DropdownTrigger, DropdownBox}
use net_frame.Common.Int.{pos}
use net_frame.Scroll.Elements.{Element}
use net_frame.Slider.Status.{Name, status_class}

abbrev contact : Form
contact = record {
  button = record {
    is_input = false;
    content = "Send";
    classes = some ("button" ∷ []);
    success_text = none;
    success_class = none;
  };
  fields = "me" ∷ [];
  blank = "" ∷ [];
  waiting = [];
}

runs-succeeds_example :
    ((runs 2 (succeeds (λ s. s) 2 contact)).button.content
      ≡ success_content (λ s. s) contact.button)
    × (has (success_class_of contact.button) (runs 2 (succeeds (λ s. s) 2 contact)).button.classes
        ≡ true)
    × ((runs 2 (succeeds (λ s. s) 2 contact)).waiting ≡ [])
runs-succeeds_example = runs-succeeds (λ s. s) 0 contact refl

abbrev song : Sound
song = record {
  action = toggle;
  fade = some 500;
  paused = true;
  playing = true ∷ [];
  volumes = [];
  pauses = 0;
}

trigger_off_example :
    (on_sounds (click 0 ∷ click 0 ∷ faded ∷ []) (start_sound false song)).paused ≡ true
unfolding start_sound on_sounds update_where
trigger_off_example =
    trigger_off false (click 0 ∷ click 0 ∷ faded ∷ []) song true (refl, (refl, tt)) refl refl refl
      refl

-- Two clicks while the sound plays, a click between the ends of the two fades: the sound is paused,
-- and its trigger shows that it plays.
second_fade :
    let s =
      on_sounds
        (click 0 ∷ click 0 ∷ click 0 ∷ faded ∷ click 0 ∷ faded ∷ [])
        (start_sound false song) in
    (s.playing ≡ true ∷ []) × (s.paused ≡ true) × (s.pauses ≡ 0)
unfolding start_sound on_sounds update_where
second_fade = (refl, refl, refl)

abbrev grid : Grid
grid = record { later = true; equal_mobile = false; collapse = missing; heights = [] }

-- On a phone, without the forced mobile view.
abbrev crowded : Measured
crowded = record {
  document_width = 400;
  padding = 20;
  children = record { own = 300; inner = some 310 } ∷ record { own = 200; inner = some 90 } ∷ [];
}

fit_panel_lem_example : fit_panel true false crowded ≡ show_compact
unfolding fit_panel
fit_panel_lem_example = fit_panel_lem true false crowded

abbrev picture : Element
picture = record { animates = true; moves = true; done = false; top = 300; height = 200 }

abbrev one : Name
one = b'1' ∷ []

-- The sliders 1 and 10, of which the second stands at its third item.
abbrev statuses : List Name
statuses = status_class (b'1' ∷ b'0' ∷ []) (b'2' ∷ []) ∷ []

-- A dropdown of 200 × 150 that opens upwards, its right edge under that of its trigger.
abbrev corner : DropdownTrigger
corner = record {
  x = pos 600;
  y = pos 400;
  width = 80;
  height = 30;
  position =
      some (record { left = false; right = true; center = false; top = false; bottom = true });
}

abbrev menu : DropdownBox
menu = record {
  width = 200;
  height = 150;
  classes = record { left = true; right = false; center = false; top = true; bottom = false };
}
