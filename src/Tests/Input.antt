-- ===== src/Tests/Input.antt =====
-- The wheel, the keys and swipes at the small page.
use net_frame.Common.{◌≡◌, refl, true, false, arith}
use net_frame.Common.Int.{◌+ℤ◌, negsuc, pos_part}
use net_frame.Input.Wheel.{
  Wheel, wheel, wheel_slide_mode, wheel_scroll_mode, collect, flip_on_scroll,
}
use net_frame.Input.Flips.{StaysOrFlips, wheel_cases}
use net_frame.Input.Keys.{Key, key_down}
use net_frame.Input.Swipe.{Swipe, up}
use net_frame.Input.Covered.{key_down-stage}
use net_frame.Tests.Fixture.{config, page}

abbrev turn : Wheel
turn = record {
  up = false;
  size = 600;
  delta = negsuc 599;
  height = 400;
  zoomed_height = 400;
  window_height = 800;
  window_top = 0;
  clamp = pos_part;
}

-- One long turn of the wheel goes on to the second slide.
wheel_flips : ((wheel config turn page).stage ≡ 2) × ((wheel config turn page).in_action ≡ true)
unfolding wheel wheel_slide_mode wheel_scroll_mode collect flip_on_scroll ◌+ℤ◌
wheel_flips = (refl, refl)

wheel_cases_example : StaysOrFlips config turn page (wheel config turn page)
wheel_cases_example = wheel_cases config turn page refl (omega arith, omega arith)

abbrev arrow_down : Key
arrow_down = record { code = 40; in_field = false }

key_down-stage_example : (key_down config arrow_down page).stage ≡ 2
key_down-stage_example =
    key_down-stage config arrow_down page refl (omega arith, omega arith) refl refl refl

abbrev short_swipe : Swipe
short_swipe = record {
  starts = true;
  direction = up;
  distance = 3;
  top = 9;
  height = 400;
  window_height = 800;
}

abbrev long_swipe : Swipe
long_swipe = record short_swipe { distance = 50 }
