-- ===== src/Input/Swipe.antt =====
-- The handler of swipes (resource/js/slides.js, "Swipes for mobile devices").
use net_frame.Common.{ℕ, ◌+◌, Bool, false, not, ◌&&◌, ◌||◌, ltb, if◌then◌else◌}
use net_frame.Page.{Config, Page}
use net_frame.Slides.Change.{increase, decrease, change_slide, left}

pub data Direction : Type 0 where
  up down leftward rightward nowhere : Direction

-- `starts` is `phase === "start"`; `top` is the offset of the section under the finger, that of an
-- open sidebar or popup; `height` is `currentSectionHeight`, `window_height` `window.innerHeight`.
pub record Swipe : Type 0 where
  pub starts : Bool
  pub direction : Direction
  pub distance : ℕ
  pub top : ℕ
  pub height : ℕ
  pub window_height : ℕ

-- `direction === next` and `direction === prev`
abbrev pub is_next : Config → Direction → Bool
is_next c up = not c.horizontal_mode
is_next c leftward = c.horizontal_mode
is_next c _ = false

abbrev pub is_prev : Config → Direction → Bool
is_prev c down = not c.horizontal_mode
is_prev c rightward = c.horizontal_mode
is_prev c _ = false

-- `window.allowSwipeUp` and `window.allowSwipeDown`, which each call sets anew.
unfoldable pub allow_swipe_up : Config → Swipe → ℕ → Bool
allow_swipe_up c s top =
    not (
      not c.horizontal_mode && ltb s.window_height s.height && ltb (top + s.window_height) s.height)

unfoldable pub allow_swipe_down : Config → Swipe → ℕ → Bool
allow_swipe_down c s top = not (not c.horizontal_mode && ltb s.window_height s.height && ltb 0 top)

unfoldable pub swipe : Config → Swipe → Page → Page
unfolding allow_swipe_up allow_swipe_down
swipe c s p =
    let q = if s.starts then record p { swipe_top = s.top } else p in
    let far = ltb c.min_swipe_to_slide s.distance in
    let forth =
      is_next c s.direction
      && far
      && (c.horizontal_mode || (allow_swipe_up c s q.swipe_top && q.allow_slide)) in
    let back =
      is_prev c s.direction
      && far
      && (c.horizontal_mode || (allow_swipe_down c s q.swipe_top && q.allow_slide)) in
    if not q.sidebars.shown && not c.disable_on_swipe
    then (if forth
        then left (change_slide c increase q)
        else (if back then left (change_slide c decrease q) else q))
    else q
