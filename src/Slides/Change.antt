-- ===== src/Slides/Change.antt =====
-- `window.changeSlide` of resource/js/slides.js, the buttons that call it, and the callbacks that
-- hold and release the lock `window.inAction`.
use net_frame.Common.{ℕ, ◌+◌, ◌-◌, true, false, not, ◌&&◌, ◌==◌, leb, if◌then◌else◌}
use net_frame.Page.{Config, Page, stages, show_stage, release_action}
use net_frame.Page.Timers.{set_timeout}
use net_frame.Overlay.Dropdown.{unzoom_image}
use net_frame.Overlay.Sidebar.{hide_sidebar}
use net_frame.Slides.Show.{scrolls, show_slide, clear_hash}

-- The argument of `changeSlide`: a word or a number. (A class `toSlide-x` with no number in it would
-- give NaN, which is left out.)
pub data Request : Type 0 where
  increase : Request
  decrease : Request
  number : ℕ → Request

-- The first `if` of `changeSlide`. `stage - 1 < 1` holds for the stages 0 and 1.
unfoldable pub resolve : Request → ℕ → ℕ → ℕ
resolve increase stage count = if leb count (stage + 1) then count else stage + 1
resolve decrease stage count = if leb stage 1 then 1 else stage - 1
resolve (number n) stage count = n

-- The branch of slide mode.
unfoldable pub request_stage : ℕ → Page → Page
unfolding set_timeout unzoom_image
request_stage n p =
    if not (n == p.stage) && leb n (stages p) && not p.in_action
    then (let q = unzoom_image (record p { stage = n; in_action = true }) in
        set_timeout (if p.zoomed then 550 else 0) show_stage q)
    else p

-- `scroll_to` is what the scroll mode does: the stage is set before the slide is looked up, and the
-- lookup of a slide that is not there throws.
pub data Outcome : Type 0 where
  done : Page → Outcome
  scroll_to : ℕ → Page → Outcome
  type_error : Page → Outcome

-- The state that is left, whether or not the handler threw.
abbrev pub left : Outcome → Page
left (done p) = p
left (scroll_to n p) = p
left (type_error p) = p

-- `:eq(k)` too counts a negative position from the end.
unfoldable pub scroll_request : ℕ → Page → Outcome
scroll_request n p =
    if leb n (stages p) && not (stages p == 0)
    then scroll_to (if n == 0 then stages p else n) (record p { stage = n })
    else type_error (record p { stage = n })

unfoldable pub change_slide : Config → Request → Page → Outcome
unfolding resolve request_stage scroll_request
change_slide c r p =
    let n = resolve r p.stage (stages p) in
    if scrolls c then scroll_request n p else done (request_stage n p)

-- What a handler does behind its call of `changeSlide`, unless that threw.
abbrev pub and_then : (Page → Page) → Outcome → Outcome
and_then f (done p) = done (f p)
and_then f (scroll_to n p) = scroll_to n (f p)
and_then f (type_error p) = type_error p

-- The callback of `changeSlide`, and the one that it sets in turn.
unfoldable pub run_show_stage : Config → Page → Page
unfolding set_timeout
run_show_stage c p = set_timeout c.slide_speed release_action (show_slide c p.stage p)

unfoldable pub run_release_action : Page → Page
run_release_action p = record p { in_action = false }

-- `.toFirstSlide` and `.toLastSlide`: the change, the address without its fragment, the sidebar.
unfoldable pub jump : Config → ℕ → Page → Outcome
jump c n p =
    and_then (λ q. hide_sidebar (record q { address = clear_hash c q.address }))
      (change_slide c (number n) p)

-- `[class*="toSlide-"]`
unfoldable pub click_to_slide : Config → ℕ → Page → Outcome
click_to_slide c n p = and_then hide_sidebar (change_slide c (number n) p)
