-- ===== src/Input/Keys.antt =====
-- The handler of the keys (resource/js/slides.js, "Listen the Keys").
use net_frame.Common.{ℕ, ◌+◌, Bool, ◌||◌, none, ◌==◌, if◌then◌else◌}
use net_frame.Common.Int.{pos}
use net_frame.Page.{Config, Page, tween_content}
use net_frame.Page.Timers.{trigger}
use net_frame.Overlay.Dropdown.{hide_dropdown, unzoom_image}
use net_frame.Overlay.Sidebar.{hide_sidebar}
use net_frame.Overlay.Popup.{hide_popup}
use net_frame.Slides.Change.{Request, increase, decrease, change_slide, left}
use net_frame.Input.Wheel.{current_top}

-- `in_field`: the key was pressed in an input or a text area.
pub record Key : Type 0 where
  pub code : ℕ
  pub in_field : Bool

-- The tween of the keys ↑ and ↓ in horizontal mode; both add `delta * scrollDistance`.
unfoldable pub scroll_by_key : Page → Page
unfolding trigger current_top
scroll_by_key p = trigger (tween_content (pos (current_top p.slides + 125))) p

-- [ esc ]
unfoldable pub escape : Page → Page
escape p = unzoom_image (hide_popup none (hide_dropdown (hide_sidebar p)))

unfoldable pub flip_by_key : Config → Request → Page → Page
flip_by_key c r p = left (change_slide c r p)

-- The five tests of `keyCode` exclude one another.
unfoldable pub key_down : Config → Key → Page → Page
key_down c k p =
    if c.disable_key_navigation || k.in_field
    then p
    else (if k.code == 37
        then (if c.horizontal_mode then flip_by_key c decrease p else p)
        else (if k.code == 38
            then (if c.horizontal_mode then scroll_by_key p else flip_by_key c decrease p)
            else (if k.code == 39
                then (if c.horizontal_mode then flip_by_key c increase p else p)
                else (if k.code == 40
                    then (if c.horizontal_mode then scroll_by_key p else flip_by_key c increase p)
                    else (if k.code == 27 then escape p else p)))))
