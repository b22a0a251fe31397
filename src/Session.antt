-- ===== src/Session.antt =====
-- A session on the page: the events that the user and the browser send to the handlers of
-- resource/js/slides.js, and the callbacks that wait. Callbacks may run in any order and at any time;
-- the browser's order by due time is one of these.
pub mod Lock
pub mod Overlays
pub mod Slides
pub mod Scrolling
pub mod Release
pub mod Agreement
pub mod Input
pub mod Invariant
use Prim.Native.String.{String}
use net_frame.Common.{
  ℕ, zero, suc, ◌+◌, Bool, true, false, not, ◌&&◌, ◌||◌, Option, none, some, List, [], ◌∷◌, ◌==◌,
  ◌≡◌, if◌then◌else◌, update_where, get_elem?,
}
use net_frame.Page.{
  Config, Page, Slide, Timer, Task, stages, show_stage, release_action, settle, animate_slide,
  mark_done, mark_slide_done, refresh_navigation, reset_scrolls, start_page, read_hash,
  reveal_sidebar, clear_sidebars, reveal_popup, popup_done, remove_popup,
}
use net_frame.Page.Timers.{set_timeout, without}
use net_frame.Overlay.Dropdown.{
  show_dropdown, hide_dropdown, dropdown_faded, press_outside_dropdown, unzoom_image,
}
use net_frame.Overlay.Sidebar.{
  show_sidebar, hide_sidebar, press_outside_sidebar, run_reveal_sidebar, run_clear_sidebars,
}
use net_frame.Overlay.Popup.{
  show_popup, hide_popup, run_remove_popup, run_reveal_popup, run_popup_done,
}
use net_frame.Slides.Show.{
  scrolls, show_slide, update_navigation, run_settle, run_animate_slide, run_mark_done,
}
use net_frame.Slides.Change.{
  Request, increase, decrease, change_slide, left, jump, click_to_slide, run_show_stage,
  run_release_action,
}
use net_frame.Input.Wheel.{Wheel, wheel, run_reset_scrolls}
use net_frame.Input.Keys.{Key, key_down}
use net_frame.Input.Swipe.{Swipe, swipe}
use net_frame.Navigation.{click_dot, click_link, update_hash, run_refresh_navigation}
use net_frame.Scroll.{Screen, update_scroll, run_mark_slide_done}

pub data Event : Type 0 where
  turn_wheel : Wheel → Event
  press_key : Key → Event
  swipe_over : Swipe → Event
  click_next click_prev click_first click_last : Event
  click_number : ℕ → Event
  click_nav : ℕ → Event
  click_anchor : String → Event
  pop_state : Event
  scroll_document : Screen → Event
  load_page : Event
  resize_window : Event
  click_sidebar : ℕ → Event
  close_sidebar press_outside : Event
  click_popup : ℕ → Event
  close_popup : Option ℕ → Event
  click_dropdown : ℕ → Bool → Event
  fade_dropdown : ℕ → Event
  zoom_image : Bool → Event

-- `runTheCode`, up to its timer.
unfoldable pub run_the_code : Page → Page
unfolding set_timeout
run_the_code p =
    set_timeout 500 start_page (record p { in_action = false; block_scroll = false; loaded = true })

-- The end of the `ready` handler's first part. `no_images` is `!window.images`.
unfoldable pub open_page : Config → Bool → Page → Page
unfolding run_the_code
open_page c no_images p =
    let shown = update_hash c p in
    let q = show_slide c shown.stage shown in
    if not c.preload || no_images || q.loaded then run_the_code q else q

unfoldable pub handle : Config → Event → Page → Page
handle c (turn_wheel w) p = wheel c w p
handle c (press_key k) p = key_down c k p
handle c (swipe_over s) p = swipe c s p
handle c click_next p = left (change_slide c increase p)
handle c click_prev p = left (change_slide c decrease p)
handle c click_first p = left (jump c 1 p)
handle c click_last p = left (jump c (stages p) p)
handle c (click_number n) p = left (click_to_slide c n p)
handle c (click_nav k) p = left (click_dot c k p)
handle c (click_anchor name) p = click_link c name p
handle c pop_state p = set_timeout 100 read_hash p
handle c (scroll_document s) p = if scrolls c then update_scroll c s p else p
handle c load_page p = if p.loaded then p else run_the_code p
handle c resize_window p = hide_dropdown (unzoom_image p)
handle c (click_sidebar id) p = show_sidebar id p
handle c close_sidebar p = hide_sidebar p
handle c press_outside p = press_outside_dropdown (press_outside_sidebar c p)
handle c (click_popup id) p = show_popup id p
handle c (close_popup asked) p = hide_popup asked p
handle c (click_dropdown id hover) p = show_dropdown id hover p
handle c (fade_dropdown k) p = dropdown_faded k p
handle c (zoom_image on) p = record p { zoomed = on }

-- The callback of `runTheCode`.
unfoldable pub run_start_page : Config → Screen → Page → Page
run_start_page c s p =
    let q = if c.is_scroll then update_navigation (update_scroll c s p) else p in
    if c.is_mobile && c.is_simplified_mobile
    then update_navigation (
        update_scroll c s (record q {
          slides =
              update_where (λ _ _. true)
                (λ (s : Slide). record s { selected = true; animate = true; active = true })
                q.slides;
        }))
    else show_slide c q.stage q

unfoldable pub run_task : Config → Screen → Task → Page → Page
run_task c s show_stage p = run_show_stage c p
run_task c s release_action p = run_release_action p
run_task c s (settle changed old) p = run_settle changed old p
run_task c s (animate_slide new) p = run_animate_slide new p
run_task c s mark_done p = run_mark_done p
run_task c s (mark_slide_done i) p = run_mark_slide_done i p
run_task c s refresh_navigation p = run_refresh_navigation p
run_task c s reset_scrolls p = run_reset_scrolls p
run_task c s start_page p = run_start_page c s p
run_task c s read_hash p = update_hash c p
run_task c s (reveal_sidebar id) p = run_reveal_sidebar id p
run_task c s (clear_sidebars visible) p = run_clear_sidebars visible p
run_task c s (reveal_popup id) p = run_reveal_popup c id p
run_task c s (popup_done id) p = run_popup_done id p
run_task c s (remove_popup target elements) p = run_remove_popup target elements p

-- The timer at a position runs: it is taken from the list first.
unfoldable pub fire : Config → Screen → Timer → Page → Page
fire c s t p = run_task c s t.task (record p { pending = without (some t.handle) p.pending })

-- A step of the session.
pub data Step (c : Config) (p : Page) : Page → Type 0 where
  event : (e : Event) → Step c p (handle c e p)
  timer :
      (s : Screen) (k : ℕ) (t : Timer) → get_elem? p.pending k ≡ some t → Step c p (fire c s t p)

pub data Reach (c : Config) (start : Page) : Page → Type 0 where
  here : Reach c start start
  next : {p q : Page} → Reach c start p → Step c p q → Reach c start q
