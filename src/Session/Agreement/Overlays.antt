-- ===== src/Session/Agreement/Overlays.antt =====
-- The slide on stage and the slide that is selected (resource/js/slides.js): the handlers that concern
-- what lies over the slides leave both alone.
use net_frame.Common.{ℕ, ◌≡◌, Bool, false, Option, List, arith, inl, inr, Option-cases}
use net_frame.Page.{Config, Page, Task}
use net_frame.Page.Timers.{set_timeout}
use net_frame.Overlay.Dropdown.{
  show_dropdown, hide_dropdown, dropdown_faded, press_outside_dropdown, unzoom_image,
}
use net_frame.Overlay.Sidebar.{
  open_sidebar, show_sidebar, hide_sidebar, press_outside_sidebar, run_reveal_sidebar,
  run_clear_sidebars,
}
use net_frame.Overlay.Popup.{
  target_id, open_popup, close_popup, run_reveal_popup, show_popup, hide_popup, run_remove_popup,
  run_popup_done,
}
use net_frame.Session.Lock.{is_unlock}
use net_frame.Session.Agreement.{
  is_release, releases, unlock_count, IsApart, Agrees, IsApart-Agrees, if-Agrees, Fewer-without,
}

pub set_timeout-Agrees :
    (delay : ℕ) (task : Task) {p : Page}
    → is_unlock task ≡ false
    → Agrees p
    → Agrees (set_timeout delay task p)
unfolding set_timeout unlock_count releases is_unlock is_release
set_timeout-Agrees delay task {p} other = IsApart-Agrees (ground arith)

pub hide_dropdown-Agrees : {p : Page} → Agrees p → Agrees (hide_dropdown p)
unfolding hide_dropdown
hide_dropdown-Agrees {p} = IsApart-Agrees (ground arith)

pub unzoom_image-Agrees : {p : Page} → Agrees p → Agrees (unzoom_image p)
unfolding unzoom_image
unzoom_image-Agrees {p} = IsApart-Agrees (ground arith)

pub hide_sidebar-Agrees : {p : Page} → Agrees p → Agrees (hide_sidebar p)
unfolding hide_sidebar unlock_count releases is_unlock is_release
hide_sidebar-Agrees {p} = IsApart-Agrees (ground arith)

pub show_dropdown-Agrees :
    (id : ℕ) (hover : Bool) {p : Page} → Agrees p → Agrees (show_dropdown id hover p)
unfolding show_dropdown
show_dropdown-Agrees id hover {p} = IsApart-Agrees (ground arith)

pub dropdown_faded-Agrees : (k : ℕ) {p : Page} → Agrees p → Agrees (dropdown_faded k p)
unfolding dropdown_faded
dropdown_faded-Agrees k {p} = IsApart-Agrees (ground arith)

pub press_outside-Agrees :
    (c : Config) {p : Page} → Agrees p → Agrees (press_outside_dropdown (press_outside_sidebar c p))
unfolding press_outside_dropdown press_outside_sidebar
press_outside-Agrees c v =
    let q = if-Agrees c.hide_sidebar_on_body_click (hide_sidebar-Agrees v) v in
    if-Agrees _ (hide_dropdown-Agrees q) q

open_sidebar-Agrees : (id : ℕ) {p : Page} → Agrees p → Agrees (open_sidebar id p)
unfolding open_sidebar unlock_count releases is_unlock is_release
open_sidebar-Agrees id {p} =
    IsApart-Agrees (ground (arith, Fewer-without p.sidebars.removal p.pending))

pub show_sidebar-Agrees : (id : ℕ) {p : Page} → Agrees p → Agrees (show_sidebar id p)
unfolding show_sidebar
show_sidebar-Agrees id v =
    hide_dropdown-Agrees
      (if-Agrees _ (if-Agrees _ (open_sidebar-Agrees id v) v) (hide_sidebar-Agrees v))

opened-IsApart : (id : ℕ) (p : Page) → IsApart (hide_sidebar p) (open_popup id p)
unfolding open_popup unlock_count releases is_unlock is_release
opened-IsApart id p = ground arith

pub show_popup-Agrees : (id : ℕ) {p : Page} → Agrees p → Agrees (show_popup id p)
unfolding show_popup
show_popup-Agrees id {p} v =
    hide_dropdown-Agrees
      (if-Agrees _ (IsApart-Agrees (opened-IsApart id p) (hide_sidebar-Agrees v)) v)

close_popup-Agrees : (target : Option ℕ) {p : Page} → Agrees p → Agrees (close_popup target p)
unfolding close_popup unlock_count releases is_unlock is_release
close_popup-Agrees target {p} =
    IsApart-Agrees (ground (arith, Fewer-without p.popups.cleanup p.pending))

pub hide_popup-Agrees : (asked : Option ℕ) {p : Page} → Agrees p → Agrees (hide_popup asked p)
unfolding hide_popup
hide_popup-Agrees asked {p} v = elim (Option-cases p.popups.shown) [
  | inl e ↦ rw (e, hide_popup) v
  | inr (ids, e) ↦ rw (e, hide_popup) (close_popup-Agrees (target_id asked ids) v)
]

pub run_reveal_popup-Agrees :
    (c : Config) (id : ℕ) {p : Page} → Agrees p → Agrees (run_reveal_popup c id p)
unfolding run_reveal_popup unlock_count releases is_unlock is_release
run_reveal_popup-Agrees c id {p} =
    IsApart-Agrees (ground (arith, Fewer-without p.popups.cleanup p.pending))

pub run_remove_popup-Agrees :
    (target : Option ℕ) (elements : List ℕ) {p : Page}
    → Agrees p
    → Agrees (run_remove_popup target elements p)
unfolding run_remove_popup
run_remove_popup-Agrees target elements {p} = IsApart-Agrees (ground arith)

pub run_popup_done-Agrees : (id : ℕ) {p : Page} → Agrees p → Agrees (run_popup_done id p)
unfolding run_popup_done
run_popup_done-Agrees id {p} = IsApart-Agrees (ground arith)

pub run_reveal_sidebar-Agrees : (id : ℕ) {p : Page} → Agrees p → Agrees (run_reveal_sidebar id p)
unfolding run_reveal_sidebar
run_reveal_sidebar-Agrees id {p} = IsApart-Agrees (ground arith)

pub run_clear_sidebars-Agrees :
    (visible : List ℕ) {p : Page} → Agrees p → Agrees (run_clear_sidebars visible p)
unfolding run_clear_sidebars
run_clear_sidebars-Agrees visible {p} = IsApart-Agrees (ground arith)
