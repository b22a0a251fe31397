-- ===== src/Session/Overlays.antt =====
-- The invariant of a session (resource/js/slides.js), for the handlers that concern what lies over the
-- slides.
use net_frame.Common.{
  Option-cases, inl, inr, ◌&&◌, ℕ, ◌+◌, true, false, if◌then◌else◌, refl, indices_from, ◌≤◌, ◌≡◌,
  Bool, Option, List, arith, is_some,
}
use net_frame.Page.{
  Config, Page, Sidebar, Popup, clear_sidebars, Task, reveal_sidebar, reveal_popup, remove_popup,
  popup_done,
}
use net_frame.Page.Timers.{set_timeout, clear_timeout}
use net_frame.Overlay.Dropdown.{
  show_dropdown, hide_dropdown, dropdown_faded, press_outside_dropdown, unzoom_image,
}
use net_frame.Overlay.Sidebar.{open_sidebar, show_sidebar, hide_sidebar, press_outside_sidebar}
use net_frame.Overlay.Popup.{
  is_target, target_id, open_popup, close_popup, run_reveal_popup, show_popup, hide_popup,
  run_remove_popup,
}
use net_frame.Overlay.Stack.{IsStack}
use net_frame.Session.Lock.{IsTimed, is_unlock, is_safe}
use net_frame.Session.Lock.Kept.{
  set_timeout-IsTimed, without-IsTimed, store_removal-IsTimed, store_cleanup-IsTimed,
}

-- The delay `slideSpeed - effectOffset` is not negative; `<html>` carries `sidebarShown` exactly while
-- a sidebar is shown, and `popupShown` exactly while the stack of popups is there, which is never
-- empty.
pub record IsSteady (waived : Bool) (c : Config) (p : Page) : Type 0 where
  pub offset_fits : p.effect_offset ≤ c.slide_speed
  pub sidebar_class : p.sidebars.html_shown ≡ p.sidebars.shown
  pub stack : IsStack p.popups.shown
  pub popup_class : p.popups.html_shown ≡ is_some p.popups.shown
  pub timed :
      IsTimed waived p.in_action p.loaded p.next_handle p.pending p.sidebars.removal
        p.popups.cleanup p.element_animation

module _ (waived : Bool) (c : Config) where
  pub if-IsSteady :
      (b : Bool) {p q : Page}
      → IsSteady waived c p
      → IsSteady waived c q
      → IsSteady waived c (if b then p else q)
  if-IsSteady true v w = v
  if-IsSteady false v w = w

  -- A callback of any kind may be set; one that is dropped must not be for the lock.
  pub set_timeout-IsSteady :
      (delay : ℕ) (task : Task) {p : Page}
      → IsSteady waived c p
      → IsSteady waived c (set_timeout delay task p)
  unfolding set_timeout
  set_timeout-IsSteady delay task v = record {
    offset_fits = v.offset_fits;
    sidebar_class = v.sidebar_class;
    stack = v.stack;
    popup_class = v.popup_class;
    timed = set_timeout-IsTimed delay task v.timed;
  }

  pub clear_timeout-IsSteady :
      (o : Option ℕ) {p : Page}
      → is_safe o p.pending ≡ true
      → IsSteady waived c p
      → IsSteady waived c (clear_timeout o p)
  unfolding clear_timeout
  clear_timeout-IsSteady o safe v = record {
    offset_fits = v.offset_fits;
    sidebar_class = v.sidebar_class;
    stack = v.stack;
    popup_class = v.popup_class;
    timed = without-IsTimed o safe v.timed;
  }

  pub hide_dropdown-IsSteady :
      {p : Page} → IsSteady waived c p → IsSteady waived c (hide_dropdown p)
  unfolding hide_dropdown
  hide_dropdown-IsSteady v = ground arith

  pub unzoom_image-IsSteady : {p : Page} → IsSteady waived c p → IsSteady waived c (unzoom_image p)
  unfolding unzoom_image
  unzoom_image-IsSteady v = ground arith

  pub hide_sidebar-IsSteady : {p : Page} → IsSteady waived c p → IsSteady waived c (hide_sidebar p)
  unfolding hide_sidebar is_unlock
  hide_sidebar-IsSteady {p} v =
      let visible = indices_from 0 (λ (s : Sidebar). s.visible) p.sidebars.items in
      ground (arith, store_removal-IsTimed 500 (clear_sidebars visible) refl v.timed)

  pub show_dropdown-IsSteady :
      {p : Page}
      → IsSteady waived c p
      → (id : ℕ) (hover : Bool) → IsSteady waived c (show_dropdown id hover p)
  unfolding show_dropdown
  show_dropdown-IsSteady v id hover = ground arith

  pub dropdown_faded-IsSteady :
      {p : Page} → IsSteady waived c p → (k : ℕ) → IsSteady waived c (dropdown_faded k p)
  unfolding dropdown_faded
  dropdown_faded-IsSteady v k = ground arith

  pub press_outside-IsSteady :
      {p : Page}
      → IsSteady waived c p
      → IsSteady waived c (press_outside_dropdown (press_outside_sidebar c p))
  unfolding press_outside_dropdown press_outside_sidebar
  press_outside-IsSteady v =
      let q = if-IsSteady c.hide_sidebar_on_body_click (hide_sidebar-IsSteady v) v in
      if-IsSteady _ (hide_dropdown-IsSteady q) q

  open_sidebar-IsSteady :
      (id : ℕ) {p : Page} → IsSteady waived c p → IsSteady waived c (open_sidebar id p)
  unfolding open_sidebar
  open_sidebar-IsSteady id {p} v =
      let dropped = without-IsTimed p.sidebars.removal v.timed.ordered.safe_removal v.timed in
      ground (arith, set_timeout-IsTimed 100 (reveal_sidebar id) dropped)

  pub show_sidebar-IsSteady :
      {p : Page} → IsSteady waived c p → (id : ℕ) → IsSteady waived c (show_sidebar id p)
  unfolding show_sidebar
  show_sidebar-IsSteady v id =
      hide_dropdown-IsSteady
        (if-IsSteady _ (if-IsSteady _ (open_sidebar-IsSteady id v) v) (hide_sidebar-IsSteady v))

  open_popup-IsSteady :
      (id : ℕ) {p : Page} → IsSteady waived c p → IsSteady waived c (open_popup id p)
  unfolding open_popup
  open_popup-IsSteady id v =
      let q = hide_sidebar-IsSteady v in
      ground (arith, set_timeout-IsTimed 100 (reveal_popup id) q.timed)

  pub show_popup-IsSteady :
      {p : Page} → IsSteady waived c p → (id : ℕ) → IsSteady waived c (show_popup id p)
  unfolding show_popup
  show_popup-IsSteady v id = hide_dropdown-IsSteady (if-IsSteady _ (open_popup-IsSteady id v) v)

  close_popup-IsSteady :
      (target : Option ℕ) {p : Page}
      → IsSteady waived c p
      → IsSteady waived c (close_popup target p)
  unfolding close_popup
  close_popup-IsSteady target {p} v =
      let dropped = without-IsTimed p.popups.cleanup v.timed.ordered.safe_cleanup v.timed in
      let shows = λ (s : Popup). s.visible && is_target target s.id in
      let elements = indices_from 0 shows p.popups.items in
      ground (arith, set_timeout-IsTimed 500 (remove_popup target elements) dropped)

  pub hide_popup-IsSteady :
      {p : Page} → IsSteady waived c p → (asked : Option ℕ) → IsSteady waived c (hide_popup asked p)
  unfolding hide_popup
  hide_popup-IsSteady {p} v asked = elim (Option-cases p.popups.shown) [
    | inl e ↦ rw (e, hide_popup) v
    | inr (ids, e) ↦ rw (e, hide_popup) (close_popup-IsSteady (target_id asked ids) v)
  ]

  pub run_reveal_popup-IsSteady :
      (id : ℕ) {p : Page} → IsSteady waived c p → IsSteady waived c (run_reveal_popup c id p)
  unfolding run_reveal_popup is_unlock
  run_reveal_popup-IsSteady id {p} v =
      let dropped = without-IsTimed p.popups.cleanup v.timed.ordered.safe_cleanup v.timed in
      ground (
        arith,
        store_cleanup-IsTimed (c.effect_speed + c.cleanup_delay) (popup_done id) refl dropped,
      )

  pub run_remove_popup-IsSteady :
      {p : Page}
      → IsSteady waived c p
      → (target : Option ℕ) (elements : List ℕ)
      → IsSteady waived c (run_remove_popup target elements p)
  unfolding run_remove_popup
  run_remove_popup-IsSteady v target elements = ground arith
