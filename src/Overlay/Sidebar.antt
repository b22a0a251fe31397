-- ===== src/Overlay/Sidebar.antt =====
-- `window.showSidebar`, `hideSidebar` and their callbacks (resource/js/slides.js, "Sidebar Panel").
use net_frame.Common.{
  ℕ, true, false, not, none, some, List, ◌==◌, if◌then◌else◌, update_where, indices_from, contains,
  is_some, find_index,
}
use net_frame.Page.{Config, Page, Sidebar, reveal_sidebar, clear_sidebars}
use net_frame.Page.Timers.{set_timeout, clear_timeout}
use net_frame.Overlay.Dropdown.{hide_dropdown}

unfoldable pub hide_sidebar : Page → Page
unfolding set_timeout
hide_sidebar p =
    if p.sidebars.shown
    then (let visible = indices_from 0 (λ (s : Sidebar). s.visible) p.sidebars.items in
        record (set_timeout 500 (clear_sidebars visible) p) {
          sidebars = record {
            shown = false;
            items =
                update_where (λ _ (s : Sidebar). s.visible) (λ s. record s { visible = false })
                  p.sidebars.items;
            html_shown = false;
            html_id = none;
            removal = some p.next_handle;
          };
          allow_slide = true;
        })
    else p

-- The branch of `showSidebar` for an element that is there.
unfoldable pub open_sidebar : ℕ → Page → Page
unfolding set_timeout clear_timeout
open_sidebar id p =
    let animated =
      is_some
        (find_index (λ (s : Sidebar). if s.id == id then s.animated else false) p.sidebars.items) in
    let q = record p {
      sidebars = record (p.sidebars) {
        shown = true;
        items =
            update_where (λ _ (s : Sidebar). s.id == id)
              (λ s. record s { animate = false; active = false; visible = true }) p.sidebars.items;
        html_shown = true;
        html_id = some id;
      };
      allow_slide = false;
    } in
    if animated then set_timeout 100 (reveal_sidebar id) (clear_timeout p.sidebars.removal q) else q

unfoldable pub show_sidebar : ℕ → Page → Page
unfolding hide_sidebar open_sidebar hide_dropdown
show_sidebar id p =
    let present = is_some (find_index (λ (s : Sidebar). s.id == id) p.sidebars.items) in
    hide_dropdown
      (if not p.sidebars.shown then (if present then open_sidebar id p else p) else hide_sidebar p)

-- A press outside the open sidebar and the dropdown triggers.
unfoldable pub press_outside_sidebar : Config → Page → Page
unfolding hide_sidebar
press_outside_sidebar c p = if c.hide_sidebar_on_body_click then hide_sidebar p else p

-- The two callbacks.
unfoldable pub run_reveal_sidebar : ℕ → Page → Page
run_reveal_sidebar id p = record p {
  sidebars = record (p.sidebars) {
    items =
        update_where (λ _ (s : Sidebar). s.id == id)
          (λ s. record s { animate = true; active = true }) p.sidebars.items;
  };
}

unfoldable pub run_clear_sidebars : List ℕ → Page → Page
run_clear_sidebars visible p = record p {
  sidebars = record (p.sidebars) {
    items =
        update_where (λ i (s : Sidebar). contains i visible)
          (λ s. record s { animate = false; active = false; done = false }) p.sidebars.items;
  };
}
