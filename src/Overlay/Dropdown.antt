-- ===== src/Overlay/Dropdown.antt =====
-- `showDropdown`, `hideDropdown` and `unzoomImage` of resource/js/slides.js.
use net_frame.Common.{
  ℕ, Bool, true, false, List, [], ◌∷◌, ◌==◌, if◌then◌else◌, update_where, contains,
}
use net_frame.Page.{Page, Dropdown, dropdown_hidden, zoom_click}
use net_frame.Page.Timers.{trigger}

-- `addClass` of a class that carries an id.
unfoldable pub add_id : ℕ → List ℕ → List ℕ
add_id id ids = if contains id ids then ids else id ∷ ids

unfoldable pub hide_dropdown : Page → Page
unfolding trigger
hide_dropdown p =
    if p.dropdowns.shown
    then trigger dropdown_hidden (record p {
      dropdowns = record {
        shown = false;
        items =
            update_where (λ _ (d : Dropdown). d.show) (λ d. record d { hide = true })
              p.dropdowns.items;
        html_shown = false;
        html_ids = [];
        scrolls = 0;
      };
    })
    else p

-- What it does to the state; the place of the dropdown is in Placement.
unfoldable pub show_dropdown : ℕ → Bool → Page → Page
unfolding hide_dropdown add_id
show_dropdown id hover p =
    let q = if hover then p else hide_dropdown p in
    record q {
      dropdowns = record (q.dropdowns) {
        shown = true;
        items =
            update_where (λ _ (d : Dropdown). d.id == id) (λ d. record d { show = true })
              q.dropdowns.items;
        html_shown = true;
        html_ids = add_id id q.dropdowns.html_ids;
      };
    }

-- The handler of `transitionend` that `hideDropdown` leaves on the dropdown at a position.
unfoldable pub dropdown_faded : ℕ → Page → Page
dropdown_faded k p = record p {
  dropdowns = record (p.dropdowns) {
    items =
        update_where (λ i (d : Dropdown). i == k) (λ d. record d { show = false; hide = false })
          p.dropdowns.items;
    html_shown = false;
    html_ids = [];
  };
}

-- The plugin that zooms an image closes it on the click, later and by itself.
unfoldable pub unzoom_image : Page → Page
unfolding trigger
unzoom_image p = if p.zoomed then trigger zoom_click p else p

-- A press of the mouse or a touch outside the open dropdown.
unfoldable pub press_outside_dropdown : Page → Page
unfolding hide_dropdown
press_outside_dropdown p = if p.dropdowns.shown then hide_dropdown p else p
