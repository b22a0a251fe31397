-- ===== src/Tests/Page.antt =====
-- Popups, the scroll mode, the navigation and a session at the small page.
use net_frame.Common.{
  Bool, ◌↔◌, ℕ, ◌≡◌, ◌<◌, ◌≤◌, ◌⊎◌, inr, refl, true, false, none, some, List, [], ◌∷◌, arith,
  get_elem?, find_index, index_from, indices_from,
}
use net_frame.Page.{Page, Timer, stages, remove_popup}
use net_frame.Settings.{defaults, configure, initial_page}
use net_frame.Slides.Show.{eq_slide}
use net_frame.Slides.Order.{InOrder}
use net_frame.Slides.Change.{change_slide}
use net_frame.Page.Timers.{set_timeout}
use net_frame.Overlay.Popup.{show_popup, hide_popup, run_remove_popup}
use net_frame.Overlay.Stack.{hide-show_popup}
use net_frame.Navigation.{run_refresh_navigation, listed}
use net_frame.Navigation.Dots.{run_refresh_navigation-InOrder}
use net_frame.Scroll.{Screen, update_scroll}
use net_frame.Scroll.Selection.{HasMiddle, HasPlace, selected_at, selected_at-update_scroll}
use net_frame.Session.{
  click_next, load_page, run_the_code, click_popup, handle, open_page, here, next, event,
}
use net_frame.Session.Overlays.{IsSteady}
use net_frame.Session.Agreement.Steps.{session-Agrees}
use net_frame.Session.Release.{Fires, session_opens}
use net_frame.Session.Invariant.{session-IsSteady}
use net_frame.Tests.Fixture.{device, markup, document, scroll_config, page}
use net_frame.Tests.Slides.{page-InOrder}

hide-show_popup_example :
    let q = show_popup 75 page in
    let r = hide_popup none q in
    (elements : List ℕ) × (rest : List Timer) × (r.pending
      ≡ record { handle = q.next_handle; delay = 500; task = remove_popup (some 75) elements }
        ∷ rest)
    × ((run_remove_popup (some 75) elements r).popups.shown ≡ none)
hide-show_popup_example =
    hide-show_popup 75 page (λ e. cc) (unfold find_index index_from in refl) refl

-- The window stands between the first two of three slides, a little more on the second.
abbrev screen : Screen
screen = record {
  scroll_top = 500;
  window_height = 800;
  document_height = 2400;
  boxes =
      record { top = 0; height = 800 }
      ∷ record { top = 800; height = 800 }
      ∷ record { top = 1600; height = 800 }
      ∷ [];
}

selected_at-update_scroll_example :
    (is : Bool) × (selected_at 1 (update_scroll scroll_config screen page).slides ≡ some is)
    × ((is ≡ true) ↔ (HasMiddle screen (record { top = 800; height = 800 }) × HasPlace screen 3 1))
selected_at-update_scroll_example =
    selected_at-update_scroll scroll_config screen 1 page refl (omega arith) refl

run_refresh_navigation-InOrder_example :
    get_elem? (run_refresh_navigation page).navigation 0 ≡ some true
run_refresh_navigation-InOrder_example =
    run_refresh_navigation-InOrder 0 0 0 page (omega arith) page-InOrder
      (unfold listed indices_from in refl) (omega arith)

abbrev opened : Page
opened = open_page (configure device markup defaults) false (initial_page markup document)

-- The page once the window is loaded, and once the next slide is asked for.
abbrev loaded : Page
loaded = handle (configure device markup defaults) load_page opened

handle-loaded : (handle (configure device markup defaults) click_next loaded).loaded ≡ true
unfolding handle run_the_code change_slide set_timeout
handle-loaded = ground arith

session-IsSteady_example :
    IsSteady false
      (configure device markup defaults)
      (handle (configure device markup defaults) (click_popup 75) opened)
session-IsSteady_example =
    session-IsSteady device markup defaults document false (next here (event (click_popup 75)))

session_opens_example :
    (q : Page) × Fires
      (configure device markup defaults)
      screen
      (handle (configure device markup defaults) click_next loaded)
      q
    × (q.in_action ≡ false)
session_opens_example =
    session_opens device markup defaults document false screen
      (next (next here (event load_page)) (event click_next)) handle-loaded

session-Agrees_example :
    let p = handle (configure device markup defaults) click_next loaded in
    (k : ℕ) × (k < stages p)
    × (p.stage ≤ stages p)
    × InOrder k p.slides
    × ((p.in_action ≡ true) ⊎ (eq_slide p.stage p.slides ≡ some k))
unfolding configure
session-Agrees_example =
    session-Agrees device markup defaults document false refl refl (omega arith)
      (inr (0, omega arith, page-InOrder)) (next (next here (event load_page)) (event click_next))
