-- ===== src/Session/Invariant.antt =====
-- What every session on the page keeps (resource/js/slides.js): the delays are not negative, the
-- classes of `<html>` agree with the globals, and the lock is freed by a callback that waits.
use net_frame.Common.{ℕ, ◌≡◌, refl, inl, inr, Bool, Bool-cases, true, false, some, arith, get_elem?}
use net_frame.Page.{
  Config, Page, Task, Timer, show_stage, release_action, refresh_navigation, reveal_popup,
  start_page, read_hash, remove_popup,
}
use net_frame.Page.Timers.{set_timeout, clear_timeout, without, drop_timer}
use net_frame.Slides.Show.{
  scrolls, show_slide, update_navigation, run_settle, run_animate_slide, run_mark_done,
}
use net_frame.Slides.Change.{increase, decrease, run_show_stage, run_release_action}
use net_frame.Input.Wheel.{run_reset_scrolls}
use net_frame.Navigation.{run_refresh_navigation}
use net_frame.Overlay.Sidebar.{run_reveal_sidebar, run_clear_sidebars}
use net_frame.Overlay.Popup.{run_popup_done}
use net_frame.Scroll.{Screen, run_mark_slide_done}
use net_frame.Settings.{Device, Markup, Author, Document, configure, initial_page}
use net_frame.Session.{
  Event, turn_wheel, press_key, swipe_over, click_next, click_prev, click_first, click_last,
  click_number, click_nav, click_anchor, pop_state, scroll_document, load_page, resize_window,
  click_sidebar, close_sidebar, press_outside, click_popup, close_popup, click_dropdown,
  fade_dropdown, zoom_image, handle, run_the_code, run_start_page, run_task, fire, Step, event,
  timer, Reach, here, next, open_page,
}
use net_frame.Session.Overlays.{
  IsSteady, if-IsSteady, set_timeout-IsSteady, clear_timeout-IsSteady, run_reveal_popup-IsSteady,
  hide_dropdown-IsSteady, unzoom_image-IsSteady, hide_sidebar-IsSteady, show_dropdown-IsSteady,
  dropdown_faded-IsSteady, press_outside-IsSteady, show_sidebar-IsSteady, show_popup-IsSteady,
  hide_popup-IsSteady, run_remove_popup-IsSteady,
}
use net_frame.Session.Lock.{is_unlock, all_below, are_apart, unlocks_at-get_elem?}
use net_frame.Session.Lock.Kept.{set_timeout-IsTimed, unlock-IsTimed, drop_timer-IsOrdered}
use net_frame.Session.Input.{wheel-IsSteady, key_down-IsSteady, swipe-IsSteady}
use net_frame.Session.Slides.{
  show_slide-IsSteady, change_slide-IsSteady, jump-IsSteady, click_to_slide-IsSteady,
  click_dot-IsSteady, click_link-IsSteady, update_hash-IsSteady,
}
use net_frame.Session.Scrolling.{update_scroll-IsSteady, slides-IsSteady}

-- What the first lines of the `ready` handler set up is steady, whatever the author chose.
pub initial_page-IsSteady :
    (d : Device) (m : Markup) (a : Author) (doc : Document)
    → IsSteady false (configure d m a) (initial_page m doc)
unfolding configure initial_page all_below are_apart
initial_page-IsSteady d m a doc = ground arith

module _ (waived : Bool) (c : Config) where
  run_the_code-IsSteady : {p : Page} → IsSteady waived c p → IsSteady waived c (run_the_code p)
  unfolding run_the_code set_timeout
  run_the_code-IsSteady v =
      let set = set_timeout-IsTimed 500 start_page v.timed in
      let ordered = set.ordered in ground arith

  update_navigation-IsSteady :
      {p : Page} → IsSteady waived c p → IsSteady waived c (update_navigation p)
  unfolding update_navigation
  update_navigation-IsSteady v = set_timeout-IsSteady waived c 100 refresh_navigation v

  handle-IsSteady : (e : Event) {p : Page} → IsSteady waived c p → IsSteady waived c (handle c e p)
  unfolding handle
  handle-IsSteady (turn_wheel w) v = wheel-IsSteady waived c w v
  handle-IsSteady (press_key k) v = key_down-IsSteady waived c k v
  handle-IsSteady (swipe_over s) v = swipe-IsSteady waived c s v
  handle-IsSteady click_next v = change_slide-IsSteady waived c increase v
  handle-IsSteady click_prev v = change_slide-IsSteady waived c decrease v
  handle-IsSteady click_first v = jump-IsSteady waived c 1 v
  handle-IsSteady click_last v = jump-IsSteady waived c _ v
  handle-IsSteady (click_number n) v = click_to_slide-IsSteady waived c n v
  handle-IsSteady (click_nav k) v = click_dot-IsSteady waived c k v
  handle-IsSteady (click_anchor name) v = click_link-IsSteady waived c name v
  handle-IsSteady pop_state v = set_timeout-IsSteady waived c 100 read_hash v
  handle-IsSteady (scroll_document s) v =
      if-IsSteady waived c (scrolls c) (update_scroll-IsSteady waived c s v) v
  handle-IsSteady load_page {p} v = if-IsSteady waived c p.loaded v (run_the_code-IsSteady v)
  handle-IsSteady resize_window v =
      hide_dropdown-IsSteady waived c (unzoom_image-IsSteady waived c v)
  handle-IsSteady (click_sidebar id) v = show_sidebar-IsSteady waived c v id
  handle-IsSteady close_sidebar v = hide_sidebar-IsSteady waived c v
  handle-IsSteady press_outside v = press_outside-IsSteady waived c v
  handle-IsSteady (click_popup id) v = show_popup-IsSteady waived c v id
  handle-IsSteady (close_popup asked) v = hide_popup-IsSteady waived c v asked
  handle-IsSteady (click_dropdown id hover) v = show_dropdown-IsSteady waived c v id hover
  handle-IsSteady (fade_dropdown k) v = dropdown_faded-IsSteady waived c v k
  handle-IsSteady (zoom_image on) v = ground arith

  run_start_page-IsSteady :
      (s : Screen) {p : Page} → IsSteady waived c p → IsSteady waived c (run_start_page c s p)
  unfolding run_start_page
  run_start_page-IsSteady s {p} v =
      let q =
        if-IsSteady waived c c.is_scroll
          (update_navigation-IsSteady (update_scroll-IsSteady waived c s v)) v in
      if-IsSteady waived c _
        (update_navigation-IsSteady
          (update_scroll-IsSteady waived c s (slides-IsSteady waived c _ q)))
        (show_slide-IsSteady waived c _ q)

  run_task-IsSteady :
      (s : Screen) (t : Task)
      → is_unlock t ≡ false
      → {p : Page} → IsSteady waived c p
      → IsSteady waived c (run_task c s t p)
  unfolding is_unlock run_task run_settle run_animate_slide run_mark_done run_mark_slide_done
      run_refresh_navigation run_reset_scrolls run_reveal_sidebar run_clear_sidebars run_popup_done
  run_task-IsSteady s start_page h v = run_start_page-IsSteady s v
  run_task-IsSteady s read_hash h v = update_hash-IsSteady waived c v
  run_task-IsSteady s (reveal_popup id) h v = run_reveal_popup-IsSteady waived c id v
  run_task-IsSteady s (remove_popup target elements) h v =
      run_remove_popup-IsSteady waived c v target elements
  run_task-IsSteady s _ h v = ground arith

  open_page-IsSteady :
      (no_images : Bool) {p : Page}
      → IsSteady waived c p
      → IsSteady waived c (open_page c no_images p)
  unfolding open_page
  open_page-IsSteady no_images v =
      let shown = show_slide-IsSteady waived c _ (update_hash-IsSteady waived c v) in
      if-IsSteady waived c _ (run_the_code-IsSteady shown) shown

module _ (c : Config) where
  -- A callback that frees the lock may find no other that waits: it sets the next one, or frees it.
  run_unlock-IsSteady :
      (s : Screen) (t : Task)
      → is_unlock t ≡ true
      → {p : Page} → IsSteady true c p
      → IsSteady false c (run_task c s t p)
  unfolding is_unlock run_task run_show_stage run_release_action set_timeout
  run_unlock-IsSteady s show_stage h {p} v =
      let q = show_slide c p.stage p in
      let shown = show_slide-IsSteady true c p.stage v in
      record {
        offset_fits = shown.offset_fits;
        sidebar_class = shown.sidebar_class;
        stack = shown.stack;
        popup_class = shown.popup_class;
        timed =
            unlock-IsTimed false q.in_action q.loaded c.slide_speed release_action refl
              shown.timed.ordered;
      }
  run_unlock-IsSteady s release_action h {p} v = record {
    offset_fits = v.offset_fits;
    sidebar_class = v.sidebar_class;
    stack = v.stack;
    popup_class = v.popup_class;
    timed = record { released = inr (inl refl); ordered = v.timed.ordered };
  }
  run_unlock-IsSteady s _ h v = ground arith

  -- The callback is off the list when it runs.
  fire-IsSteady :
      (s : Screen) (k : ℕ) (t : Timer) {p : Page}
      → get_elem? p.pending k ≡ some t
      → IsSteady false c p
      → IsSteady false c (fire c s t p)
  unfolding fire without clear_timeout
  fire-IsSteady s k t {p} found v = elim (Bool-cases (is_unlock t.task)) [
    | inl frees ↦ run_unlock-IsSteady s t.task frees (waive t.handle v)
    | inr other ↦
        let apart = unlocks_at-get_elem? p.pending k t found v.timed.ordered.apart other in
        run_task-IsSteady false c s t.task other
          (clear_timeout-IsSteady false c (some t.handle) (ground arith) v)
  ]
    where
      waive :
          (h : ℕ) {p : Page}
          → IsSteady false c p
          → IsSteady true c (record p { pending = drop_timer h p.pending })
      waive h v = record {
        offset_fits = v.offset_fits;
        sidebar_class = v.sidebar_class;
        stack = v.stack;
        popup_class = v.popup_class;
        timed = record { released = inl refl; ordered = drop_timer-IsOrdered h v.timed.ordered };
      }

  Step-IsSteady : {p q : Page} → IsSteady false c p → Step c p q → IsSteady false c q
  Step-IsSteady v (event e) = handle-IsSteady false c e v
  Step-IsSteady v (timer s k t found) = fire-IsSteady s k t found v

  Reach-IsSteady : {p q : Page} → IsSteady false c p → Reach c p q → IsSteady false c q
  Reach-IsSteady v here = v
  Reach-IsSteady v (next r s) = Step-IsSteady (Reach-IsSteady v r) s

-- Whatever the user and the browser do, in any order of events and callbacks, every page that a
-- session reaches after the start is steady: the time to the start of an animation is not negative,
-- the classes of `<html>` agree with the globals, no empty stack of popups is kept, and on a page that
-- is loaded a held lock `inAction` has a callback that waits and frees it or sets the one that does,
-- which no stored handle for `clearTimeout` names.
pub session-IsSteady :
    (d : Device) (m : Markup) (a : Author) (doc : Document) (no_images : Bool) {p : Page}
    → Reach (configure d m a) (open_page (configure d m a) no_images (initial_page m doc)) p
    → IsSteady false (configure d m a) p
session-IsSteady d m a doc no_images r =
    let c = configure d m a in
    Reach-IsSteady c (open_page-IsSteady false c no_images (initial_page-IsSteady d m a doc)) r
