-- ===== src/Session/Agreement/Steps.antt =====
-- The slide on stage is the slide that is selected (resource/js/slides.js), in every session of slide mode.
use net_frame.Common.{
  ℕ, ◌≡◌, ◌<◌, refl, ◌≤◌, ◌∙◌, ◌⊎◌, inl, inr, Bool, Bool-cases, true, false, some, if◌then◌else◌,
  arith, length, get_elem?,
}
use net_frame.Page.{Config, Page, Timer, stages, read_hash}
use net_frame.Page.Timers.{without}
use net_frame.Slides.Show.{scrolls, eq_slide, current_number}
use net_frame.Slides.Frame.{show_slide-Keeps}
use net_frame.Slides.Order.{InOrder}
use net_frame.Slides.Change.{increase, decrease}
use net_frame.Navigation.{update_hash}
use net_frame.Scroll.{Screen}
use net_frame.Settings.{Device, Markup, Author, Document, configure, initial_page}
use net_frame.Session.{
  Event, turn_wheel, press_key, swipe_over, click_next, click_prev, click_first, click_last,
  click_number, click_nav, click_anchor, pop_state, scroll_document, load_page, resize_window,
  click_sidebar, close_sidebar, press_outside, click_popup, close_popup, click_dropdown,
  fade_dropdown, zoom_image, handle, run_the_code, fire, Step, event, timer, Reach, here, next,
  open_page,
}
use net_frame.Session.Lock.{is_unlock}
use net_frame.Session.Agreement.{
  is_release, unlock_count, IsIdle, IsShown, IsUpToDate, Agrees, IsApart, IsApart-IsShown,
  IsApart-Agrees, unlock_count-drop_timer, releases-get_elem?, if-Agrees, Fewer-without,
}
use net_frame.Session.Agreement.Overlays.{
  set_timeout-Agrees, hide_dropdown-Agrees, unzoom_image-Agrees, hide_sidebar-Agrees,
  show_dropdown-Agrees, dropdown_faded-Agrees, press_outside-Agrees, show_sidebar-Agrees,
  show_popup-Agrees, hide_popup-Agrees,
}
use net_frame.Session.Agreement.Show.{AreReady, show_slide-Agrees, Agrees-AreReady}
use net_frame.Session.Agreement.Slides.{
  change_slide-Agrees, jump-Agrees, click_to_slide-Agrees, click_dot-Agrees, click_link-Agrees,
  update_hash_cases,
}
use net_frame.Session.Agreement.Input.{wheel-Agrees, key_down-Agrees, swipe-Agrees}
use net_frame.Session.Agreement.Callbacks.{run_the_code-Agrees, run_task-Agrees, run_unlock-Agrees}

load-Agrees :
    (b : Bool) {p : Page} → p.loaded ≡ b → Agrees p → Agrees (if b then p else run_the_code p)
load-Agrees true e v = v
load-Agrees false e v = run_the_code-Agrees e v

zoomed-Agrees : (on : Bool) {p : Page} → Agrees p → Agrees (record p { zoomed = on })
zoomed-Agrees on {p} = IsApart-Agrees (ground arith)

taken-IsApart :
    (t : Timer) (p : Page) → IsApart p (record p { pending = without (some t.handle) p.pending })
taken-IsApart t p = ground (arith, Fewer-without (some t.handle) p.pending)

module _ (c : Config) (flips : scrolls c ≡ false) (classes : c.set_stage_classes ≡ true) where
  handle-Agrees : (e : Event) {p : Page} → Agrees p → Agrees (handle c e p)
  unfolding handle is_unlock
  handle-Agrees (turn_wheel w) v = wheel-Agrees c flips classes w v
  handle-Agrees (press_key k) v = key_down-Agrees c flips classes k v
  handle-Agrees (swipe_over s) v = swipe-Agrees c flips classes s v
  handle-Agrees click_next v = change_slide-Agrees c flips classes increase v
  handle-Agrees click_prev v = change_slide-Agrees c flips classes decrease v
  handle-Agrees click_first v = jump-Agrees c flips classes 1 v
  handle-Agrees click_last v = jump-Agrees c flips classes _ v
  handle-Agrees (click_number n) v = click_to_slide-Agrees c flips classes n v
  handle-Agrees (click_nav k) v = click_dot-Agrees c flips classes k v
  handle-Agrees (click_anchor name) v = click_link-Agrees c flips classes name v
  handle-Agrees pop_state v = set_timeout-Agrees 100 read_hash refl v
  handle-Agrees (scroll_document s) v = rw flips v
  handle-Agrees load_page {p} v = load-Agrees p.loaded refl v
  handle-Agrees resize_window v = hide_dropdown-Agrees (unzoom_image-Agrees v)
  handle-Agrees (click_sidebar id) v = show_sidebar-Agrees id v
  handle-Agrees close_sidebar v = hide_sidebar-Agrees v
  handle-Agrees press_outside v = press_outside-Agrees c v
  handle-Agrees (click_popup id) v = show_popup-Agrees id v
  handle-Agrees (close_popup asked) v = hide_popup-Agrees asked v
  handle-Agrees (click_dropdown id hover) v = show_dropdown-Agrees id hover v
  handle-Agrees (fade_dropdown k) v = dropdown_faded-Agrees k v
  handle-Agrees (zoom_image on) v = zoomed-Agrees on v

  -- The lock is freed only once the slide on stage is shown.
  up_to_date :
      (k : ℕ) {p : Page} (t : Timer) (j : ℕ)
      → get_elem? p.pending k ≡ some t
      → IsShown j p
      → (is_release t.task ≡ false) ⊎ (eq_slide p.stage p.slides ≡ some j)
  up_to_date k {p} t j found v = ground (arith, v.shown, releases-get_elem? p.pending k t found)

  fire-Agrees :
      (s : Screen) (k : ℕ) (t : Timer) {p : Page}
      → get_elem? p.pending k ≡ some t
      → Agrees p
      → Agrees (fire c s t p)
  unfolding fire without
  fire-Agrees s k t {p} found (j, v) =
      let w = IsApart-IsShown j (taken-IsApart t p) v in
      elim (Bool-cases (is_unlock t.task)) [
        | inl frees ↦
            let left_over = unlock_count-drop_timer p.pending k t found frees in
            let locked : p.in_action ≡ true = ground (arith, v.base.idle) in
            let loaded : p.loaded ≡ true = ground (arith, v.base.early) in
            run_unlock-Agrees c flips classes s t.task j frees w (up_to_date k t j found v) locked
              loaded (omega (arith, left_over, v.base.single))
        | inr other ↦ run_task-Agrees c flips classes s t.task other (j, w)
      ]

  Step-Agrees : {p q : Page} → Agrees p → Step c p q → Agrees q
  Step-Agrees v (event e) = handle-Agrees e v
  Step-Agrees v (timer s k t found) = fire-Agrees s k t found v

  Reach-Agrees : {p q : Page} → Agrees p → Reach c p q → Agrees q
  Reach-Agrees v here = v
  Reach-Agrees v (next r s) = Step-Agrees (Reach-Agrees v r) s

  update_hash-IsIdle :
      {p : Page}
      → IsIdle p
      → AreReady p
      → IsIdle (update_hash c p)
        × AreReady (update_hash c p)
        × ((update_hash c p).loaded ≡ p.loaded)
  update_hash-IsIdle {p} v ready = elim (update_hash_cases c flips classes v ready) [
    | inl e ↦ rw e (v, ready, refl)
    | inr (w, same) ↦ (w.1.base, Agrees-AreReady c flips classes w, same)
  ]

  open_page-Agrees :
      (no_images : Bool) {p : Page}
      → IsIdle p
      → AreReady p
      → p.loaded ≡ false
      → Agrees (open_page c no_images p)
  unfolding open_page
  open_page-Agrees no_images {p} v ready new =
      let (idle, started, same) = update_hash-IsIdle v ready in
      let shown = update_hash c p in
      let q = show_slide-Agrees c flips classes idle started in
      let kept = show_slide-Keeps c shown.stage shown in
      if-Agrees _ (run_the_code-Agrees (kept.loaded ∙ same ∙ new) q) q

initial_page-IsIdle :
    (m : Markup) (doc : Document) → 0 < length doc.slides → IsIdle (initial_page m doc)
unfolding initial_page unlock_count
initial_page-IsIdle m doc some_slide = ground arith

initial_page-AreReady :
    (m : Markup) (doc : Document)
    → (current_number doc.slides ≡ 0) ⊎ ((k : ℕ) × (k < length doc.slides) × InOrder k doc.slides)
    → AreReady (initial_page m doc)
unfolding initial_page
initial_page-AreReady m doc (inl e) = inl (e, omega arith)
initial_page-AreReady m doc (inr o) = inr o

-- What the agreement says.
agreed :
    {p : Page}
    → Agrees p
    → (k : ℕ) × (k < stages p)
      × (p.stage ≤ stages p)
      × InOrder k p.slides
      × ((p.in_action ≡ true) ⊎ (eq_slide p.stage p.slides ≡ some k))
agreed {p} (k, v) = (k, v.inside, v.base.on_stage, v.order, up v.shown)
  where
    up : IsUpToDate k p → (p.in_action ≡ true) ⊎ (eq_slide p.stage p.slides ≡ some k)
    up (inl e) = inr e
    up (inr (locked, _, _)) = inl locked

-- In slide mode with the classes of the stage, from a document with slides of which none is selected or
-- one is and the others are placed around it, and whatever the user and the browser do: on every page
-- that a session reaches one slide and no other is selected, those in front of it and no others carry
-- `before`, those behind it and no others carry `after`, the stage is at most the number of slides, and
-- while the lock is free the selected slide is the one that `eq(stage - 1)` finds.
pub session-Agrees :
    (d : Device) (m : Markup) (a : Author) (doc : Document) (no_images : Bool) {p : Page}
    → let c = configure d m a in
      scrolls c ≡ false
      → c.set_stage_classes ≡ true
      → 0 < length doc.slides
      → (current_number doc.slides ≡ 0) ⊎ ((k : ℕ) × (k < length doc.slides) × InOrder k doc.slides)
      → Reach c (open_page c no_images (initial_page m doc)) p
      → (k : ℕ) × (k < stages p)
        × (p.stage ≤ stages p)
        × InOrder k p.slides
        × ((p.in_action ≡ true) ⊎ (eq_slide p.stage p.slides ≡ some k))
unfolding initial_page
session-Agrees d m a doc no_images flips classes some_slide ready r =
    let c = configure d m a in
    agreed (
      Reach-Agrees c flips classes
        (open_page-Agrees c flips classes no_images (initial_page-IsIdle m doc some_slide)
          (initial_page-AreReady m doc ready) refl)
        r)
