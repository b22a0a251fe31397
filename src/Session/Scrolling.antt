-- ===== src/Session/Scrolling.antt =====
-- The invariant of a session (resource/js/slides.js), for `updateScroll`.
use net_frame.Common.{refl, ℕ, ◌+◌, suc, Bool, List, [], ◌∷◌, arith}
use net_frame.Page.{Config, Page, refresh_navigation, mark_slide_done, Slide, stages}
use net_frame.Scroll.{
  Screen, Box, update_scroll, visit, visit_from, count_scroll, select_on_scroll, enter_stage,
  first_trigger, chosen, unselect,
}
use net_frame.Session.Lock.{is_unlock}
use net_frame.Session.Lock.Kept.{set_timeout-IsTimed, store_animation-IsTimed}
use net_frame.Session.Overlays.{IsSteady, if-IsSteady}

module _ (waived : Bool) (c : Config) where
  count_scroll-IsSteady : {p : Page} → IsSteady waived c p → IsSteady waived c (count_scroll p)
  unfolding count_scroll
  count_scroll-IsSteady v = ground arith

  select_on_scroll-IsSteady :
      (i : ℕ) {p : Page} → IsSteady waived c p → IsSteady waived c (select_on_scroll c i p)
  unfolding select_on_scroll enter_stage first_trigger is_unlock
  select_on_scroll-IsSteady i {p} v =
      let marked =
        store_animation-IsTimed (c.effect_speed + c.cleanup_delay) (mark_slide_done i) refl
          v.timed in
      ground (
        arith,
        set_timeout-IsTimed 100 refresh_navigation marked,
        set_timeout-IsTimed 100 refresh_navigation v.timed,
      )

  pub slides-IsSteady :
      (ss : List Slide) {p : Page}
      → IsSteady waived c p
      → IsSteady waived c (record p { slides = ss })
  slides-IsSteady ss v = ground arith

  visit-IsSteady :
      (s : Screen) (i : ℕ) (b : Box) {p : Page}
      → IsSteady waived c p
      → IsSteady waived c (visit c s i b p)
  unfolding visit
  visit-IsSteady s i b {p} v =
      if-IsSteady waived c c.set_stage_classes
        (if-IsSteady waived c (chosen s (stages p) i b) (select_on_scroll-IsSteady i v)
          (slides-IsSteady (unselect i p.slides) v))
        v

  visit_from-IsSteady :
      (s : Screen) (i : ℕ) (bs : List Box) {p : Page}
      → IsSteady waived c p
      → IsSteady waived c (visit_from c s i bs p)
  unfolding visit_from
  visit_from-IsSteady s i [] v = v
  visit_from-IsSteady s i (b ∷ bs) v = visit_from-IsSteady s (suc i) bs (visit-IsSteady s i b v)

  pub update_scroll-IsSteady :
      (s : Screen) {p : Page} → IsSteady waived c p → IsSteady waived c (update_scroll c s p)
  unfolding update_scroll
  update_scroll-IsSteady s v = visit_from-IsSteady s 0 s.boxes (count_scroll-IsSteady v)
