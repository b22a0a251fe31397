-- ===== src/Session/Input.antt =====
-- The invariant of a session (resource/js/slides.js), for the handlers of the wheel, the keys and swipes.
use net_frame.Common.{Bool, if◌then◌else◌, ltb, ◌==◌, none, arith}
use net_frame.Common.Int.{ℤ, pos}
use net_frame.Page.{Config, Page, Body, reset_scrolls}
use net_frame.Slides.Show.{scrolls}
use net_frame.Slides.Change.{increase, decrease}
use net_frame.Input.Wheel.{
  Wheel, wheel, wheel_scroll_mode, wheel_slide_mode, scroll_oversized, scroll_current, collect,
  flip_on_scroll,
}
use net_frame.Input.Keys.{Key, key_down, escape, scroll_by_key, flip_by_key}
use net_frame.Input.Swipe.{Swipe, swipe}
use net_frame.Session.Overlays.{
  IsSteady, if-IsSteady, hide_dropdown-IsSteady, set_timeout-IsSteady, unzoom_image-IsSteady,
  hide_sidebar-IsSteady, hide_popup-IsSteady,
}
use net_frame.Session.Slides.{trigger-IsSteady, change_slide-IsSteady}

module _ (waived : Bool) (c : Config) where
  -- A flip is left to the lemma on `changeSlide`; the rest does not concern the invariant.
  scroll_current-IsSteady :
      (w : Wheel) (y : ℤ) {p : Page}
      → IsSteady waived c p
      → IsSteady waived c (scroll_current w y p)
  unfolding scroll_current
  scroll_current-IsSteady w y v = ground arith

  collected-IsSteady :
      (z : ℤ) {p : Page}
      → IsSteady waived c p
      → IsSteady waived c (record p { collect_scrolls = z })
  collected-IsSteady z v = ground arith

  at_edge-IsSteady :
      (allowed : Bool) (b : Body) {p : Page}
      → IsSteady waived c p
      → IsSteady waived c (record p { allow_slide = allowed; body = b })
  at_edge-IsSteady allowed b v = ground arith

  wheel_scroll_mode-IsSteady :
      (w : Wheel) {p : Page} → IsSteady waived c p → IsSteady waived c (wheel_scroll_mode c w p)
  unfolding wheel_scroll_mode
  wheel_scroll_mode-IsSteady w v =
      if-IsSteady waived c _
        (if-IsSteady waived c _ (trigger-IsSteady waived c _ v)
          (if-IsSteady waived c _ (scroll_current-IsSteady w _ v) v))
        v

  scroll_oversized-IsSteady :
      (w : Wheel) {p : Page} → IsSteady waived c p → IsSteady waived c (scroll_oversized c w p)
  unfolding scroll_oversized
  scroll_oversized-IsSteady w v =
      let q = at_edge-IsSteady _ _ v in
      if-IsSteady waived c _
        (if-IsSteady waived c _ (trigger-IsSteady waived c _ q) (scroll_current-IsSteady w _ q)) q

  collect-IsSteady : (w : Wheel) {p : Page} → IsSteady waived c p → IsSteady waived c (collect w p)
  unfolding collect
  collect-IsSteady w v =
      if-IsSteady waived c _
        (set_timeout-IsSteady waived c 200 reset_scrolls (collected-IsSteady _ v)) v

  flip_on_scroll-IsSteady :
      (w : Wheel) {p : Page} → IsSteady waived c p → IsSteady waived c (flip_on_scroll c w p)
  unfolding flip_on_scroll
  flip_on_scroll-IsSteady w v =
      let q = collected-IsSteady (pos 0) v in
      let r = change_slide-IsSteady waived c (if w.up then decrease else increase) q in
      if-IsSteady waived c _ (if-IsSteady waived c _ r q) v

  pub wheel-IsSteady :
      (w : Wheel) {p : Page} → IsSteady waived c p → IsSteady waived c (wheel c w p)
  unfolding wheel wheel_slide_mode
  wheel-IsSteady w {p} v =
      let scrolled = wheel_scroll_mode-IsSteady w v in
      if-IsSteady waived c (w.size == 0) v (
        if-IsSteady waived c (scrolls c) scrolled (
          flip_on_scroll-IsSteady w (
            collect-IsSteady w (
              if-IsSteady waived c (ltb w.window_height w.height)
                (scroll_oversized-IsSteady w scrolled) scrolled))))

  escape-IsSteady : {p : Page} → IsSteady waived c p → IsSteady waived c (escape p)
  unfolding escape
  escape-IsSteady v = unzoom_image-IsSteady waived c (
      hide_popup-IsSteady waived c
        (hide_dropdown-IsSteady waived c (hide_sidebar-IsSteady waived c v)) none)

  scroll_by_key-IsSteady : {p : Page} → IsSteady waived c p → IsSteady waived c (scroll_by_key p)
  unfolding scroll_by_key
  scroll_by_key-IsSteady v = ground arith

  pub key_down-IsSteady :
      (k : Key) {p : Page} → IsSteady waived c p → IsSteady waived c (key_down c k p)
  unfolding key_down flip_by_key
  key_down-IsSteady k {p} v = ground (
    arith,
    change_slide-IsSteady waived c decrease v,
    change_slide-IsSteady waived c increase v,
    scroll_by_key-IsSteady v,
    escape-IsSteady v,
  )

  pub swipe-IsSteady :
      (s : Swipe) {p : Page} → IsSteady waived c p → IsSteady waived c (swipe c s p)
  unfolding swipe
  swipe-IsSteady s {p} v =
      let q = if-IsSteady waived c s.starts {p = record p { swipe_top = s.top }} (ground arith) v in
      if-IsSteady waived c _
        (if-IsSteady waived c _ (change_slide-IsSteady waived c increase q)
          (if-IsSteady waived c _ (change_slide-IsSteady waived c decrease q) q))
        q
