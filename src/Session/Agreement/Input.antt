-- ===== src/Session/Agreement/Input.antt =====
-- The slide on stage and the slide that is selected (resource/js/slides.js): the wheel, the keys, swipes.
use net_frame.Common.{
  ℕ, ◌≡◌, refl, Bool, true, false, ◌||◌, if◌then◌else◌, ltb, ◌==◌, none, arith, update_where,
  length-update_where,
}
use net_frame.Common.Int.{ℤ, pos}
use net_frame.Page.{Config, Page, Body, Slide, reset_scrolls}
use net_frame.Slides.Show.{scrolls}
use net_frame.Slides.Order.{KeepsPlace, update_where-InOrder}
use net_frame.Slides.Change.{increase, decrease}
use net_frame.Input.Wheel.{
  Wheel, wheel, wheel_scroll_mode, wheel_slide_mode, scroll_oversized, scroll_current, collect,
  flip_on_scroll, run_reset_scrolls,
}
use net_frame.Input.Keys.{Key, key_down, escape, scroll_by_key, flip_by_key}
use net_frame.Input.Swipe.{Swipe, swipe}
use net_frame.Session.Lock.{is_unlock}
use net_frame.Session.Agreement.{Agrees, IsApart-Agrees, if-Agrees}
use net_frame.Session.Agreement.Overlays.{
  set_timeout-Agrees, hide_dropdown-Agrees, unzoom_image-Agrees, hide_sidebar-Agrees,
  hide_popup-Agrees,
}
use net_frame.Session.Agreement.Show.{eq_slide-length}
use net_frame.Session.Agreement.Slides.{change_slide-Agrees}

-- Slides may change in what is not their place.
pub update_slides-Agrees :
    (test : ℕ → Slide → Bool) (f : Slide → Slide) {p : Page}
    → KeepsPlace f
    → Agrees p
    → Agrees (record p { slides = update_where test f p.slides })
update_slides-Agrees test f {p} keeps (k, v) =
    let same = length-update_where test f p.slides in
    (
      k,
      record {
        inside = rw same v.inside;
        order = update_where-InOrder test f k p.slides keeps v.order;
        shown = rw (eq_slide-length p.stage p.slides (update_where test f p.slides) same) v.shown;
        base = record {
          some_slide = rw same v.base.some_slide;
          on_stage = rw same v.base.on_stage;
          single = v.base.single;
          idle = v.base.idle;
          early = v.base.early;
        };
      },
    )

scroll_current-Agrees : (w : Wheel) (y : ℤ) {p : Page} → Agrees p → Agrees (scroll_current w y p)
unfolding scroll_current
scroll_current-Agrees w y v = update_slides-Agrees _ _ (λ s. (refl, refl, refl)) v

at_edge-Agrees :
    (allowed : Bool) (b : Body) {p : Page}
    → Agrees p
    → Agrees (record p { allow_slide = allowed; body = b })
at_edge-Agrees allowed b {p} = IsApart-Agrees (ground arith)

collected-Agrees : (z : ℤ) {p : Page} → Agrees p → Agrees (record p { collect_scrolls = z })
collected-Agrees z {p} = IsApart-Agrees (ground arith)

scroll_oversized-Agrees :
    (c : Config) (w : Wheel) {p : Page} → Agrees p → Agrees (scroll_oversized c w p)
unfolding scroll_oversized
scroll_oversized-Agrees c w {p} v =
    let q = at_edge-Agrees _ _ v in
    if-Agrees _ (if-Agrees _ (triggered-Agrees _ q) (scroll_current-Agrees w _ q)) q
  where
    triggered-Agrees : (es : _) {p : Page} → Agrees p → Agrees (record p { triggered = es })
    triggered-Agrees es {p} = IsApart-Agrees (ground arith)

collect-Agrees : (w : Wheel) {p : Page} → Agrees p → Agrees (collect w p)
unfolding collect is_unlock
collect-Agrees w v =
    if-Agrees _ (set_timeout-Agrees 200 reset_scrolls refl (collected-Agrees _ v)) v

escape-Agrees : {p : Page} → Agrees p → Agrees (escape p)
unfolding escape
escape-Agrees v =
    unzoom_image-Agrees (hide_popup-Agrees none (hide_dropdown-Agrees (hide_sidebar-Agrees v)))

scroll_by_key-Agrees : {p : Page} → Agrees p → Agrees (scroll_by_key p)
unfolding scroll_by_key
scroll_by_key-Agrees {p} = IsApart-Agrees (ground arith)

pub run_reset_scrolls-Agrees : {p : Page} → Agrees p → Agrees (run_reset_scrolls p)
unfolding run_reset_scrolls
run_reset_scrolls-Agrees {p} = IsApart-Agrees (ground arith)

module _ (c : Config) (flips : scrolls c ≡ false) (classes : c.set_stage_classes ≡ true) where
  flip_on_scroll-Agrees : (w : Wheel) {p : Page} → Agrees p → Agrees (flip_on_scroll c w p)
  unfolding flip_on_scroll
  flip_on_scroll-Agrees w v =
      let q = collected-Agrees (pos 0) v in
      let r = change_slide-Agrees c flips classes (if w.up then decrease else increase) q in
      if-Agrees _ (if-Agrees _ r q) v

  stays : (w : Wheel) (p : Page) → wheel_scroll_mode c w p ≡ p
  unfolding wheel_scroll_mode
  stays w p = ground arith

  pub wheel-Agrees : (w : Wheel) {p : Page} → Agrees p → Agrees (wheel c w p)
  unfolding wheel wheel_slide_mode
  wheel-Agrees w {p} v =
      rw (stays w p, flips)
        (if-Agrees (w.size == 0) v (
          flip_on_scroll-Agrees w (
            collect-Agrees w
              (if-Agrees (ltb w.window_height w.height) (scroll_oversized-Agrees c w v) v))))

  pub key_down-Agrees : (k : Key) {p : Page} → Agrees p → Agrees (key_down c k p)
  unfolding key_down flip_by_key
  key_down-Agrees k {p} v =
      let back = change_slide-Agrees c flips classes decrease v in
      let forth = change_slide-Agrees c flips classes increase v in
      let scrolled = scroll_by_key-Agrees v in
      let h = c.horizontal_mode in
      if-Agrees (c.disable_key_navigation || k.in_field) v (
        if-Agrees (k.code == 37) (if-Agrees h back v) (
          if-Agrees (k.code == 38) (if-Agrees h scrolled back) (
            if-Agrees (k.code == 39) (if-Agrees h forth v) (
              if-Agrees (k.code == 40) (if-Agrees h scrolled forth)
                (if-Agrees (k.code == 27) (escape-Agrees v) v)))))

  swiped-Agrees : (top : ℕ) {p : Page} → Agrees p → Agrees (record p { swipe_top = top })
  swiped-Agrees top {p} = IsApart-Agrees (ground arith)

  pub swipe-Agrees : (s : Swipe) {p : Page} → Agrees p → Agrees (swipe c s p)
  unfolding swipe
  swipe-Agrees s {p} v =
      let q = if-Agrees s.starts (swiped-Agrees s.top v) v in
      if-Agrees _
        (if-Agrees _ (change_slide-Agrees c flips classes increase q)
          (if-Agrees _ (change_slide-Agrees c flips classes decrease q) q))
        q
