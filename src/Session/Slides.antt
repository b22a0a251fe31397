-- ===== src/Session/Slides.antt =====
-- The invariant of a session (resource/js/slides.js), for the handlers that concern the slides.
use Prim.Native.String.{String}
use net_frame.Common.{
  refl, ltb, ◌-◌, ℕ, ◌+◌, inl, inr, if◌then◌else◌, Option-cases, not, ◌||◌, find_index, Bool, true,
  Option, none, some, List, arith, Bool-cases,
}
use net_frame.Page.{
  Config, Page, refresh_navigation, animate_slide, settle, mark_done, show_stage, Trigger, Address,
  scroll_window, scroll_when_loaded, Slide,
}
use net_frame.Page.Timers.{trigger}
use net_frame.Common.Text.{truthy}
use net_frame.Slides.Show.{
  scrolls, show_slide, present, turn_to, name_and_scroll, flip, decorate, clean_up, animate_loaded,
}
use net_frame.Slides.Change.{
  Request, change_slide, left, jump, click_to_slide, number, done, scroll_to, type_error, Outcome,
  and_then,
}
use net_frame.Navigation.{click_dot, click_link, update_hash, show_at, link_target, has_attribute}
use net_frame.Session.Lock.{is_unlock}
use net_frame.Session.Lock.Kept.{
  set_timeout-IsTimed, without-IsTimed, store_animation-IsTimed, unlock-IsTimed,
}
use net_frame.Session.Overlays.{
  IsSteady, if-IsSteady, hide_sidebar-IsSteady, hide_dropdown-IsSteady, unzoom_image-IsSteady,
  set_timeout-IsSteady,
}

module _ (waived : Bool) (c : Config) where
  clean_up-IsSteady : {p : Page} → IsSteady waived c p → IsSteady waived c (clean_up p)
  unfolding clean_up
  clean_up-IsSteady v =
      let q = hide_sidebar-IsSteady waived c (
        unzoom_image-IsSteady waived c (
          hide_dropdown-IsSteady waived c
            (set_timeout-IsSteady waived c 100 refresh_navigation v))) in
      ground arith

  turn_to-IsSteady :
      (r : ℕ) (changed : Bool) (new : Option ℕ) {p : Page}
      → IsSteady waived c p
      → IsSteady waived c (turn_to c r changed new p)
  unfolding turn_to name_and_scroll flip decorate
  turn_to-IsSteady r changed new v = let cleaned = clean_up-IsSteady v in ground arith

  animate_loaded-IsSteady :
      (changed : Bool) (old : List ℕ) (new : Option ℕ) {p : Page}
      → IsSteady waived c p
      → IsSteady waived c (animate_loaded c changed old new p)
  unfolding animate_loaded is_unlock
  animate_loaded-IsSteady changed old new {p} v =
      let offset = if ltb c.slide_speed p.effect_offset then c.slide_speed else p.effect_offset in
      let both =
        set_timeout-IsTimed (c.slide_speed - offset) (animate_slide new)
          (set_timeout-IsTimed c.effect_speed (settle changed old) v.timed) in
      let dropped = without-IsTimed p.element_animation both.ordered.safe_animation both in
      ground (
        arith,
        store_animation-IsTimed (c.slide_speed + c.effect_speed + c.cleanup_delay) mark_done refl
            dropped,
      )

  pub show_slide-IsSteady :
      (r : ℕ) {p : Page} → IsSteady waived c p → IsSteady waived c (show_slide c r p)
  unfolding show_slide present
  show_slide-IsSteady r {p} v = elim (Bool-cases (scrolls c)) [
    | inl e ↦ rw e v
    | inr e ↦ rw e (animate_loaded-IsSteady _ _ _ (turn_to-IsSteady r _ _ v))
  ]

  pub change_slide-IsSteady :
      (r : Request) {p : Page} → IsSteady waived c p → IsSteady waived c (left (change_slide c r p))
  unfolding change_slide is_unlock
  change_slide-IsSteady r {p} v = ground (
    arith,
    unlock-IsTimed waived true p.loaded (if p.zoomed then 550 else 0) show_stage refl
        v.timed.ordered,
  )

  and_then_cases :
      (f : Page → Page) (o : Outcome)
      → ((q : Page) → IsSteady waived c q → IsSteady waived c (f q))
      → IsSteady waived c (left o)
      → IsSteady waived c (left (and_then f o))
  and_then_cases f (done q) keeps v = keeps q v
  and_then_cases f (scroll_to n q) keeps v = keeps q v
  and_then_cases f (type_error q) keeps v = v

  address-IsSteady :
      (a : Address) {p : Page} → IsSteady waived c p → IsSteady waived c (record p { address = a })
  address-IsSteady a v = ground arith

  pub jump-IsSteady :
      (n : ℕ) {p : Page} → IsSteady waived c p → IsSteady waived c (left (jump c n p))
  unfolding jump
  jump-IsSteady n {p} v =
      and_then_cases _ (change_slide c (number n) p)
        (λ q w. hide_sidebar-IsSteady waived c (address-IsSteady _ w))
        (change_slide-IsSteady (number n) v)

  pub click_to_slide-IsSteady :
      (n : ℕ) {p : Page} → IsSteady waived c p → IsSteady waived c (left (click_to_slide c n p))
  unfolding click_to_slide
  click_to_slide-IsSteady n {p} v =
      and_then_cases _ (change_slide c (number n) p) (λ q w. hide_sidebar-IsSteady waived c w)
        (change_slide-IsSteady (number n) v)

  pub click_dot-IsSteady :
      (k : ℕ) {p : Page} → IsSteady waived c p → IsSteady waived c (left (click_dot c k p))
  unfolding click_dot
  click_dot-IsSteady k v = change_slide-IsSteady _ v

  show_at-IsSteady : (k : ℕ) {p : Page} → IsSteady waived c p → IsSteady waived c (show_at c k p)
  unfolding show_at
  show_at-IsSteady k v = show_slide-IsSteady (k + 1) (ground arith)

  pub trigger-IsSteady :
      (e : Trigger) {p : Page} → IsSteady waived c p → IsSteady waived c (trigger e p)
  unfolding trigger
  trigger-IsSteady e v = ground arith

  pub click_link-IsSteady :
      (name : String) {p : Page} → IsSteady waived c p → IsSteady waived c (click_link c name p)
  unfolding click_link
  click_link-IsSteady name {p} v = elim (Option-cases (link_target name p.slides)) [
    | inl e ↦ rw (e, click_link) v
    | inr (k, e) ↦
        let asked = trigger-IsSteady (scroll_window k) v in
        rw (e, click_link)
          (hide_sidebar-IsSteady waived c (
            if-IsSteady waived c (scrolls c)
              (if-IsSteady waived c c.set_hash_link (address-IsSteady _ asked) asked)
              (show_at-IsSteady k v)))
  ]

  pub update_hash-IsSteady : {p : Page} → IsSteady waived c p → IsSteady waived c (update_hash c p)
  unfolding update_hash
  update_hash-IsSteady {p} v = elim (Option-cases (truthy p.address.hash)) [
    | inl e ↦ rw (e, update_hash) v
    | inr (name, e) ↦
        rw (e, update_hash)
          (named (find_index (λ (s : Slide). has_attribute s.data_name name) p.slides))
  ]
    where
      named :
          (o : Option ℕ)
          → IsSteady waived c (elim o [
            | none ↦ p
            | some k ↦
                if scrolls c
                then trigger
                    (if not c.preload || p.loaded then scroll_window k else scroll_when_loaded k)
                    p
                else show_at c k p
          ])
      named none = v
      named (some k) =
          if-IsSteady waived c (scrolls c) (trigger-IsSteady _ v) (show_at-IsSteady k v)
