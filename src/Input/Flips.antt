-- ===== src/Input/Flips.antt =====
-- How far the wheel and the keys flip (resource/js/slides.js, "Scrolling" and "Listen the Keys").
use net_frame.Common.{
  suc, ◌≡◌, refl, ◌∙◌, ◌⊎◌, inl, inr, true, false, none, ◌==◌, ltb, if◌then◌else◌, arith,
  Bool-cases, length-update_where,
}
use net_frame.Common.Int.{ℤ}
use net_frame.Page.{Config, Page, stages}
use net_frame.Slides.Show.{scrolls}
use net_frame.Slides.Stage.{IsOnStage}
use net_frame.Input.Wheel.{
  Wheel, wheel, wheel_scroll_mode, wheel_slide_mode, scroll_oversized, scroll_current, collect,
  flip_on_scroll,
}

-- The parts of a page that the wheel reads before it flips.
record SameGuards (p q : Page) : Type 0 where
  stage : q.stage ≡ p.stage
  in_action : q.in_action ≡ p.in_action
  sidebar : q.sidebars.shown ≡ p.sidebars.shown
  popup : q.popups.shown ≡ p.popups.shown
  count : stages q ≡ stages p

SameGuards-trans : {p q r : Page} → SameGuards p q → SameGuards q r → SameGuards p r
SameGuards-trans a b = record {
  stage = b.stage ∙ a.stage;
  in_action = b.in_action ∙ a.in_action;
  sidebar = b.sidebar ∙ a.sidebar;
  popup = b.popup ∙ a.popup;
  count = b.count ∙ a.count;
}

scroll_current-SameGuards : (w : Wheel) (y : ℤ) (p : Page) → SameGuards p (scroll_current w y p)
unfolding scroll_current
scroll_current-SameGuards w y p = record {
  stage = refl;
  in_action = refl;
  sidebar = refl;
  popup = refl;
  count = length-update_where _ _ p.slides;
}

scroll_oversized-SameGuards :
    (c : Config) (w : Wheel) (p : Page) → SameGuards p (scroll_oversized c w p)
unfolding scroll_oversized
scroll_oversized-SameGuards c w p = grind (arith, scroll_current-SameGuards)

collect-SameGuards : (w : Wheel) (p : Page) → SameGuards p (collect w p)
unfolding collect
collect-SameGuards w p = ground arith

-- One flip in the direction of the wheel, from a page that nothing covers.
pub record FlipsOne (c : Config) (w : Wheel) (p q : Page) : Type 0 where
  pub by_one : (if w.up then suc q.stage else q.stage) ≡ (if w.up then p.stage else suc p.stage)
  pub lands : IsOnStage q
  pub was_free : p.in_action ≡ false
  pub locked : q.in_action ≡ true
  pub no_sidebar : p.sidebars.shown ≡ false
  pub no_popup : p.popups.shown ≡ none
  pub enabled : c.disable_on_scroll ≡ false

abbrev pub StaysOrFlips : Config → Wheel → Page → Page → Type 0
StaysOrFlips c w p q = ((q.stage ≡ p.stage) × (q.in_action ≡ p.in_action)) ⊎ FlipsOne c w p q

flip_on_scroll_cases :
    (c : Config) (w : Wheel) (p : Page)
    → scrolls c ≡ false
    → IsOnStage p
    → StaysOrFlips c w p (flip_on_scroll c w p)
unfolding flip_on_scroll
flip_on_scroll_cases c w p flips on = ground arith

StaysOrFlips-SameGuards :
    (c : Config) (w : Wheel) {p q r : Page}
    → SameGuards p q
    → StaysOrFlips c w q r
    → StaysOrFlips c w p r
StaysOrFlips-SameGuards c w g h = ground arith

IsOnStage-SameGuards : {p q : Page} → SameGuards p q → IsOnStage p → IsOnStage q
IsOnStage-SameGuards g h = omega arith

SameGuards-refl : (p : Page) → SameGuards p p
SameGuards-refl p = record {
  stage = refl;
  in_action = refl;
  sidebar = refl;
  popup = refl;
  count = refl;
}

wheel_scroll_mode-SameGuards :
    (c : Config) (w : Wheel) (p : Page) → scrolls c ≡ false → wheel_scroll_mode c w p ≡ p
unfolding wheel_scroll_mode
wheel_scroll_mode-SameGuards c w p flips = ground arith

before_flip-SameGuards :
    (c : Config) (w : Wheel) (p : Page)
    → SameGuards p (collect w (if ltb w.window_height w.height then scroll_oversized c w p else p))
before_flip-SameGuards c w p = elim (Bool-cases (ltb w.window_height w.height)) [
  | inl e ↦ rw e (SameGuards-trans (scroll_oversized-SameGuards c w p) (collect-SameGuards w _))
  | inr e ↦ rw e (collect-SameGuards w p)
]

wheel_slide_mode_cases :
    (c : Config) (w : Wheel) (p : Page)
    → scrolls c ≡ false
    → IsOnStage p
    → StaysOrFlips c w p (wheel_slide_mode c w p)
unfolding wheel_slide_mode
wheel_slide_mode_cases c w p flips on =
    let g = before_flip-SameGuards c w p in
    rw flips
      (StaysOrFlips-SameGuards c w g (flip_on_scroll_cases c w _ flips (IsOnStage-SameGuards g on)))

-- In slide mode one turn of the wheel leaves the stage and the lock as they are, or flips by exactly
-- one slide in its direction to a slide that exists and takes the lock. It flips only if no slide is
-- on its way, no sidebar and no popup is open, and the author allows it.
pub wheel_cases :
    (c : Config) (w : Wheel) (p : Page)
    → scrolls c ≡ false
    → IsOnStage p
    → StaysOrFlips c w p (wheel c w p)
unfolding wheel
wheel_cases c w p flips on = elim (Bool-cases (w.size == 0)) [
  | inl e ↦ rw e (inl (refl, refl))
  | inr e ↦ rw (e, wheel_scroll_mode-SameGuards c w p flips) (wheel_slide_mode_cases c w p flips on)
]
