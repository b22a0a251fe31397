-- ===== src/Slides/Frame.antt =====
-- What `showSlide` (resource/js/slides.js) leaves alone or sets on every path: the stage, the lock,
-- the number of slides, the stack of popups, and what it puts over the slides away.
use net_frame.Common.{
  ℕ, ◌≡◌, refl, ◌∙◌, inl, inr, Bool, false, Option, none, some, List, arith, length,
  length-update_where, Bool-cases,
}
use net_frame.Page.{Config, Page, Slide, stages}
use net_frame.Slides.Show.{
  scrolls, transport, scroll_to_top, clean_up, flip, present, turn_to, decorate, name_and_scroll,
  animate_loaded, show_slide,
}

-- The parts that `showSlide` has no business with.
pub record Keeps (p q : Page) : Type 0 where
  pub stage : q.stage ≡ p.stage
  pub in_action : q.in_action ≡ p.in_action
  pub loaded : q.loaded ≡ p.loaded
  pub collect_scrolls : q.collect_scrolls ≡ p.collect_scrolls
  pub popup_stack : q.popups.shown ≡ p.popups.shown
  pub stages_kept : stages q ≡ stages p

clean_up-Keeps : (p : Page) → Keeps p (clean_up p)
unfolding clean_up
clean_up-Keeps p = ground arith

length-transport : (new : Option ℕ) (ss : List Slide) → length (transport new ss) ≡ length ss
unfolding transport
length-transport none ss = simp length-update_where
length-transport (some k) ss = simp length-update_where

length-scroll_to_top :
    (new : Option ℕ) (ss : List Slide) → length (scroll_to_top new ss) ≡ length ss
unfolding scroll_to_top
length-scroll_to_top new ss = simp length-update_where

flip-Keeps : (r : ℕ) (moves : Bool) (new : Option ℕ) (p : Page) → Keeps p (flip r moves new p)
unfolding flip
flip-Keeps r moves new p = ground (arith, length-transport new p.slides)

start_animation-Keeps :
    (c : Config) (changed : Bool) (old : List ℕ) (new : Option ℕ) (p : Page)
    → Keeps p (animate_loaded c changed old new p)
unfolding animate_loaded
start_animation-Keeps c changed old new p =
    ground (
      arith,
      length-update_where (λ _ (s : Slide). s.done) (λ s. record s { done = false }) p.slides,
    )

pub decorate-Keeps : (c : Config) (new : Option ℕ) (p : Page) → Keeps p (decorate c new p)
unfolding decorate
decorate-Keeps c new p = ground arith

name_and_scroll-Keeps : (c : Config) (new : Option ℕ) (p : Page) → Keeps p (name_and_scroll c new p)
unfolding name_and_scroll
name_and_scroll-Keeps c new p = ground (arith, length-scroll_to_top new p.slides)

pub Keeps-trans : {p q r : Page} → Keeps p q → Keeps q r → Keeps p r
Keeps-trans a b = record {
  stage = b.stage ∙ a.stage;
  in_action = b.in_action ∙ a.in_action;
  loaded = b.loaded ∙ a.loaded;
  collect_scrolls = b.collect_scrolls ∙ a.collect_scrolls;
  popup_stack = b.popup_stack ∙ a.popup_stack;
  stages_kept = b.stages_kept ∙ a.stages_kept;
}

pub turn_to-Keeps :
    (c : Config) (r : ℕ) (changed : Bool) (new : Option ℕ) (p : Page)
    → Keeps p (turn_to c r changed new p)
unfolding turn_to
turn_to-Keeps c r changed new p = Keeps-trans (clean_up-Keeps p) (
    Keeps-trans (decorate-Keeps c new _)
      (Keeps-trans (flip-Keeps r _ new _) (name_and_scroll-Keeps c new _)))

-- On every path `showSlide` leaves the stage, the lock, the collected scrolls, the stack of popups
-- and the number of slides as they were.
pub show_slide-Keeps : (c : Config) (r : ℕ) (p : Page) → Keeps p (show_slide c r p)
unfolding show_slide present
show_slide-Keeps c r p = elim (Bool-cases (scrolls c)) [
  | inl e ↦ rw e (record {
    stage = refl;
    in_action = refl;
    loaded = refl;
    collect_scrolls = refl;
    popup_stack = refl;
    stages_kept = refl;
  })
  | inr e ↦ rw e (Keeps-trans (turn_to-Keeps c r _ _ p) (start_animation-Keeps c _ _ _ _))
]
