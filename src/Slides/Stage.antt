-- ===== src/Slides/Stage.antt =====
-- The stage and the lock (`window.changeSlide` and its callbacks, resource/js/slides.js).
use mathlib.Core.Path.{subst}
use net_frame.Common.{
  sym, ℕ, suc, ◌≤◌, ◌<◌, ◌≡◌, refl, ap, ◌∙◌, ◌≢◌, ◌⊎◌, inl, inr, true, false, ◌∷◌, if◌then◌else◌,
  arith, Bool-cases,
}
use net_frame.Page.{Config, Page, stages, show_stage}
use net_frame.Slides.Show.{scrolls, current_number, show_slide}
use net_frame.Slides.Frame.{show_slide-Keeps}
use net_frame.Slides.Order.{InOrder, show_slide-InOrder}
use net_frame.Slides.Change.{
  Request, increase, decrease, number, resolve, request_stage, Outcome, done, scroll_to, type_error,
  left, change_slide, scroll_request, run_show_stage, run_release_action,
}

-- The stage is the number of a slide.
abbrev pub IsOnStage : Page → Type 0
IsOnStage p = (1 ≤ p.stage) × (p.stage ≤ stages p)

-- The words always ask for a slide that exists, a number must.
abbrev pub AsksFor : Request → Page → Type 0
AsksFor increase p = Unit
AsksFor decrease p = Unit
AsksFor (number n) p = (1 ≤ n) × (n ≤ stages p)

-- No exception was thrown, and the page that is left has a slide on stage.
abbrev pub IsFine : Outcome → Type 0
IsFine (done p) = IsOnStage p
IsFine (scroll_to n p) = IsOnStage p × (n ≡ p.stage)
IsFine (type_error p) = ⊥

resolve_bounds :
    (r : Request) (p : Page)
    → IsOnStage p
    → AsksFor r p
    → (1 ≤ resolve r p.stage (stages p)) × (resolve r p.stage (stages p) ≤ stages p)
unfolding resolve
resolve_bounds increase p h a = ground arith
resolve_bounds decrease p h a = ground arith
resolve_bounds (number n) p h a = a

request_stage-IsOnStage : (n : ℕ) (p : Page) → IsOnStage p → 1 ≤ n → IsOnStage (request_stage n p)
unfolding request_stage
request_stage-IsOnStage n p h low = ground arith

scroll_request-IsFine : (n : ℕ) (p : Page) → 1 ≤ n → n ≤ stages p → IsFine (scroll_request n p)
unfolding scroll_request
scroll_request-IsFine n p low high = ground arith

-- `changeSlide`, in both modes, for a word or for the number of a slide: it throws nothing, keeps the
-- stage among the slides, and in scroll mode scrolls to the stage that it set.
pub change_slide-IsFine :
    (c : Config) (r : Request) (p : Page) → IsOnStage p → AsksFor r p → IsFine (change_slide c r p)
unfolding change_slide
change_slide-IsFine c r p h a =
    let (low, high) = resolve_bounds r p h a in
    elim (Bool-cases (scrolls c)) [
      | inl e ↦ rw e (scroll_request-IsFine _ p low high)
      | inr e ↦ rw e (request_stage-IsOnStage _ p h low)
    ]

past_end :
    (n : ℕ) (p : Page)
    → stages p < n
    → (scroll_request n p ≡ type_error (record p { stage = n }))
      × ¬ IsOnStage (left (scroll_request n p))
unfolding scroll_request
past_end n p h = (ground arith, λ on. ground arith)

-- In scroll mode a number past the last slide is stored as the stage, and the handler throws.
pub change_slide_past_end :
    (c : Config) (n : ℕ) (p : Page)
    → scrolls c ≡ true
    → stages p < n
    → (change_slide c (number n) p ≡ type_error (record p { stage = n }))
      × ¬ IsOnStage (left (change_slide c (number n) p))
unfolding change_slide
change_slide_past_end c n p s h = rw s (past_end n p h)

-- In slide mode a request while a slide is on its way, one for the stage itself and one past the end
-- change nothing.
pub change_slide_refused :
    (c : Config) (n : ℕ) (p : Page)
    → scrolls c ≡ false
    → (p.in_action ≡ true) ⊎ ((n ≡ p.stage) ⊎ (stages p < n))
    → change_slide c (number n) p ≡ done p
unfolding change_slide
change_slide_refused c n p flips h = rw flips (ap done (refused n p h))
  where
    refused :
        (n : ℕ) (p : Page)
        → (p.in_action ≡ true) ⊎ ((n ≡ p.stage) ⊎ (stages p < n))
        → request_stage n p ≡ p
    refused n p h = ground arith

-- The state that an accepted request leaves: the stage, the lock, and one callback more.
pub record IsLocked (n : ℕ) (p q : Page) : Type 0 where
  pub stage_set : q.stage ≡ n
  pub lock_taken : q.in_action ≡ true
  pub callback :
      q.pending
      ≡ record { handle = p.next_handle; delay = if p.zoomed then 550 else 0; task = show_stage }
        ∷ p.pending
  pub slides_left : q.slides ≡ p.slides

pub request_stage-IsLocked :
    (n : ℕ) (p : Page)
    → p.in_action ≡ false
    → n ≢ p.stage
    → n ≤ stages p
    → IsLocked n p (request_stage n p)
unfolding request_stage
request_stage-IsLocked n p free other inside = ground arith

-- In slide mode a request for another slide that exists is accepted while no slide is on its way: it
-- sets the stage, takes the lock, leaves the slides alone and sets one timer, later if an image has to
-- close first.
pub change_slide_accepted :
    (c : Config) (n : ℕ) (p : Page)
    → scrolls c ≡ false
    → p.in_action ≡ false
    → n ≢ p.stage
    → n ≤ stages p
    → IsLocked n p (left (change_slide c (number n) p))
unfolding change_slide
change_slide_accepted c n p flips free other inside =
    rw flips (request_stage-IsLocked n p free other inside)

-- The callback and the one that it sets.
abbrev pub finish_flip : Config → Page → Page
finish_flip c p = run_release_action (run_show_stage c p)

run_show_stage-InOrder :
    (c : Config) (k : ℕ) (p : Page)
    → p.stage ≡ suc k
    → InOrder k (show_slide c (suc k) p).slides
    → InOrder k (finish_flip c p).slides
unfolding run_show_stage run_release_action
run_show_stage-InOrder c k p e o = subst (λ n. InOrder k (show_slide c n p).slides) (sym e) o

run_show_stage-stage :
    (c : Config) (p : Page)
    → ((finish_flip c p).stage ≡ p.stage) × ((finish_flip c p).in_action ≡ false)
unfolding run_show_stage run_release_action
run_show_stage-stage c p = ((show_slide-Keeps c p.stage p).stage, refl)

-- A whole flip in slide mode: after an accepted request for slide k + 1, its callback and the release,
-- the stage is k + 1, the lock is free, the slide at k is the one that is selected, and the slides
-- before and after it carry these classes.
pub whole_flip :
    (c : Config) (k : ℕ) (p : Page)
    → scrolls c ≡ false
    → c.set_stage_classes ≡ true
    → p.in_action ≡ false
    → suc k ≢ p.stage
    → k < stages p
    → current_number p.slides ≢ suc k
    → let q = finish_flip c (left (change_slide c (number (suc k)) p)) in
      (q.stage ≡ suc k) × (q.in_action ≡ false) × InOrder k q.slides
whole_flip c k p flips classes free other inside away =
    let a = change_slide_accepted c (suc k) p flips free other (omega arith) in
    let q = left (change_slide c (number (suc k)) p) in
    let (same, released) = run_show_stage-stage c q in
    (
      same ∙ a.stage_set,
      released,
      run_show_stage-InOrder c k q a.stage_set (
          show_slide-InOrder c k q flips classes (rw a.slides_left inside)
            (inl (rw a.slides_left away))),
    )
