-- ===== src/Scroll/Selection.antt =====
-- Which slides `updateScroll` of resource/js/slides.js selects.
use mathlib.Core.Option
use native.Mathlib.Nat.{add-zero, zero-add, add-suc, suc-add}
use net_frame.Common.{
  ℕ, zero, suc, ◌+◌, ◌≤◌, ◌<◌, ◌≡◌, refl, ◌∙◌, ap, ◌⊎◌, ◌↔◌, ◌≢◌, ◌*◌, inl, inr, Bool, true, false,
  ◌&&◌, Option, some, List, [], ◌∷◌, ◌==◌, if◌then◌else◌, arith, length, get_elem?,
  get_elem?-update_where, length-update_where, Bool-cases, Option-cases, get_elem?_lt,
}
use net_frame.Page.{Config, Page, Slide, stages}
use net_frame.Slides.Show.{order_before, order_after}
use net_frame.Slides.Stage.{IsOnStage}
use net_frame.Overlay.Dropdown.{hide_dropdown}
use net_frame.Scroll.{
  Box, Screen, half_on_screen, allow_to_select, select_at, enter_stage, first_trigger,
  select_on_scroll, unselect, chosen, visit, visit_from, count_scroll, update_scroll,
}

-- The class `selected` of the slide at a position, where there is one.
abbrev pub selected_at : ℕ → List Slide → Option Bool
selected_at j ss = Option.map (λ s. s.selected) (get_elem? ss j)

selected_at-select_at :
    (i j : ℕ) (ss : List Slide)
    → selected_at j (select_at i ss)
      ≡ Option.map (λ s. if j == i then true else s.selected) (get_elem? ss j)
unfolding select_at order_before order_after
selected_at-select_at i j ss = elim (Option-cases (get_elem? ss j)) [
  | inl e ↦ simp (get_elem?-update_where, e)
  | inr (s, e) ↦ simp (get_elem?-update_where, e) (ground arith)
]

selected_at-unselect :
    (i j : ℕ) (ss : List Slide)
    → selected_at j (unselect i ss)
      ≡ Option.map (λ s. if j == i then false else s.selected) (get_elem? ss j)
unfolding unselect
selected_at-unselect i j ss = elim (Option-cases (get_elem? ss j)) [
  | inl e ↦ simp (get_elem?-update_where, e)
  | inr (s, e) ↦ simp (get_elem?-update_where, e) (ground arith)
]

select_on_scroll-slides :
    (c : Config) (i : ℕ) (p : Page) → (select_on_scroll c i p).slides ≡ select_at i p.slides
unfolding select_on_scroll enter_stage first_trigger
select_on_scroll-slides c i p = ground arith

length-select_at : (i : ℕ) (ss : List Slide) → length (select_at i ss) ≡ length ss
unfolding select_at order_before order_after
length-select_at i ss = simp length-update_where

length-unselect : (i : ℕ) (ss : List Slide) → length (unselect i ss) ≡ length ss
unfolding unselect
length-unselect i ss = simp length-update_where

select_on_scroll-stage :
    (c : Config) (i : ℕ) (p : Page)
    → ((select_on_scroll c i p).stage ≡ p.stage) ⊎ ((select_on_scroll c i p).stage ≡ i + 1)
unfolding select_on_scroll enter_stage first_trigger
select_on_scroll-stage c i p = ground arith

stages-visit :
    (c : Config) (s : Screen) (i : ℕ) (b : Box) (p : Page) → stages (visit c s i b p) ≡ stages p
unfolding visit
stages-visit c s i b p = ground (
  arith,
  select_on_scroll-slides c i p,
  ap length (select_on_scroll-slides c i p),
  length-select_at i p.slides,
  length-unselect i p.slides,
)

-- One round sets the class of its own slide by what is on the screen, and leaves it at the others.
selected_at-visit :
    (c : Config) (s : Screen) (i : ℕ) (b : Box) (j : ℕ) (p : Page)
    → c.set_stage_classes ≡ true
    → selected_at j (visit c s i b p).slides
      ≡ Option.map
          (λ t. if j == i then chosen s (stages p) i b else t.selected)
          (get_elem? p.slides j)
unfolding visit
selected_at-visit c s i b j p classes = elim (Bool-cases (chosen s (stages p) i b)) [
  | inl e ↦
      simp (classes, e) (rw (select_on_scroll-slides c i p) (selected_at-select_at i j p.slides))
  | inr e ↦ simp (classes, e) (selected_at-unselect i j p.slides)
]

selected_at-visit_self :
    (c : Config) (s : Screen) (i : ℕ) (b : Box) (p : Page)
    → c.set_stage_classes ≡ true
    → i < stages p
    → selected_at i (visit c s i b p).slides ≡ some (chosen s (stages p) i b)
selected_at-visit_self c s i b p classes inside =
    let (t, e) = get_elem?_lt p.slides i inside in
    ground (arith, selected_at-visit c s i b i p classes)

selected_at-visit_ne :
    (c : Config) (s : Screen) (i : ℕ) (b : Box) (j : ℕ) (p : Page)
    → c.set_stage_classes ≡ true
    → j < i
    → selected_at j (visit c s i b p).slides ≡ selected_at j p.slides
selected_at-visit_ne c s i b j p classes h = ground (arith, selected_at-visit c s i b j p classes)

selected_at-visit_from_below :
    (c : Config) (s : Screen) (n : ℕ) (bs : List Box) (j : ℕ) (p : Page)
    → c.set_stage_classes ≡ true
    → j < n
    → selected_at j (visit_from c s n bs p).slides ≡ selected_at j p.slides
unfolding visit_from
selected_at-visit_from_below c s n [] j p classes h = refl
selected_at-visit_from_below c s n (b ∷ bs) j p classes h =
    selected_at-visit_from_below c s (suc n) bs j _ classes (omega arith)
    ∙ selected_at-visit_ne c s n b j p classes h

selected_at-visit_from :
    (c : Config) (s : Screen) (n k : ℕ) (bs : List Box) {b : Box} (p : Page)
    → c.set_stage_classes ≡ true
    → n + k < stages p
    → get_elem? bs k ≡ some b
    → selected_at (n + k) (visit_from c s n bs p).slides ≡ some (chosen s (stages p) (n + k) b)
unfolding visit_from
selected_at-visit_from c s n k [] p classes inside h = cc
selected_at-visit_from c s n zero (b ∷ bs) {b = b'} p classes inside h =
    let same : b ≡ b' = cc in
    rw add-zero (
      selected_at-visit_from_below c s (suc n) bs n _ classes (omega arith)
      ∙ selected_at-visit_self c s n b p classes (omega arith)
      ∙ ap (λ x. some (chosen s (stages p) n x)) same)
selected_at-visit_from c s n (suc k) (b ∷ bs) {b = b'} p classes inside h =
    let count = stages-visit c s n b p in
    rw (add-suc, ← suc-add)
      (selected_at-visit_from c s (suc n) k bs _ classes (omega (arith, count)) h
        ∙ ap (λ m. some (chosen s m (suc n + k) b')) count)

count_scroll-slides :
    (p : Page) → ((count_scroll p).slides ≡ p.slides) × ((count_scroll p).stage ≡ p.stage)
unfolding count_scroll hide_dropdown
count_scroll-slides p = ground arith

-- Independent of the code, in doubled lengths: the middle of a slide that is lower than half of the window
-- is in the window, and the middle of the window is in any other slide.
abbrev pub HasMiddle : Screen → Box → Type 0
HasMiddle s b =
    ((2 * b.height < s.window_height)
      × (2 * s.scroll_top < 2 * b.top + b.height)
      × (2 * b.top + b.height < 2 * (s.scroll_top + s.window_height)))
    ⊎ ((s.window_height ≤ 2 * b.height)
        × (2 * b.top < 2 * s.scroll_top + s.window_height)
        × (2 * s.scroll_top + s.window_height < 2 * (b.top + b.height)))

-- At the end of the document the place is the last slide's, elsewhere at its top the first one's, and
-- anywhere else any slide's.
abbrev pub HasPlace : Screen → ℕ → ℕ → Type 0
HasPlace s count i =
    ((s.scroll_top + s.window_height ≡ s.document_height) × (i + 1 ≡ count))
    ⊎ ((s.scroll_top + s.window_height ≢ s.document_height) × ((0 < s.scroll_top) ⊎ (i ≡ 0)))

half_on_screen-HasMiddle : (s : Screen) (b : Box) → (half_on_screen s b ≡ true) ↔ HasMiddle s b
unfolding half_on_screen
half_on_screen-HasMiddle s b = ground arith

allow_to_select-HasPlace :
    (s : Screen) (count i : ℕ) → (allow_to_select s count i ≡ true) ↔ HasPlace s count i
unfolding allow_to_select
allow_to_select-HasPlace s count i = ground arith

both_true : (x y : Bool) → (x && y ≡ true) ↔ ((x ≡ true) × (y ≡ true))
both_true x y = ground arith

chosen-HasMiddle :
    (s : Screen) (count i : ℕ) (b : Box)
    → (chosen s count i b ≡ true) ↔ (HasMiddle s b × HasPlace s count i)
chosen-HasMiddle s count i b =
    let (m, n) = half_on_screen-HasMiddle s b in
    let (p, q) = allow_to_select-HasPlace s count i in
    let (f, g) = both_true (half_on_screen s b) (allow_to_select s count i) in
    (λ h. (m (f h).0, p (f h).1), λ h. g (n h.0, q h.1))

-- When `updateScroll` has run, a slide that the browser measured is selected exactly if two things hold.
-- The middle of the window is in the slide or, where the slide is lower than half of the window, the middle
-- of the slide is in the window. And at the end of the document the slide is the last, or elsewhere at its
-- top the first.
pub selected_at-update_scroll :
    (c : Config) (s : Screen) (i : ℕ) {b : Box} (p : Page)
    → c.set_stage_classes ≡ true
    → i < stages p
    → get_elem? s.boxes i ≡ some b
    → (is : Bool) × (selected_at i (update_scroll c s p).slides ≡ some is)
      × ((is ≡ true) ↔ (HasMiddle s b × HasPlace s (stages p) i))
unfolding update_scroll
selected_at-update_scroll c s i {b} p classes inside h =
    let same = (count_scroll-slides p).0 in
    let count : stages (count_scroll p) ≡ stages p = ap length same in
    (
      chosen s (stages p) i b,
      rw zero-add at (
          selected_at-visit_from c s 0 i s.boxes (count_scroll p) classes (omega (arith, count)) h
          ∙ ap (λ m. some (chosen s m (0 + i) b)) count),
      chosen-HasMiddle s (stages p) i b,
    )

-- A slide that counts as half on the screen shows at least one pixel, if it has a height.
pub half_on_screen_overlaps :
    (s : Screen) (b : Box)
    → 0 < b.height
    → 0 < s.window_height
    → half_on_screen s b ≡ true
    → (b.top < s.scroll_top + s.window_height) × (s.scroll_top < b.top + b.height)
unfolding half_on_screen
half_on_screen_overlaps s b tall window h = ground arith

visit-stage :
    (c : Config) (s : Screen) (i : ℕ) (b : Box) (p : Page)
    → ((visit c s i b p).stage ≡ p.stage) ⊎ ((visit c s i b p).stage ≡ i + 1)
unfolding visit
visit-stage c s i b p = ground (arith, select_on_scroll-stage c i p)

visit_from-IsOnStage :
    (c : Config) (s : Screen) (n : ℕ) (bs : List Box) (p : Page)
    → IsOnStage p
    → n + length bs ≤ stages p
    → IsOnStage (visit_from c s n bs p)
unfolding visit_from
visit_from-IsOnStage c s n [] p on fits = on
visit_from-IsOnStage c s n (b ∷ bs) p on fits =
    let count = stages-visit c s n b p in
    let stage = visit-stage c s n b p in
    visit_from-IsOnStage c s (suc n) bs _ (omega arith) (omega arith)

-- `updateScroll` keeps the stage among the slides, if the browser measures no more boxes than there
-- are slides.
pub update_scroll-IsOnStage :
    (c : Config) (s : Screen) (p : Page)
    → IsOnStage p
    → length s.boxes ≤ stages p
    → IsOnStage (update_scroll c s p)
unfolding update_scroll
update_scroll-IsOnStage c s p on fits =
    let (slides, stage) = count_scroll-slides p in
    let count : stages (count_scroll p) ≡ stages p = ap length slides in
    visit_from-IsOnStage c s 0 s.boxes _ (omega arith) (omega arith)
