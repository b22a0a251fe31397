-- ===== src/Scroll.antt =====
-- `updateScroll` of resource/js/slides.js: in the scroll mode the slides are selected by what is on
-- the screen. Lengths are whole pixels. Parallax and the animation of single elements are left out.
pub mod Selection
pub mod Elements
use net_frame.Common.{
  ℕ, zero, suc, ◌+◌, ◌*◌, min, Bool, true, false, not, ◌&&◌, ◌||◌, Option, none, some, List, [],
  ◌∷◌, ◌==◌, ltb, leb, if◌then◌else◌, update_where, get_elem?, length,
}
use net_frame.Page.{
  Config, Page, Slide, Animation, still, auto, on_event, stages, slide_change, mark_slide_done,
}
use net_frame.Page.Timers.{set_timeout, trigger}
use net_frame.Overlay.Dropdown.{hide_dropdown}
use net_frame.Slides.Show.{order_before, order_after, slide_at, is_white, update_navigation}

-- `positionY` and `elementHeight` of a slide.
pub record Box : Type 0 where
  pub top : ℕ
  pub height : ℕ

-- What the browser measures when the handler runs: a box for each slide.
pub record Screen : Type 0 where
  pub scroll_top : ℕ
  pub window_height : ℕ
  pub document_height : ℕ
  pub boxes : List Box

-- `halfOnScreen`, with both sides doubled, since `halfWay` is half of a height.
unfoldable pub half_on_screen : Screen → Box → Bool
half_on_screen s b =
    let twice_half_way = if ltb (2 * b.height) s.window_height then b.height else s.window_height in
    ltb (2 * b.top + twice_half_way) (2 * (s.window_height + s.scroll_top))
    && ltb (2 * s.scroll_top + twice_half_way) (2 * (b.top + b.height))

-- `allowToSelect`: the two tests in their order.
unfoldable pub allow_to_select : Screen → ℕ → ℕ → Bool
allow_to_select s count i =
    let first = if s.scroll_top == 0 then i == 0 else true in
    if s.scroll_top + s.window_height == s.document_height then i + 1 == count else first

-- `$element` becomes the selected slide, and the others are put in order.
unfoldable pub select_at : ℕ → List Slide → List Slide
unfolding order_before order_after
select_at i ss =
    update_where (λ j _. j == i)
      (λ s. record s {
        selected = true;
        animate = true;
        active = true;
        after = false;
        before = false;
      })
      (order_after i (order_before i ss))

-- The classes of `<body>` for a new stage, and the dots.
unfoldable pub enter_stage : Config → ℕ → Page → Page
unfolding trigger set_timeout update_navigation slide_at is_white
enter_stage c i p =
    let q = trigger (slide_change (i + 1) (some i)) (record p {
      stage = i + 1;
      body = record (p.body) {
        first_slide = i + 1 == 1;
        last_slide = stages p == i + 1;
        stage_class = some (i + 1);
        white_slide = is_white (slide_at (some i) p.slides);
      };
    }) in
    update_navigation (elim (c.is_animated) [
      | auto ↦ record (set_timeout (c.effect_speed + c.cleanup_delay) (mark_slide_done i) q) {
        element_animation = some q.next_handle;
      }
      | _ ↦ q
    ])

-- The block under `if (!window.firstTimeTrigger)`.
unfoldable pub first_trigger : ℕ → Page → Page
unfolding trigger
first_trigger i p =
    if p.first_time_trigger
    then p
    else trigger (slide_change p.stage (some i)) (record p { first_time_trigger = true })

-- The branch for a slide that is half on the screen.
unfoldable pub select_on_scroll : Config → ℕ → Page → Page
select_on_scroll c i p =
    let q = record p { slides = select_at i p.slides } in
    first_trigger i
      (if not (q.stage == i + 1) || not q.first_time_trigger then enter_stage c i q else q)

unfoldable pub unselect : ℕ → List Slide → List Slide
unselect i = update_where (λ j _. j == i) (λ s. record s { selected = false })

abbrev pub chosen : Screen → ℕ → ℕ → Box → Bool
chosen s count i b = half_on_screen s b && allow_to_select s count i

-- One round of `$('.slide').each`.
unfoldable pub visit : Config → Screen → ℕ → Box → Page → Page
visit c s i b p =
    if c.set_stage_classes
    then (if chosen s (stages p) i b
        then select_on_scroll c i p
        else record p { slides = unselect i p.slides })
    else p

unfoldable pub visit_from : Config → Screen → ℕ → List Box → Page → Page
visit_from c s i [] p = p
visit_from c s i (b ∷ bs) p = visit_from c s (suc i) bs (visit c s i b p)

-- "Hide share with delay"
unfoldable pub count_scroll : Page → Page
unfolding hide_dropdown
count_scroll p =
    let q = record p { dropdowns = record (p.dropdowns) { scrolls = p.dropdowns.scrolls + 1 } } in
    if leb 2 q.dropdowns.scrolls
    then (let r = hide_dropdown q in record r { dropdowns = record (r.dropdowns) { scrolls = 0 } })
    else q

unfoldable pub update_scroll : Config → Screen → Page → Page
update_scroll c s p = visit_from c s 0 s.boxes (count_scroll p)

-- The callback of `enter_stage`.
unfoldable pub run_mark_slide_done : ℕ → Page → Page
run_mark_slide_done i p = record p {
  slides = update_where (λ j _. j == i) (λ s. record s { done = true }) p.slides;
}
