-- ===== src/Slides/Show.antt =====
-- `showSlide` of resource/js/slides.js and the callbacks that it leaves. Slides are counted from 1 in
-- `stage` and in `requested`, and from 0 as positions in the collection.
use Prim.Native.String.{String}
use net_frame.Common.{
  ℕ, zero, suc, ◌+◌, ◌-◌, Bool, true, false, not, ◌&&◌, ◌||◌, Option, none, some, List, [], ◌∷◌,
  ◌==◌, ltb, if◌then◌else◌, update_where, indices_from, find_index, contains, get_elem?, length,
}
use net_frame.Common.Text.{truthy}
use net_frame.Page.{
  Config, Page, Slide, Body, Address, Sidebar, Popup, stages, settle, animate_slide, mark_done,
  refresh_navigation, slide_change,
}
use net_frame.Page.Timers.{set_timeout, clear_timeout, trigger}
use net_frame.Overlay.Dropdown.{hide_dropdown, unzoom_image}
use net_frame.Overlay.Sidebar.{hide_sidebar}

-- The page scrolls through its slides and does not flip them.
abbrev pub scrolls : Config → Bool
scrolls c = c.is_mobile && c.is_simplified_mobile || c.is_scroll

-- `$('.slide').eq(requested - 1)`: a negative index counts from the end, so 0 asks for the last.
abbrev pub eq_slide : ℕ → List Slide → Option ℕ
eq_slide zero [] = none
eq_slide zero (s ∷ ss) = some (length ss)
eq_slide (suc k) ss = if ltb k (length ss) then some k else none

-- `index('.slide') + 1` of a collection's first element; -1 stands for an empty one.
abbrev pub number_of : Option ℕ → ℕ
number_of none = 0
number_of (some i) = i + 1

abbrev pub is_current : Slide → Bool
is_current s = s.selected

unfoldable pub current_number : List Slide → ℕ
current_number ss = number_of (find_index is_current ss)

unfoldable pub update_navigation : Page → Page
unfolding set_timeout
update_navigation p = set_timeout 100 refresh_navigation p

-- "It it first or last stage?"
unfoldable pub stage_classes : ℕ → ℕ → Body → Body
stage_classes stage count b = record b {
  first_slide = b.first_slide || stage == 1;
  last_slide = b.last_slide || (count == stage && not (count == 1));
  stage_class = some stage;
}

-- "prepare slides for transporting": the four chained updates, in the order of the source.
unfoldable pub leave_current : List Slide → List Slide
leave_current =
    update_where (λ _ s. is_current s) (λ s. record s { selected = false; active = true })

unfoldable pub enter_slide : ℕ → List Slide → List Slide
enter_slide k =
    update_where (λ i _. i == k)
      (λ s. record s { before = false; after = false; selected = true; active = true })

unfoldable pub order_before : ℕ → List Slide → List Slide
order_before k = update_where (λ i _. ltb i k) (λ s. record s { before = true; after = false })

unfoldable pub order_after : ℕ → List Slide → List Slide
order_after k = update_where (λ i _. ltb k i) (λ s. record s { after = true; before = false })

unfoldable pub transport : Option ℕ → List Slide → List Slide
unfolding leave_current enter_slide order_before order_after
transport none ss = leave_current ss
transport (some k) ss = order_after k (order_before k (enter_slide k (leave_current ss)))

abbrev pub or_else : Option String → Option String → Option String
or_else none b = b
or_else (some a) b = some a

-- `attr('data-name')`, or else `attr('id')`, of a slide that may not be there.
abbrev pub slide_name : Option Slide → Option String
slide_name none = none
slide_name (some s) = or_else (truthy s.data_name) (truthy s.ident)

abbrev pub clear_hash : Config → Address → Address
clear_hash c a = record a { hash = if c.has_push_state then none else some "" }

abbrev pub has_hash : Address → Bool
has_hash a = elim (a.hash) [ none ↦ false | some _ ↦ true ]

-- "set hash"
unfoldable pub set_hash : Config → Option String → Address → Address
set_hash c (some t) a = if c.set_hash_link then record a { hash = some t } else a
set_hash c none a = if c.set_hash_link && has_hash a && not c.is_file then clear_hash c a else a

unfoldable pub slide_at : Option ℕ → List Slide → Option Slide
slide_at none ss = none
slide_at (some k) ss = get_elem? ss k

unfoldable pub is_white : Option Slide → Bool
is_white none = false
is_white (some s) = s.white

abbrev pub is_at : Option ℕ → ℕ → Bool
is_at none i = false
is_at (some k) i = i == k

unfoldable pub scroll_to_top : Option ℕ → List Slide → List Slide
scroll_to_top new = update_where (λ i _. is_at new i) (λ s. record s { content_top = 0 })

-- `$('.done').removeClass('done')`, on all of the page.
unfoldable pub clear_done : Page → Page
clear_done p = record p {
  slides = update_where (λ _ s. s.done) (λ s. record s { done = false }) p.slides;
  sidebars = record (p.sidebars) {
    items =
        update_where (λ _ (s : Sidebar). s.done) (λ s. record s { done = false }) p.sidebars.items;
  };
  popups = record (p.popups) {
    items = update_where (λ _ (s : Popup). s.done) (λ s. record s { done = false }) p.popups.items;
  };
}

-- The block under `if (window.loaded)`, and the block with its guard.
unfoldable pub start_animation : Config → Bool → List ℕ → Option ℕ → Page → Page
unfolding set_timeout clear_timeout clear_done
start_animation c changed old new p =
    let p1 = set_timeout c.effect_speed (settle changed old) (record p { block_scroll = true }) in
    let p2 = record p1 {
      effect_offset =
          if ltb c.slide_speed p1.effect_offset then c.slide_speed else p1.effect_offset;
    } in
    let p3 = set_timeout (c.slide_speed - p2.effect_offset) (animate_slide new) p2 in
    let p4 = clear_timeout p3.element_animation (clear_done p3) in
    record (set_timeout (c.slide_speed + c.effect_speed + c.cleanup_delay) mark_done p4) {
      element_animation = some p4.next_handle;
    }

unfoldable pub animate_loaded : Config → Bool → List ℕ → Option ℕ → Page → Page
unfolding start_animation
animate_loaded c changed old new p = if p.loaded then start_animation c changed old new p else p

-- The cleanup and the reset that precede the change of classes.
unfoldable pub clean_up : Page → Page
unfolding update_navigation hide_dropdown unzoom_image hide_sidebar
clean_up p =
    let q = hide_sidebar (unzoom_image (hide_dropdown (update_navigation p))) in
    record q {
      allow_slide = true;
      body = record (q.body) {
        first_slide = false;
        last_slide = false;
        hide_panel_top = false;
        hide_panel_bottom = false;
      };
    }

-- "prepare slides for transporting" with its trigger.
unfoldable pub flip : ℕ → Bool → Option ℕ → Page → Page
unfolding trigger
flip requested moves new p =
    if moves
    then trigger (slide_change requested new) (record p { slides = transport new p.slides })
    else p

-- "It it first or last stage?" and "white slide?"
unfoldable pub decorate : Config → Option ℕ → Page → Page
unfolding slide_at is_white stage_classes
decorate c new p =
    let classes = if c.set_stage_classes then stage_classes p.stage (stages p) p.body else p.body in
    record p { body = record classes { white_slide = is_white (slide_at new p.slides) } }

-- "set hash" and "prepare to show slide"
unfoldable pub name_and_scroll : Config → Option ℕ → Page → Page
unfolding slide_at set_hash
name_and_scroll c new p = record p {
  address = set_hash c (slide_name (slide_at new p.slides)) p.address;
  slides = scroll_to_top new p.slides;
}

-- From the cleanup to the preparation of the slide that is shown.
unfoldable pub turn_to : Config → ℕ → Bool → Option ℕ → Page → Page
turn_to c requested changed new p =
    name_and_scroll c new
      (flip requested (changed && c.set_stage_classes) new (decorate c new (clean_up p)))

-- The part of `showSlide` behind its guard. The variables are read before anything is changed.
unfoldable pub present : Config → ℕ → Page → Page
present c requested p =
    let new = eq_slide requested p.slides in
    let changed = not (current_number p.slides == requested) in
    let old = indices_from 0 is_current p.slides in
    animate_loaded c changed old new (turn_to c requested changed new p)

unfoldable pub show_slide : Config → ℕ → Page → Page
show_slide c requested p = if scrolls c then p else present c requested p

-- The callbacks of `showSlide`.
unfoldable pub run_settle : Bool → List ℕ → Page → Page
run_settle changed old p = record p {
  slides =
      if changed
      then update_where (λ i _. contains i old) (λ s. record s { active = false; animate = false })
          p.slides
      else p.slides;
  block_scroll = false;
}

unfoldable pub run_animate_slide : Option ℕ → Page → Page
run_animate_slide new p = record p {
  slides = update_where (λ i _. is_at new i) (λ s. record s { animate = true }) p.slides;
}

unfoldable pub run_mark_done : Page → Page
run_mark_done p = record p {
  slides = update_where (λ _ s. is_current s) (λ s. record s { done = true }) p.slides;
}
