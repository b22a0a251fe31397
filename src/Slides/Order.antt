-- ===== src/Slides/Order.antt =====
-- What `showSlide` (resource/js/slides.js) makes of the slides' classes: which slide is selected, and
-- which stand before and after it.
use mathlib.Core.Option
use net_frame.Common.{
  ℕ, suc, ◌<◌, ◌≡◌, refl, ◌≢◌, ◌⊎◌, inl, inr, Bool, true, false, not, ◌&&◌, ◌||◌, Option, none,
  some, List, ◌==◌, ltb, arith, get_elem?, length, update_where, updated, get_elem?-update_where,
  map-eq-some, Bool-cases,
}
use net_frame.Page.{Config, Page, Slide, stages}
use net_frame.Slides.Show.{
  scrolls, eq_slide, is_current, current_number, transport, scroll_to_top, start_animation,
  clean_up, flip, present, turn_to, decorate, name_and_scroll, animate_loaded, show_slide,
}

-- Independent of the code: where a slide stands, seen from the slide at position k.
abbrev pub IsPlaced : ℕ → ℕ → Slide → Type 0
IsPlaced k i s = (s.selected ≡ (i == k)) × (s.before ≡ ltb i k) × (s.after ≡ ltb k i)

-- Every slide is placed: exactly the slide at k is selected, those in front of it and no other
-- carry `before`, those behind it and no other carry `after`.
abbrev pub InOrder : ℕ → List Slide → Type 0
InOrder k ss = (i : ℕ) (s : Slide) → get_elem? ss i ≡ some s → IsPlaced k i s

-- The four updates of `transport` on one slide.
abbrev transported : ℕ → ℕ → Slide → Slide
transported k i s = record s {
  selected = i == k;
  before = ltb i k;
  after = ltb k i;
  active = s.selected || s.active || i == k;
}

get_elem?-transport :
    (k i : ℕ) (ss : List Slide)
    → get_elem? (transport (some k) ss) i ≡ Option.map (transported k i) (get_elem? ss i)
unfolding transport
get_elem?-transport k i ss = simp get_elem?-update_where (on_slide (get_elem? ss i))
  where
    on_slide :
        (o : Option Slide)
        → Option.map (updated (λ i _. ltb k i) (λ s. record s { after = true; before = false }) i) (
            Option.map
              (updated (λ i _. ltb i k) (λ s. record s { before = true; after = false }) i)
              (Option.map
                (updated
                  (λ i _. i == k)
                  (λ s. record s { before = false; after = false; selected = true; active = true })
                  i)
                (Option.map
                  (updated
                    (λ _ s. is_current s)
                    (λ s. record s { selected = false; active = true })
                    i)
                  o)))
          ≡ Option.map (transported k i) o
    on_slide none = refl
    on_slide (some s) = ground arith

transport-InOrder : (k : ℕ) (ss : List Slide) → InOrder k (transport (some k) ss)
transport-InOrder k ss i t h =
    let (s, _, e) = map-eq-some (transported k i) (get_elem? ss i) (get_elem?-transport k i ss) h in
    rw (← e) (refl, refl, refl)

-- A change of a slide that leaves the three classes as they are.
abbrev pub KeepsPlace : (Slide → Slide) → Type 0
KeepsPlace f =
    (s : Slide)
    → ((f s).selected ≡ s.selected) × ((f s).before ≡ s.before) × ((f s).after ≡ s.after)

pub update_where-InOrder :
    (test : ℕ → Slide → Bool) (f : Slide → Slide) (k : ℕ) (ss : List Slide)
    → KeepsPlace f
    → InOrder k ss
    → InOrder k (update_where test f ss)
update_where-InOrder test f k ss keeps o i t h =
    let (s, e, u) =
      map-eq-some (updated test f i) (get_elem? ss i) (get_elem?-update_where test f ss i) h in
    let place = o i s e in ground (arith, keeps s)

scroll_to_top-InOrder :
    (new : Option ℕ) (k : ℕ) (ss : List Slide) → InOrder k ss → InOrder k (scroll_to_top new ss)
unfolding scroll_to_top
scroll_to_top-InOrder new k ss = update_where-InOrder _ _ k ss (λ s. (refl, refl, refl))

clean_up-slides : (p : Page) → ((clean_up p).slides ≡ p.slides) × ((clean_up p).loaded ≡ p.loaded)
unfolding clean_up
clean_up-slides p = ground arith

start_animation-InOrder :
    (c : Config) (changed : Bool) (old : List ℕ) (new : Option ℕ) (k : ℕ) (p : Page)
    → InOrder k p.slides
    → InOrder k (start_animation c changed old new p).slides
unfolding start_animation
start_animation-InOrder c changed old new k p =
    update_where-InOrder _ _ k p.slides (λ s. (refl, refl, refl))

animate_loaded-InOrder :
    (c : Config) (changed : Bool) (old : List ℕ) (new : Option ℕ) (k : ℕ) (p : Page)
    → InOrder k p.slides
    → InOrder k (animate_loaded c changed old new p).slides
unfolding animate_loaded
animate_loaded-InOrder c changed old new k p o = elim (Bool-cases p.loaded) [
  | inl e ↦ rw e (start_animation-InOrder c changed old new k p o)
  | inr e ↦ rw e o
]

flip-InOrder :
    (requested : ℕ) (moves : Bool) (k : ℕ) (p : Page)
    → (moves ≡ true) ⊎ InOrder k p.slides
    → InOrder k (flip requested moves (some k) p).slides
unfolding flip
flip-InOrder requested true k p start = transport-InOrder k p.slides
flip-InOrder requested false k p (inl e) = cc
flip-InOrder requested false k p (inr o) = o

turn_to-InOrder :
    (c : Config) (requested : ℕ) (changed : Bool) (k : ℕ) (p : Page)
    → c.set_stage_classes ≡ true
    → (changed ≡ true) ⊎ InOrder k p.slides
    → InOrder k (turn_to c requested changed (some k) p).slides
unfolding turn_to name_and_scroll decorate
turn_to-InOrder c requested changed k p classes start =
    scroll_to_top-InOrder (some k) k _
      (flip-InOrder requested (changed && c.set_stage_classes) k _ (moves start))
  where
    moves :
        (changed ≡ true) ⊎ InOrder k p.slides
        → (changed && c.set_stage_classes ≡ true) ⊎ InOrder k (clean_up p).slides
    moves (inl e) = inl (ground arith)
    moves (inr o) = inr (rw (clean_up-slides p).0 o)

found : (k : ℕ) (ss : List Slide) → k < length ss → eq_slide (suc k) ss ≡ some k
found k ss h = ground arith

present-InOrder :
    (c : Config) (r k : ℕ) (p : Page)
    → c.set_stage_classes ≡ true
    → eq_slide r p.slides ≡ some k
    → (current_number p.slides ≢ r) ⊎ InOrder k p.slides
    → InOrder k (present c r p).slides
unfolding present
present-InOrder c r k p classes there start =
    rw there (
      animate_loaded-InOrder c _ _ (some k) k _ (turn_to-InOrder c r _ k p classes (changed start)))
  where
    changed :
        (current_number p.slides ≢ r) ⊎ InOrder k p.slides
        → (not (current_number p.slides == r) ≡ true) ⊎ InOrder k p.slides
    changed (inl e) = inl (ground arith)
    changed (inr o) = inr o

-- The same for every request that finds a slide: 0 finds the last one.
pub show_slide_found-InOrder :
    (c : Config) (r k : ℕ) (p : Page)
    → scrolls c ≡ false
    → c.set_stage_classes ≡ true
    → eq_slide r p.slides ≡ some k
    → (current_number p.slides ≢ r) ⊎ InOrder k p.slides
    → InOrder k (show_slide c r p).slides
unfolding show_slide
show_slide_found-InOrder c r k p flips classes there start =
    rw flips (present-InOrder c r k p classes there start)

-- In slide mode, `showSlide` of a slide that exists leaves every slide placed, whenever another slide
-- was selected first before, or the slides stood in this order already.
pub show_slide-InOrder :
    (c : Config) (k : ℕ) (p : Page)
    → scrolls c ≡ false
    → c.set_stage_classes ≡ true
    → k < stages p
    → (current_number p.slides ≢ suc k) ⊎ InOrder k p.slides
    → InOrder k (show_slide c (suc k) p).slides
show_slide-InOrder c k p flips classes inside start =
    show_slide_found-InOrder c (suc k) k p flips classes (found k p.slides inside) start
