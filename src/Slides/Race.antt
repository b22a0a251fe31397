-- ===== src/Slides/Race.antt =====
-- A slide that is left and selected again before the callback of the first flip has run
-- (resource/js/slides.js, the first `setTimeout` of `showSlide`).
use native.Mathlib.Nat.{add-zero, zero-add, add-suc, suc-add}
use net_frame.Common.{
  ℕ, zero, suc, ◌+◌, ◌<◌, ◌≢◌, ◌≡◌, ◌≤◌, ◌==◌, ◌&&◌, refl, ap, inl, inr, sym, not, ◌∙◌, Bool,
  Bool-cases, true, false, Option, none, some, List, [], ◌∷◌, arith, contains, get_elem?,
  get_elem?-update_where, get_elem?_lt, indices_from, length,
}
use net_frame.Page.{Config, Page, Slide, Timer, Task, settle, stages}
use net_frame.Page.Timers.{drop_timer, without, set_timeout, clear_timeout, trigger}
use net_frame.Overlay.Dropdown.{hide_dropdown, unzoom_image}
use net_frame.Overlay.Sidebar.{hide_sidebar}
use net_frame.Slides.Show.{
  scrolls, is_current, current_number, show_slide, run_settle, update_navigation, clean_up, turn_to,
  flip, decorate, name_and_scroll, clear_done, start_animation, animate_loaded, present, eq_slide,
}
use net_frame.Slides.Frame.{show_slide-Keeps, turn_to-Keeps}
use net_frame.Slides.Order.{InOrder, show_slide-InOrder}
use net_frame.Session.{run_task, fire}
use net_frame.Scroll.{Screen}
use net_frame.Slides.Current.{current_number-InOrder, current_number-show_slide}

-- The callback that settles a flip takes `active` and `animate` from every slide that was selected
-- when the flip began, also from one that is selected again by then, and leaves it selected.
run_settle_selected :
    (old : List ℕ) (i : ℕ) {s : Slide} (p : Page)
    → get_elem? p.slides i ≡ some s
    → s.selected ≡ true
    → contains i old ≡ true
    → (t : Slide) × (get_elem? (run_settle true old p).slides i ≡ some t)
      × (t.selected ≡ true)
      × (t.active ≡ false)
      × (t.animate ≡ false)
unfolding run_settle
run_settle_selected old i {s} p h chosen left = (
  record s { active = false; animate = false },
  simp (get_elem?-update_where, h) (ground arith),
  chosen,
  refl,
  refl,
)

contains-indices_from :
    (n i : ℕ) {s : Slide} (ss : List Slide)
    → get_elem? ss i ≡ some s
    → s.selected ≡ true
    → contains (n + i) (indices_from n is_current ss) ≡ true
unfolding indices_from
contains-indices_from n i [] h chosen = cc
contains-indices_from n zero (s ∷ ss) h chosen =
    let here : s.selected ≡ true = cc in rw (add-zero, here) (ground arith)
contains-indices_from n (suc i) (s ∷ ss) h chosen =
    let rest = contains-indices_from (suc n) i ss h chosen in rw (add-suc, ← suc-add) (ground arith)

contains_current :
    (k : ℕ) (ss : List Slide)
    → k < length ss
    → InOrder k ss
    → contains k (indices_from 0 is_current ss) ≡ true
contains_current k ss h o =
    let (s, e) = get_elem?_lt ss k h in
    rw zero-add at (contains-indices_from 0 k ss e ((o k s e).0 ∙ ground arith))

abbrev pub Waits : Timer → List Timer → Type 0
Waits t ts = (i : ℕ) × (get_elem? ts i ≡ some t)

Waits-cons : (t u : Timer) (ts : List Timer) → Waits t ts → Waits t (u ∷ ts)
Waits-cons t u ts (i, e) = (suc i, e)

Waits-drop_timer :
    (t : Timer) (h : ℕ) (ts : List Timer) → t.handle ≢ h → Waits t ts → Waits t (drop_timer h ts)
unfolding drop_timer
Waits-drop_timer t h [] other (i, e) = cc
Waits-drop_timer t h (u ∷ ts) other (zero, e) =
    let same : u ≡ t = cc in
    let away : (u.handle == h) ≡ false = rw same (ground arith) in rw away (zero, e)
Waits-drop_timer t h (u ∷ ts) other (suc i, e) =
    let w = Waits-drop_timer t h ts other (i, e) in
    elim (Bool-cases (u.handle == h)) [
      | inl gone ↦ rw gone w
      | inr there ↦ rw there (suc (w.0), w.1)
    ]

-- What precedes the animation sets timers and clears none.
record IsBefore (p q : Page) : Type 0 where
  waits : (t : Timer) → Waits t p.pending → Waits t q.pending
  later : p.next_handle ≤ q.next_handle
  same : q.element_animation ≡ p.element_animation

IsBefore-trans : {p q r : Page} → IsBefore p q → IsBefore q r → IsBefore p r
IsBefore-trans a b = record {
  waits = λ t w. b.waits t (a.waits t w);
  later = omega (arith, a.later, b.later);
  same = b.same ∙ a.same;
}

set_timeout-IsBefore : (delay : ℕ) (task : Task) (p : Page) → IsBefore p (set_timeout delay task p)
unfolding set_timeout
set_timeout-IsBefore delay task p = record {
  waits = λ t w. Waits-cons t _ p.pending w;
  later = omega arith;
  same = refl;
}

hide_dropdown-IsBefore : (p : Page) → IsBefore p (hide_dropdown p)
unfolding hide_dropdown trigger
hide_dropdown-IsBefore p = elim (Bool-cases p.dropdowns.shown) [
  | inl e ↦ rw e (record { waits = λ t w. w; later = omega arith; same = refl })
  | inr e ↦ rw e (record { waits = λ t w. w; later = omega arith; same = refl })
]

unzoom_image-IsBefore : (p : Page) → IsBefore p (unzoom_image p)
unfolding unzoom_image trigger
unzoom_image-IsBefore p = elim (Bool-cases p.zoomed) [
  | inl e ↦ rw e (record { waits = λ t w. w; later = omega arith; same = refl })
  | inr e ↦ rw e (record { waits = λ t w. w; later = omega arith; same = refl })
]

hide_sidebar-IsBefore : (p : Page) → IsBefore p (hide_sidebar p)
unfolding hide_sidebar
hide_sidebar-IsBefore p = elim (Bool-cases p.sidebars.shown) [
  | inl e ↦
      let b = set_timeout-IsBefore 500 _ p in
      rw e (record { waits = b.waits; later = b.later; same = b.same })
  | inr e ↦ rw e (record { waits = λ t w. w; later = omega arith; same = refl })
]

clean_up-IsBefore : (p : Page) → IsBefore p (clean_up p)
unfolding clean_up update_navigation
clean_up-IsBefore p =
    let b = IsBefore-trans (set_timeout-IsBefore 100 _ p) (
      IsBefore-trans (hide_dropdown-IsBefore _)
        (IsBefore-trans (unzoom_image-IsBefore _) (hide_sidebar-IsBefore _))) in
    record { waits = b.waits; later = b.later; same = b.same }

turn_to-IsBefore :
    (c : Config) (r : ℕ) (changed : Bool) (new : Option ℕ) (p : Page)
    → IsBefore p (turn_to c r changed new p)
unfolding turn_to flip decorate name_and_scroll trigger
turn_to-IsBefore c r changed new p =
    let b = clean_up-IsBefore p in
    elim (Bool-cases (changed && c.set_stage_classes)) [
      | inl e ↦ rw e (record { waits = b.waits; later = b.later; same = b.same })
      | inr e ↦ rw e (record { waits = b.waits; later = b.later; same = b.same })
    ]

-- Clearing the timer `e` names leaves `t` alone.
abbrev IsNotNamed : Timer → Option ℕ → Type 0
IsNotNamed t e = (h : ℕ) → e ≡ some h → t.handle ≢ h

Waits-without :
    (t : Timer) (e : Option ℕ) (ts : List Timer)
    → IsNotNamed t e
    → Waits t ts
    → Waits t (without e ts)
unfolding without
Waits-without t none ts other w = w
Waits-without t (some h) ts other w = Waits-drop_timer t h ts (other h refl) w

-- The timer of the callback that settles the flip of a page.
abbrev settle_timer : Config → Bool → List ℕ → Page → Timer
settle_timer c changed old p = record {
  handle = p.next_handle;
  delay = c.effect_speed;
  task = settle changed old;
}

Waits-start_animation :
    (c : Config) (changed : Bool) (old : List ℕ) (new : Option ℕ) (t : Timer) (p : Page)
    → IsNotNamed t p.element_animation
    → Waits t (settle_timer c changed old p ∷ p.pending)
    → Waits t (start_animation c changed old new p).pending
unfolding start_animation set_timeout clear_timeout clear_done
Waits-start_animation c changed old new t p other w =
    let old_timers = settle_timer c changed old p ∷ p.pending in
    Waits-cons t _ _ (Waits-without t p.element_animation _ other (Waits-cons t _ old_timers w))

element_animation-start_animation :
    (c : Config) (changed : Bool) (old : List ℕ) (new : Option ℕ) (p : Page)
    → (start_animation c changed old new p).element_animation ≡ some (p.next_handle + 1 + 1)
unfolding start_animation set_timeout clear_timeout clear_done
element_animation-start_animation c changed old new p = refl

-- A flip on a loaded page, where `window.elementAnimation` is a timer that was set before: the timer of
-- the callback that settles it is new, waits, and is not the one that the next flip clears.
record IsSettling (c : Config) (requested : ℕ) (p q : Page) (t : Timer) : Type 0 where
  waiting : Waits t q.pending
  new_timer : p.next_handle ≤ t.handle
  delayed : t.delay ≡ c.effect_speed
  task_of :
      t.task
      ≡ settle (not (current_number p.slides == requested)) (indices_from 0 is_current p.slides)
  unnamed : IsNotNamed t q.element_animation

show_slide-IsSettling :
    (c : Config) (requested : ℕ) (p : Page)
    → scrolls c ≡ false
    → p.loaded ≡ true
    → ((h : ℕ) → p.element_animation ≡ some h → h < p.next_handle)
    → (t : Timer) × IsSettling c requested p (show_slide c requested p) t
unfolding show_slide present animate_loaded
show_slide-IsSettling c requested p flips loaded past =
    let new = eq_slide requested p.slides in
    let changed = not (current_number p.slides == requested) in
    let old = indices_from 0 is_current p.slides in
    let q = turn_to c requested changed new p in
    let b = turn_to-IsBefore c requested changed new p in
    let ready : q.loaded ≡ true = (turn_to-Keeps c requested changed new p).loaded ∙ loaded in
    let t = settle_timer c changed old q in
    rw (flips, ready)
      (
        t,
        record {
          waiting =
              Waits-start_animation c changed old new t q
                (λ h e. let less = past h (sym b.same ∙ e) in omega (arith, less, b.later))
                (0, refl);
          new_timer = b.later;
          delayed = refl;
          task_of = refl;
          unnamed = λ h e.
              let named : some (q.next_handle + 1 + 1) ≡ some h =
                sym (element_animation-start_animation c changed old new q) ∙ e in
              ground arith;
        },
      )

show_slide-Waits :
    (c : Config) (requested : ℕ) (t : Timer) (p : Page)
    → scrolls c ≡ false
    → p.loaded ≡ true
    → IsNotNamed t p.element_animation
    → Waits t p.pending
    → Waits t (show_slide c requested p).pending
unfolding show_slide present animate_loaded
show_slide-Waits c requested t p flips loaded other w =
    let new = eq_slide requested p.slides in
    let changed = not (current_number p.slides == requested) in
    let old = indices_from 0 is_current p.slides in
    let q = turn_to c requested changed new p in
    let b = turn_to-IsBefore c requested changed new p in
    let ready : q.loaded ≡ true = (turn_to-Keeps c requested changed new p).loaded ∙ loaded in
    rw (flips, ready)
      (Waits-start_animation c changed old new t q (λ h e. other h (sym b.same ∙ e))
        (Waits-cons t _ q.pending (b.waits t w)))

not_equal : (a b : ℕ) → a ≢ b → not (a == b) ≡ true
not_equal a b h = ground arith

-- In slide mode, on a loaded page with its slides in order at k: where `showSlide` flips to another slide
-- and back to k before the callback that settles the first flip has run, that callback still waits, and
-- when it runs it leaves the slide at k selected without `active` and `animate`. The timer that
-- `window.elementAnimation` names, if any, is one that was set.
pub flip_and_return :
    (c : Config) (screen : Screen) (k j : ℕ) (p : Page)
    → scrolls c ≡ false
    → c.set_stage_classes ≡ true
    → p.loaded ≡ true
    → ((h : ℕ) → p.element_animation ≡ some h → h < p.next_handle)
    → k < stages p
    → j < stages p
    → j ≢ k
    → InOrder k p.slides
    → let q = show_slide c (suc j) p in
      let r = show_slide c (suc k) q in
      (t : Timer) × Waits t q.pending
      × Waits t r.pending
      × (p.next_handle ≤ t.handle)
      × (t.delay ≡ c.effect_speed)
      × ((s : Slide) × (get_elem? (fire c screen t r).slides k ≡ some s)
          × (s.selected ≡ true)
          × (s.active ≡ false)
          × (s.animate ≡ false))
unfolding fire run_task
flip_and_return c screen k j p flips classes loaded past inside other moved o =
    let (s, e) = get_elem?_lt r.slides k there in
    (
      t,
      left.waiting,
      show_slide-Waits c (suc k) t q flips ((show_slide-Keeps c (suc j) p).loaded ∙ loaded)
          left.unnamed left.waiting,
      left.new_timer,
      left.delayed,
      rw settles (
          run_settle_selected _ k (record r { pending = without (some t.handle) r.pending }) e
            ((returned k s e).0 ∙ ground arith) (contains_current k p.slides inside o)),
    )
  where
    q : Page
    q = show_slide c (suc j) p

    r : Page
    r = show_slide c (suc k) q

    t : Timer
    t = (show_slide-IsSettling c (suc j) p flips loaded past).0

    left : IsSettling c (suc j) p q t
    left = (show_slide-IsSettling c (suc j) p flips loaded past).1

    away : current_number p.slides ≢ suc j
    away e = moved (omega (arith, e, current_number-InOrder k p.slides inside o))

    back : current_number q.slides ≢ suc k
    back e = moved (omega (arith, e, current_number-show_slide c j p flips classes other away))

    kept : k < stages q
    kept = omega (arith, (show_slide-Keeps c (suc j) p).stages_kept)

    there : k < stages (show_slide c (suc k) q)
    there = omega (arith, kept, (show_slide-Keeps c (suc k) q).stages_kept)

    returned : InOrder k (show_slide c (suc k) q).slides
    returned = show_slide-InOrder c k q flips classes kept (inl back)

    settles : t.task ≡ settle true (indices_from 0 is_current p.slides)
    settles =
        left.task_of
        ∙ ap (λ b. settle b (indices_from 0 is_current p.slides))
            (not_equal (current_number p.slides) (suc j) away)
