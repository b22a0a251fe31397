-- ===== src/Session/Agreement/Show.antt =====
-- The slide on stage and the slide that is selected (resource/js/slides.js): `showSlide`.
use net_frame.Common.{
  ℕ, zero, suc, ◌≤◌, ◌<◌, ◌≡◌, ◌≢◌, ◌∙◌, refl, ◌⊎◌, inl, inr, Bool, Bool-cases, true, false, Option,
  some, List, [], ◌∷◌, ◌==◌, arith, length,
}
use net_frame.Page.{Config, Page, Slide, Timer, Task, release_action, stages, show_stage}
use net_frame.Page.Timers.{without}
use net_frame.Slides.Show.{
  scrolls, eq_slide, current_number, show_slide, present, turn_to, name_and_scroll, flip, decorate,
  clean_up, animate_loaded,
}
use net_frame.Slides.Frame.{show_slide-Keeps}
use net_frame.Slides.Order.{InOrder, show_slide_found-InOrder}
use net_frame.Slides.Current.{current_number-InOrder}
use net_frame.Session.Lock.{is_unlock}
use net_frame.Session.Agreement.{
  is_release, releases, unlock_count, IsIdle, IsShown, Fewer, Agrees, Fewer-without,
}

Fewer-trans : (ts us vs : List Timer) → Fewer ts us → Fewer us vs → Fewer ts vs
Fewer-trans ts us vs a b = ground (arith, a, b)

not-is_release : (t : Task) → is_unlock t ≡ false → is_release t ≡ false
unfolding is_unlock is_release
not-is_release show_stage e = refl
not-is_release release_action e = absurd (ground arith)
not-is_release _ e = refl

clean_up-Fewer : (p : Page) → Fewer p.pending (clean_up p).pending
unfolding clean_up unlock_count releases is_unlock is_release
clean_up-Fewer p = ground arith

turn_to-Fewer :
    (c : Config) (r : ℕ) (changed : Bool) (new : Option ℕ) (p : Page)
    → Fewer p.pending (turn_to c r changed new p).pending
unfolding turn_to name_and_scroll flip decorate
turn_to-Fewer c r changed new p = ground (arith, clean_up-Fewer p)

Fewer-cons : (t : Timer) (ts : List Timer) → is_unlock t.task ≡ false → Fewer ts (t ∷ ts)
unfolding unlock_count releases
Fewer-cons t ts other = let not_release = not-is_release t.task other in ground arith

three_timers :
    (o : Option ℕ) (a b m : Timer) (ts : List Timer)
    → is_unlock a.task ≡ false
    → is_unlock b.task ≡ false
    → is_unlock m.task ≡ false
    → Fewer ts (m ∷ without o (b ∷ a ∷ ts))
three_timers o a b m ts in_a in_b in_m = Fewer-trans _ _ _ (Fewer-cons a ts in_a) (
    Fewer-trans _ _ _ (Fewer-cons b _ in_b)
      (Fewer-trans _ _ _ (Fewer-without o _) (Fewer-cons m _ in_m)))

animate_loaded-Fewer :
    (c : Config) (changed : Bool) (old : List ℕ) (new : Option ℕ) (p : Page)
    → Fewer p.pending (animate_loaded c changed old new p).pending
unfolding animate_loaded is_unlock
animate_loaded-Fewer c changed old new p = elim (Bool-cases p.loaded) [
  | inl e ↦ rw e (three_timers p.element_animation _ _ _ p.pending refl refl refl)
  | inr e ↦ rw e (ground arith)
]

pub show_slide-Fewer : (c : Config) (r : ℕ) (p : Page) → Fewer p.pending (show_slide c r p).pending
unfolding show_slide present
show_slide-Fewer c r p = elim (Bool-cases (scrolls c)) [
  | inl e ↦ rw e (ground arith)
  | inr e ↦ rw e (Fewer-trans _ _ _ (turn_to-Fewer c r _ _ p) (animate_loaded-Fewer c _ _ _ _))
]

show_slide-IsIdle : (c : Config) (r : ℕ) {p : Page} → IsIdle p → IsIdle (show_slide c r p)
show_slide-IsIdle c r {p} v =
    let kept = show_slide-Keeps c r p in
    ground (
      arith,
      show_slide-Fewer c r p,
      kept.stage,
      kept.in_action,
      kept.loaded,
      kept.stages_kept,
      v.single,
      v.idle,
      v.early,
    )

-- Either the slides are placed, or none is selected yet.
abbrev pub AreReady : Page → Type 0
AreReady p =
    ((current_number p.slides ≡ 0) × (1 ≤ p.stage))
    ⊎ ((k : ℕ) × (k < stages p) × InOrder k p.slides)

-- The slide that a stage asks for.
found_at :
    (n : ℕ) (ss : List Slide)
    → 0 < length ss
    → n ≤ length ss
    → (k : ℕ) × (k < length ss) × (eq_slide n ss ≡ some k)
found_at zero [] some_slide inside = absurd (omega arith)
found_at zero (s ∷ ss) some_slide inside = (length ss, omega arith, refl)
found_at (suc k) ss some_slide inside = (k, omega arith, ground arith)

pub eq_slide-length :
    (n : ℕ) (ss ts : List Slide) → length ts ≡ length ss → eq_slide n ts ≡ eq_slide n ss
eq_slide-length zero [] [] e = refl
eq_slide-length zero [] (t ∷ ts) e = absurd (omega (arith, e))
eq_slide-length zero (s ∷ ss) [] e = absurd (omega (arith, e))
eq_slide-length zero (s ∷ ss) (t ∷ ts) e = ground arith
eq_slide-length (suc k) ss ts e = rw e refl

module _ (c : Config) (flips : scrolls c ≡ false) (classes : c.set_stage_classes ≡ true) where
  starts :
      (p : Page) (k : ℕ)
      → eq_slide p.stage p.slides ≡ some k
      → AreReady p
      → (current_number p.slides ≢ p.stage) ⊎ InOrder k p.slides
  starts p k there (inl (none_selected, low)) = inl (λ h. omega (arith, none_selected))
  starts p k there (inr (j, inside, o)) =
      let now = current_number-InOrder j p.slides inside o in
      elim (Bool-cases (p.stage == suc j)) [
        | inl e ↦
            let same : p.stage ≡ suc j = ground arith in
            let at_j : j ≡ k = ground (arith, there, same, inside) in inr (rw (← at_j) o)
        | inr e ↦ inl (λ h. ground (arith, now))
      ]

  -- `showSlide` of the stage brings the slide that is selected up to date.
  pub show_slide-IsShown :
      {p : Page}
      → IsIdle p
      → AreReady p
      → let q = show_slide c p.stage p in
        (k : ℕ) × IsShown k q × (eq_slide q.stage q.slides ≡ some k)
  show_slide-IsShown {p} v ready =
      let (k, inside, there) = found_at p.stage p.slides v.some_slide v.on_stage in
      let kept = show_slide-Keeps c p.stage p in
      let q = show_slide c p.stage p in
      let up_to_date : eq_slide q.stage q.slides ≡ some k =
        rw kept.stage (eq_slide-length p.stage p.slides _ kept.stages_kept ∙ there) in
      (
        k,
        record {
          inside = omega (arith, kept.stages_kept);
          order =
              show_slide_found-InOrder c p.stage k p flips classes there (starts p k there ready);
          shown = inl up_to_date;
          base = show_slide-IsIdle c p.stage v;
        },
        up_to_date,
      )

  pub show_slide-Agrees : {p : Page} → IsIdle p → AreReady p → Agrees (show_slide c p.stage p)
  show_slide-Agrees v ready = let (k, w, _) = show_slide-IsShown v ready in (k, w)

  pub Agrees-AreReady : {p : Page} → Agrees p → AreReady p
  Agrees-AreReady (k, v) = inr (k, v.inside, v.order)
