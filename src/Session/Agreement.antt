-- ===== src/Session/Agreement.antt =====
-- The slide on stage is the slide that is selected (resource/js/slides.js), while the lock is free: what
-- a page of slide mode keeps, and the handlers that leave the slides and the stage alone.
pub mod Overlays
pub mod Show
pub mod Slides
pub mod Input
pub mod Callbacks
pub mod Steps
use net_frame.Common.{
  ℕ, zero, suc, ◌+◌, get_elem?, ◌≤◌, ◌<◌, ◌≡◌, refl, ◌⊎◌, inl, inr, Bool, true, false, ◌||◌, Option,
  none, some, List, [], ◌∷◌, if◌then◌else◌, arith,
}
use net_frame.Page.{Page, Slide, Timer, Task, stages, release_action}
use net_frame.Page.Timers.{drop_timer, without}
use net_frame.Slides.Show.{eq_slide}
use net_frame.Slides.Order.{InOrder}
use net_frame.Session.Lock.{is_unlock}

unfoldable pub is_release : Task → Bool
is_release release_action = true
is_release t = false

-- The lock is about to be freed.
unfoldable pub releases : List Timer → Bool
releases [] = false
releases (t ∷ ts) = is_release t.task || releases ts

-- How many callbacks wait that set or free the lock.
unfoldable pub unlock_count : List Timer → ℕ
unlock_count [] = 0
unlock_count (t ∷ ts) = let rest = unlock_count ts in if is_unlock t.task then suc rest else rest

-- The slide that `$('.slide').eq(stage - 1)` finds is at k, or a flip to it is still on its way.
abbrev pub IsUpToDate : ℕ → Page → Type 0
IsUpToDate k p =
    (eq_slide p.stage p.slides ≡ some k)
    ⊎ ((p.in_action ≡ true) × (p.loaded ≡ true) × (releases p.pending ≡ false))

-- A page in slide mode. Callbacks for the lock wait only while it is held, on a page that is loaded.
pub record IsIdle (p : Page) : Type 0 where
  pub some_slide : 0 < stages p
  pub on_stage : p.stage ≤ stages p
  pub single : unlock_count p.pending ≤ 1
  pub idle : (p.in_action ≡ true) ⊎ (unlock_count p.pending ≡ 0)
  pub early : (p.loaded ≡ true) ⊎ ((p.in_action ≡ true) × (unlock_count p.pending ≡ 0))

-- The slide at k is selected, and the others are placed around it.
pub record IsShown (k : ℕ) (p : Page) : Type 0 where
  pub inside : k < stages p
  pub order : InOrder k p.slides
  pub shown : IsUpToDate k p
  pub base : IsIdle p

abbrev pub Agrees : Page → Type 0
Agrees p = (k : ℕ) × IsShown k p

-- No callback for the lock comes in.
abbrev pub Fewer : List Timer → List Timer → Type 0
Fewer ts us = (unlock_count us ≤ unlock_count ts) × ((releases us ≡ false) ⊎ (releases ts ≡ true))

-- What does not concern the agreement.
pub record IsApart (p q : Page) : Type 0 where
  pub same_stage : q.stage ≡ p.stage
  pub same_lock : q.in_action ≡ p.in_action
  pub same_loaded : q.loaded ≡ p.loaded
  pub same_slides : q.slides ≡ p.slides
  pub fewer : Fewer p.pending q.pending

Fewer-drop_timer : (h : ℕ) (ts : List Timer) → Fewer ts (drop_timer h ts)
unfolding drop_timer unlock_count releases
Fewer-drop_timer h [] = (omega arith, inl refl)
Fewer-drop_timer h (t ∷ ts) = ground (arith, Fewer-drop_timer h ts)

Fewer-refl : (ts : List Timer) → Fewer ts ts
Fewer-refl ts = ground arith

pub Fewer-without : (o : Option ℕ) (ts : List Timer) → Fewer ts (without o ts)
unfolding without
Fewer-without none ts = Fewer-refl ts
Fewer-without (some h) ts = Fewer-drop_timer h ts

pub not-releases : (ts : List Timer) → unlock_count ts ≡ 0 → releases ts ≡ false
unfolding unlock_count releases is_unlock is_release
not-releases [] e = refl
not-releases (t ∷ ts) e = ground (arith, not-releases ts)

-- A callback for the lock that runs is out of the list first.
pub unlock_count-drop_timer :
    (ts : List Timer) (k : ℕ) (t : Timer)
    → get_elem? ts k ≡ some t
    → is_unlock t.task ≡ true
    → unlock_count (drop_timer t.handle ts) + 1 ≤ unlock_count ts
unfolding unlock_count drop_timer
unlock_count-drop_timer [] k t found frees = ground arith
unlock_count-drop_timer (u ∷ ts) zero t found frees =
    ground (arith, (Fewer-drop_timer u.handle ts).0)
unlock_count-drop_timer (u ∷ ts) (suc k) t found frees =
    ground (arith, unlock_count-drop_timer ts k t found frees)

pub releases-get_elem? :
    (ts : List Timer) (k : ℕ) (t : Timer)
    → get_elem? ts k ≡ some t
    → is_release t.task ≡ true
    → releases ts ≡ true
unfolding releases
releases-get_elem? [] k t found frees = ground arith
releases-get_elem? (u ∷ ts) zero t found frees = ground arith
releases-get_elem? (u ∷ ts) (suc k) t found frees =
    ground (arith, releases-get_elem? ts k t found frees)

IsApart-IsIdle : {p q : Page} → IsApart p q → IsIdle p → IsIdle q
IsApart-IsIdle {p} {q} h v = ground (arith, h.fewer, v.idle, v.early)

pub IsApart-IsShown : {p q : Page} (k : ℕ) → IsApart p q → IsShown k p → IsShown k q
IsApart-IsShown {p} {q} k h v = record {
  inside = rw h.same_slides v.inside;
  order = rw h.same_slides v.order;
  shown =
      rw (h.same_stage, h.same_slides)
        (ground (arith, h.fewer, v.shown, h.same_lock, h.same_loaded));
  base = IsApart-IsIdle h v.base;
}

pub IsApart-Agrees : {p q : Page} → IsApart p q → Agrees p → Agrees q
IsApart-Agrees h (k, v) = (k, IsApart-IsShown k h v)

pub if-Agrees : (b : Bool) {p q : Page} → Agrees p → Agrees q → Agrees (if b then p else q)
if-Agrees true v w = v
if-Agrees false v w = w
