-- ===== src/Session/Lock.antt =====
-- The lock `window.inAction` (resource/js/slides.js, `changeSlide`): the callbacks that release it, and
-- that no `clearTimeout` takes them away.
pub mod Kept
use net_frame.Common.{
  ℕ, zero, suc, ◌+◌, ◌<◌, ◌≡◌, refl, ◌⊎◌, inl, inr, ap, Bool-cases, Bool, true, false, not, ◌&&◌,
  ◌||◌, Option, none, some, List, [], ◌∷◌, ◌==◌, ltb, if◌then◌else◌, arith, get_elem?,
}
use net_frame.Page.{Timer, Task, show_stage, release_action}
use net_frame.Page.Timers.{without, drop_timer}

-- The callbacks of `changeSlide`, of which the first sets the second and the second frees the lock.
unfoldable pub is_unlock : Task → Bool
is_unlock show_stage = true
is_unlock release_action = true
is_unlock t = false

unfoldable pub unlocks : List Timer → Bool
unlocks [] = false
unlocks (t ∷ ts) = is_unlock t.task || unlocks ts

-- The handle of a callback that frees the lock.
unfoldable pub unlocks_at : ℕ → List Timer → Bool
unlocks_at h [] = false
unlocks_at h (t ∷ ts) = t.handle == h && is_unlock t.task || unlocks_at h ts

abbrev pub is_safe : Option ℕ → List Timer → Bool
is_safe none ts = true
is_safe (some h) ts = not (unlocks_at h ts)

unfoldable pub all_below : ℕ → List Timer → Bool
all_below n [] = true
all_below n (t ∷ ts) = ltb t.handle n && all_below n ts

unfoldable pub has_handle : ℕ → List Timer → Bool
has_handle h [] = false
has_handle h (t ∷ ts) = t.handle == h || has_handle h ts

unfoldable pub are_apart : List Timer → Bool
are_apart [] = true
are_apart (t ∷ ts) = not (has_handle t.handle ts) && are_apart ts

abbrev pub is_past : Option ℕ → ℕ → Bool
is_past none n = true
is_past (some h) n = ltb h n

-- What the callbacks that wait and the handles that are stored are to one another: handles are given
-- once, and a handle that is stored is not that of a callback for the lock.
pub record IsOrdered (n : ℕ) (ts : List Timer) (r k e : Option ℕ) : Type 0 where
  pub fresh : all_below n ts ≡ true
  pub apart : are_apart ts ≡ true
  pub safe_removal : is_safe r ts ≡ true
  pub safe_cleanup : is_safe k ts ≡ true
  pub safe_animation : is_safe e ts ≡ true
  pub past_removal : is_past r n ≡ true
  pub past_cleanup : is_past k n ≡ true
  pub past_animation : is_past e n ≡ true

-- On a page that is loaded, a lock that is held has a callback that waits and frees it; `waived` is for
-- the moment at which this callback runs.
pub record IsTimed (waived locked loaded : Bool) (n : ℕ) (ts : List Timer) (r k e : Option ℕ)
    : Type 0 where
  pub released : (waived ≡ true) ⊎ ((locked ≡ false) ⊎ ((loaded ≡ false) ⊎ (unlocks ts ≡ true)))
  pub ordered : IsOrdered n ts r k e

pub all_below-suc : (n : ℕ) (ts : List Timer) → all_below n ts ≡ true → all_below (n + 1) ts ≡ true
unfolding all_below
all_below-suc n [] h = refl
all_below-suc n (t ∷ ts) h = ground (arith, all_below-suc n ts)

pub not-has_handle : (n : ℕ) (ts : List Timer) → all_below n ts ≡ true → has_handle n ts ≡ false
unfolding all_below has_handle
not-has_handle n [] h = refl
not-has_handle n (t ∷ ts) h = ground (arith, not-has_handle n ts)

pub unlocks_at-has_handle :
    (h : ℕ) (ts : List Timer) → has_handle h ts ≡ false → unlocks_at h ts ≡ false
unfolding has_handle unlocks_at
unlocks_at-has_handle h [] e = refl
unlocks_at-has_handle h (t ∷ ts) e = ground (arith, unlocks_at-has_handle h ts)

-- A callback that is dropped.
pub unlocks-drop_timer :
    (h : ℕ) (ts : List Timer) → unlocks_at h ts ≡ false → unlocks (drop_timer h ts) ≡ unlocks ts
unfolding unlocks unlocks_at drop_timer
unlocks-drop_timer h [] e = refl
unlocks-drop_timer h (t ∷ ts) e = ground (arith, unlocks-drop_timer h ts)

unlocks_at-drop_timer :
    (g h : ℕ) (ts : List Timer) → unlocks_at g ts ≡ false → unlocks_at g (drop_timer h ts) ≡ false
unfolding unlocks_at drop_timer
unlocks_at-drop_timer g h [] e = refl
unlocks_at-drop_timer g h (t ∷ ts) e = ground (arith, unlocks_at-drop_timer g h ts)

pub all_below-drop_timer :
    (n h : ℕ) (ts : List Timer) → all_below n ts ≡ true → all_below n (drop_timer h ts) ≡ true
unfolding all_below drop_timer
all_below-drop_timer n h [] e = refl
all_below-drop_timer n h (t ∷ ts) e = ground (arith, all_below-drop_timer n h ts)

has_handle-drop_timer :
    (g h : ℕ) (ts : List Timer) → has_handle g ts ≡ false → has_handle g (drop_timer h ts) ≡ false
unfolding has_handle drop_timer
has_handle-drop_timer g h [] e = refl
has_handle-drop_timer g h (t ∷ ts) e = ground (arith, has_handle-drop_timer g h ts)

pub are_apart-drop_timer :
    (h : ℕ) (ts : List Timer) → are_apart ts ≡ true → are_apart (drop_timer h ts) ≡ true
unfolding are_apart drop_timer
are_apart-drop_timer h [] e = refl
are_apart-drop_timer h (t ∷ ts) e =
    ground (arith, are_apart-drop_timer h ts, has_handle-drop_timer t.handle h ts)

pub is_safe-drop_timer :
    (o : Option ℕ) (h : ℕ) (ts : List Timer)
    → is_safe o ts ≡ true
    → is_safe o (drop_timer h ts) ≡ true
is_safe-drop_timer none h ts e = refl
is_safe-drop_timer (some g) h ts e = ground (arith, unlocks_at-drop_timer g h ts)

-- A handle that was given before is not the next one.
pub is_safe-cons :
    (o : Option ℕ) (n : ℕ) (t : Timer) (ts : List Timer)
    → t.handle ≡ n
    → is_past o n ≡ true
    → is_safe o ts ≡ true
    → is_safe o (t ∷ ts) ≡ true
unfolding unlocks_at
is_safe-cons none n t ts e p s = refl
is_safe-cons (some h) n t ts e p s = ground arith

pub is_past-suc : (o : Option ℕ) (n : ℕ) → is_past o n ≡ true → is_past o (n + 1) ≡ true
is_past-suc none n h = refl
is_past-suc (some g) n h = ground arith

has_handle-get_elem? :
    (ts : List Timer) (k : ℕ) (t : Timer) → get_elem? ts k ≡ some t → has_handle t.handle ts ≡ true
unfolding has_handle
has_handle-get_elem? [] k t e = ground arith
has_handle-get_elem? (u ∷ ts) zero t e = ground arith
has_handle-get_elem? (u ∷ ts) (suc k) t e = ground (arith, has_handle-get_elem? ts k t e)

-- A callback that runs and is not for the lock shares its handle with none that is.
pub unlocks_at-get_elem? :
    (ts : List Timer) (k : ℕ) (t : Timer)
    → get_elem? ts k ≡ some t
    → are_apart ts ≡ true
    → is_unlock t.task ≡ false
    → unlocks_at t.handle ts ≡ false
unfolding unlocks_at are_apart
unlocks_at-get_elem? [] k t e apart other = ground arith
unlocks_at-get_elem? (u ∷ ts) zero t e apart other =
    ground (arith, unlocks_at-has_handle u.handle ts)
unlocks_at-get_elem? (u ∷ ts) (suc k) t e apart other =
    ground (arith, unlocks_at-get_elem? ts k t e, has_handle-get_elem? ts k t e)
