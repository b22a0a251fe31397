-- ===== src/Slides/Current.antt =====
-- The number of the slide that is selected (resource/js/slides.js, `showSlide`), where the slides stand
-- in order.
use native.Mathlib.Nat.{add-zero, zero-add}
use net_frame.Common.{
  ℕ, zero, suc, ◌+◌, ◌<◌, ◌≡◌, refl, ◌≢◌, inl, true, false, some, List, [], ◌∷◌, arith, length,
  find_index, index_from,
}
use net_frame.Page.{Config, Page, Slide, stages}
use net_frame.Slides.Frame.{show_slide-Keeps}
use net_frame.Slides.Show.{scrolls, is_current, current_number, show_slide}
use net_frame.Slides.Order.{InOrder, show_slide-InOrder}

index_from-InOrder :
    (n k : ℕ) (ss : List Slide)
    → k < length ss
    → InOrder k ss
    → index_from n is_current ss ≡ some (n + k)
unfolding index_from
index_from-InOrder n k [] h o = absurd (omega arith)
index_from-InOrder n zero (s ∷ ss) h o = rw ((o 0 s refl).0, add-zero)
index_from-InOrder n (suc k) (s ∷ ss) h o = ground (
  arith,
  o 0 s refl,
  index_from-InOrder (suc n) k ss (omega arith)
      (λ i t e. let shifted = o (suc i) t e in ground arith),
)

pub find_index-InOrder :
    (k : ℕ) (ss : List Slide) → k < length ss → InOrder k ss → find_index is_current ss ≡ some k
unfolding find_index
find_index-InOrder k ss h o = rw zero-add at (index_from-InOrder 0 k ss h o)

pub current_number-InOrder :
    (k : ℕ) (ss : List Slide) → k < length ss → InOrder k ss → current_number ss ≡ suc k
unfolding current_number
current_number-InOrder k ss h o = rw (find_index-InOrder k ss h o) (omega arith)

-- In slide mode, `showSlide` of a slide that exists and is not selected first makes it the selected
-- one: `$('.slide.selected').index('.slide') + 1` is then the number that was asked for.
pub current_number-show_slide :
    (c : Config) (k : ℕ) (p : Page)
    → scrolls c ≡ false
    → c.set_stage_classes ≡ true
    → k < stages p
    → current_number p.slides ≢ suc k
    → current_number (show_slide c (suc k) p).slides ≡ suc k
current_number-show_slide c k p flips classes inside other =
    current_number-InOrder k _ (omega (arith, (show_slide-Keeps c (suc k) p).stages_kept))
      (show_slide-InOrder c k p flips classes inside (inl other))
