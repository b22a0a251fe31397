-- ===== src/Slider/Cycle.antt =====
-- A slider goes round (resource/js/slides.js, "Slider").
use native.Mathlib.Nat.{zero-add}
use net_frame.Common.{
  ℕ, zero, suc, ◌+◌, ◌<◌, ◌≡◌, refl, ◌∙◌, false, Option, some, List, [], ◌∷◌, ◌==◌, arith, length,
  get_elem?, find_index, index_from, get_elem?-update_where, length-update_where, map-eq-some,
  get_elem?_lt,
}
use net_frame.Slider.{
  Item, Slider, Leaving, plain, hidden, stuck, leave, is_selected, selected_item, unselect_items,
  select_item, mark_item, is_selected_at,
}

-- Exactly the item at k is selected.
abbrev pub IsAt : ℕ → List Item → Type 0
IsAt k items = (i : ℕ) (s : Item) → get_elem? items i ≡ some s → s.selected ≡ (i == k)

-- A slider of `n` items, two or more, that stands at `k` together with its controller.
pub record StandsAt (n k : ℕ) (s : Slider) : Type 0 where
  pub inside : k < n
  pub items_count : length s.items ≡ n
  pub controls_count : length s.controller ≡ n
  pub items_at : IsAt k s.items
  pub controller_at : IsAt k s.controller

leave-selected : (l : Leaving) (i : Item) → (leave l i).selected ≡ false
unfolding leave
leave-selected plain i = refl
leave-selected hidden i = refl
leave-selected stuck i = refl

module _ (k : ℕ) (hides : Leaving) (items : List Item) where
  pub select_item-IsAt : IsAt k (select_item (some k) (unselect_items hides items))
  unfolding select_item unselect_items
  select_item-IsAt i t h =
      let (s, e, u) =
        map-eq-some _ _ (get_elem?-update_where _ _ (unselect_items hides items) i) h in
      let (r, e2, v) = map-eq-some _ _ (get_elem?-update_where _ _ items i) e in
      ground (arith, leave-selected hides r)

  pub mark_item-IsAt : IsAt k (mark_item (some k) (unselect_items hides items))
  unfolding mark_item unselect_items
  mark_item-IsAt i t h =
      let (s, e, u) =
        map-eq-some _ _ (get_elem?-update_where _ _ (unselect_items hides items) i) h in
      let (r, e2, v) = map-eq-some _ _ (get_elem?-update_where _ _ items i) e in
      ground (arith, leave-selected hides r)

  pub length-select_item :
      (new : Option ℕ) → length (select_item new (unselect_items hides items)) ≡ length items
  unfolding select_item unselect_items
  length-select_item new = length-update_where _ _ _ ∙ length-update_where _ _ items

  pub length-mark_item :
      (new : Option ℕ) → length (mark_item new (unselect_items hides items)) ≡ length items
  unfolding mark_item unselect_items
  length-mark_item new = length-update_where _ _ _ ∙ length-update_where _ _ items

index_from-IsAt :
    (n k : ℕ) (items : List Item)
    → k < length items
    → IsAt k items
    → index_from n is_selected items ≡ some (n + k)
unfolding index_from
index_from-IsAt n k [] h o = absurd (omega arith)
index_from-IsAt n zero (s ∷ ss) h o = ground (arith, o 0 s refl)
index_from-IsAt n (suc k) (s ∷ ss) h o = ground (
  arith,
  o 0 s refl,
  index_from-IsAt (suc n) k ss (omega arith) (λ i t e. let shifted = o (suc i) t e in ground arith),
)

pub selected_item-IsAt :
    (k : ℕ) (items : List Item) → k < length items → IsAt k items → selected_item items ≡ some k
unfolding selected_item find_index
selected_item-IsAt k items h o = rw zero-add at (index_from-IsAt 0 k items h o)

is_selected_at-get_elem? :
    (j : ℕ) (items : List Item) (i : Item)
    → get_elem? items j ≡ some i
    → is_selected_at j items ≡ i.selected
is_selected_at-get_elem? j [] i e = cc
is_selected_at-get_elem? zero (x ∷ xs) i e = cc
is_selected_at-get_elem? (suc j) (x ∷ xs) i e = is_selected_at-get_elem? j xs i e

pub is_selected_at-IsAt :
    (j k : ℕ) (items : List Item)
    → j < length items
    → IsAt k items
    → is_selected_at j items ≡ (j == k)
is_selected_at-IsAt j k items h o =
    let (i, e) = get_elem?_lt items j h in is_selected_at-get_elem? j items i e ∙ o j i e
