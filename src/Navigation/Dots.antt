-- ===== src/Navigation/Dots.antt =====
-- Which dot of the navigation is selected (resource/js/slides.js, `updateNavigation`).
use mathlib.Core.Option
use net_frame.Common.{
  ℕ, zero, suc, ◌+◌, ◌≤◌, ◌<◌, ◌≡◌, refl, ◌∙◌, ap, inl, inr, Bool, true, false, some, List, [], ◌∷◌,
  ◌==◌, if◌then◌else◌, arith, length, map, get_elem?, find_index, index_from, indices_from,
  get_elem?-update_where, get_elem?_lt, Bool-cases,
}
use net_frame.Page.{Page, Slide, stages}
use net_frame.Slides.Show.{is_current, is_at}
use native.Mathlib.Nat.{zero-add}
use net_frame.Slides.Order.{InOrder}
use net_frame.Slides.Current.{find_index-InOrder}
use net_frame.Navigation.{listed, rank, dot_of, run_refresh_navigation}

if_self : (b : Bool) → some (if b then true else false) ≡ some b
if_self true = refl
if_self false = refl

get_elem?-cleared :
    (dots : List Bool) (k : ℕ)
    → get_elem? (map (λ _. false) dots) k ≡ Option.map (λ _. false) (get_elem? dots k)
get_elem?-cleared [] k = refl
get_elem?-cleared (d ∷ ds) zero = refl
get_elem?-cleared (d ∷ ds) (suc k) = get_elem?-cleared ds k

-- After the callback of `updateNavigation` every dot is selected exactly if it is the dot of the slide
-- that is selected, or else of its parent: at most one dot is.
pub run_refresh_navigation-dots :
    (k : ℕ) (p : Page)
    → k < length p.navigation
    → get_elem? (run_refresh_navigation p).navigation k
      ≡ some (is_at (dot_of p.slides p.navigation) k)
unfolding run_refresh_navigation
run_refresh_navigation-dots k p inside =
    let (d, e) = get_elem?_lt p.navigation k inside in
    simp (get_elem?-update_where, get_elem?-cleared, e)
      (if_self (is_at (dot_of p.slides p.navigation) k))

-- The positions that `indices_from` lists rise.
indices_from-ge :
    (n k : ℕ) (test : Slide → Bool) (ss : List Slide) {i : ℕ}
    → get_elem? (indices_from n test ss) k ≡ some i
    → n ≤ i
unfolding indices_from
indices_from-ge n k test [] h = cc
indices_from-ge n zero test (s ∷ ss) h = elim (Bool-cases (test s)) [
  | inl e ↦ let first = rw e at h in ground arith
  | inr e ↦ let later = indices_from-ge (suc n) zero test ss (rw e at h) in omega arith
]
indices_from-ge n (suc k) test (s ∷ ss) h = elim (Bool-cases (test s)) [
  | inl e ↦ let later = indices_from-ge (suc n) k test ss (rw e at h) in omega arith
  | inr e ↦ let later = indices_from-ge (suc n) (suc k) test ss (rw e at h) in omega arith
]

-- So each is found where it stands.
index_from-indices_from :
    (m n k : ℕ) (test : Slide → Bool) (ss : List Slide) {i : ℕ}
    → get_elem? (indices_from n test ss) k ≡ some i
    → index_from m (λ j. j == i) (indices_from n test ss) ≡ some (m + k)
unfolding indices_from index_from
index_from-indices_from m n k test [] h = cc
index_from-indices_from m n zero test (s ∷ ss) h = elim (Bool-cases (test s)) [
  | inl e ↦ rw e (let first = rw e at h in ground arith)
  | inr e ↦ rw e (index_from-indices_from m (suc n) zero test ss (rw e at h))
]
index_from-indices_from m n (suc k) test (s ∷ ss) {i} h = elim (Bool-cases (test s)) [
  | inl e ↦
      let rest : get_elem? (indices_from (suc n) test ss) k ≡ some i = rw e at h in
      let later = indices_from-ge (suc n) k test ss rest in
      let found = index_from-indices_from (suc m) (suc n) k test ss rest in rw e (ground arith)
  | inr e ↦ rw e (index_from-indices_from m (suc n) (suc k) test ss (rw e at h))
]

rank-listed :
    (ss : List Slide) (i k : ℕ) → get_elem? (listed ss) k ≡ some i → rank (some i) ss ≡ some k
unfolding rank listed find_index
rank-listed ss i k h = rw zero-add at (index_from-indices_from 0 0 k _ ss h)

dot_of-listed :
    (ss : List Slide) (dots : List Bool) (i k : ℕ)
    → find_index is_current ss ≡ some i
    → get_elem? (listed ss) k ≡ some i
    → dot_of ss dots ≡ some k
unfolding dot_of
dot_of-listed ss dots i k e h = rw (e, dot_of, rank-listed ss i k h)

-- When the slides are in order around the slide at i, and this is the k-th slide of the navigation,
-- the callback of `updateNavigation` selects the dot at k and no other.
pub run_refresh_navigation-InOrder :
    (i k j : ℕ) (p : Page)
    → i < stages p
    → InOrder i p.slides
    → get_elem? (listed p.slides) k ≡ some i
    → j < length p.navigation
    → get_elem? (run_refresh_navigation p).navigation j ≡ some (j == k)
run_refresh_navigation-InOrder i k j p inside o h there =
    let dot = dot_of-listed p.slides p.navigation i k (find_index-InOrder i p.slides inside o) h in
    run_refresh_navigation-dots j p there ∙ ap (λ d. some (is_at d j)) dot
