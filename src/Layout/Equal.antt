-- ===== src/Layout/Equal.antt =====
-- Equal elements get the height of the highest (resource/js/slides.js, `equalizeElements`).
use net_frame.Common.{
  ℕ, zero, suc, ◌≤◌, ◌≡◌, refl, ◌⊎◌, inl, inr, true, false, ◌||◌, none, some, List, [], ◌∷◌, ltb,
  map, arith, get_elem?, Bool-cases, if◌then◌else◌,
}
use net_frame.Layout.{Grid, collapse_width, reaches, fetch_height, equalize}

-- Independent of the code: the greatest number of a list that is not empty.
abbrev pub IsGreatest : ℕ → List ℕ → Type 0
IsGreatest m hs =
    ((i : ℕ) (h : ℕ) → get_elem? hs i ≡ some h → h ≤ m) × ((i : ℕ) × (get_elem? hs i ≡ some m))

fetch_height_above : (start : ℕ) (hs : List ℕ) → start ≤ fetch_height start hs
unfolding fetch_height
fetch_height_above start [] = omega arith
fetch_height_above start (h ∷ hs) =
    ground (arith, fetch_height_above (if ltb start h then h else start) hs)

fetch_height_bounds :
    (start : ℕ) (hs : List ℕ) (i h : ℕ) → get_elem? hs i ≡ some h → h ≤ fetch_height start hs
unfolding fetch_height
fetch_height_bounds start [] i h e = cc
fetch_height_bounds start (x ∷ xs) zero h e =
    ground (arith, fetch_height_above (if ltb start x then x else start) xs)
fetch_height_bounds start (x ∷ xs) (suc i) h e =
    fetch_height_bounds (if ltb start x then x else start) xs i h e

fetch_height_attained :
    (start : ℕ) (hs : List ℕ)
    → (fetch_height start hs ≡ start) ⊎ ((i : ℕ) × (get_elem? hs i ≡ some (fetch_height start hs)))
unfolding fetch_height
fetch_height_attained start [] = inl refl
fetch_height_attained start (x ∷ xs) = elim (Bool-cases (ltb start x)) [
  | inl e ↦ rw e (elim (fetch_height_attained x xs) [
    | inl f ↦ inr (0, rw f refl)
    | inr (i, f) ↦ inr (suc i, f)
  ])
  | inr e ↦
      rw e (elim (fetch_height_attained start xs) [ inl f ↦ inl f | inr (i, f) ↦ inr (suc i, f) ])
]

-- Where a grid is wide enough, or has the class `equalMobile`, all of its equal elements get one height,
-- the greatest that one of them has by itself.
pub equalize-IsGreatest :
    (width h : ℕ) (hs : List ℕ) (g : Grid)
    → (reaches width (collapse_width g.later g.collapse) || g.equal_mobile) ≡ true
    → (m : ℕ) × IsGreatest m (h ∷ hs)
      × ((equalize width (h ∷ hs) g).heights ≡ map (λ _. some m) (h ∷ hs))
unfolding equalize
equalize-IsGreatest width h hs g wide =
    let m = fetch_height 0 (h ∷ hs) in
    (
      m,
      (
        fetch_height_bounds 0 (h ∷ hs),
        elim (fetch_height_attained 0 (h ∷ hs)) [
          | inl e ↦ (0, ground (arith, fetch_height_bounds 0 (h ∷ hs) 0 h refl))
          | inr found ↦ found
        ],
      ),
      rw wide refl,
    )

-- Elsewhere all heights are automatic, whatever they were.
equalize_auto :
    (width : ℕ) (hs : List ℕ) (g : Grid)
    → (reaches width (collapse_width g.later g.collapse) || g.equal_mobile) ≡ false
    → (equalize width hs g).heights ≡ map (λ _. none) hs
unfolding equalize
equalize_auto width hs g narrow = rw narrow refl
