-- ===== src/Panels/Counter.antt =====
-- The counter that hides and shows panels (resource/js/slides.js, "HIDE PANELS ON SCROLL").
use net_frame.Common.{
  ℕ, ◌+◌, ◌-◌, ◌*◌, ◌≤◌, ◌<◌, ◌≡◌, refl, ◌⊎◌, inl, inr, Bool, Bool-cases, true, false, Option, List,
  [], ◌∷◌, leb, if◌then◌else◌, arith,
}
use net_frame.Panels.{
  Panels, Turn, goes_down, is_low, scroll_down, scroll_up, near_edge, turn_panels, turns_panels,
}

-- The counter is bounded, and panels are hidden only while it is above a fifth of the bound.
pub record IsSettled (sensitivity : ℕ) (p : Panels) : Type 0 where
  pub bounded : p.counter ≤ sensitivity
  pub high : (p.hide ≡ false) ⊎ (sensitivity < 5 * p.counter)

module _ (sensitivity : ℕ) (some_sensitivity : 0 < sensitivity) where
  scroll_down-IsSettled :
      (size : ℕ) (p : Panels)
      → IsSettled sensitivity p
      → IsSettled sensitivity (scroll_down sensitivity size p)
  unfolding scroll_down
  scroll_down-IsSettled size p s = elim (Bool-cases (leb sensitivity (p.counter + size))) [
    | inl e ↦ rw e record { bounded = omega arith; high = inr (omega arith) }
    | inr e ↦ rw e record { bounded = ground arith; high = grown s.high }
  ]
    where
      grown :
          (p.hide ≡ false) ⊎ (sensitivity < 5 * p.counter)
          → (p.hide ≡ false) ⊎ (sensitivity < 5 * (p.counter + size))
      grown (inl e) = inl e
      grown (inr h) = inr (omega arith)

  scroll_up-IsSettled :
      (size : ℕ) (p : Panels)
      → IsSettled sensitivity p
      → IsSettled sensitivity (scroll_up sensitivity size p)
  unfolding scroll_up
  scroll_up-IsSettled size p s = elim (Bool-cases (is_low sensitivity (p.counter - size))) [
    | inl e ↦ rw e record { bounded = omega arith; high = inl refl }
    | inr e ↦ rw e record { bounded = omega (arith, s.bounded); high = inr (ground arith) }
  ]

  edge-IsSettled :
      (edge : Bool) (last : Option ℕ) (p : Panels)
      → IsSettled sensitivity p
      → IsSettled sensitivity
          (record p { last_scroll_top = last; hide = if edge then false else p.hide })
  edge-IsSettled true last p s = record { bounded = s.bounded; high = inl refl }
  edge-IsSettled false last p s = record { bounded = s.bounded; high = s.high }

  pub turn_panels-IsSettled :
      (t : Turn) (p : Panels)
      → IsSettled sensitivity p
      → IsSettled sensitivity (turn_panels sensitivity t p)
  unfolding turn_panels
  turn_panels-IsSettled t p s = elim (Bool-cases (goes_down t p.last_scroll_top)) [
    | inl e ↦
        rw e
          (edge-IsSettled (near_edge sensitivity t) _ _ (scroll_down-IsSettled t.scroll_size p s))
    | inr e ↦
        rw e (edge-IsSettled (near_edge sensitivity t) _ _ (scroll_up-IsSettled t.scroll_size p s))
  ]

  -- Whatever turns of the wheel follow each other, if it holds before them it holds after them: the
  -- counter stays within the sensitivity, which is not 0, and panels are hidden only while it is above
  -- a fifth of the sensitivity.
  pub turns_panels-IsSettled :
      (ts : List Turn) (p : Panels)
      → IsSettled sensitivity p
      → IsSettled sensitivity (turns_panels sensitivity ts p)
  unfolding turns_panels
  turns_panels-IsSettled [] p s = s
  turns_panels-IsSettled (t ∷ ts) p s =
      turns_panels-IsSettled ts (turn_panels sensitivity t p) (turn_panels-IsSettled t p s)
