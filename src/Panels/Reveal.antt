-- ===== src/Panels/Reveal.antt =====
-- When panels come back (resource/js/slides.js, "HIDE PANELS ON SCROLL").
use net_frame.Common.{
  ℕ, ◌+◌, ◌-◌, ◌*◌, ◌≤◌, ◌<◌, ◌≡◌, refl, inl, inr, true, false, Option, none, some, List, [], ◌∷◌,
  arith,
}
use net_frame.Panels.{Panels, Turn, goes_down, scroll_up, near_edge, turn_panels, turns_panels}
use net_frame.Panels.Counter.{IsSettled, turn_panels-IsSettled}

-- The offset is not greater than the one that is remembered, if there is one.
abbrev pub IsUp : Option ℕ → ℕ → Type 0
IsUp none top = Unit {0}
IsUp (some last) top = top ≤ last

pub data GoesUp : Option ℕ → List Turn → Type 0 where
  no_turn : {last : Option ℕ} → GoesUp last []
  up_turn :
      {last : Option ℕ} {t : Turn} {ts : List Turn}
      → IsUp last t.scroll_top
      → GoesUp (some t.scroll_top) ts
      → GoesUp last (t ∷ ts)

abbrev pub total_size : List Turn → ℕ
total_size [] = 0
total_size (t ∷ ts) = t.scroll_size + total_size ts

last-turn_panels :
    (sensitivity : ℕ) (t : Turn) (p : Panels)
    → (turn_panels sensitivity t p).last_scroll_top ≡ some t.scroll_top
unfolding turn_panels
last-turn_panels sensitivity t p = refl

counter-scroll_up :
    (sensitivity size rest : ℕ) (p : Panels)
    → p.counter ≤ size + rest
    → (scroll_up sensitivity size p).counter ≤ rest
unfolding scroll_up
counter-scroll_up sensitivity size rest p h = ground arith

counter-turn_panels :
    (sensitivity rest : ℕ) (t : Turn) (p : Panels)
    → goes_down t p.last_scroll_top ≡ false
    → p.counter ≤ t.scroll_size + rest
    → (turn_panels sensitivity t p).counter ≤ rest
unfolding turn_panels
counter-turn_panels sensitivity rest t p up h =
    rw up (counter-scroll_up sensitivity t.scroll_size rest p h)

shown_at_zero :
    (sensitivity : ℕ) (p : Panels) → IsSettled sensitivity p → p.counter ≤ 0 → p.hide ≡ false
shown_at_zero sensitivity p s h = elim s.high [ inl e ↦ e | inr g ↦ absurd (omega arith) ]

goes_down-up : (t : Turn) (last : Option ℕ) → IsUp last t.scroll_top → goes_down t last ≡ false
goes_down-up t none up = refl
goes_down-up t (some last) up = ground arith

-- Scrolling up far enough brings the panels back: after turns with offsets that never grow, and whose
-- sizes add up to the counter at least, no panel is hidden.
pub turns_panels_up :
    (sensitivity : ℕ) (ts : List Turn) (p : Panels)
    → 0 < sensitivity
    → IsSettled sensitivity p
    → GoesUp p.last_scroll_top ts
    → p.counter ≤ total_size ts
    → (turns_panels sensitivity ts p).hide ≡ false
unfolding turns_panels
turns_panels_up sensitivity [] p pos s up h = shown_at_zero sensitivity p s h
turns_panels_up sensitivity (t ∷ ts) p pos s (up_turn u us) h =
    turns_panels_up sensitivity ts (turn_panels sensitivity t p) pos
      (turn_panels-IsSettled sensitivity pos t p s) (rw (last-turn_panels sensitivity t p) us)
      (counter-turn_panels sensitivity (total_size ts) t p (goes_down-up t p.last_scroll_top u) h)

-- Near the end of the document a turn of the wheel in either direction leaves the panels shown.
pub turn_panels_at_end :
    (sensitivity : ℕ) (t : Turn) (p : Panels)
    → t.document_height ≤ t.scroll_top + t.window_height + sensitivity
    → (turn_panels sensitivity t p).hide ≡ false
unfolding turn_panels near_edge
turn_panels_at_end sensitivity t p h = ground arith

-- The test for the top of the document never holds where the sensitivity is not 0: away from the end
-- hidden panels stay hidden in a turn up, to the offset 0 too, that leaves the counter above a fifth
-- of the sensitivity.
pub turn_panels_at_top :
    (sensitivity : ℕ) (t : Turn) (p : Panels)
    → 0 < sensitivity
    → t.scroll_top + t.window_height + sensitivity < t.document_height
    → goes_down t p.last_scroll_top ≡ false
    → sensitivity < 5 * (p.counter - t.scroll_size)
    → p.hide ≡ true
    → (turn_panels sensitivity t p).hide ≡ true
unfolding turn_panels near_edge scroll_up
turn_panels_at_top sensitivity t p pos tall up high hidden = rw up (ground arith)
