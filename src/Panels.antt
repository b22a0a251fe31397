-- ===== src/Panels.antt =====
-- Panels that hide while the page is scrolled (resource/js/slides.js, "HIDE PANELS ON SCROLL").
pub mod Counter
pub mod Reveal
use net_frame.Common.{
  ℕ, zero, suc, ◌+◌, ◌-◌, ◌*◌, Bool, true, false, ◌||◌, Option, none, some, List, [], ◌∷◌, ltb, leb,
  if◌then◌else◌,
}

-- The variables of the handler: `i`, `lastScrollTop`, and the class `hide`, which the panels
-- `.hideOnScroll` get and lose together.
pub record Panels : Type 0 where
  pub counter : ℕ
  pub last_scroll_top : Option ℕ
  pub hide : Bool

-- One event `mousewheel`, with what the browser measures: the offset, and `scrollSize`. The offset is
-- not negative: elastic scrolling past the top is left out.
pub record Turn : Type 0 where
  pub scroll_top : ℕ
  pub scroll_size : ℕ
  pub window_height : ℕ
  pub document_height : ℕ

-- `scrollTop > lastScrollTop` is false as long as nothing is remembered.
abbrev pub goes_down : Turn → Option ℕ → Bool
goes_down t none = false
goes_down t (some last) = ltb last t.scroll_top

-- `i <= sensitivity/5`, without the fraction.
abbrev pub is_low : ℕ → ℕ → Bool
is_low sensitivity i = leb (5 * i) sensitivity

unfoldable pub scroll_down : ℕ → ℕ → Panels → Panels
scroll_down sensitivity size p =
    if leb sensitivity (p.counter + size)
    then record p { counter = sensitivity; hide = true }
    else record p { counter = p.counter + size }

-- A difference below 0 is low too, and is 0 here already.
unfoldable pub scroll_up : ℕ → ℕ → Panels → Panels
scroll_up sensitivity size p =
    if is_low sensitivity (p.counter - size)
    then record p { counter = 0; hide = false }
    else record p { counter = p.counter - size }

-- The test under "show on top and bottom".
unfoldable pub near_edge : ℕ → Turn → Bool
near_edge sensitivity t =
    leb t.document_height (t.scroll_top + t.window_height + sensitivity)
    || leb (t.scroll_top + sensitivity) 0

unfoldable pub turn_panels : ℕ → Turn → Panels → Panels
unfolding scroll_down scroll_up near_edge
turn_panels sensitivity t p =
    let down = scroll_down sensitivity t.scroll_size p in
    let up = scroll_up sensitivity t.scroll_size p in
    let q = if goes_down t p.last_scroll_top then down else up in
    record q {
      last_scroll_top = some t.scroll_top;
      hide = if near_edge sensitivity t then false else q.hide;
    }

unfoldable pub turns_panels : ℕ → List Turn → Panels → Panels
unfolding turn_panels
turns_panels sensitivity [] p = p
turns_panels sensitivity (t ∷ ts) p = turns_panels sensitivity ts (turn_panels sensitivity t p)
