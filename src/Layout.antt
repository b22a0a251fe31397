-- ===== src/Layout.antt =====
-- What the script computes from sizes (resource/js/slides.js): the heights of equal elements ("Grid and
-- Flex Element Equalizer"), compact panels ("Responsive Panels"), the compact side menu ("Collapse
-- sidemenu to compact") and the height of a slider ("Auto Height"). The browser measures; sizes are whole
-- pixels.
pub mod Equal
pub mod Compact
use net_frame.Common.{
  ℕ, zero, suc, ◌+◌, Bool, true, false, not, ◌&&◌, ◌||◌, Option, none, some, List, [], ◌∷◌, ltb,
  leb, map, if◌then◌else◌,
}

-- An attribute that `parseInt` reads.
pub data Attribute : Type 0 where
  missing : Attribute
  not_a_number : Attribute
  number : ℕ → Attribute

-- One `.equal` element: its classes `later` and `equalMobile`, `data-equal-collapse-width`, and the
-- heights that are set on its `.equalElement`s, where `none` is `auto`.
pub record Grid : Type 0 where
  pub later : Bool
  pub equal_mobile : Bool
  pub collapse : Attribute
  pub heights : List (Option ℕ)

abbrev pub default_width : Bool → ℕ
default_width later = if later then 767 else 1024

-- `collapseWidth`; `none` is NaN, and 0 counts as missing.
unfoldable pub collapse_width : Bool → Attribute → Option ℕ
collapse_width later missing = some (default_width later)
collapse_width later not_a_number = none
collapse_width later (number zero) = some (default_width later)
collapse_width later (number (suc n)) = some (suc n)

abbrev pub reaches : ℕ → Option ℕ → Bool
reaches width none = false
reaches width (some w) = leb w width

-- The loop "fetch max height" over the heights that the elements have with `height: auto`.
unfoldable pub fetch_height : ℕ → List ℕ → ℕ
fetch_height height [] = height
fetch_height height (h ∷ hs) = fetch_height (if ltb height h then h else height) hs

-- `equalizeElements` for one element, at a width of the window.
unfoldable pub equalize : ℕ → List ℕ → Grid → Grid
equalize width natural g =
    if reaches width (collapse_width g.later g.collapse) || g.equal_mobile
    then record g { heights = map (λ _. some (fetch_height 0 natural)) natural }
    else record g { heights = map (λ _. none) natural }

-- A child of `.desktop`: its outer width, and that of its own first child, if it has one.
pub record Child : Type 0 where
  pub own : ℕ
  pub inner : Option ℕ

-- One round of the loop over the children; `none` is NaN, which `Math.round(undefined)` gives.
unfoldable pub add_width : Option ℕ → ℕ → Option ℕ → Option ℕ
add_width none own inner = none
add_width (some t) own none = none
add_width (some t) own (some i) = if ltb i own then some (t + own) else some (t + i)

unfoldable pub total_width : Option ℕ → List Child → Option ℕ
unfolding add_width
total_width total [] = total
total_width total (c ∷ cs) = total_width (add_width total c.own c.inner) cs

-- What the browser measures for a panel.
pub record Measured : Type 0 where
  pub document_width : ℕ
  pub padding : ℕ
  pub children : List Child

-- The classes `hidden` of the two views of a panel.
pub record Views : Type 0 where
  pub desktop_hidden : Bool
  pub compact_hidden : Bool

abbrev pub show_compact : Views
show_compact = record { desktop_hidden = true; compact_hidden = false }

abbrev pub show_desktop : Views
show_desktop = record { desktop_hidden = false; compact_hidden = true }

abbrev pub is_wider : Option ℕ → ℕ → ℕ → Bool
is_wider none padding width = false
is_wider (some t) padding width = ltb (width + 2) (t + padding)

-- The handler of a panel; `mobile` is `window.isMobile`.
unfoldable pub fit_panel : Bool → Bool → Measured → Views
fit_panel mobile force_mobile_view m =
    if (mobile || ltb m.document_width 767) && force_mobile_view
    then show_compact
    else if is_wider (total_width (some 0) m.children) m.padding m.document_width
        || (mobile || ltb m.document_width 767) && force_mobile_view
    then show_compact
    else show_desktop

unfoldable pub total_height : List ℕ → ℕ
total_height [] = 0
total_height (h ∷ hs) = h + total_height hs

-- The class `compact` of the side menu; `totalWidth > windowHeight - 140`.
unfoldable pub collapse_side : ℕ → List ℕ → Bool
unfolding total_height
collapse_side window_height heights = ltb window_height (total_height heights + 140)
