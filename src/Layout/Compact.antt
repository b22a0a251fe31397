-- ===== src/Layout/Compact.antt =====
-- When a panel is compact (resource/js/slides.js, "Responsive Panels").
use net_frame.Common.{
  ℕ, ◌+◌, ◌≡◌, refl, Bool, true, ◌&&◌, ◌||◌, Option, none, some, List, [], ◌∷◌, ltb, arith,
  if◌then◌else◌, max, is_some,
}
use net_frame.Layout.{
  Child, add_width, total_width, Measured, show_compact, show_desktop, fit_panel,
}

-- Independent of the code: the width that the children need, where each of them has a child.
abbrev pub wider : ℕ → Option ℕ → ℕ
wider own none = own
wider own (some i) = max i own

abbrev pub needed_width : List Child → ℕ
needed_width [] = 0
needed_width (c ∷ cs) = wider c.own c.inner + needed_width cs

abbrev pub all_filled : List Child → Bool
all_filled [] = true
all_filled (c ∷ cs) = is_some c.inner && all_filled cs

total_width-none : (cs : List Child) → total_width none cs ≡ none
unfolding total_width add_width
total_width-none [] = refl
total_width-none (c ∷ cs) = total_width-none cs

total_width-add_width :
    (t own : ℕ) (inner : Option ℕ) (cs : List Child)
    → ((u : ℕ)
        → total_width (some u) cs ≡ (if all_filled cs then some (u + needed_width cs) else none))
    → total_width (add_width (some t) own inner) cs ≡ (
        if is_some inner && all_filled cs
        then some (t + (wider own inner + needed_width cs))
        else none)
unfolding total_width
total_width-add_width t own none cs rest = total_width-none cs
total_width-add_width t own (some i) cs rest = ground (arith, rest (t + own), rest (t + i))

total_width_lem :
    (t : ℕ) (cs : List Child)
    → total_width (some t) cs ≡ (if all_filled cs then some (t + needed_width cs) else none)
unfolding total_width
total_width_lem t [] = ground arith
total_width_lem t (c ∷ cs) = total_width-add_width t c.own c.inner cs (λ u. total_width_lem u cs)

-- The handler of a panel is this choice: compact where the mobile view is forced on a narrow document,
-- or where the children and the padding need more than two pixels over the document's width, if every
-- child has a child; where one has none, the sum is not a number and a wide panel stays as it is.
pub fit_panel_lem :
    (mobile force_mobile_view : Bool) (m : Measured)
    → fit_panel mobile force_mobile_view m ≡ (
        if (mobile || ltb m.document_width 767) && force_mobile_view
          || all_filled m.children
            && ltb (m.document_width + 2) (needed_width m.children + m.padding)
        then show_compact
        else show_desktop)
unfolding fit_panel
fit_panel_lem mobile force_mobile_view m = rw (total_width_lem 0 m.children) (ground arith)
