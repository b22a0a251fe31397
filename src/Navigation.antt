-- ===== src/Navigation.antt =====
-- The navigation's dots and the links to slides (resource/js/slides.js, "Generate Navigation Dots",
-- `updateNavigation`, `updateHash` and the in-page links).
pub mod Dots
use Prim.Native.String.{String}
use text.Mathlib.Text.{◌==◌ as str_eq}
use net_frame.Common.{
  ℕ, zero, suc, ◌+◌, ◌-◌, Bool, true, false, not, ◌&&◌, ◌||◌, Option, none, some, List, [], ◌∷◌,
  ◌==◌, if◌then◌else◌, map, update_where, indices_from, find_index, get_elem?, length,
}
use net_frame.Page.{Config, Page, Slide, scroll_window, scroll_when_loaded}
use net_frame.Page.Timers.{trigger}
use net_frame.Overlay.Sidebar.{hide_sidebar}
use net_frame.Common.Text.{truthy}
use net_frame.Slides.Show.{scrolls, is_current, number_of, show_slide, is_at}
use net_frame.Slides.Change.{Outcome, number, change_slide}

-- `$('.slide:not(.exclude)')`, as positions among all slides.
unfoldable pub listed : List Slide → List ℕ
listed = indices_from 0 (λ s. not s.excluded)

-- The loop that fills an empty navigation: a dot for each listed slide, none selected.
unfoldable pub generate_dots : List Slide → List Bool
generate_dots ss = map (λ _. false) (listed ss)

-- A click on the dot at a position; a dot with no slide gives `-1 + 1`.
unfoldable pub click_dot : Config → ℕ → Page → Outcome
unfolding listed
click_dot c k p = change_slide c (number (number_of (get_elem? (listed p.slides) k))) p

-- `$selectedSlide.index('.slide:not(.exclude)')`, for the slide at a position.
unfoldable pub rank : Option ℕ → List Slide → Option ℕ
rank none ss = none
rank (some i) ss = find_index (λ j. j == i) (listed ss)

-- `parseInt($selectedSlide.data('parent-slide-id'))`; 0 is false, and so is NaN.
unfoldable pub parent_of : Option ℕ → List Slide → Option ℕ
parent_of none ss = none
parent_of (some i) ss = elim (get_elem? ss i) [
  | none ↦ none
  | some s ↦ elim (s.parent_id) [ none ↦ none | some n ↦ if n == 0 then none else some n ]
]

abbrev pub has_id : ℕ → Slide → Bool
has_id n s = elim (s.slide_id) [ none ↦ false | some m ↦ m == n ]

-- `find('li').eq(index)`; the index -1 is the last dot.
abbrev pub dot_at : Option ℕ → List Bool → Option ℕ
dot_at (some k) dots = some k
dot_at none [] = none
dot_at none (d ∷ ds) = some (length ds)

-- The dot that the callback selects.
unfoldable pub dot_of : List Slide → List Bool → Option ℕ
dot_of ss dots =
    let selected = find_index is_current ss in
    elim (rank selected ss) [
      | some k ↦ some k
      | none ↦ elim (parent_of selected ss) [
        | none ↦ none
        | some n ↦ dot_at (rank (find_index (has_id n) ss) ss) dots
      ]
    ]

-- The callback of `updateNavigation`: the one dot that was selected is left, another selected.
unfoldable pub run_refresh_navigation : Page → Page
run_refresh_navigation p = record p {
  navigation =
      update_where (λ i _. is_at (dot_of p.slides p.navigation) i) (λ _. true)
        (map (λ _. false) p.navigation);
}

abbrev pub has_attribute : Option String → String → Bool
has_attribute none t = false
has_attribute (some a) t = str_eq a t

-- Slide mode: "slide mode" of `updateHash` and of the in-page links.
unfoldable pub show_at : Config → ℕ → Page → Page
show_at c k p = show_slide c (k + 1) (record p { stage = k + 1 })

-- `updateHash`
unfoldable pub update_hash : Config → Page → Page
unfolding trigger
update_hash c p = elim (truthy p.address.hash) [
  | none ↦ p
  | some name ↦ elim (find_index (λ (s : Slide). has_attribute s.data_name name) p.slides) [
    | none ↦ p
    | some k ↦
        if scrolls c
        then trigger (if not c.preload || p.loaded then scroll_window k else scroll_when_loaded k) p
        else show_at c k p
  ]
]

-- The slide that a link `#name` asks for; the first one, if the name is empty.
unfoldable pub link_target : String → List Slide → Option ℕ
link_target name ss =
    find_index
      (λ (s : Slide).
        str_eq name "" || (has_attribute s.ident name || has_attribute s.data_name name))
      ss

unfoldable pub click_link : Config → String → Page → Page
unfolding trigger link_target
click_link c name p = elim (link_target name p.slides) [
  | none ↦ p
  | some k ↦ hide_sidebar (
      if scrolls c
      then (let q = trigger (scroll_window k) p in
          if c.set_hash_link
          then record q { address = record (q.address) { hash = some name } }
          else q)
      else show_at c k p)
]
