-- ===== src/Scroll/Elements.antt =====
-- Elements that start to move when they come into view (resource/js/slides.js, "Animate elements on
-- Scroll" and `isElementInView`). Sizes and offsets are whole pixels that the browser measures.
use net_frame.Common.{
  ℕ, ◌+◌, ◌*◌, ◌≡◌, refl, Bool, true, false, not, ◌&&◌, ◌||◌, some, List, [], ◌∷◌, ◌==◌, ltb, leb,
  if◌then◌else◌, update_where, updated, get_elem?, get_elem?-update_where, arith, Bool-cases, inl,
  inr,
}
use net_frame.Page.{Config, Animation, on_event}

-- `animates` is a class with the prefix `ae-`, `moves` the class `do`.
pub record Element : Type 0 where
  pub animates : Bool
  pub moves : Bool
  pub done : Bool
  pub top : ℕ
  pub height : ℕ

-- The window's offset and height.
pub record View : Type 0 where
  pub page_top : ℕ
  pub window_height : ℕ

-- `isElementInView`; the fifths are multiplied out.
unfoldable pub is_in_view : View → Element → Bool
is_in_view v e =
    if leb v.window_height (5 * e.height)
    then leb (5 * e.top + e.height) (5 * (v.page_top + v.window_height))
    else ltb v.page_top e.top && ltb (e.top + e.height) (v.page_top + v.window_height)

abbrev pub is_on_event : Animation → Bool
is_on_event on_event = true
is_on_event a = false

-- The end of `updateScroll`, for the elements of the page.
unfoldable pub start_elements : Config → Bool → View → List Element → List Element
unfolding is_in_view
start_elements c loaded v es =
    if is_on_event c.is_animated && (not c.preload || loaded)
    then update_where (λ _ e. e.animates && is_in_view v e) (λ e. record e { moves = true }) es
    else es

-- The callback of `one('animationend')` for the element at a position.
unfoldable pub end_element : ℕ → List Element → List Element
end_element k =
    update_where (λ i _. i == k) (λ e. record e { animates = false; moves = false; done = true })

pub data ElementEvent : Type 0 where
  scrolled : Bool → View → ElementEvent
  ended : ℕ → ElementEvent

unfoldable pub on_element_events : Config → List ElementEvent → List Element → List Element
unfolding start_elements end_element
on_element_events c [] es = es
on_element_events c (scrolled loaded v ∷ ts) es =
    on_element_events c ts (start_elements c loaded v es)
on_element_events c (ended k ∷ ts) es = on_element_events c ts (end_element k es)

-- The element at a position has moved.
abbrev pub IsOver : ℕ → List Element → Type 0
IsOver i es =
    (e : Element) × (get_elem? es i ≡ some e)
    × (e.animates ≡ false)
    × (e.moves ≡ false)
    × (e.done ≡ true)

update_where-IsOver :
    (test : ℕ → Element → Bool) (f : Element → Element) (i : ℕ) (es : List Element)
    → ((e : Element)
        → e.animates ≡ false
        → e.moves ≡ false
        → e.done ≡ true
        → ((updated test f i e).animates ≡ false)
          × ((updated test f i e).moves ≡ false)
          × ((updated test f i e).done ≡ true))
    → IsOver i es
    → IsOver i (update_where test f es)
update_where-IsOver test f i es keeps (e, found, a, m, d) =
    let (a', m', d') = keeps e a m d in
    (updated test f i e, rw (get_elem?-update_where test f es i, found) refl, a', m', d')

start_elements-IsOver :
    (c : Config) (loaded : Bool) (v : View) (i : ℕ) (es : List Element)
    → IsOver i es
    → IsOver i (start_elements c loaded v es)
unfolding start_elements
start_elements-IsOver c loaded v i es o =
    elim (Bool-cases (is_on_event c.is_animated && (not c.preload || loaded))) [
      | inl e ↦ rw e (update_where-IsOver _ _ i es (λ e a m d. ground arith) o)
      | inr e ↦ rw e o
    ]

end_element-IsOver : (k i : ℕ) (es : List Element) → IsOver i es → IsOver i (end_element k es)
unfolding end_element
end_element-IsOver k i es = update_where-IsOver _ _ i es (λ e a m d. ground arith)

on_element_events-IsOver :
    (c : Config) (i : ℕ) (ts : List ElementEvent) (es : List Element)
    → IsOver i es
    → IsOver i (on_element_events c ts es)
unfolding on_element_events
on_element_events-IsOver c i [] es o = o
on_element_events-IsOver c i (scrolled loaded v ∷ ts) es o =
    on_element_events-IsOver c i ts _ (start_elements-IsOver c loaded v i es o)
on_element_events-IsOver c i (ended k ∷ ts) es o =
    on_element_events-IsOver c i ts _ (end_element-IsOver k i es o)

-- An element moves once: after the end of its movement, whatever is scrolled and whatever other
-- movements end, it is at rest, marked as done, and has no class left that could start it again.
pub on_element_events-end_element :
    (c : Config) (i : ℕ) (ts : List ElementEvent) (es : List Element) {e : Element}
    → get_elem? es i ≡ some e
    → IsOver i (on_element_events c ts (end_element i es))
unfolding end_element
on_element_events-end_element c i ts es {e} found =
    on_element_events-IsOver c i ts (end_element i es) (
      record e { animates = false; moves = false; done = true },
      rw (get_elem?-update_where _ _ es i, found) (ground arith),
      refl,
      refl,
      refl,
    )
