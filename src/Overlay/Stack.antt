-- ===== src/Overlay/Stack.antt =====
-- The stack of popups (`window.popupShown`, resource/js/slides.js, "PopUp").
use net_frame.Common.{
  ℕ, ◌≡◌, refl, sym, ap, ◌∙◌, ◌≢◌, Bool, true, false, Option, none, some, List, [], ◌∷◌, ◌++◌, ◌==◌,
  arith, contains, is_some, find_index,
}
use net_frame.Page.{Page, Popup, Timer, remove_popup}
use net_frame.Overlay.Popup.{
  push_id, show_popup, last_id, target_id, close_popup, hide_popup, splice_id, after_removal,
  run_remove_popup,
}

last_id-append : (xs : List ℕ) (id : ℕ) → last_id (xs ++ (id ∷ [])) ≡ some id
last_id-append [] id = refl
last_id-append (x ∷ []) id = refl
last_id-append (x ∷ y ∷ ys) id = last_id-append (y ∷ ys) id

splice_id-append :
    (xs : List ℕ) (id : ℕ) → contains id xs ≡ false → splice_id (some id) (xs ++ (id ∷ [])) ≡ xs
unfolding splice_id
splice_id-append [] id h = ground arith
splice_id-append (x ∷ xs) id h = ground (arith, splice_id-append xs id)

-- The stack that `window.popupShown` stands for: an array that holds something, or false.
abbrev pub IsStack : Option (List ℕ) → Type 0
IsStack shown = shown ≢ some []

abbrev pub holds : ℕ → Option (List ℕ) → Bool
holds id none = false
holds id (some ids) = contains id ids

-- Closing the popup that is on top takes the stack back, once the callback has run, to what it was
-- before the popup was shown.
pub after_removal-push_id :
    (id : ℕ) (shown : Option (List ℕ))
    → IsStack shown
    → holds id shown ≡ false
    → after_removal (target_id none (push_id id shown)) (some (push_id id shown)) ≡ shown
unfolding splice_id
after_removal-push_id id none h fresh = ground arith
after_removal-push_id id (some []) h fresh = absurd (h refl)
after_removal-push_id id (some (x ∷ xs)) h fresh =
    rw (last_id-append (x ∷ xs) id, splice_id-append (x ∷ xs) id fresh)

-- The element of a popup is there.
abbrev pub is_present : ℕ → Page → Bool
is_present id p = is_some (find_index (λ (s : Popup). s.id == id) p.popups.items)

show_popup-pushes :
    (id : ℕ) (p : Page)
    → is_present id p ≡ true
    → (show_popup id p).popups.shown ≡ some (push_id id p.popups.shown)
unfolding show_popup
show_popup-pushes id p h = ground arith

target_id-push_id : (id : ℕ) (shown : Option (List ℕ)) → target_id none (push_id id shown) ≡ some id
target_id-push_id id none = refl
target_id-push_id id (some ids) = last_id-append ids id

hide_popup-closes :
    (q : Page) (ids : List ℕ)
    → q.popups.shown ≡ some ids
    → hide_popup none q ≡ close_popup (target_id none ids) q
unfolding hide_popup
hide_popup-closes q ids e = rw e

close_popup-timer :
    (target : Option ℕ) (q : Page)
    → (elements : List ℕ) × (rest : List Timer) × ((close_popup target q).pending
        ≡ record { handle = q.next_handle; delay = 500; task = remove_popup target elements }
          ∷ rest)
      × ((run_remove_popup target elements (close_popup target q)).popups.shown
          ≡ after_removal target q.popups.shown)
unfolding close_popup run_remove_popup
close_popup-timer target q = (_, _, refl, refl)

-- Show a popup that is there and is not on the stack, and hide the topmost one: the newest timer
-- then removes this popup, and its callback takes the stack back to what it was at first.
pub hide-show_popup :
    (id : ℕ) (p : Page)
    → IsStack p.popups.shown
    → is_present id p ≡ true
    → holds id p.popups.shown ≡ false
    → let q = show_popup id p in
      let r = hide_popup none q in
      (elements : List ℕ) × (rest : List Timer) × (r.pending
        ≡ record { handle = q.next_handle; delay = 500; task = remove_popup (some id) elements }
          ∷ rest)
      × ((run_remove_popup (some id) elements r).popups.shown ≡ p.popups.shown)
hide-show_popup id p h there fresh =
    let q = show_popup id p in
    let ids = push_id id p.popups.shown in
    let pushed = show_popup-pushes id p there in
    let top = target_id-push_id id p.popups.shown in
    let closed : hide_popup none q ≡ close_popup (some id) q =
      hide_popup-closes q ids pushed ∙ ap (λ t. close_popup t q) top in
    let (elements, rest, timer, removal) = close_popup-timer (some id) q in
    let back = after_removal-push_id id p.popups.shown h fresh in
    (
      elements,
      rest,
      ap (λ (r : Page). r.pending) closed ∙ timer,
      ap (λ r. (run_remove_popup (some id) elements r).popups.shown) closed
          ∙ removal
          ∙ ap (after_removal (some id)) pushed
          ∙ ap (λ t. after_removal t (some ids)) (sym top)
          ∙ back,
    )
