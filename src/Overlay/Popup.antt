-- ===== src/Overlay/Popup.antt =====
-- `window.showPopup`, `hidePopup` and their callbacks (resource/js/slides.js, "PopUp"), without the
-- start and stop of the media in a popup. `window.popupShown` is a stack, its top at the end.
use net_frame.Common.{
  ℕ, zero, suc, Bool, true, false, Option, none, some, List, [], ◌∷◌, ◌++◌, ◌==◌, ◌+◌, ◌&&◌,
  if◌then◌else◌, update_where, indices_from, contains, is_some, find_index,
}
use net_frame.Page.{
  Config, Page, Popup, reveal_popup, popup_done, remove_popup, popup_shown, popup_hidden,
}
use net_frame.Page.Timers.{set_timeout, clear_timeout, trigger}
use net_frame.Overlay.Dropdown.{hide_dropdown, add_id}
use net_frame.Overlay.Sidebar.{hide_sidebar}

-- `if (!window.popupShown) window.popupShown = []; window.popupShown.push(id)`
abbrev pub push_id : ℕ → Option (List ℕ) → List ℕ
push_id id none = id ∷ []
push_id id (some ids) = ids ++ (id ∷ [])

-- The branch of `showPopup` for an element that is there.
unfoldable pub open_popup : ℕ → Page → Page
unfolding set_timeout trigger hide_sidebar add_id
open_popup id p =
    let q = hide_sidebar p in
    let animated =
      is_some
        (find_index (λ (s : Popup). if s.id == id then s.animated else false) q.popups.items) in
    let visible = trigger popup_shown (record q {
      popups = record (q.popups) {
        shown = some (push_id id q.popups.shown);
        items =
            update_where (λ _ (s : Popup). s.id == id) (λ s. record s { visible = true })
              q.popups.items;
        html_shown = true;
        html_ids = add_id id q.popups.html_ids;
      };
      allow_slide = false;
    }) in
    if animated then set_timeout 100 (reveal_popup id) visible else visible

unfoldable pub show_popup : ℕ → Page → Page
unfolding open_popup hide_dropdown
show_popup id p =
    let present = is_some (find_index (λ (s : Popup). s.id == id) p.popups.items) in
    hide_dropdown (if present then open_popup id p else p)

abbrev pub last_id : List ℕ → Option ℕ
last_id [] = none
last_id (x ∷ []) = some x
last_id (x ∷ y ∷ ys) = last_id (y ∷ ys)

-- `popupID ? popupID : window.popupShown.slice(-1)[0]`; the id 0 is false there.
abbrev pub target_id : Option ℕ → List ℕ → Option ℕ
target_id none ids = last_id ids
target_id (some zero) ids = last_id ids
target_id (some (suc n)) ids = some (suc n)

abbrev pub is_target : Option ℕ → ℕ → Bool
is_target none id = false
is_target (some t) id = id == t

-- The branch of `hidePopup` for an array.
unfoldable pub close_popup : Option ℕ → Page → Page
unfolding set_timeout clear_timeout trigger
close_popup target p =
    let shows = λ (s : Popup). s.visible && is_target target s.id in
    let elements = indices_from 0 shows p.popups.items in
    let q = clear_timeout p.popups.cleanup p in
    set_timeout 500 (remove_popup target elements) (
      trigger popup_hidden (record q {
        popups = record (q.popups) {
          items = update_where (λ _ s. shows s) (λ s. record s { hiding = true }) q.popups.items;
        };
      }))

unfoldable pub hide_popup : Option ℕ → Page → Page
unfolding close_popup
hide_popup asked p = elim (p.popups.shown) [
  | none ↦ p
  | some ids ↦ close_popup (target_id asked ids) p
]

-- `indexOf` and `splice`: the first occurrence goes.
unfoldable pub splice_id : Option ℕ → List ℕ → List ℕ
splice_id none ids = ids
splice_id (some t) [] = []
splice_id (some t) (x ∷ xs) = let rest = splice_id (some t) xs in if x == t then xs else x ∷ rest

unfoldable pub remove_class_id : Option ℕ → List ℕ → List ℕ
remove_class_id none ids = ids
remove_class_id (some t) [] = []
remove_class_id (some t) (x ∷ xs) =
    let rest = remove_class_id (some t) xs in if x == t then rest else x ∷ rest

-- An empty array gives way to false.
abbrev pub settle_stack : List ℕ → Option (List ℕ)
settle_stack [] = none
settle_stack (x ∷ xs) = some (x ∷ xs)

abbrev pub after_removal : Option ℕ → Option (List ℕ) → Option (List ℕ)
after_removal target none = none
after_removal target (some ids) = settle_stack (splice_id target ids)

-- The class `popupShown` of `<html>` goes with the last id, and is left alone where no array is.
abbrev pub class_after_removal : Option ℕ → Option (List ℕ) → Bool → Bool
class_after_removal target none html = html
class_after_removal target (some ids) html = is_some (settle_stack (splice_id target ids)) && html

-- The callbacks.
unfoldable pub run_remove_popup : Option ℕ → List ℕ → Page → Page
unfolding splice_id remove_class_id
run_remove_popup target elements p = record p {
  popups = record (p.popups) {
    shown = after_removal target p.popups.shown;
    items =
        update_where (λ i (s : Popup). contains i elements)
          (λ s. record s {
            visible = false;
            animate = false;
            active = false;
            hiding = false;
            done = false;
          })
          p.popups.items;
    html_shown = class_after_removal target p.popups.shown p.popups.html_shown;
    html_ids = remove_class_id target p.popups.html_ids;
  };
  allow_slide = true;
}

unfoldable pub run_reveal_popup : Config → ℕ → Page → Page
unfolding set_timeout clear_timeout
run_reveal_popup c id p =
    let q = clear_timeout p.popups.cleanup p in
    set_timeout (c.effect_speed + c.cleanup_delay) (popup_done id) (record q {
      popups = record (q.popups) {
        items =
            update_where (λ _ (s : Popup). s.id == id)
              (λ s. record s { animate = true; active = true }) q.popups.items;
        cleanup = some q.next_handle;
      };
    })

unfoldable pub run_popup_done : ℕ → Page → Page
run_popup_done id p = record p {
  popups = record (p.popups) {
    items =
        update_where (λ _ (s : Popup). s.id == id) (λ s. record s { done = true }) p.popups.items;
  };
}
