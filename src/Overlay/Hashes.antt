-- ===== src/Overlay/Hashes.antt =====
-- Popups that the fragment of the address opens (resource/js/slides.js, "Set hash link on popup reveal"),
-- which a page has by `window.setPopupHash`.
use Prim.Native.String.{String}
use text.Mathlib.Text.{◌==◌ as str_eq}
use text.Mathlib.TextEquality.{eq_iff}
use net_frame.Common.{
  ℕ, ◌+◌, ◌≡◌, refl, ap, ◌∙◌, inl, inr, Bool-cases, Bool, true, false, ◌||◌, Option, none, some,
  List, [], ◌∷◌, ◌++◌, if◌then◌else◌, arith,
}
use net_frame.Page.{Config, Address}
use net_frame.Slides.Show.{clear_hash}

-- `$.inArray(hash, hashes) != -1`
unfoldable pub has_hash_link : String → List String → Bool
has_hash_link h [] = false
has_hash_link h (k ∷ ks) = str_eq h k || has_hash_link h ks

-- The loop "Collect unique hash links" over the `data-popup-id`s of the triggers.
unfoldable pub collect_hashes : List String → List String → List String
unfolding has_hash_link
collect_hashes hashes [] = hashes
collect_hashes hashes (h ∷ hs) =
    collect_hashes (if has_hash_link h hashes then hashes else hashes ++ (h ∷ [])) hs

-- A click on a trigger, apart from the popup itself.
unfoldable pub set_popup_hash : String → Address → Address
set_popup_hash id a = record a { hash = some id }

-- The popup that is opened half a second after the page, if the fragment is one of the collected.
unfoldable pub popup_to_open : List String → Address → Option String
unfolding collect_hashes
popup_to_open triggers a = elim (a.hash) [
  | none ↦ none
  | some h ↦ if has_hash_link h (collect_hashes [] triggers) then some h else none
]

-- The handler of `popupHidden`, on a page that was opened with a popup.
unfoldable pub forget_popup : Config → Address → Address
forget_popup c a = clear_hash c a

unfoldable pub count : String → List String → ℕ
count h [] = 0
count h (k ∷ ks) = (if str_eq h k then 1 else 0) + count h ks

count-append_one :
    (h k : String) (ks : List String)
    → count h (ks ++ (k ∷ [])) ≡ count h ks + (if str_eq h k then 1 else 0)
unfolding count
count-append_one h k [] = ground arith
count-append_one h k (j ∷ js) = omega (arith, count-append_one h k js)

has_hash_link-append_one :
    (h k : String) (ks : List String)
    → has_hash_link h (ks ++ (k ∷ [])) ≡ (has_hash_link h ks || str_eq h k)
unfolding has_hash_link
has_hash_link-append_one h k [] = ground arith
has_hash_link-append_one h k (j ∷ js) = ground (arith, has_hash_link-append_one h k js)

same_hash :
    (h k : String) (ks : List String) → str_eq h k ≡ true → has_hash_link h ks ≡ has_hash_link k ks
same_hash h k ks e = ap (λ x. has_hash_link x ks) ((eq_iff h k).0 e)

-- A list in which every text occurs once at most.
abbrev IsOnce : String → List String → Type 0
IsOnce h hashes = count h hashes ≡ (if has_hash_link h hashes then 1 else 0)

append_one-IsOnce :
    (h k : String) (hashes : List String)
    → has_hash_link k hashes ≡ false
    → IsOnce h hashes
    → IsOnce h (hashes ++ (k ∷ []))
append_one-IsOnce h k hashes new once = elim (Bool-cases (str_eq h k)) [
  | inl e ↦
      let absent : has_hash_link h hashes ≡ false = same_hash h k hashes e ∙ new in
      rw (count-append_one, has_hash_link-append_one, once, absent, e) refl
  | inr e ↦ rw (count-append_one, has_hash_link-append_one, once, e) (ground arith)
]

collect_hashes_from :
    (h : String) (hashes hs : List String)
    → IsOnce h hashes
    → count h (collect_hashes hashes hs)
      ≡ (if has_hash_link h hashes || has_hash_link h hs then 1 else 0)
unfolding collect_hashes
collect_hashes_from h hashes [] once = ground (arith, once)
collect_hashes_from h hashes (k ∷ ks) once = elim (Bool-cases (has_hash_link k hashes)) [
  | inl e ↦ rw e (collect_hashes_from h hashes ks once ∙ known e)
  | inr e ↦ rw e (
      collect_hashes_from h (hashes ++ (k ∷ [])) ks (append_one-IsOnce h k hashes e once)
      ∙ rw has_hash_link-append_one (ground arith))
]
  where
    known :
        has_hash_link k hashes ≡ true
        → ◌≡◌ {A = ℕ}
            (if has_hash_link h hashes || has_hash_link h ks then 1 else 0)
            (if has_hash_link h hashes || (str_eq h k || has_hash_link h ks) then 1 else 0)
    known e = elim (Bool-cases (str_eq h k)) [
      | inl f ↦ ground (arith, same_hash h k hashes f ∙ e)
      | inr f ↦ ground (arith, f)
    ]

-- The hashes that are collected are those of the triggers, each of them once.
pub collect_hashes-count :
    (h : String) (triggers : List String)
    → count h (collect_hashes [] triggers) ≡ (if has_hash_link h triggers then 1 else 0)
collect_hashes-count h triggers =
    unfold count has_hash_link in collect_hashes_from h [] triggers refl
