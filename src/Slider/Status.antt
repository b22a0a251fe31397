-- ===== src/Slider/Status.antt =====
-- The class `slider_ID_N` of `<html>` (resource/js/slides.js, `window.sliderStatus`, and
-- resource/js/plugins.js, `removeClassByPrefix`). A class name is the list of its characters.
use net_frame.Common.{
  ℕ, zero, suc, ◌≡◌, refl, ap, Bool, true, false, ◌&&◌, some, List, [], ◌∷◌, ◌++◌, ◌==◌,
  if◌then◌else◌, get_elem?, arith, inl, inr, Bool-cases,
}

abbrev pub Name : Type 0
Name = List ℕ

-- `c.lastIndexOf(prefix, 0) === 0`
unfoldable pub starts_with : Name → Name → Bool
starts_with [] c = true
starts_with (x ∷ xs) [] = false
starts_with (x ∷ xs) (y ∷ ys) = x == y && starts_with xs ys

unfoldable pub remove_class_by_prefix : Name → List Name → List Name
unfolding starts_with
remove_class_by_prefix p [] = []
remove_class_by_prefix p (c ∷ cs) =
    let rest = remove_class_by_prefix p cs in if starts_with p c then rest else c ∷ rest

-- `"slider_" + sliderID`, and with `"_" + nextIndex`, where the index is written out already.
abbrev pub slider_word : Name
slider_word = b's' ∷ b'l' ∷ b'i' ∷ b'd' ∷ b'e' ∷ b'r' ∷ b'_' ∷ []

unfoldable pub status_prefix : Name → Name
status_prefix id = slider_word ++ id

unfoldable pub status_class : Name → Name → Name
unfolding status_prefix
status_class id index = status_prefix id ++ (b'_' ∷ index)

-- `removeClassByPrefix(…).addClass(…)`; the class is not there any more when it is added.
unfoldable pub set_status_class : Name → Name → List Name → List Name
unfolding remove_class_by_prefix status_class
set_status_class id index cs =
    remove_class_by_prefix (status_prefix id) cs ++ (status_class id index ∷ [])

starts_with-append : (p q c : Name) → starts_with (p ++ q) c ≡ true → starts_with p c ≡ true
unfolding starts_with
starts_with-append [] q c h = refl
starts_with-append (x ∷ xs) q [] h = cc
starts_with-append (x ∷ xs) q (y ∷ ys) h = ground (arith, starts_with-append xs q ys)

remove_class_by_prefix-append :
    (p : Name) (cs : List Name) (d c : Name) (i : ℕ)
    → get_elem? (remove_class_by_prefix p cs ++ (d ∷ [])) i ≡ some c
    → starts_with p c ≡ true
    → c ≡ d
unfolding remove_class_by_prefix
remove_class_by_prefix-append p [] d c zero h s = cc
remove_class_by_prefix-append p [] d c (suc i) h s = cc
remove_class_by_prefix-append p (x ∷ xs) d c i h s = elim (Bool-cases (starts_with p x)) [
  | inl e ↦ remove_class_by_prefix-append p xs d c i (rw e at h) s
  | inr e ↦ kept e (λ j g. remove_class_by_prefix-append p xs d c j g s) i (rw e at h)
]
  where
    kept :
        starts_with p x ≡ false
        → ((j : ℕ) → get_elem? (remove_class_by_prefix p xs ++ (d ∷ [])) j ≡ some c → c ≡ d)
        → (i : ℕ) → get_elem? (x ∷ (remove_class_by_prefix p xs ++ (d ∷ []))) i ≡ some c
        → c ≡ d
    kept e rest zero g = let same : x ≡ c = cc in absurd (ground (arith, ap (starts_with p) same))
    kept e rest (suc j) g = rest j g

-- After the status of a slider is set, it is the only class that begins with `slider_` and the slider's
-- id: the old status is gone, and so is that of every slider whose id only begins with this id.
pub set_status_class_only :
    (id rest index : Name) (cs : List Name) (c : Name) (i : ℕ)
    → get_elem? (set_status_class id index cs) i ≡ some c
    → starts_with (status_prefix (id ++ rest)) c ≡ true
    → c ≡ status_class id index
unfolding set_status_class
set_status_class_only id rest index cs c i h s =
    remove_class_by_prefix-append (status_prefix id) cs (status_class id index) c i h
      (starts_with-append (status_prefix id) rest c (unfold status_prefix in s))
