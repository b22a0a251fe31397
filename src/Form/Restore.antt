-- ===== src/Form/Restore.antt =====
-- Whether the button of a form comes back (resource/js/slides.js, "Ajax Contact Form").
use Prim.Native.String.{String}
use text.Mathlib.TextPositions.{eq_refl}
use net_frame.Common.{
  ℕ, zero, suc, ◌≡◌, refl, ◌∙◌, inl, inr, Bool-cases, ap, Bool, true, false, Option, none, some,
  List, [], ◌∷◌, ◌++◌, arith, length,
}
use net_frame.Form.{
  Restoration, Form, has_class, add_class, set_classes, success_content, success_class_of, succeed,
  restore, run_first,
}

length-append_one :
    (r : Restoration) (ws : List Restoration) → length (ws ++ (r ∷ [])) ≡ suc (length ws)
length-append_one r [] = refl
length-append_one r (w ∷ ws) = ap suc (length-append_one r ws)

abbrev pub runs : ℕ → Form → Form
runs zero f = f
runs (suc n) f = runs n (run_first f)

module _ (escape : String → String) where
  -- A form that is sent once while nothing waits gets its button back as it was, if the button has an
  -- attribute `class`, and its fields are emptied.
  pub run_first-succeed :
      (f : Form) (cs : List String)
      → f.waiting ≡ []
      → f.button.classes ≡ some cs
      → run_first (succeed escape f) ≡ record f { fields = f.blank }
  unfolding run_first restore succeed
  run_first-succeed f cs h e = rw (run_first, h) (ground arith)

  -- The form is sent `n` times.
  abbrev pub succeeds : ℕ → Form → Form
  succeeds zero f = f
  succeeds (suc n) f = succeed escape (succeeds n f)

  success_content-succeeds :
      (n : ℕ) (f : Form)
      → success_content escape (succeeds n f).button ≡ success_content escape f.button
  unfolding success_content succeed
  success_content-succeeds zero f = refl
  success_content-succeeds (suc n) f = success_content-succeeds n f

  success_class-succeeds :
      (n : ℕ) (f : Form) → success_class_of (succeeds n f).button ≡ success_class_of f.button
  unfolding success_class_of succeed
  success_class-succeeds zero f = refl
  success_class-succeeds (suc n) f = success_class-succeeds n f

  length-succeeds : (n : ℕ) (f : Form) → f.waiting ≡ [] → length (succeeds n f).waiting ≡ n
  unfolding succeed
  length-succeeds zero f h = ap length h
  length-succeeds (suc n) f h =
      omega (arith, length-append_one _ (succeeds n f).waiting, length-succeeds n f h)

abbrev pub has : String → Option (List String) → Bool
has c none = false
has c (some cs) = has_class c cs

has_class-append_self : (c : String) (cs : List String) → has_class c (cs ++ (c ∷ [])) ≡ true
unfolding has_class
has_class-append_self c [] = rw (eq_refl c) refl
has_class-append_self c (d ∷ ds) = ground (arith, has_class-append_self c ds)

has-add_class : (c : String) (o : Option (List String)) → has c (add_class c o) ≡ true
unfolding add_class
has-add_class c none = unfold has_class in rw (eq_refl c) refl
has-add_class c (some cs) = elim (Bool-cases (has_class c cs)) [
  | inl e ↦ rw e e
  | inr e ↦ rw e (has_class-append_self c cs)
]

has-set_classes :
    (c : String) (new old : Option (List String))
    → has c new ≡ true
    → has c (set_classes new old) ≡ true
has-set_classes c none old h = cc
has-set_classes c (some cs) old h = h

runs-last :
    (c : String) (ws : List Restoration) (r : Restoration) (f : Form)
    → f.waiting ≡ ws ++ (r ∷ [])
    → has c r.default_classes ≡ true
    → ((runs (suc (length ws)) f).button.content ≡ r.default_text)
      × (has c (runs (suc (length ws)) f).button.classes ≡ true)
      × ((runs (suc (length ws)) f).waiting ≡ [])
unfolding run_first restore
runs-last c [] r f h k =
    rw (run_first, h) (refl, has-set_classes c r.default_classes f.button.classes k, refl)
runs-last c (w ∷ ws) r f h k = runs-last c ws r (run_first f) (rw (run_first, h) refl) k

runs-succeed :
    (escape : String → String) (c : String) (m : ℕ) (g : Form)
    → length g.waiting ≡ m
    → has c g.button.classes ≡ true
    → ((runs (suc m) (succeed escape g)).button.content ≡ g.button.content)
      × (has c (runs (suc m) (succeed escape g)).button.classes ≡ true)
      × ((runs (suc m) (succeed escape g)).waiting ≡ [])
unfolding succeed
runs-succeed escape c m g e k = rw (← e) (
    runs-last c g.waiting
      (record { default_text = g.button.content; default_classes = g.button.classes })
      (succeed escape g) refl k)

succeed-button :
    (escape : String → String) (g : Form)
    → ((succeed escape g).button.content ≡ success_content escape g.button)
      × (has (success_class_of g.button) (succeed escape g).button.classes ≡ true)
unfolding succeed
succeed-button escape g = (refl, has-add_class _ g.button.classes)

-- A form that is sent again before its button came back keeps the text and the class of success, also
-- after all callbacks have run in their order: the button's own text is lost.
pub runs-succeeds :
    (escape : String → String) (n : ℕ) (f : Form)
    → f.waiting ≡ []
    → ((runs (suc (suc n)) (succeeds escape (suc (suc n)) f)).button.content
        ≡ success_content escape f.button)
      × (has
            (success_class_of f.button)
            (runs (suc (suc n)) (succeeds escape (suc (suc n)) f)).button.classes
          ≡ true)
      × ((runs (suc (suc n)) (succeeds escape (suc (suc n)) f)).waiting ≡ [])
runs-succeeds escape n f h =
    let (text, class, done) =
      runs-succeed escape (success_class_of f.button) (suc n) (succeeds escape (suc n) f)
        (length-succeeds escape (suc n) f h)
        (rw (success_class-succeeds escape n f) at
          (succeed-button escape (succeeds escape n f)).1) in
    (
      text ∙ (succeed-button escape (succeeds escape n f)).0 ∙ success_content-succeeds escape n f,
      class,
      done,
    )
