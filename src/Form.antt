-- ===== src/Form.antt =====
-- The contact form (resource/js/slides.js, "Ajax Contact Form"): what the button shows after the form
-- was sent. `ajaxForm` is a plugin's, and its success is an event here.
pub mod Restore
use Prim.Native.String.{String}
use text.Mathlib.Text.{◌==◌ as str_eq}
use net_frame.Common.{
  ℕ, zero, suc, Bool, true, false, ◌||◌, Option, none, some, List, [], ◌∷◌, ◌++◌, if◌then◌else◌,
}
use net_frame.Common.Text.{text_or}

-- The button `[type="submit"]`. `content` is its value, or its HTML where it is no `input`; `classes` is
-- its attribute `class`, `none` where it has none; the last two are its attributes `data-success-…`.
pub record Button : Type 0 where
  pub is_input : Bool
  pub content : String
  pub classes : Option (List String)
  pub success_text : Option String
  pub success_class : Option String

-- The variables of the closure that waits for four seconds.
pub record Restoration : Type 0 where
  pub default_text : String
  pub default_classes : Option (List String)

-- `waiting` has the callback that was set first in front.
pub record Form : Type 0 where
  pub button : Button
  pub fields : List String
  pub blank : List String
  pub waiting : List Restoration

unfoldable pub has_class : String → List String → Bool
has_class c [] = false
has_class c (d ∷ ds) = str_eq c d || has_class c ds

unfoldable pub add_class : String → Option (List String) → Option (List String)
add_class c none = some (c ∷ [])
add_class c (some cs) = if has_class c cs then some cs else some (cs ++ (c ∷ []))

-- `attr('class', defaultClasses)`, which changes nothing for undefined.
abbrev pub set_classes : Option (List String) → Option (List String) → Option (List String)
set_classes none old = old
set_classes (some cs) old = some cs

unfoldable pub success_class_of : Button → String
success_class_of b = text_or b.success_class "green"

module _ (escape : String → String) where
  -- `val(successText)` or `text(successText)`; the HTML of a text is the browser's `escape` of it.
  unfoldable pub success_content : Button → String
  success_content b =
      if b.is_input then text_or b.success_text "Done!" else escape (text_or b.success_text "Done!")

  unfoldable pub succeed : Form → Form
  succeed f = record f {
    button = record (f.button) {
      content = success_content f.button;
      classes = add_class (success_class_of f.button) f.button.classes;
    };
    waiting =
        f.waiting
        ++ (record { default_text = f.button.content; default_classes = f.button.classes } ∷ []);
  }

-- The callback of `setTimeout`.
unfoldable pub restore : Restoration → Form → Form
restore r f = record f {
  button = record (f.button) {
    content = r.default_text;
    classes = set_classes r.default_classes f.button.classes;
  };
  fields = f.blank;
}

abbrev pub run_next : List Restoration → Form → Form
run_next [] f = f
run_next (r ∷ rs) f = restore r (record f { waiting = rs })

-- The callback that was set first runs.
unfoldable pub run_first : Form → Form
run_first f = run_next f.waiting f
