-- ===== src/Dialogs.antt =====
-- Dialog windows (resource/js/slides.js, "Dialog Windows"). `slideDown` and `slideUp` are jQuery's: the
-- script asks for them, and what it does at their end is a callback that waits. `$.cookie` is a plugin's.
pub mod Memory
pub mod Settling
use Prim.Native.String.{String}
use text.Mathlib.Text.{◌==◌ as str_eq}
use net_frame.Common.{
  ℕ, zero, suc, ◌<◌, ◌≡◌, Bool, true, false, not, ◌&&◌, Option, none, some, List, [], ◌∷◌, ◌++◌,
  map, ◌==◌, if◌then◌else◌, is_some, update_where, indices_from, get_elem?,
}
use net_frame.Common.Int.{ℤ, pos, negsuc}
use net_frame.Common.Text.{truthy, text_or}

-- One `.dialog`: its classes, whether `hide()` was called for it, and its attributes `data-…`. A delay
-- is `none` where the attribute is missing or is not a number.
pub record Dialog : Type 0 where
  pub id : String
  pub hidden : Bool
  pub reveal : Bool
  pub hide : Bool
  pub concealed : Bool
  pub set_cookie : Option ℤ
  pub cookie_name : Option String
  pub cookie_value : Option String
  pub cookie_path : Option String
  pub delay : Option ℕ
  pub hide_delay : Option ℕ

-- The plugin `$.cookie`, for one page: what it reads and writes, and the paths under which a cookie
-- comes back to this page. A cookie that has not expired is read with the value written last.
pub record Cookies : Type 1 where
  pub Jar : Type 0
  pub read : String → Jar → Option String
  pub write : String → String → ℤ → Option String → Jar → Jar
  pub covers : Option String → Bool
  pub read_write :
      (name other value : String) (age : ℕ) (path : Option String) (jar : Jar)
      → covers path ≡ true
      → 0 < age
      → read other (write name value (pos age) path jar)
        ≡ (if str_eq name other then some value else read other jar)

-- The callbacks that wait: of `setTimeout` for the two delays, and of the end of `slideDown` and
-- `slideUp`; the last knows whether the action was "close".
pub data Waiting : Type 0 where
  reveal_later : ℕ → Waiting
  hide_later : ℕ → Waiting
  slid_down : ℕ → Waiting
  slid_up : ℕ → Bool → Waiting

pub record Dialogs (Jar : Type 0) : Type 0 where
  pub dialogs : List Dialog
  pub waiting : List Waiting
  pub jar : Jar

-- `data('cookie-name') ? data('cookie-name') : dialogID`, and the same for the value.
unfoldable pub name_of : Dialog → String
name_of d = text_or d.cookie_name d.id

unfoldable pub value_of : Dialog → String
value_of d = text_or d.cookie_value "true"

module _ {Jar : Type 0} where
  -- `addClass('reveal').slideDown(…)` and `addClass('hide').slideUp(…)` of one dialog.
  unfoldable pub reveal_at : ℕ → Dialogs Jar → Dialogs Jar
  reveal_at k s = record s {
    dialogs = update_where (λ i _. i == k) (λ (d : Dialog). record d { reveal = true }) s.dialogs;
    waiting = slid_down k ∷ s.waiting;
  }

  unfoldable pub hide_at : ℕ → Bool → Dialogs Jar → Dialogs Jar
  hide_at k closes s = record s {
    dialogs = update_where (λ i _. i == k) (λ (d : Dialog). record d { hide = true }) s.dialogs;
    waiting = slid_up k closes ∷ s.waiting;
  }

  -- `window.showDialog`; `visible` is what jQuery answers for `:visible`.
  unfoldable pub show_dialog : String → Bool → Dialogs Jar → Dialogs Jar
  show_dialog id visible s =
      let named = λ (d : Dialog). str_eq d.id id in
      if visible then s else record s {
        dialogs = update_where (λ _ d. named d) (λ d. record d { reveal = true }) s.dialogs;
        waiting = map slid_down (indices_from 0 named s.dialogs) ++ s.waiting;
      }

module _ (C : Cookies) where
  open C use {Jar, read, write}

  -- `if (cookieAge && action == "close") $.cookie(…)`; an age of 0 is false.
  abbrev pub write_cookie : Option ℤ → String → String → Option String → Jar → Jar
  write_cookie none name value path jar = jar
  write_cookie (some (pos zero)) name value path jar = jar
  write_cookie (some (pos (suc n))) name value path jar = write name value (pos (suc n)) path jar
  write_cookie (some (negsuc n)) name value path jar = write name value (negsuc n) path jar

  abbrev pub remember : Dialog → Bool → Jar → Jar
  remember d false jar = jar
  remember d true jar = write_cookie d.set_cookie (name_of d) (value_of d) d.cookie_path jar

  abbrev pub remember_at : Option Dialog → Bool → Jar → Jar
  remember_at none closes jar = jar
  remember_at (some d) closes jar = remember d closes jar

  unfoldable pub run_waiting : Waiting → Dialogs Jar → Dialogs Jar
  unfolding reveal_at hide_at
  run_waiting (reveal_later k) s = reveal_at k s
  run_waiting (hide_later k) s = hide_at k false s
  run_waiting (slid_down k) s = record s {
    dialogs =
        update_where (λ i _. i == k) (λ (d : Dialog). record d { reveal = false; hidden = false })
          s.dialogs;
  }
  run_waiting (slid_up k closes) s = record s {
    dialogs = update_where (λ i _. i == k) (λ (d : Dialog). record d { hide = false }) s.dialogs;
    jar = remember_at (get_elem? s.dialogs k) closes s.jar;
  }

  -- `if ($.cookie(cookieName)) $(element).hide()`, for the dialogs with `data-set-cookie`.
  unfoldable pub is_remembered : Jar → Dialog → Bool
  is_remembered jar d = is_some d.set_cookie && is_some (truthy (read (name_of d) jar))

  -- What the `ready` handler does with the dialogs of the markup.
  unfoldable pub load_dialogs : List Dialog → Jar → Dialogs Jar
  load_dialogs ds jar = record {
    dialogs = update_where (λ _ d. is_remembered jar d) (λ d. record d { concealed = true }) ds;
    waiting =
        map reveal_later (indices_from 0 (λ d. d.hidden && is_some d.delay) ds)
        ++ map hide_later (indices_from 0 (λ d. is_some d.hide_delay) ds);
    jar = jar;
  }

-- The callback at a position is taken out when it runs.
abbrev pub take_out : ℕ → List Waiting → List Waiting
take_out n [] = []
take_out zero (w ∷ ws) = ws
take_out (suc n) (w ∷ ws) = w ∷ take_out n ws

-- What happens on the page: a trigger's click, a button of a dialog, and a callback, in any order.
pub data Step (C : Cookies) (s : Dialogs (C.Jar)) : Dialogs (C.Jar) → Type 0 where
  show : (id : String) (visible : Bool) → Step C s (show_dialog id visible s)
  press : (k : ℕ) (closes : Bool) → Step C s (hide_at k closes s)
  run :
      (n : ℕ) (w : Waiting)
      → get_elem? s.waiting n ≡ some w
      → Step C s (run_waiting C w (record s { waiting = take_out n s.waiting }))

pub data Reach (C : Cookies) (start : Dialogs (C.Jar)) : Dialogs (C.Jar) → Type 0 where
  here : Reach C start start
  next : {s t : Dialogs (C.Jar)} → Reach C start s → Step C s t → Reach C start t
