-- ===== src/Tests/Dialogs.antt =====
-- Dialogs on a page with one dialog, which is shown, closed and remembered.
use Prim.Native.String.{String}
use text.Mathlib.Text.{◌==◌ as str_eq}
use net_frame.Common.{
  ℕ, zero, suc, ◌<◌, ◌≡◌, refl, inr, Bool, true, false, Option, none, some, List, [], ◌∷◌,
  get_elem?, update_where, indices_from, if◌then◌else◌,
}
use net_frame.Common.Int.{ℤ, pos, negsuc}
use net_frame.Dialogs.{
  Dialog, Cookies, Dialogs, slid_up, slid_down, run_waiting, load_dialogs, here, next, show, run,
  take_out, is_remembered, show_dialog,
}
use net_frame.Dialogs.Memory.{AreKept, closed-load_dialogs}
use net_frame.Dialogs.Settling.{AreAtRest, sessions-AreAtRest}

-- A jar of cookies that never expire, for pages without a path.
unfoldable read_from : String → List (String × String) → Option String
read_from name [] = none
read_from name ((k, v) ∷ jar) = if str_eq k name then some v else read_from name jar

abbrev written : ℤ → String → String → List (String × String) → List (String × String)
written (pos n) name value jar = (name, value) ∷ jar
written (negsuc n) name value jar = jar

abbrev no_path : Option String → Bool
no_path none = true
no_path (some path) = false

read_written :
    (name other value : String) (age : ℕ) (path : Option String) (jar : List (String × String))
    → no_path path ≡ true
    → 0 < age
    → read_from other (written (pos age) name value jar)
      ≡ (if str_eq name other then some value else read_from other jar)
unfolding read_from
read_written name other value age path jar p h = refl

abbrev cookies : Cookies
cookies = record {
  Jar = List (String × String);
  read = read_from;
  write = λ name value age path jar. written age name value jar;
  covers = no_path;
  read_write = read_written;
}

abbrev welcome : Dialog
welcome = record {
  id = "welcome";
  hidden = false;
  reveal = false;
  hide = false;
  concealed = false;
  set_cookie = some (pos 7);
  cookie_name = none;
  cookie_value = none;
  cookie_path = none;
  delay = none;
  hide_delay = none;
}

abbrev visit : Dialogs (List (String × String))
visit = record { dialogs = welcome ∷ []; waiting = []; jar = [] }

visit-AreKept : AreKept cookies (welcome ∷ [])
visit-AreKept zero d h = let same : welcome ≡ d = cc in rw (← same) (inr (6, refl, refl))
visit-AreKept (suc i) d h = cc

closed-load_dialogs_example :
    get_elem?
      (load_dialogs cookies (welcome ∷ []) (run_waiting cookies (slid_up 0 true) visit).jar).dialogs
      0
    ≡ some (record welcome { concealed = true })
closed-load_dialogs_example =
    closed-load_dialogs cookies visit (run_waiting cookies (slid_up 0 true) visit) (welcome ∷ []) 0
      0 6 welcome welcome visit-AreKept refl refl refl here refl refl refl

welcome-AreAtRest : AreAtRest (welcome ∷ [])
welcome-AreAtRest zero d h = let same : welcome ≡ d = cc in rw (← same) (refl, refl)
welcome-AreAtRest (suc i) d h = cc

-- The dialog is shown, and slides down.
abbrev shown_visit : Dialogs (List (String × String))
shown_visit = show_dialog "welcome" false (load_dialogs cookies (welcome ∷ []) [])

shown_waiting : get_elem? shown_visit.waiting 0 ≡ some (slid_down 0)
unfolding show_dialog load_dialogs indices_from update_where is_remembered read_from
shown_waiting = refl

abbrev ended_visit : Dialogs (List (String × String))
ended_visit =
    run_waiting cookies (slid_down 0)
      (record shown_visit { waiting = take_out 0 shown_visit.waiting })

ended_waiting : ended_visit.waiting ≡ []
unfolding show_dialog load_dialogs run_waiting indices_from update_where is_remembered read_from
ended_waiting = refl

sessions-AreAtRest_example : AreAtRest ended_visit.dialogs
sessions-AreAtRest_example =
    sessions-AreAtRest cookies (welcome ∷ []) [] {t = ended_visit} welcome-AreAtRest
      (next (next here (show "welcome" false)) (run 0 (slid_down 0) shown_waiting)) ended_waiting
