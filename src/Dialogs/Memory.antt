-- ===== src/Dialogs/Memory.antt =====
-- What a closed dialog leaves for the next visit (resource/js/slides.js, "hide dialog message" and
-- "hide dialog message with cookie").
use Prim.Native.String.{String}
use text.Mathlib.Text.{◌==◌ as str_eq}
use text.Mathlib.TextPositions.{eq_refl}
use net_frame.Common.{
  ℕ, suc, ◌≡◌, refl, ◌⊎◌, inl, inr, ◌∙◌, ap, Bool, true, false, Option, none, some, List,
  if◌then◌else◌, is_some, arith, update_where, updated, get_elem?, get_elem?-update_where,
  map-eq-some, Bool-cases,
}
use net_frame.Common.Int.{pos}
use net_frame.Common.Text.{truthy, text_or}
use net_frame.Dialogs.{
  Dialog, Cookies, Waiting, reveal_later, hide_later, slid_down, slid_up, Dialogs, name_of,
  value_of, hide_at, show_dialog, remember, remember_at, run_waiting, is_remembered, load_dialogs,
  show, press, run, Reach, here, next,
}

-- The markup's attributes for cookies: an age of some days, and a path under which the cookie comes back.
abbrev pub IsKept : Cookies → Dialog → Type 0
IsKept C d =
    (d.set_cookie ≡ none)
    ⊎ ((n : ℕ) × (d.set_cookie ≡ some (pos (suc n))) × (C.covers d.cookie_path ≡ true))

abbrev pub AreKept : Cookies → List Dialog → Type 0
AreKept C ds = (i : ℕ) (d : Dialog) → get_elem? ds i ≡ some d → IsKept C d

-- A change that leaves the age and the path alone.
abbrev KeepsCookie : (Dialog → Dialog) → Type 0
KeepsCookie f =
    (d : Dialog) → ((f d).set_cookie ≡ d.set_cookie) × ((f d).cookie_path ≡ d.cookie_path)

truthy-text_or :
    (o : Option String) (s : String)
    → is_some (truthy (some s)) ≡ true
    → is_some (truthy (some (text_or o s))) ≡ true
truthy-text_or none s h = h
truthy-text_or (some t) s h = elim (Bool-cases (str_eq t "")) [
  | inl e ↦ rw (e, text_or) h
  | inr e ↦ rw (e, text_or) (rw e refl)
]

value_is_text : (d : Dialog) → is_some (truthy (some (value_of d))) ≡ true
unfolding value_of
value_is_text d = truthy-text_or d.cookie_value "true" refl

module _ (C : Cookies) where
  abbrev IsKnown : String → C.Jar → Type 0
  IsKnown name jar = is_some (truthy (C.read name jar)) ≡ true

  remember_cases :
      (d : Dialog) (name : String) (jar : C.Jar)
      → IsKept C d
      → (remember C d true jar ≡ jar)
        ⊎ (C.read name (remember C d true jar)
            ≡ (if str_eq (name_of d) name then some (value_of d) else C.read name jar))
  remember_cases d name jar (inl e) = inl (simp e)
  remember_cases d name jar (inr (n, e, p)) = inr (
      simp e (C.read_write (name_of d) name (value_of d) (suc n) d.cookie_path jar p (omega arith)))

  -- Closing a dialog that is kept leaves every known name known.
  remember-IsKnown :
      (d : Dialog) (name : String) (jar : C.Jar)
      → IsKept C d
      → IsKnown name jar
      → IsKnown name (remember C d true jar)
  remember-IsKnown d name jar kept known = elim (remember_cases d name jar kept) [
    | inl e ↦ rw e known
    | inr e ↦ elim (Bool-cases (str_eq (name_of d) name)) [
      | inl same ↦ rw (e, same) (value_is_text d)
      | inr other ↦ rw (e, other) known
    ]
  ]

  remember-IsKnown_self :
      (d : Dialog) (n : ℕ) (jar : C.Jar)
      → d.set_cookie ≡ some (pos (suc n))
      → C.covers d.cookie_path ≡ true
      → IsKnown (name_of d) (remember C d true jar)
  remember-IsKnown_self d n jar e p =
      let written =
        C.read_write (name_of d) (name_of d) (value_of d) (suc n) d.cookie_path jar p
          (omega arith) in
      simp (e, written, eq_refl) (value_is_text d)

  update_where-AreKept :
      (test : ℕ → Dialog → Bool) (f : Dialog → Dialog) (ds : List Dialog)
      → KeepsCookie f
      → AreKept C ds
      → AreKept C (update_where test f ds)
  update_where-AreKept test f ds keeps kept i d h =
      let (old, e, u) =
        map-eq-some (updated test f i) (get_elem? ds i) (get_elem?-update_where test f ds i) h in
      rw (← u) (updated-IsKept (test i old) old (kept i old e))
    where
      updated-IsKept : (b : Bool) (d : Dialog) → IsKept C d → IsKept C (if b then f d else d)
      updated-IsKept true d (inl e) = inl ((keeps d).0 ∙ e)
      updated-IsKept true d (inr (n, e, p)) = inr (n, (keeps d).0 ∙ e, ap C.covers (keeps d).1 ∙ p)
      updated-IsKept false d v = v

  -- What every step keeps, for a name that is known.
  record Remembers (name : String) (s : Dialogs (C.Jar)) : Type 0 where
    kept : AreKept C s.dialogs
    known : IsKnown name s.jar

  show_dialog-Remembers :
      (id name : String) (visible : Bool) (s : Dialogs (C.Jar))
      → Remembers name s
      → Remembers name (show_dialog id visible s)
  unfolding show_dialog
  show_dialog-Remembers id name true s v = v
  show_dialog-Remembers id name false s v = record {
    kept = update_where-AreKept _ _ s.dialogs (λ d. (refl, refl)) v.kept;
    known = v.known;
  }

  hide_at-Remembers :
      (k : ℕ) (closes : Bool) (name : String) (s : Dialogs (C.Jar))
      → Remembers name s
      → Remembers name (hide_at k closes s)
  unfolding hide_at
  hide_at-Remembers k closes name s v = record {
    kept = update_where-AreKept _ _ s.dialogs (λ d. (refl, refl)) v.kept;
    known = v.known;
  }

  remember_at-IsKnown :
      (o : Option Dialog) (closes : Bool) (name : String) (jar : C.Jar)
      → ((d : Dialog) → o ≡ some d → IsKept C d)
      → IsKnown name jar
      → IsKnown name (remember_at C o closes jar)
  remember_at-IsKnown none closes name jar kept known = known
  remember_at-IsKnown (some d) false name jar kept known = known
  remember_at-IsKnown (some d) true name jar kept known =
      remember-IsKnown d name jar (kept d refl) known

  run_waiting-Remembers :
      (w : Waiting) (name : String) (s : Dialogs (C.Jar))
      → Remembers name s
      → Remembers name (run_waiting C w s)
  unfolding run_waiting
  run_waiting-Remembers (reveal_later k) name s v = record {
    kept = update_where-AreKept _ _ s.dialogs (λ d. (refl, refl)) v.kept;
    known = v.known;
  }
  run_waiting-Remembers (hide_later k) name s v = hide_at-Remembers k false name s v
  run_waiting-Remembers (slid_down k) name s v = record {
    kept = update_where-AreKept _ _ s.dialogs (λ d. (refl, refl)) v.kept;
    known = v.known;
  }
  run_waiting-Remembers (slid_up k closes) name s v = record {
    kept = update_where-AreKept _ _ s.dialogs (λ d. (refl, refl)) v.kept;
    known = remember_at-IsKnown _ closes name s.jar (v.kept k) v.known;
  }

  Reach-Remembers :
      (name : String) {s t : Dialogs (C.Jar)} → Remembers name s → Reach C s t → Remembers name t
  Reach-Remembers name v here = v
  Reach-Remembers name v (next r (show id visible)) =
      show_dialog-Remembers id name visible _ (Reach-Remembers name v r)
  Reach-Remembers name v (next r (press k closes)) =
      hide_at-Remembers k closes name _ (Reach-Remembers name v r)
  Reach-Remembers name v (next r (run n w found)) =
      let u = Reach-Remembers name v r in
      run_waiting-Remembers w name _ (record { kept = u.kept; known = u.known })

  closed-Remembers :
      (s : Dialogs (C.Jar)) (k n : ℕ) (d : Dialog)
      → AreKept C s.dialogs
      → get_elem? s.dialogs k ≡ some d
      → d.set_cookie ≡ some (pos (suc n))
      → C.covers d.cookie_path ≡ true
      → Remembers (name_of d) (run_waiting C (slid_up k true) s)
  unfolding run_waiting
  closed-Remembers s k n d kept found age path = record {
    kept = update_where-AreKept _ _ s.dialogs (λ d. (refl, refl)) kept;
    known = rw found (remember-IsKnown_self d n s.jar age path);
  }

  -- Closing is remembered: once the callback of a button "close" has run for a dialog with a cookie,
  -- the next visit hides every dialog of the same cookie name that asks for cookies, whatever happens
  -- on the page before; where all ages are positive and all cookies come back under their path.
  pub closed-load_dialogs :
      (s t : Dialogs (C.Jar)) (ds : List Dialog) (k j n : ℕ) (d e : Dialog)
      → AreKept C s.dialogs
      → get_elem? s.dialogs k ≡ some d
      → d.set_cookie ≡ some (pos (suc n))
      → C.covers d.cookie_path ≡ true
      → Reach C (run_waiting C (slid_up k true) s) t
      → get_elem? ds j ≡ some e
      → is_some e.set_cookie ≡ true
      → name_of e ≡ name_of d
      → get_elem? (load_dialogs C ds t.jar).dialogs j ≡ some (record e { concealed = true })
  unfolding load_dialogs is_remembered
  closed-load_dialogs s t ds k j n d e kept found age path r there asks same =
      let v = Reach-Remembers (name_of d) (closed-Remembers s k n d kept found age path) r in
      simp (get_elem?-update_where, there, asks, same, v.known)
