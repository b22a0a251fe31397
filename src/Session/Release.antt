-- ===== src/Session/Release.antt =====
-- The lock `window.inAction` opens again (resource/js/slides.js, `changeSlide`), with the callbacks that
-- wait and no event.
use net_frame.Common.{
  ℕ, zero, suc, ◌≡◌, refl, inl, inr, Bool, Bool-cases, true, false, some, List, [], ◌∷◌, arith,
  get_elem?,
}
use net_frame.Page.{Config, Page, Timer, Task, show_stage, release_action}
use net_frame.Page.Timers.{set_timeout}
use net_frame.Slides.Change.{run_show_stage, run_release_action}
use net_frame.Scroll.{Screen}
use net_frame.Settings.{Device, Markup, Author, Document, configure, initial_page}
use net_frame.Session.{run_task, fire, Reach, open_page}
use net_frame.Session.Lock.{is_unlock, unlocks}
use net_frame.Session.Overlays.{IsSteady}
use net_frame.Session.Invariant.{session-IsSteady}

-- Callbacks that run one after another, with no event between them.
pub data Fires (c : Config) (s : Screen) (start : Page) : Page → Type 0 where
  rest : Fires c s start start
  run :
      {p : Page} (k : ℕ) (t : Timer)
      → Fires c s start p
      → get_elem? p.pending k ≡ some t
      → Fires c s start (fire c s t p)

unlocks-get_elem? :
    (ts : List Timer)
    → unlocks ts ≡ true
    → (k : ℕ) × (t : Timer) × (get_elem? ts k ≡ some t) × (is_unlock t.task ≡ true)
unfolding unlocks
unlocks-get_elem? [] h = absurd (ground arith)
unlocks-get_elem? (u ∷ ts) h = elim (Bool-cases (is_unlock u.task)) [
  | inl frees ↦ (zero, u, refl, frees)
  | inr other ↦
      let (k, t, found, frees) = unlocks-get_elem? ts (ground arith) in (suc k, t, found, frees)
]

module _ (c : Config) (s : Screen) where
  abbrev Opens : Page → Type 0
  Opens p = (q : Page) × Fires c s p q × (q.in_action ≡ false)

  release-in_action :
      (p : Page) (t : Timer) → t.task ≡ release_action → (fire c s t p).in_action ≡ false
  unfolding fire run_task run_release_action
  release-in_action p t e = rw e refl

  -- The callback that frees the lock, or the one that sets it and this one.
  fired-Opens :
      (task : Task) (p q : Page)
      → is_unlock task ≡ true
      → Fires c s p (run_task c s task q)
      → Opens p
  unfolding is_unlock run_task run_show_stage run_release_action set_timeout
  fired-Opens release_action p q h r = (run_task c s release_action q, r, refl)
  fired-Opens show_stage p q h r =
      let shown = run_task c s show_stage q in
      let last : Timer = record { handle = _; delay = c.slide_speed; task = release_action } in
      (fire c s last shown, run zero last r refl, release-in_action shown last refl)
  fired-Opens _ p q h r = absurd (ground arith)

  IsSteady-Opens : (p : Page) → p.loaded ≡ true → IsSteady false c p → Opens p
  unfolding fire
  IsSteady-Opens p loaded v = elim v.timed.released [
    | inl e ↦ absurd (ground arith)
    | inr (inl e) ↦ (p, rest, e)
    | inr (inr (inl e)) ↦ absurd (ground arith)
    | inr (inr (inr e)) ↦
        let (k, t, found, frees) = unlocks-get_elem? p.pending e in
        fired-Opens t.task p _ frees (run k t rest found)
  ]

-- A session is never stuck: from every page that it reaches and that is loaded, some callbacks that wait
-- can run one after another, with no event between them, and then the lock is free.
pub session_opens :
    (d : Device) (m : Markup) (a : Author) (doc : Document) (no_images : Bool) (s : Screen)
    {p : Page}
    → Reach (configure d m a) (open_page (configure d m a) no_images (initial_page m doc)) p
    → p.loaded ≡ true
    → (q : Page) × Fires (configure d m a) s p q × (q.in_action ≡ false)
session_opens d m a doc no_images s r loaded =
    IsSteady-Opens (configure d m a) s _ loaded (session-IsSteady d m a doc no_images r)
