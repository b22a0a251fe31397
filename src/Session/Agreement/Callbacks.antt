-- ===== src/Session/Agreement/Callbacks.antt =====
-- The slide on stage and the slide that is selected (resource/js/slides.js): the callbacks.
use net_frame.Common.{
  ℕ, ◌≡◌, refl, ◌∙◌, ◌⊎◌, inl, inr, Bool, true, false, Option, some, List, arith,
}
use net_frame.Page.{
  Config, Page, Task, show_stage, release_action, refresh_navigation, start_page, read_hash, settle,
  animate_slide, mark_done, mark_slide_done, reset_scrolls, reveal_sidebar, clear_sidebars,
  reveal_popup, popup_done, remove_popup,
}
use net_frame.Page.Timers.{set_timeout}
use net_frame.Slides.Show.{
  scrolls, eq_slide, show_slide, run_settle, run_animate_slide, run_mark_done,
}
use net_frame.Slides.Frame.{show_slide-Keeps}
use net_frame.Slides.Change.{run_show_stage, run_release_action}
use net_frame.Navigation.{update_hash, run_refresh_navigation}
use net_frame.Scroll.{Screen, run_mark_slide_done}
use net_frame.Session.{run_the_code, run_start_page, run_task}
use net_frame.Session.Lock.{is_unlock}
use net_frame.Session.Agreement.{
  is_release, releases, unlock_count, IsShown, Agrees, IsApart-Agrees,
}
use net_frame.Session.Agreement.Overlays.{
  run_reveal_popup-Agrees, run_remove_popup-Agrees, run_popup_done-Agrees,
  run_reveal_sidebar-Agrees, run_clear_sidebars-Agrees,
}
use net_frame.Session.Agreement.Show.{
  show_slide-Fewer, show_slide-IsShown, show_slide-Agrees, Agrees-AreReady,
}
use net_frame.Session.Agreement.Slides.{update_hash_cases}
use net_frame.Session.Agreement.Input.{update_slides-Agrees, run_reset_scrolls-Agrees}

-- The lock is freed once, when the page is loaded.
pub run_the_code-Agrees : {p : Page} → p.loaded ≡ false → Agrees p → Agrees (run_the_code p)
unfolding run_the_code set_timeout unlock_count releases is_unlock is_release
run_the_code-Agrees {p} new (k, v) =
    let idle : unlock_count p.pending ≡ 0 = ground (arith, v.base.early) in
    let up_to_date : eq_slide p.stage p.slides ≡ some k = ground (arith, v.shown) in
    (
      k,
      record {
        inside = v.inside;
        order = v.order;
        shown = inl up_to_date;
        base = record {
          some_slide = v.base.some_slide;
          on_stage = v.base.on_stage;
          single = omega (arith, idle);
          idle = inr idle;
          early = inl refl;
        };
      },
    )

run_settle-Agrees :
    (changed : Bool) (old : List ℕ) {p : Page} → Agrees p → Agrees (run_settle changed old p)
unfolding run_settle
run_settle-Agrees true old v = unblocked (update_slides-Agrees _ _ (λ s. (refl, refl, refl)) v)
  where
    unblocked : {p : Page} → Agrees p → Agrees (record p { block_scroll = false })
    unblocked {p} = IsApart-Agrees (ground arith)
run_settle-Agrees false old {p} v = IsApart-Agrees (ground arith) v

run_animate_slide-Agrees : (new : Option ℕ) {p : Page} → Agrees p → Agrees (run_animate_slide new p)
unfolding run_animate_slide
run_animate_slide-Agrees new v = update_slides-Agrees _ _ (λ s. (refl, refl, refl)) v

run_mark_done-Agrees : {p : Page} → Agrees p → Agrees (run_mark_done p)
unfolding run_mark_done
run_mark_done-Agrees v = update_slides-Agrees _ _ (λ s. (refl, refl, refl)) v

run_mark_slide_done-Agrees : (i : ℕ) {p : Page} → Agrees p → Agrees (run_mark_slide_done i p)
unfolding run_mark_slide_done
run_mark_slide_done-Agrees i v = update_slides-Agrees _ _ (λ s. (refl, refl, refl)) v

run_refresh_navigation-Agrees : {p : Page} → Agrees p → Agrees (run_refresh_navigation p)
unfolding run_refresh_navigation
run_refresh_navigation-Agrees {p} = IsApart-Agrees (ground arith)

run_start_page-show_slide :
    (c : Config) (s : Screen) (p : Page)
    → scrolls c ≡ false
    → run_start_page c s p ≡ show_slide c p.stage p
unfolding run_start_page
run_start_page-show_slide c s p flips = ground arith

module _ (c : Config) (flips : scrolls c ≡ false) (classes : c.set_stage_classes ≡ true) where
  pub update_hash-Agrees : {p : Page} → Agrees p → Agrees (update_hash c p)
  update_hash-Agrees v =
      elim (update_hash_cases c flips classes v.1.base (Agrees-AreReady c flips classes v)) [
        | inl e ↦ rw e v
        | inr (w, _) ↦ w
      ]

  run_start_page-Agrees : (s : Screen) {p : Page} → Agrees p → Agrees (run_start_page c s p)
  run_start_page-Agrees s {p} v =
      rw (run_start_page-show_slide c s p flips)
        (show_slide-Agrees c flips classes v.1.base (Agrees-AreReady c flips classes v))

  pub run_task-Agrees :
      (s : Screen) (t : Task)
      → is_unlock t ≡ false
      → {p : Page} → Agrees p
      → Agrees (run_task c s t p)
  unfolding is_unlock run_task
  run_task-Agrees s show_stage other v = absurd (ground arith)
  run_task-Agrees s release_action other v = absurd (ground arith)
  run_task-Agrees s (settle changed old) other v = run_settle-Agrees changed old v
  run_task-Agrees s (animate_slide new) other v = run_animate_slide-Agrees new v
  run_task-Agrees s mark_done other v = run_mark_done-Agrees v
  run_task-Agrees s (mark_slide_done i) other v = run_mark_slide_done-Agrees i v
  run_task-Agrees s refresh_navigation other v = run_refresh_navigation-Agrees v
  run_task-Agrees s reset_scrolls other v = run_reset_scrolls-Agrees v
  run_task-Agrees s start_page other v = run_start_page-Agrees s v
  run_task-Agrees s read_hash other v = update_hash-Agrees v
  run_task-Agrees s (reveal_sidebar id) other v = run_reveal_sidebar-Agrees id v
  run_task-Agrees s (clear_sidebars visible) other v = run_clear_sidebars-Agrees visible v
  run_task-Agrees s (reveal_popup id) other v = run_reveal_popup-Agrees c id v
  run_task-Agrees s (popup_done id) other v = run_popup_done-Agrees id v
  run_task-Agrees s (remove_popup target elements) other v =
      run_remove_popup-Agrees target elements v

  run_show_stage-Agrees :
      {p : Page}
      → Agrees p
      → p.in_action ≡ true
      → p.loaded ≡ true
      → unlock_count p.pending ≡ 0
      → Agrees (run_show_stage c p)
  unfolding run_show_stage set_timeout unlock_count is_unlock
  run_show_stage-Agrees {p} v locked loaded none_left =
      let (k, w, up_to_date) =
        show_slide-IsShown c flips classes v.1.base (Agrees-AreReady c flips classes v) in
      let kept = show_slide-Keeps c p.stage p in
      let fewer = (show_slide-Fewer c p.stage p).0 in
      (
        k,
        record {
          inside = w.inside;
          order = w.order;
          shown = inl up_to_date;
          base = record {
            some_slide = w.base.some_slide;
            on_stage = w.base.on_stage;
            single = omega (arith, fewer, none_left);
            idle = inl (kept.in_action ∙ locked);
            early = inl (kept.loaded ∙ loaded);
          };
        },
      )

  run_release_action-Agrees :
      (k : ℕ) {p : Page}
      → IsShown k p
      → eq_slide p.stage p.slides ≡ some k
      → p.loaded ≡ true
      → unlock_count p.pending ≡ 0
      → Agrees (run_release_action p)
  unfolding run_release_action
  run_release_action-Agrees k v up_to_date loaded none_left = (
    k,
    record {
      inside = v.inside;
      order = v.order;
      shown = inl up_to_date;
      base = record {
        some_slide = v.base.some_slide;
        on_stage = v.base.on_stage;
        single = v.base.single;
        idle = inr none_left;
        early = inl loaded;
      };
    },
  )

  pub run_unlock-Agrees :
      (s : Screen) (t : Task) (k : ℕ) {p : Page}
      → is_unlock t ≡ true
      → IsShown k p
      → (is_release t ≡ false) ⊎ (eq_slide p.stage p.slides ≡ some k)
      → p.in_action ≡ true
      → p.loaded ≡ true
      → unlock_count p.pending ≡ 0
      → Agrees (run_task c s t p)
  unfolding run_task is_unlock is_release
  run_unlock-Agrees s show_stage k frees v up_to_date locked loaded none_left =
      run_show_stage-Agrees (k, v) locked loaded none_left
  run_unlock-Agrees s release_action k frees v (inl e) locked loaded none_left =
      absurd (ground arith)
  run_unlock-Agrees s release_action k frees v (inr e) locked loaded none_left =
      run_release_action-Agrees k v e loaded none_left
  run_unlock-Agrees s _ k frees v up_to_date locked loaded none_left = absurd (ground arith)
