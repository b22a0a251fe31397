-- ===== src/Tests/Slides.antt =====
-- `showSlide` and `changeSlide` at the small page.
use net_frame.Common.{
  ◌∷◌, [], zero, suc, ◌≡◌, ◌≤◌, refl, ◌≢◌, true, false, some, arith, get_elem?, find_index,
}
use net_frame.Page.{Slide, Timer}
use net_frame.Slides.Show.{current_number, show_slide}
use net_frame.Slides.Order.{InOrder}
use net_frame.Slides.Change.{number, increase, change_slide, left}
use net_frame.Slides.Stage.{IsFine, change_slide-IsFine, finish_flip, whole_flip}
use net_frame.Slides.Race.{Waits, flip_and_return}
use net_frame.Session.{fire}
use net_frame.Scroll.{Screen}
use net_frame.Tests.Fixture.{config, scroll_config, page}

-- The first slide is selected, and the page stands on stage 1.
first_is_current : current_number page.slides ≡ 1
unfolding current_number find_index
first_is_current = refl

pub page-InOrder : InOrder 0 page.slides
page-InOrder zero s h = ground arith
page-InOrder (suc zero) s h = ground arith
page-InOrder (suc (suc zero)) s h = ground arith
page-InOrder (suc (suc (suc i))) s h = cc

away_from_third : current_number page.slides ≢ 3
away_from_third e = omega (arith, first_is_current, e)

whole_flip_example :
    let q = finish_flip config (left (change_slide config (number 3) page)) in
    (q.stage ≡ 3) × (q.in_action ≡ false) × InOrder 2 q.slides
whole_flip_example =
    whole_flip config 2 page refl refl refl (omega arith) (omega arith) away_from_third

change_slide-IsFine_example : IsFine (change_slide scroll_config increase page)
change_slide-IsFine_example =
    change_slide-IsFine scroll_config increase page (omega arith, omega arith) tt

abbrev small_screen : Screen
small_screen = record {
  scroll_top = 500;
  window_height = 800;
  document_height = 2400;
  boxes =
      record { top = 0; height = 800 }
      ∷ record { top = 800; height = 800 }
      ∷ record { top = 1600; height = 800 }
      ∷ [];
}

flip_and_return_example :
    let q = show_slide config 3 page in
    let r = show_slide config 1 q in
    (t : Timer) × Waits t q.pending
    × Waits t r.pending
    × (0 ≤ t.handle)
    × (t.delay ≡ config.effect_speed)
    × ((s : Slide) × (get_elem? (fire config small_screen t r).slides 0 ≡ some s)
        × (s.selected ≡ true)
        × (s.active ≡ false)
        × (s.animate ≡ false))
flip_and_return_example =
    flip_and_return config small_screen 0 2 page refl refl refl (λ h e. cc) (omega arith)
      (omega arith) (λ e. absurd (omega arith)) page-InOrder
