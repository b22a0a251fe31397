-- ===== src/Tests/Panels.antt =====
-- Panels at a document of 3000 pixels in a window of 800.
use net_frame.Common.{ℕ, ◌≡◌, inr, true, false, some, [], ◌∷◌, arith}
use net_frame.Panels.{Panels, Turn, turns_panels}
use net_frame.Panels.Counter.{IsSettled, turns_panels-IsSettled}
use net_frame.Panels.Reveal.{no_turn, up_turn, turns_panels_up}

abbrev turn : ℕ → ℕ → Turn
turn top size = record {
  scroll_top = top;
  scroll_size = size;
  window_height = 800;
  document_height = 3000;
}

abbrev hidden_panels : Panels
hidden_panels = record { counter = 100; last_scroll_top = some 300; hide = true }

hidden_panels-IsSettled : IsSettled 100 hidden_panels
hidden_panels-IsSettled = record { bounded = omega arith; high = inr (omega arith) }

turns_panels-IsSettled_example :
    IsSettled 100 (turns_panels 100 (turn 200 60 ∷ turn 260 90 ∷ turn 100 90 ∷ []) hidden_panels)
turns_panels-IsSettled_example =
    turns_panels-IsSettled 100 (omega arith) (turn 200 60 ∷ turn 260 90 ∷ turn 100 90 ∷ [])
      hidden_panels hidden_panels-IsSettled

turns_panels_up_example :
    (turns_panels 100 (turn 240 60 ∷ turn 180 60 ∷ []) hidden_panels).hide ≡ false
turns_panels_up_example =
    turns_panels_up 100 (turn 240 60 ∷ turn 180 60 ∷ []) hidden_panels (omega arith)
      hidden_panels-IsSettled (up_turn (omega arith) (up_turn (omega arith) no_turn)) (omega arith)
