-- ===== src/Page/Timers.antt =====
-- `setTimeout`, `clearTimeout` and `$(window).trigger` of resource/js/slides.js. The callbacks that
-- wait are a list, the newest first. A handle is the number of timers that were set before.
use net_frame.Common.{ℕ, ◌+◌, Option, none, some, List, [], ◌∷◌, ◌==◌, if◌then◌else◌}
use net_frame.Page.{Page, Timer, Task, Trigger}

unfoldable pub set_timeout : ℕ → Task → Page → Page
set_timeout delay task p = record p {
  pending = record { handle = p.next_handle; delay = delay; task = task } ∷ p.pending;
  next_handle = p.next_handle + 1;
}

unfoldable pub drop_timer : ℕ → List Timer → List Timer
drop_timer h [] = []
drop_timer h (t ∷ ts) = let rest = drop_timer h ts in if t.handle == h then rest else t ∷ rest

-- A handle that was never set, or has run, clears nothing.
unfoldable pub without : Option ℕ → List Timer → List Timer
unfolding drop_timer
without none ts = ts
without (some h) ts = drop_timer h ts

unfoldable pub clear_timeout : Option ℕ → Page → Page
clear_timeout h p = record p { pending = without h p.pending }

unfoldable pub trigger : Trigger → Page → Page
trigger e p = record p { triggered = e ∷ p.triggered }
