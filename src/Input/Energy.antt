-- ===== src/Input/Energy.antt =====
-- The bounds of the wheel's energy (resource/js/slides.js, "Scrolling").
use net_frame.Common.{◌≡◌, ◌⊎◌, arith}
use net_frame.Common.Int.{ℤ, pos, negsuc, ◌≤ℤ◌}
use net_frame.Input.Wheel.{bound_energy}

-- Whatever the wheel gives, the bounded energy lies between -1500 and 1500, is 1500 from there up,
-- is -1500 below -1000, and is the energy itself in between.
pub bound_energy_cases :
    (e : ℤ)
    → (negsuc 1499 ≤ℤ bound_energy e)
      × (bound_energy e ≤ℤ pos 1500)
      × (((pos 1500 ≤ℤ e) × (bound_energy e ≡ pos 1500))
          ⊎ (((e ≤ℤ negsuc 1000) × (bound_energy e ≡ negsuc 1499))
              ⊎ ((negsuc 999 ≤ℤ e) × (e ≤ℤ pos 1500) × (bound_energy e ≡ e))))
unfolding bound_energy
bound_energy_cases e = ground arith
