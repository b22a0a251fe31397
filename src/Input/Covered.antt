-- ===== src/Input/Covered.antt =====
-- What keys and swipes do, whatever lies over the slides (resource/js/slides.js, "Listen the Keys" and
-- "Swipes for mobile devices").
use net_frame.Common.{
  ℕ, suc, ◌+◌, ◌-◌, ◌≤◌, ◌<◌, ◌≡◌, refl, ◌⊎◌, inl, inr, true, false, ◌==◌, if◌then◌else◌, arith,
  Bool-cases,
}
use net_frame.Page.{Config, Page, stages}
use net_frame.Slides.Show.{scrolls}
use net_frame.Slides.Stage.{IsOnStage}
use net_frame.Slides.Change.{increase, decrease, change_slide, left}
use net_frame.Overlay.Sidebar.{hide_sidebar}
use net_frame.Overlay.Dropdown.{hide_dropdown, unzoom_image}
use net_frame.Overlay.Popup.{hide_popup}
use net_frame.Input.Keys.{Key, key_down, flip_by_key, scroll_by_key, escape}
use net_frame.Input.Swipe.{Swipe, swipe}

-- The keys that flip in the mode of the page, ← and → or ↑ and ↓, and their direction.
abbrev pub key_back : Config → ℕ
key_back c = if c.horizontal_mode then 37 else 38

abbrev pub key_forth : Config → ℕ
key_forth c = if c.horizontal_mode then 39 else 40

flip_by_key-stage :
    (c : Config) (p : Page)
    → scrolls c ≡ false
    → IsOnStage p
    → p.in_action ≡ false
    → ((flip_by_key c decrease p).stage ≡ (if p.stage == 1 then 1 else p.stage - 1))
      × ((flip_by_key c increase p).stage ≡ (if p.stage == stages p then p.stage else p.stage + 1))
unfolding flip_by_key change_slide
flip_by_key-stage c p flips on free = ground arith

escape-stage : (p : Page) → (escape p).stage ≡ p.stage
unfolding escape hide_sidebar hide_dropdown hide_popup unzoom_image
escape-stage p = ground arith

scroll_by_key-stage : (p : Page) → (scroll_by_key p).stage ≡ p.stage
unfolding scroll_by_key
scroll_by_key-stage p = refl

-- In slide mode, outside of a field and with the keys enabled, on a free page: the stage moves by one
-- on the key that points back, unless it is the first, and on the key that points forth, unless it is
-- the last; no other key moves it. A popup or sidebar that is open makes no difference.
pub key_down-stage :
    (c : Config) (k : Key) (p : Page)
    → scrolls c ≡ false
    → IsOnStage p
    → c.disable_key_navigation ≡ false
    → k.in_field ≡ false
    → p.in_action ≡ false
    → (key_down c k p).stage ≡ (
        if k.code == key_back c
        then (if p.stage == 1 then 1 else p.stage - 1)
        else (if k.code == key_forth c
            then (if p.stage == stages p then p.stage else p.stage + 1)
            else p.stage))
unfolding key_down
key_down-stage c k p flips on enabled outside free =
    ground (arith, flip_by_key-stage c p flips on free, escape-stage p, scroll_by_key-stage p)

-- The arrows of the other axis scroll the content in horizontal mode, ↑ and ↓ to the same place.
pub key_down_same :
    (c : Config) (p : Page)
    → c.horizontal_mode ≡ true
    → key_down c (record { code = 38; in_field = false }) p
      ≡ key_down c (record { code = 40; in_field = false }) p
unfolding key_down
key_down_same c p h = rw h

-- The escape key leaves no sidebar and no dropdown open, in every mode, with the keys enabled and
-- outside of a field.
pub key_down_escape :
    (c : Config) (p : Page)
    → c.disable_key_navigation ≡ false
    → let q = key_down c (record { code = 27; in_field = false }) p in
      (q.sidebars.shown ≡ false) × (q.dropdowns.shown ≡ false) × (q.stage ≡ p.stage)
unfolding key_down escape hide_sidebar hide_dropdown hide_popup unzoom_image
key_down_escape c p enabled = ground arith

-- What keeps a swipe from flipping: an open sidebar, the author, a distance that is too short, and,
-- where slides follow one another from top to bottom, content that has the page (`allow_slide`) or
-- that is taller than the window and not at the end that the swipe turns to.
abbrev pub HeldBack : Config → Swipe → Page → Type 0
HeldBack c s p =
    (p.sidebars.shown ≡ true)
    ⊎ ((c.disable_on_swipe ≡ true)
        ⊎ ((s.distance ≤ c.min_swipe_to_slide)
            ⊎ ((c.horizontal_mode ≡ false)
                × ((p.allow_slide ≡ false)
                    ⊎ ((s.starts ≡ true)
                        × (s.window_height < s.height)
                        × (0 < s.top)
                        × (s.top + s.window_height < s.height))))))

-- A swipe that is held back changes nothing but the offset that it remembers.
pub swipe_held :
    (c : Config) (s : Swipe) (p : Page)
    → HeldBack c s p
    → swipe c s p ≡ (if s.starts then record p { swipe_top = s.top } else p)
unfolding swipe
swipe_held c s p held = ground arith

-- One flip between two pages, in one direction or the other.
abbrev pub StepsOne : Page → Page → Type 0
StepsOne p q =
    (q.stage ≡ p.stage)
    ⊎ (IsOnStage q × ((q.stage ≡ suc p.stage) ⊎ (suc q.stage ≡ p.stage)) × (p.in_action ≡ false))

change_slide-StepsOne :
    (c : Config) (p : Page)
    → scrolls c ≡ false
    → IsOnStage p
    → StepsOne p (left (change_slide c increase p)) × StepsOne p (left (change_slide c decrease p))
unfolding change_slide
change_slide-StepsOne c p flips on = ground arith

-- In slide mode a swipe leaves the stage, or moves it by one to a slide that exists, from a page on
-- which no slide is on its way.
pub swipe-StepsOne :
    (c : Config) (s : Swipe) (p : Page) → scrolls c ≡ false → IsOnStage p → StepsOne p (swipe c s p)
unfolding swipe
swipe-StepsOne c s p flips on = elim (Bool-cases s.starts) [
  | inl e ↦ rw e (ground (arith, change_slide-StepsOne c (record p { swipe_top = s.top }) flips on))
  | inr e ↦ rw e (ground (arith, change_slide-StepsOne c p flips on))
]
