-- ===== src/Overlay/Placement.antt =====
-- Where a dropdown is put (resource/js/slides.js, the geometry of `showDropdown`). The horizontal place is
-- doubled, since a dropdown in the centre stands off by half of the two widths. The dropdown exists.
use net_frame.Common.{ℕ, ◌≡◌, ◌⊎◌, Bool, true, false, Option, none, some, if◌then◌else◌, ◌*◌, arith}
use net_frame.Common.Int.{ℤ, pos, negsuc, ◌+ℤ◌, ◌-ℤ◌, scale}

-- The words of `data-dropdown-position`, or the classes of the dropdown.
pub record Sides : Type 0 where
  pub left : Bool
  pub right : Bool
  pub center : Bool
  pub top : Bool
  pub bottom : Bool

-- The trigger: its offset rounded up (within a popup, its position there), and its outer size.
pub record DropdownTrigger : Type 0 where
  pub x : ℤ
  pub y : ℤ
  pub width : ℕ
  pub height : ℕ
  pub position : Option Sides

pub record DropdownBox : Type 0 where
  pub width : ℕ
  pub height : ℕ
  pub classes : Sides

-- `elementPosition`
unfoldable pub sides_for : DropdownTrigger → DropdownBox → Sides
sides_for t d = elim (t.position) [ none ↦ d.classes | some words ↦ words ]

-- "vertical position"
unfoldable pub offset_y : DropdownTrigger → DropdownBox → ℤ
unfolding sides_for
offset_y t d = if (sides_for t d).bottom then t.y -ℤ pos d.height else t.y +ℤ pos t.height

-- "horizontal position", doubled
unfoldable pub offset_x : DropdownTrigger → DropdownBox → ℤ
unfolding sides_for
offset_x t d =
    let s = sides_for t d in
    let x = scale 2 t.x in
    if s.right
    then (x -ℤ pos (2 * d.width)) +ℤ pos (2 * t.width)
    else (if s.left then x else (if s.center then (x -ℤ pos d.width) +ℤ pos t.width else x))

-- The classes that are removed and added on the way.
unfoldable pub place_beside : Sides → Sides → Sides
place_beside s c =
    if s.right
    then record c { left = false; center = false; right = true }
    else (if s.left
        then record c { right = false; center = false; left = true }
        else (if s.center then record c { right = false; left = false; center = true } else c))

unfoldable pub place_across : Sides → Sides → Sides
place_across s c =
    if s.bottom
    then record c { top = false; bottom = true }
    else record c { bottom = false; top = true }

unfoldable pub placed : DropdownTrigger → DropdownBox → DropdownBox
unfolding sides_for place_beside place_across
placed t d =
    let s = sides_for t d in record d { classes = place_beside s (place_across s d.classes) }

-- The edges of the two, for the words that ask.
abbrev pub IsAligned : Sides → DropdownTrigger → DropdownBox → Type 0
IsAligned s t d =
    ((s.bottom ≡ false) ⊎ (offset_y t d +ℤ pos d.height ≡ t.y))
    × ((s.bottom ≡ true) ⊎ (offset_y t d ≡ t.y +ℤ pos t.height))
    × ((s.right ≡ false) ⊎ (offset_x t d +ℤ pos (2 * d.width) ≡ scale 2 t.x +ℤ pos (2 * t.width)))
    × ((s.right ≡ true) ⊎ ((s.left ≡ false) ⊎ (offset_x t d ≡ scale 2 t.x)))
    × ((s.right ≡ true)
        ⊎ ((s.left ≡ true)
            ⊎ ((s.center ≡ false) ⊎ (offset_x t d +ℤ pos d.width ≡ scale 2 t.x +ℤ pos t.width))))

sub-add : (a : ℤ) (n : ℕ) → (a -ℤ pos n) +ℤ pos n ≡ a
unfolding ◌-ℤ◌ ◌+ℤ◌
sub-add (pos a) n = ground arith
sub-add (negsuc a) n = ground arith

sub-add-add : (a : ℤ) (n m : ℕ) → ((a -ℤ pos n) +ℤ pos m) +ℤ pos n ≡ a +ℤ pos m
unfolding ◌-ℤ◌ ◌+ℤ◌
sub-add-add (pos a) n m = ground arith
sub-add-add (negsuc a) n m = ground arith

-- A dropdown touches its trigger: its lower edge lies on the trigger's upper one, or its upper edge on
-- the lower one of the trigger; and for the word `right`, `left` or `center` the right edges, the left
-- edges or the centres of the two stand in line.
pub offsets-IsAligned : (t : DropdownTrigger) (d : DropdownBox) → IsAligned (sides_for t d) t d
unfolding offset_x offset_y
offsets-IsAligned t d =
    let x = scale 2 t.x in
    ground (
      arith,
      sub-add t.y d.height,
      sub-add-add x (2 * d.width) (2 * t.width),
      sub-add-add x d.width t.width,
    )

-- A trigger with no attribute of its own puts the dropdown where its classes say, and leaves them so
-- that the dropdown is put there again.
pub placed-again :
    (t : DropdownTrigger) (d : DropdownBox)
    → t.position ≡ none
    → (offset_x t (placed t d) ≡ offset_x t d) × (offset_y t (placed t d) ≡ offset_y t d)
unfolding offset_x offset_y placed sides_for
placed-again t d own = ground arith
