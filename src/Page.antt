-- ===== src/Page.antt =====
-- What resource/js/slides.js keeps between two events: the globals on `window` and the parts of the
-- document that it reads and writes. A class of an element is a flag of the element's record, so
-- `addClass` and `removeClass` set and clear it; a collection such as `$('.slide')` is a list in the
-- order of the document. `Config` holds what no handler writes.
pub mod Timers
use net_frame.Common.{ℕ, Bool, Option, List, length}
use net_frame.Common.Int.{ℤ}
use Prim.Native.String.{String}

-- `window.isAnimated`: false, "auto" or "animateOnEvent".
pub data Animation : Type 0 where
  still auto on_event : Animation

-- The globals that are fixed when the document is ready, and those that only the page's author sets.
pub record Config : Type 0 where
  pub is_scroll : Bool
  pub is_simplified_mobile : Bool
  pub is_mobile : Bool
  pub horizontal_mode : Bool
  pub smooth_scroll : Bool
  pub preload : Bool
  pub is_animated : Animation
  pub slide_speed : ℕ
  pub effect_speed : ℕ
  pub cleanup_delay : ℕ
  pub set_stage_classes : Bool
  pub set_hash_link : Bool
  pub hide_sidebar_on_body_click : Bool
  pub disable_key_navigation : Bool
  pub disable_on_scroll : Bool
  pub disable_on_swipe : Bool
  pub min_scroll_to_slide : ℕ
  pub min_swipe_to_slide : ℕ
  pub is_windows : Bool
  pub is_firefox : Bool
  pub panels_to_hide : Bool
  -- `history.pushState` exists; the page was opened from a file
  pub has_push_state : Bool
  pub is_file : Bool

-- One `.slide`. `done` says that its animated elements carry that class, `content_top` how far its
-- content is scrolled.
pub record Slide : Type 0 where
  pub selected : Bool
  pub active : Bool
  pub animate : Bool
  pub before : Bool
  pub after : Bool
  pub white : Bool
  pub done : Bool
  pub excluded : Bool
  pub content_top : ℕ
  pub slide_id : Option ℕ
  pub parent_id : Option ℕ
  pub data_name : Option String
  pub ident : Option String

-- The classes of `<body>` that the script sets; `stage` is the number in `stage-N`.
pub record Body : Type 0 where
  pub first_slide : Bool
  pub last_slide : Bool
  pub white_slide : Bool
  pub hide_panel_top : Bool
  pub hide_panel_bottom : Bool
  pub stage_class : Option ℕ

pub record Sidebar : Type 0 where
  pub id : ℕ
  pub animated : Bool
  pub visible : Bool
  pub animate : Bool
  pub active : Bool
  pub done : Bool

-- `shown` is `window.sidebarShown`; `html_shown` and `html_id` are the classes `sidebarShown` and
-- `sidebar_ID` of `<html>`; `removal` is `window.removeAnimationTimeout`.
pub record Sidebars : Type 0 where
  pub shown : Bool
  pub items : List Sidebar
  pub html_shown : Bool
  pub html_id : Option ℕ
  pub removal : Option ℕ

pub record Popup : Type 0 where
  pub id : ℕ
  pub animated : Bool
  pub visible : Bool
  pub animate : Bool
  pub active : Bool
  pub hiding : Bool
  pub done : Bool

-- `shown` is `window.popupShown`: `none` is false or undefined, `some ids` is the array, the last id
-- at its end. `html_ids` are the classes `popup_ID` of `<html>`.
pub record Popups : Type 0 where
  pub shown : Option (List ℕ)
  pub items : List Popup
  pub html_shown : Bool
  pub html_ids : List ℕ
  pub cleanup : Option ℕ

pub record Dropdown : Type 0 where
  pub id : ℕ
  pub show : Bool
  pub hide : Bool

-- `scrolls` is `hideDropdownOnScrollDelay`.
pub record Dropdowns : Type 0 where
  pub shown : Bool
  pub items : List Dropdown
  pub html_shown : Bool
  pub html_ids : List ℕ
  pub scrolls : ℕ

-- What a `setTimeout` runs later, with the variables that its closure holds.
pub data Task : Type 0 where
  show_stage : Task
  release_action : Task
  settle : Bool → List ℕ → Task
  animate_slide : Option ℕ → Task
  mark_done : Task
  mark_slide_done : ℕ → Task
  refresh_navigation : Task
  reset_scrolls : Task
  start_page : Task
  read_hash : Task
  reveal_sidebar : ℕ → Task
  clear_sidebars : List ℕ → Task
  reveal_popup : ℕ → Task
  popup_done : ℕ → Task
  remove_popup : Option ℕ → List ℕ → Task

pub record Timer : Type 0 where
  pub handle : ℕ
  pub delay : ℕ
  pub task : Task

-- What the script hands to others: `$(window).trigger(…)`, the click that it sends to a zoomed image,
-- and the scrolling to an offset that it asks of TweenLite, for the window or the current content, and the scrolling of the
-- window to the slide at a position, now or when the page is loaded.
pub data Trigger : Type 0 where
  slide_change : ℕ → Option ℕ → Trigger
  popup_shown : Trigger
  popup_hidden : Trigger
  dropdown_hidden : Trigger
  zoom_click : Trigger
  tween_window : ℤ → Trigger
  tween_content : ℤ → Trigger
  scroll_window : ℕ → Trigger
  scroll_when_loaded : ℕ → Trigger

-- `location`: the address without its fragment, which a page's address never lacks, and the
-- fragment where the address has a `#`.
pub record Address : Type 0 where
  pub base : String
  pub hash : Option String

pub record Page : Type 0 where
  pub stage : ℕ
  pub in_action : Bool
  pub block_scroll : Bool
  pub allow_slide : Bool
  pub loaded : Bool
  pub collect_scrolls : ℤ
  pub effect_offset : ℕ
  pub slides : List Slide
  pub body : Body
  pub sidebars : Sidebars
  pub popups : Popups
  pub dropdowns : Dropdowns
  pub zoomed : Bool
  pub address : Address
  pub navigation : List Bool
  pub pending : List Timer
  pub next_handle : ℕ
  pub element_animation : Option ℕ
  pub swipe_top : ℕ
  pub first_time_trigger : Bool
  pub triggered : List Trigger

-- `window.stages`
abbrev pub stages : Page → ℕ
stages p = length p.slides
