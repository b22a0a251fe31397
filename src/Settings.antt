-- ===== src/Settings.antt =====
-- What the start of the `ready` handler of resource/js/slides.js makes of the classes of `<body>`:
-- the mode and the speeds. Durations are milliseconds; `scroll_speed` is in hundredths of a second.
use net_frame.Common.{ℕ, Bool, true, false, not, ◌&&◌, none, List, [], if◌then◌else◌}
use net_frame.Common.Int.{pos}
use net_frame.Page.{
  Config, Page, Slide, Sidebar, Popup, Dropdown, Address, Animation, still, auto, on_event,
}
use net_frame.Navigation.{generate_dots}

-- What "Analyze Devices and Browsers" found out.
pub record Device : Type 0 where
  pub is_mobile : Bool
  pub is_windows : Bool
  pub is_firefox : Bool
  pub has_push_state : Bool
  pub is_file : Bool

-- The classes of `<body>`.
pub record Markup : Type 0 where
  pub fast : Bool
  pub slow : Bool
  pub scroll : Bool
  pub simplified_mobile : Bool
  pub horizontal : Bool
  pub no_preload : Bool
  pub animated : Bool
  pub animate_on_event : Bool
  pub smooth_scroll : Bool
  pub panels_to_hide : Bool

-- The globals that a page's author may set; the first lines of the file give their defaults.
pub record Author : Type 0 where
  pub set_stage_classes : Bool
  pub set_hash_link : Bool
  pub hide_sidebar_on_body_click : Bool
  pub disable_key_navigation : Bool
  pub disable_on_scroll : Bool
  pub disable_on_swipe : Bool
  pub min_scroll_to_slide : ℕ
  pub min_swipe_to_slide : ℕ

abbrev pub defaults : Author
defaults = record {
  set_stage_classes = true;
  set_hash_link = true;
  hide_sidebar_on_body_click = true;
  disable_key_navigation = false;
  disable_on_scroll = false;
  disable_on_swipe = false;
  min_scroll_to_slide = 500;
  min_swipe_to_slide = 4;
}

pub record Speeds : Type 0 where
  pub slide_speed : ℕ
  pub cleanup_delay : ℕ
  pub effect_speed : ℕ
  pub scroll_speed : ℕ
  pub effect_offset : ℕ

-- "Set speed", over the defaults.
unfoldable pub speeds : Markup → Speeds
speeds m =
    if m.fast
    then record {
      slide_speed = 700;
      cleanup_delay = 1200;
      effect_speed = 800;
      scroll_speed = 35;
      effect_offset = 400;
    }
    else (if m.slow
        then record {
          slide_speed = 1400;
          cleanup_delay = 2000;
          effect_speed = 1400;
          scroll_speed = 80;
          effect_offset = 600;
        }
        else record {
          slide_speed = 1000;
          cleanup_delay = 1400;
          effect_speed = 1000;
          scroll_speed = 50;
          effect_offset = 500;
        })

-- "Is it animated?" and "Remove animation for Simplified Mobile Option"
unfoldable pub animation : Device → Markup → Animation
animation d m =
    if m.simplified_mobile && d.is_mobile
    then still
    else (if m.animated
        then auto
        else (if m.animate_on_event then (if d.is_mobile then auto else on_event) else still))

abbrev pub is_still : Animation → Bool
is_still still = true
is_still auto = false
is_still on_event = false

unfoldable pub configure : Device → Markup → Author → Config
unfolding speeds animation
configure d m a = record {
  is_scroll = m.scroll;
  is_simplified_mobile = m.simplified_mobile;
  is_mobile = d.is_mobile;
  horizontal_mode = m.horizontal;
  smooth_scroll = m.smooth_scroll && not d.is_mobile;
  preload = not m.no_preload;
  is_animated = animation d m;
  slide_speed = (speeds m).slide_speed;
  effect_speed = (speeds m).effect_speed;
  cleanup_delay = if is_still (animation d m) then 0 else (speeds m).cleanup_delay;
  set_stage_classes = a.set_stage_classes;
  set_hash_link = a.set_hash_link;
  hide_sidebar_on_body_click = a.hide_sidebar_on_body_click;
  disable_key_navigation = a.disable_key_navigation;
  disable_on_scroll = a.disable_on_scroll;
  disable_on_swipe = a.disable_on_swipe;
  min_scroll_to_slide = a.min_scroll_to_slide;
  min_swipe_to_slide = a.min_swipe_to_slide;
  is_windows = d.is_windows;
  is_firefox = d.is_firefox;
  panels_to_hide = m.panels_to_hide;
  has_push_state = d.has_push_state;
  is_file = d.is_file;
}

-- The elements that the page's author wrote.
pub record Document : Type 0 where
  pub slides : List Slide
  pub sidebars : List Sidebar
  pub popups : List Popup
  pub dropdowns : List Dropdown
  pub address : Address

-- The globals as they are when the document is ready, before anything is shown.
unfoldable pub initial_page : Markup → Document → Page
unfolding speeds generate_dots
initial_page m d = record {
  stage = 1;
  in_action = true;
  block_scroll = true;
  allow_slide = true;
  loaded = false;
  collect_scrolls = pos 0;
  effect_offset = (speeds m).effect_offset;
  slides = d.slides;
  body = record {
    first_slide = false;
    last_slide = false;
    white_slide = false;
    hide_panel_top = false;
    hide_panel_bottom = false;
    stage_class = none;
  };
  sidebars = record {
    shown = false;
    items = d.sidebars;
    html_shown = false;
    html_id = none;
    removal = none;
  };
  popups = record {
    shown = none;
    items = d.popups;
    html_shown = false;
    html_ids = [];
    cleanup = none;
  };
  dropdowns = record {
    shown = false;
    items = d.dropdowns;
    html_shown = false;
    html_ids = [];
    scrolls = 0;
  };
  zoomed = false;
  address = d.address;
  navigation = generate_dots d.slides;
  pending = [];
  next_handle = 0;
  element_animation = none;
  swipe_top = 0;
  first_time_trigger = false;
  triggered = [];
}
