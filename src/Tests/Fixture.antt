-- ===== src/Tests/Fixture.antt =====
-- A small page: three slides, the first selected, the second not listed in the navigation, and a popup.
use net_frame.Common.{◌≡◌, refl, true, false, none, [], ◌∷◌, indices_from}
use net_frame.Common.Int.{pos}
use net_frame.Page.{Config, Page, Slide, Popup, auto}
use net_frame.Settings.{Device, Markup, Document, defaults, configure, initial_page}
use net_frame.Navigation.{listed}

abbrev pub device : Device
device = record {
  is_mobile = false;
  is_windows = false;
  is_firefox = false;
  has_push_state = true;
  is_file = false;
}

abbrev pub markup : Markup
markup = record {
  fast = false;
  slow = false;
  scroll = false;
  simplified_mobile = true;
  horizontal = false;
  no_preload = false;
  animated = true;
  animate_on_event = false;
  smooth_scroll = false;
  panels_to_hide = false;
}

abbrev pub scroll_markup : Markup
scroll_markup = record markup { scroll = true }

abbrev pub slide : Slide
slide = record {
  selected = false;
  active = false;
  animate = false;
  before = false;
  after = false;
  white = false;
  done = false;
  excluded = false;
  content_top = 0;
  slide_id = none;
  parent_id = none;
  data_name = none;
  ident = none;
}

abbrev pub popup : Popup
popup = record {
  id = 75;
  animated = true;
  visible = false;
  animate = false;
  active = false;
  hiding = false;
  done = false;
}

-- Three slides, the first selected, the second not listed in the navigation.
abbrev pub document : Document
document = record {
  slides =
      record slide { selected = true; active = true }
      ∷ record slide { after = true; excluded = true }
      ∷ record slide { after = true }
      ∷ [];
  sidebars = [];
  popups = popup ∷ [];
  dropdowns = [];
  address = record { base = "http://localhost/"; hash = none };
}

abbrev pub config : Config
config = record {
  is_scroll = false;
  is_simplified_mobile = true;
  is_mobile = false;
  horizontal_mode = false;
  smooth_scroll = false;
  preload = true;
  is_animated = auto;
  slide_speed = 1000;
  effect_speed = 1000;
  cleanup_delay = 1400;
  set_stage_classes = true;
  set_hash_link = true;
  hide_sidebar_on_body_click = true;
  disable_key_navigation = false;
  disable_on_scroll = false;
  disable_on_swipe = false;
  min_scroll_to_slide = 500;
  min_swipe_to_slide = 4;
  is_windows = false;
  is_firefox = false;
  panels_to_hide = false;
  has_push_state = true;
  is_file = false;
}

configured : configure device markup defaults ≡ config
unfolding configure
configured = refl

abbrev pub scroll_config : Config
scroll_config = record config { is_scroll = true }

abbrev pub horizontal_config : Config
horizontal_config = record config { horizontal_mode = true }

-- The page when it is loaded.
abbrev pub page : Page
page = record {
  stage = 1;
  in_action = false;
  block_scroll = false;
  allow_slide = true;
  loaded = true;
  collect_scrolls = pos 0;
  effect_offset = 500;
  slides = document.slides;
  body = record {
    first_slide = false;
    last_slide = false;
    white_slide = false;
    hide_panel_top = false;
    hide_panel_bottom = false;
    stage_class = none;
  };
  sidebars = record {
    shown = false;
    items = [];
    html_shown = false;
    html_id = none;
    removal = none;
  };
  popups = record {
    shown = none;
    items = popup ∷ [];
    html_shown = false;
    html_ids = [];
    cleanup = none;
  };
  dropdowns = record { shown = false; items = []; html_shown = false; html_ids = []; scrolls = 0 };
  zoomed = false;
  address = document.address;
  navigation = false ∷ false ∷ [];
  pending = [];
  next_handle = 0;
  element_animation = none;
  swipe_top = 0;
  first_time_trigger = false;
  triggered = [];
}

started :
    record (initial_page markup document) { in_action = false; block_scroll = false; loaded = true }
    ≡ page
unfolding initial_page listed indices_from
started = refl
