-- ===== src/Input/Wheel.antt =====
-- The handler of the wheel (resource/js/slides.js, "Scrolling"). Lengths are whole pixels. What the
-- browser measures comes with the event.
use net_frame.Common.{
  ℕ, ◌+◌, ◌*◌, Bool, true, false, not, ◌&&◌, ◌||◌, Option, none, some, List, ◌==◌, ltb, leb,
  if◌then◌else◌, is_some, update_where, find_index, get_elem?,
}
use net_frame.Common.Int.{ℤ, pos, negsuc, ◌+ℤ◌, ◌-ℤ◌, scale, ltb_ℤ, magnitude}
use net_frame.Page.{Config, Page, Slide, Body, stages, reset_scrolls, tween_window, tween_content}
use net_frame.Page.Timers.{set_timeout, trigger}
use net_frame.Slides.Show.{scrolls, is_current}
use net_frame.Slides.Change.{increase, decrease, change_slide, left}

-- `up` is `event.deltaY >= 0`; `size` is `scrollsize`; `delta` is `wheelDelta`. `height` is
-- `currentSectionHeight`, `zoomed_height` is that divided by the zoom and rounded down. `window_top`
-- is the offset of the window. `clamp` is the offset that the browser gives an element that is sent
-- to an offset.
pub record Wheel : Type 0 where
  pub up : Bool
  pub size : ℕ
  pub delta : ℤ
  pub height : ℕ
  pub zoomed_height : ℕ
  pub window_height : ℕ
  pub window_top : ℕ
  pub clamp : ℤ → ℕ

-- `$currentSection.scrollTop()`, of the first slide that is selected.
unfoldable pub top_of : Option Slide → ℕ
top_of none = 0
top_of (some s) = s.content_top

unfoldable pub selected_slide : List Slide → Option Slide
selected_slide ss = elim (find_index is_current ss) [ none ↦ none | some k ↦ get_elem? ss k ]

unfoldable pub current_top : List Slide → ℕ
unfolding top_of selected_slide
current_top ss = top_of (selected_slide ss)

-- `$currentSection.scrollTop(y)`
unfoldable pub scroll_current : Wheel → ℤ → Page → Page
scroll_current w y p = record p {
  slides = update_where (λ _ s. is_current s) (λ s. record s { content_top = w.clamp y }) p.slides;
}

-- `browserScrollRate`, and `energy` before it is bounded
abbrev pub browser_rate : Config → ℕ
browser_rate c = if c.is_firefox then 2 else 1

abbrev pub os_rate : Config → ℕ
os_rate c = if c.is_windows then browser_rate c * 2 else browser_rate c

unfoldable pub energy : Config → ℤ → ℤ
energy c delta = scale (browser_rate c * os_rate c) delta

-- The two lines that bound the energy, -1000 and -1500 as they stand.
unfoldable pub bound_energy : ℤ → ℤ
bound_energy e =
    let below = if ltb_ℤ (pos 1500) e then pos 1500 else e in
    if ltb_ℤ below (negsuc 999) then negsuc 1499 else below

-- No sidebar and no popup is open, and no slide is on its way.
unfoldable pub free_to_scroll : Page → Bool
free_to_scroll p = not p.sidebars.shown && not (is_some p.popups.shown) && not p.block_scroll

-- "scroll mode"
unfoldable pub wheel_scroll_mode : Config → Wheel → Page → Page
unfolding energy bound_energy free_to_scroll scroll_current current_top trigger
wheel_scroll_mode c w p =
    let e = energy c w.delta in
    if c.is_scroll && free_to_scroll p
    then (if c.smooth_scroll && not c.is_mobile
        then trigger (tween_window (pos w.window_top -ℤ bound_energy e)) p
        else (if not c.is_windows then scroll_current w (pos (current_top p.slides) -ℤ e) p else p))
    else p

-- The content is at the end that the wheel turns to.
unfoldable pub at_edge : Wheel → ℕ → Bool
at_edge w top = (w.up && top == 0) || (not w.up && leb w.zoomed_height (top + w.window_height))

-- "hide panels on scroll"
unfoldable pub hide_panels : Wheel → ℕ → Body → Body
hide_panels w top b = record b {
  hide_panel_top =
      if not w.up && ltb 0 top then true else (if w.up then false else b.hide_panel_top);
  hide_panel_bottom = not (not w.up && leb w.zoomed_height (top + w.window_height));
}

-- "scroll oversized content"
unfoldable pub scroll_oversized : Config → Wheel → Page → Page
unfolding energy bound_energy free_to_scroll current_top trigger at_edge hide_panels
scroll_oversized c w p =
    let top = current_top p.slides in
    let e = energy c w.delta in
    let q = record p {
      allow_slide = at_edge w top;
      body = if c.panels_to_hide then hide_panels w top p.body else p.body;
    } in
    if free_to_scroll p
    then (if c.smooth_scroll
        then trigger (tween_content (pos top -ℤ bound_energy e)) q
        else scroll_current w (if w.up then pos top -ℤ pos w.size else pos (top + w.size)) q)
    else q

-- What is collected in two tenths of a second; `scrollsize` is not 0 here.
unfoldable pub collect : Wheel → Page → Page
unfolding set_timeout
collect w p =
    if p.allow_slide
    then set_timeout 200 reset_scrolls (record p {
      collect_scrolls =
          if w.up then p.collect_scrolls -ℤ pos w.size else p.collect_scrolls +ℤ pos w.size;
    })
    else p

abbrev pub min_scroll : Config → ℕ
min_scroll c = if c.is_firefox && c.is_windows then 200 else c.min_scroll_to_slide

-- "change slide on medium user scroll"
unfoldable pub flip_on_scroll : Config → Wheel → Page → Page
unfolding change_slide
flip_on_scroll c w p =
    if leb (min_scroll c) (magnitude p.collect_scrolls)
      && p.allow_slide
      && not p.sidebars.shown
      && not (is_some p.popups.shown)
      && not c.disable_on_scroll
    then (let q = record p { collect_scrolls = pos 0 } in
        if ((not w.up && not (q.stage == stages q)) || (w.up && not (q.stage == 1)))
          && not q.in_action
        then left (change_slide c (if w.up then decrease else increase) q)
        else q)
    else p

-- "slide mode"
unfoldable pub wheel_slide_mode : Config → Wheel → Page → Page
wheel_slide_mode c w p =
    if scrolls c
    then p
    else flip_on_scroll c w
        (collect w (if ltb w.window_height w.height then scroll_oversized c w p else p))

unfoldable pub wheel : Config → Wheel → Page → Page
wheel c w p = if w.size == 0 then p else wheel_slide_mode c w (wheel_scroll_mode c w p)

unfoldable pub run_reset_scrolls : Page → Page
run_reset_scrolls p = record p { collect_scrolls = pos 0 }
