-- ===== src/Sound.antt =====
-- Music and sound (resource/js/slides.js, "Music and Sound"). `animate` is jQuery's: the script asks for a
-- change of the volume, and what it does at its end is a callback that waits.
pub mod Silence
use net_frame.Common.{
  ℕ, zero, suc, ◌+◌, ◌-◌, Bool, true, false, ◌&&◌, ◌||◌, Option, none, some, List, [], ◌∷◌, ◌==◌,
  ltb, map, if◌then◌else◌, update_where,
}

-- `data-sound-action`, which is "toggle" where it is missing.
pub data SoundAction : Type 0 where
  toggle play pause : SoundAction

-- One `audio` element and its `.soundTrigger`s: whether it is paused, the class `playing` of each
-- trigger, the volumes that were asked for with their durations (the newest first), and the number of
-- callbacks `pause()` that wait. `fade` is `none` for NaN.
pub record Sound : Type 0 where
  pub action : SoundAction
  pub fade : Option ℕ
  pub paused : Bool
  pub playing : List Bool
  pub volumes : List (Bool × Option ℕ)
  pub pauses : ℕ

abbrev pub may_play : SoundAction → Bool
may_play toggle = true
may_play play = true
may_play pause = false

abbrev pub may_pause : SoundAction → Bool
may_pause toggle = true
may_pause play = false
may_pause pause = true

abbrev pub mark : ℕ → Bool → List Bool → List Bool
mark k b = update_where (λ i _. i == k) (λ _. b)

-- The `ready` handler: the triggers show whether the sound starts by itself.
unfoldable pub start_sound : Bool → Sound → Sound
start_sound autoplay s = record s { playing = map (λ _. autoplay) s.playing }

-- A click on the trigger at a position.
unfoldable pub click_sound : ℕ → Sound → Sound
click_sound k s =
    if s.paused && may_play s.action
    then record s {
      paused = false;
      playing = mark k true s.playing;
      volumes = (true, s.fade) ∷ s.volumes;
    }
    else if may_pause s.action
    then record s {
      playing = mark k false s.playing;
      volumes = (false, s.fade) ∷ s.volumes;
      pauses = s.pauses + 1;
    }
    else s

-- The callback of `animate`.
unfoldable pub run_pause : Sound → Sound
run_pause s = record s { paused = true; pauses = s.pauses - 1 }

-- What happens to a sound: a click on a trigger, or the end of a fade whose callback waits.
pub data SoundEvent : Type 0 where
  click : ℕ → SoundEvent
  faded : SoundEvent

unfoldable pub on_sound : SoundEvent → Sound → Sound
unfolding click_sound run_pause
on_sound (click k) s = click_sound k s
on_sound faded s = if ltb 0 s.pauses then run_pause s else s

unfoldable pub on_sounds : List SoundEvent → Sound → Sound
unfolding on_sound
on_sounds [] s = s
on_sounds (e ∷ es) s = on_sounds es (on_sound e s)
