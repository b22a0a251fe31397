-- ===== src/Sound/Silence.antt =====
-- Whether a trigger shows what one hears (resource/js/slides.js, "Music and Sound").
use net_frame.Common.{
  ◌<◌, ◌≡◌, refl, sym, ◌∙◌, ◌⊎◌, inl, inr, Bool-cases, Bool, true, false, not, ◌&&◌, List, [], ◌∷◌,
  arith, update_where,
}
use net_frame.Sound.{
  Sound, may_play, may_pause, mark, start_sound, click_sound, SoundEvent, click, faded, on_sound,
  on_sounds,
}

-- A sound with one trigger: where the trigger is off, the sound is paused or about to be.
pub record IsHonest (on : Bool) (s : Sound) : Type 0 where
  pub single : s.playing ≡ on ∷ []
  pub quiet : (on ≡ true) ⊎ ((s.paused ≡ true) ⊎ (0 < s.pauses))

mark_first : (b on : Bool) → mark 0 b (on ∷ []) ≡ b ∷ []
unfolding update_where
mark_first b on = refl

click_sound-IsHonest :
    (on : Bool) (s : Sound) → IsHonest on s → (b : Bool) × IsHonest b (click_sound 0 s)
unfolding click_sound
click_sound-IsHonest on s v = elim (Bool-cases (s.paused && may_play s.action)) [
  | inl e ↦ (true, rw e record { single = rw v.single (mark_first true on); quiet = inl refl })
  | inr e ↦ elim (Bool-cases (may_pause s.action)) [
    | inl f ↦ (
      false,
      rw (e, f)
          record { single = rw v.single (mark_first false on); quiet = inr (inr (omega arith)) },
    )
    | inr f ↦ (on, rw (e, f) v)
  ]
]

faded-IsHonest : (on : Bool) (s : Sound) → IsHonest on s → IsHonest on (on_sound faded s)
unfolding on_sound
faded-IsHonest on s v = ground arith

-- All clicks are on the first trigger.
abbrev pub AreFirst : List SoundEvent → Type 0
AreFirst [] = Unit {0}
AreFirst (click k ∷ es) = (k ≡ 0) × AreFirst es
AreFirst (faded ∷ es) = AreFirst es

on_sounds-IsHonest :
    (on : Bool) (es : List SoundEvent) (s : Sound)
    → AreFirst es
    → IsHonest on s
    → (b : Bool) × IsHonest b (on_sounds es s)
unfolding on_sounds
on_sounds-IsHonest on [] s h v = (on, v)
on_sounds-IsHonest on (click k ∷ es) s (e, h) v =
    let (b, w) = click_sound-IsHonest on s v in
    on_sounds-IsHonest b es (on_sound (click k) s) h (rw e (unfold on_sound in w))
on_sounds-IsHonest on (faded ∷ es) s h v =
    on_sounds-IsHonest on es (on_sound faded s) h (faded-IsHonest on s v)

start_sound-IsHonest :
    (autoplay on : Bool) (s : Sound)
    → s.playing ≡ on ∷ []
    → s.paused ≡ not autoplay
    → IsHonest autoplay (start_sound autoplay s)
unfolding start_sound
start_sound-IsHonest true on s one starts = record { single = rw one refl; quiet = inl refl }
start_sound-IsHonest false on s one starts = record {
  single = rw one refl;
  quiet = inr (inl starts);
}

-- A sound that has one trigger, and plays at the start exactly if it starts by itself: whatever clicks
-- and ends of fades follow, the sound is paused once the trigger is off and no callback waits.
pub trigger_off :
    (autoplay : Bool) (es : List SoundEvent) (s : Sound) (on : Bool)
    → AreFirst es
    → s.playing ≡ on ∷ []
    → s.paused ≡ not autoplay
    → (on_sounds es (start_sound autoplay s)).playing ≡ false ∷ []
    → (on_sounds es (start_sound autoplay s)).pauses ≡ 0
    → (on_sounds es (start_sound autoplay s)).paused ≡ true
trigger_off autoplay es s on h one starts off idle =
    let (b, v) =
      on_sounds-IsHonest autoplay es _ h (start_sound-IsHonest autoplay on s one starts) in
    let same : b ∷ [] ≡ false ∷ [] = sym v.single ∙ off in
    elim v.quiet [ inl e ↦ cc | inr (inl e) ↦ e | inr (inr e) ↦ absurd (omega arith) ]
