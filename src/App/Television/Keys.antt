-- ===== src/App/Television/Keys.antt =====
-- The remote controller's keys over the application do what they mean on a television (tv_app.c,
-- stream_controller.c, graphics_controller.c).
use mathlib.Core.Path.{subst}
use ppu_tvi_os.Common.{
  ℕ, ◌≡◌, refl, ap, ◌∙◌, sym, ◌==◌, Bool, true, false, if◌then◌else◌, Option, some, none, List, [],
  ◌∷◌, ◌++◌, map, arith,
}
use ppu_tvi_os.Common.Outcome.{Outcome, done, ◌>>=◌, Returns}
use ppu_tvi_os.Stream.Channels.Zapping.{ZapKey, turn}
use ppu_tvi_os.Stream.Channels.Zapping
use ppu_tvi_os.Stream.Volume.Level.{VolumeKey, level, told, press, press_lem}
use ppu_tvi_os.Stream.Volume.Level
use ppu_tvi_os.Graphics.{draw_info_rect}
use ppu_tvi_os.App.Keypad.{Keypad, empty_keypad, input_channel_number}
use ppu_tvi_os.App.Keypad.Digits.{type_all}
use ppu_tvi_os.App.Remote.{System, info_key, digit_key, digit_of, remote_controller_callback}
use ppu_tvi_os.App.Remote.Ready.{press_codes}
use ppu_tvi_os.App.Television.{
  Television, Button, zap, sound, digit, info, leave, other, digit_button, button_of, push,
  push_all, Shows,
}
use ppu_tvi_os.App.Television.Channels.{Does}
use ppu_tvi_os.App.Television.Channels.{zap-Does}
use ppu_tvi_os.App.Television.Sounds.{volume_up-Does, volume_down-Does, mute_key-Does}

type_all-append :
    (ds : List ℕ) (d : ℕ) (k : Keypad)
    → type_all (ds ++ (d ∷ [])) k ≡ input_channel_number d (type_all ds k)
type_all-append [] d k = refl
type_all-append (x ∷ ds) d k = type_all-append ds d (input_channel_number x k)

-- The ten digit keys, read off the source's table.
digit_of-digit_button :
    (code : ℕ) → digit_button code ≡ elim (digit_of code) [ some d ↦ digit d | none ↦ other ]
unfolding digit_of
digit_of-digit_button code = ground arith

if-Does :
    (m : ℕ) (tv : Television) (c : Bool) (b b' : Button) (run run' : Outcome System)
    → Does m b tv run
    → Does m b' tv run'
    → Does m (if c then b else b') tv (if c then run else run')
if-Does m tv true b b' run run' h h' = h
if-Does m tv false b b' run run' h h' = h'

module _ (m : ℕ) (s : System) (tv : Television) (h : Shows m s tv) where
  info_key-Does : Does m info tv (info_key s)
  unfolding info_key draw_info_rect
  info_key-Does = (
    _,
    refl,
    record {
      tuned = h.tuned;
      tuning = h.tuning;
      heard = h.heard;
      seen = record { bar = h.seen.bar; number = h.seen.number; info = refl };
      timer = h.timer;
      typed = h.typed;
      leaving = h.leaving;
    },
  )

  leave-Does : Does m leave tv (done (record s { exit_signalled = true }))
  leave-Does = (
    _,
    refl,
    record {
      tuned = h.tuned;
      tuning = h.tuning;
      heard = h.heard;
      seen = record { bar = h.seen.bar; number = h.seen.number; info = h.seen.info };
      timer = h.timer;
      typed = h.typed;
      leaving = refl;
    },
  )

  digit-Does :
      (typed : Option ℕ)
      → Does m
          (elim typed [ some d ↦ digit d | none ↦ other ])
          tv
          (elim typed [ some d ↦ digit_key d s | none ↦ done s ])
  unfolding digit_key
  digit-Does none = (s, refl, h)
  digit-Does (some d) = (
    _,
    refl,
    record {
      tuned = h.tuned;
      tuning = h.tuning;
      heard = h.heard;
      seen = record { bar = h.seen.bar; number = h.seen.number; info = h.seen.info };
      timer = h.timer;
      typed =
          ap (input_channel_number d) h.typed
          ∙ sym (type_all-append tv.number d (empty_keypad h.timer));
      leaving = h.leaving;
    },
  )

  pub remote_controller_callback-push :
      (code : ℕ) → Does m (button_of code) tv (remote_controller_callback code s)
  unfolding remote_controller_callback
  remote_controller_callback-push code = if-Does m tv (code == 358) info _ _ _ info_key-Does (
      if-Does m tv (code == 62) (zap Zapping.up) _ _ _ (zap-Does m s tv h Zapping.up) (
        if-Does m tv (code == 61) (zap Zapping.down) _ _ _ (zap-Does m s tv h Zapping.down) (
          if-Does m tv (code == 63) (sound Level.up) _ _ _ (volume_up-Does m s tv h) (
            if-Does m tv (code == 64) (sound Level.down) _ _ _ (volume_down-Does m s tv h) (
              if-Does m tv (code == 60) (sound Level.mute) _ _ _ (mute_key-Does m s tv h) (
                if-Does m tv (code == 102) leave _ _ _ leave-Does (
                  subst
                    (λ b.
                      Does m b tv (elim (digit_of code) [ some d ↦ digit_key d s | none ↦ done s ]))
                    (sym (digit_of-digit_button code)) (digit-Does (digit_of code)))))))))

-- An application that shows a television with m channels runs any keys without a fault, and then shows
-- what the television is behind the same keys: each key does what it means there. Showing includes a
-- loaded PAT with a service more than there are channels, a registered volume callback and a level of
-- at most 10.
pub press_codes-push_all :
    (m : ℕ) (codes : List ℕ) (s : System) (tv : Television)
    → Shows m s tv
    → Returns (press_codes codes s) (λ s'. Shows m s' (push_all m (map button_of codes) tv))
press_codes-push_all m [] s tv h = (s, refl, h)
press_codes-push_all m (code ∷ codes) s tv h =
    let (s1, ran, h1) = remote_controller_callback-push m s tv h code in
    let (s2, ran', h2) = press_codes-push_all m codes s1 (push m (button_of code) tv) h1 in
    (s2, ap (λ m. m >>= press_codes codes) ran ∙ ran', h2)
