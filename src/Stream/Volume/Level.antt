-- ===== src/Stream/Volume/Level.antt =====
-- The volume as a level from 0 to 10 (stream_controller.c).
use ppu_tvi_os.Common.{ℕ, ◌+◌, ◌-◌, ◌*◌, ◌≤◌, ◌≡◌, refl, true, List, [], ◌∷◌, min, arith}
use ppu_tvi_os.Common.Outcome.{Outcome, done, ◌>>=◌, Returns}
use ppu_tvi_os.Stream.Platform.{player_volume_set, volume_report}
use ppu_tvi_os.Stream.State.{Controller, volume_constant}
use ppu_tvi_os.Stream.Volume.{volume_up, volume_down, volume_mute}

-- The three keys, by their function and by what they mean.
pub data VolumeKey : Type 0 where
  up down mute : VolumeKey

abbrev pub press : VolumeKey → Controller → Outcome Controller
press up c = volume_up c
press down c = volume_down c
press mute c = volume_mute c

abbrev pub level : VolumeKey → ℕ → ℕ
level up n = min 10 (n + 1)
level down n = n - 1
level mute n = 0

-- What a key tells the others: the player gets the level times the constant, and the client the
-- level itself; muting tells the player alone.
abbrev pub told : VolumeKey → Controller → Controller
told mute c = record c { current_volume = 0; trace = player_volume_set c.player_handle 0 ∷ c.trace }
told key c =
    let n = level key c.current_volume in
    record c {
      current_volume = n;
      trace = volume_report n ∷ player_volume_set c.player_handle (n * volume_constant) ∷ c.trace;
    }

-- With a level of at most 10 and a registered callback, each key changes the level as it should,
-- within 0 and 10; the player is told the level times volumeConstant, which does not wrap, and the
-- client the level (muting tells the player alone); nothing else changes.
pub press_lem :
    (key : VolumeKey) (c : Controller)
    → c.current_volume ≤ 10
    → c.volume_report_callback ≡ true
    → (press key c ≡ done (told key c)) × (level key c.current_volume ≤ 10)
unfolding volume_up volume_down volume_mute
press_lem up c h r = ground arith
press_lem down c h r = ground arith
press_lem mute c h r = ground arith

abbrev pub press_all : List VolumeKey → Controller → Outcome Controller
press_all [] c = done c
press_all (k ∷ ks) c = press k c >>= press_all ks

abbrev pub levels : List VolumeKey → ℕ → ℕ
levels [] n = n
levels (k ∷ ks) n = levels ks (level k n)

-- Any sequence of volume keys runs without a fault and leaves the level that the keys mean, never
-- above 10, if it starts so with a registered callback.
pub press_all-levels :
    (keys : List VolumeKey) (c : Controller)
    → c.current_volume ≤ 10
    → c.volume_report_callback ≡ true
    → Returns
        (press_all keys c)
        (λ c'. (c'.current_volume ≡ levels keys c.current_volume) × (c'.current_volume ≤ 10))
press_all-levels [] c h r = (c, refl, (refl, h))
press_all-levels (up ∷ ks) c h r =
    let (ran, low) = press_lem up c h r in rw ran (press_all-levels ks (told up c) low r)
press_all-levels (down ∷ ks) c h r =
    let (ran, low) = press_lem down c h r in rw ran (press_all-levels ks (told down c) low r)
press_all-levels (mute ∷ ks) c h r =
    let (ran, low) = press_lem mute c h r in rw ran (press_all-levels ks (told mute c) low r)
