-- ===== src/App/Television.antt =====
-- The television that the remote controller's keys are about, without the modules of tv_app.c: a ring
-- of channels, a volume level, a number that is being typed, and what is on the screen.
pub mod Channels
pub mod Sounds
pub mod Keys
mod Tests
use ppu_tvi_os.Common.{
  ℕ, ◌≤◌, ◌<◌, ◌≡◌, ◌+◌, ◌==◌, Bool, true, false, if◌then◌else◌, Option, some, none, List, [], ◌∷◌,
  ◌++◌,
}
use ppu_tvi_os.Common.Int.{ℤ, pos}
use ppu_tvi_os.Tables.Pat.{PatTable}
use ppu_tvi_os.Stream.Channels.Zapping.{ZapKey, turn}
use ppu_tvi_os.Stream.Channels.Zapping
use ppu_tvi_os.Stream.Volume.Level.{VolumeKey, level}
use ppu_tvi_os.Stream.Volume.Level
use ppu_tvi_os.Graphics.{DrawComponents}
use ppu_tvi_os.App.Keypad.{Keypad, empty_keypad}
use ppu_tvi_os.App.Keypad.Digits.{type_all}
use ppu_tvi_os.App.Remote.{System}

-- `bar` is the level that the volume bar shows, `none` while it is hidden.
pub record Television : Type 0 where
  pub selected : ℕ
  pub tuning : Bool
  pub volume : ℕ
  pub number : List ℕ
  pub bar : Option ℕ
  pub number_shown : Bool
  pub info_shown : Bool
  pub leaving : Bool

pub data Button : Type 0 where
  zap : ZapKey → Button
  sound : VolumeKey → Button
  digit : ℕ → Button
  info leave other : Button

-- The key codes of remote_controller.h.
abbrev pub digit_button : ℕ → Button
digit_button code =
    if code == 2
    then digit 1
    else if code == 3
    then digit 2
    else if code == 4
    then digit 3
    else if code == 5
    then digit 4
    else if code == 6
    then digit 5
    else if code == 7
    then digit 6
    else if code == 8
    then digit 7
    else if code == 9
    then digit 8
    else if code == 10
    then digit 9
    else if code == 11
    then digit 0
    else other

abbrev pub button_of : ℕ → Button
button_of code =
    if code == 358
    then info
    else if code == 62
    then zap Zapping.up
    else if code == 61
    then zap Zapping.down
    else if code == 63
    then sound Level.up
    else if code == 64
    then sound Level.down
    else if code == 60
    then sound Level.mute
    else if code == 102
    then leave
    else digit_button code

-- What a key does to a television with `m` channels.
abbrev pub push : ℕ → Button → Television → Television
push m (zap Zapping.up) tv = record tv {
  selected = turn m Zapping.up tv.selected;
  tuning = true;
  number_shown = true;
}
push m (zap Zapping.down) tv = record tv {
  selected = turn m Zapping.down tv.selected;
  tuning = true;
}
push m (sound key) tv = let n = level key tv.volume in record tv { volume = n; bar = some n }
push m (digit d) tv = record tv { number = tv.number ++ (d ∷ []) }
push m info tv = record tv { info_shown = true }
push m leave tv = record tv { leaving = true }
push m other tv = tv

abbrev pub push_all : ℕ → List Button → Television → Television
push_all m [] tv = tv
push_all m (b ∷ bs) tv = push_all m bs (push m b tv)

-- A PAT with a service for each of the channels and one in front of them, and a selected channel.
pub record IsTuned (m : ℕ) (table : Option PatTable) (program_number : ℤ) (selected : ℕ)
    : Type 0 where
  pub pat : PatTable
  pub loaded : table ≡ some pat
  pub channels : pat.service_info_count ≡ m + 1
  pub place : program_number ≡ pos selected
  pub within : selected < m

-- A volume callback, and the same level of at most 10 in the stream controller and the application.
pub record IsHeard (registered : Bool) (current told volume : ℕ) : Type 0 where
  pub callback : registered ≡ true
  pub played : current ≡ volume
  pub agreed : told ≡ volume
  pub low : volume ≤ 10

abbrev pub bar_of : DrawComponents → Option ℕ
bar_of components = if components.show_volume then some components.volume else none

pub record IsSeen (components : DrawComponents) (tv : Television) : Type 0 where
  pub bar : bar_of components ≡ tv.bar
  pub number : components.show_program_number ≡ tv.number_shown
  pub info : components.show_info ≡ tv.info_shown

-- The application is in the state of a television with `m` channels.
pub record Shows (m : ℕ) (s : System) (tv : Television) : Type 0 where
  pub tuned : IsTuned m s.controller.pat_table s.controller.program_number tv.selected
  pub tuning : s.controller.change_channel ≡ tv.tuning
  pub heard :
      IsHeard s.controller.volume_report_callback s.controller.current_volume s.current_volume
        tv.volume
  pub seen : IsSeen s.graphics.components tv
  pub timer : Bool
  pub typed : s.keypad ≡ type_all tv.number (empty_keypad timer)
  pub leaving : s.exit_signalled ≡ tv.leaving
