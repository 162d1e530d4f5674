-- ===== src/App/Remote.antt =====
-- remoteControllerCallback and changeChannel of tv_app.c, over the modules that they call. The file
-- tv_app.c prints besides; the model leaves printing out.
pub mod Ready
pub mod Dial
pub mod Input
pub mod Neighbour
pub mod Kept
mod Tests
use ppu_tvi_os.Common.{
  ℕ, ◌-◌, ◌==◌, leb, ◌&&◌, if◌then◌else◌, Bool, true, Option, none, some, List, ◌∷◌,
}
use ppu_tvi_os.Common.Int.{pos}
use ppu_tvi_os.Common.Outcome.{Outcome, done, ◌>>=◌}
use ppu_tvi_os.Stream.Platform.{Platform, Call, CurrentDate, volume_report, date_received}
use ppu_tvi_os.Stream.State.{Controller, ChannelInfo}
use ppu_tvi_os.Stream.Volume.{volume_up, volume_down, volume_mute}
use ppu_tvi_os.Stream.Channels.{channel_up, channel_down, get_channel_info}
use ppu_tvi_os.Stream.Start.{change_channel_key}
use ppu_tvi_os.Graphics.{Graphics, draw_program_number, draw_volume_bar, draw_info_rect}
use ppu_tvi_os.App.Keypad.{Keypad, input_channel_number, typed_channel, clear_keys}

-- The static variables of tv_app.c, with the state of the modules below it. `exit_signalled` says
-- that deinitCond has been signalled.
pub record System : Type 0 where
  pub controller : Controller
  pub graphics : Graphics
  pub keypad : Keypad
  pub channel_info : ChannelInfo
  pub current_date_main : CurrentDate
  pub current_volume : ℕ  -- uint8_t
  pub exit_signalled : Bool

-- registerCurrentVolume, called back by volumeUp and volumeDown as their last step.
unfoldable pub register_current_volume : List Call → ℕ → ℕ
register_current_volume (volume_report volume_value ∷ _) current_volume = volume_value
register_current_volume _ current_volume = current_volume

-- registerCurrentDate, called back by parseTimeTables as its last step.
unfoldable pub register_current_date : List Call → CurrentDate → CurrentDate
register_current_date (date_received date ∷ _) current_date = date
register_current_date _ current_date = current_date

-- `volumeUp(); drawVolumeBar(currentVolume);` and the same for volumeDown.
unfoldable pub volume_key : (Controller → Outcome Controller) → System → Outcome System
unfolding register_current_volume draw_volume_bar
volume_key change s = do
  c ← change s.controller
  let volume = register_current_volume c.trace s.current_volume
  done (record s {
    controller = c;
    current_volume = volume;
    graphics = draw_volume_bar volume s.graphics;
  })

unfoldable pub mute_key : System → Outcome System
unfolding draw_volume_bar
mute_key s = do
  c ← volume_mute s.controller
  done (record s { controller = c; current_volume = 0; graphics = draw_volume_bar 0 s.graphics })

unfoldable pub info_key : System → Outcome System
unfolding draw_info_rect get_channel_info
info_key s =
    let (code, read) = get_channel_info (some s.channel_info) s.controller in
    let info : ChannelInfo = elim read [ none ↦ s.channel_info | some i ↦ i ] in
    let date = s.current_date_main in
    done (record s {
      channel_info = info;
      graphics =
          draw_info_rect date.tmp_month date.day date.year info.audio_pid info.video_pid s.graphics;
    })

unfoldable pub program_up_key : System → Outcome System
unfolding draw_program_number
program_up_key s = do
  (code, c) ← channel_up s.controller
  done (record s { controller = c; graphics = draw_program_number s.graphics })

unfoldable pub program_down_key : System → Outcome System
program_down_key s = do (code, c) ← channel_down s.controller; done (record s { controller = c })

unfoldable pub digit_key : ℕ → System → Outcome System
digit_key key s = done (record s { keypad = input_channel_number key s.keypad })

-- The digit of KEYCODE_1 (2) to KEYCODE_9 (10) and KEYCODE_0 (11).
unfoldable pub digit_of : ℕ → Option ℕ
digit_of code =
    if code == 11 then some 0 else if leb 2 code && leb code 10 then some (code - 1) else none

-- The `switch` on the key's code; its last case only prints.
unfoldable pub remote_controller_callback : ℕ → System → Outcome System
unfolding digit_of
remote_controller_callback code s =
    if code == 358
    then info_key s
    else if code == 62
    then program_up_key s
    else if code == 61
    then program_down_key s
    else if code == 63
    then volume_key volume_up s
    else if code == 64
    then volume_key volume_down s
    else if code == 60
    then mute_key s
    else if code == 102
    then done (record s { exit_signalled = true })
    else elim (digit_of code) [ some key ↦ digit_key key s | none ↦ done s ]

-- changeChannel, which keyTimer calls. The date callback is called at most once: as the last step,
-- if the date has not been received before.
unfoldable pub change_channel : Platform → System → Outcome System
unfolding register_current_date
change_channel platform s = do
  channel ← typed_channel s.keypad
  c ← change_channel_key platform (pos channel) s.controller
  done (record s {
    controller = c;
    current_date_main =
        if s.controller.time_tables_received
        then s.current_date_main
        else register_current_date c.trace s.current_date_main;
    keypad = clear_keys s.keypad;
  })
