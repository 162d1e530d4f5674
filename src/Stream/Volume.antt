-- ===== src/Stream/Volume.antt =====
-- volumeUp, volumeDown and volumeMute of stream_controller.c. A failing Player_Volume_Set is only
-- printed.
pub mod Level
use ppu_tvi_os.Common.{ℕ, ◌+◌, ◌-◌, ◌*◌, ltb, if◌then◌else◌, Bool, true, false}
use ppu_tvi_os.Common.Words.{u8, u32}
use ppu_tvi_os.Common.Outcome.{Outcome, done, fault, ◌>>=◌}
use ppu_tvi_os.Stream.Platform.{player_volume_set, volume_report}
use ppu_tvi_os.Stream.State.{Controller, log, volume_constant}

-- `volumeReportCallback(currentVolume)`: the parameter is a uint8_t.
unfoldable pub report_volume : Controller → Outcome Controller
report_volume c =
    if c.volume_report_callback then done (log (volume_report (u8 c.current_volume)) c) else fault

abbrev pub set_player_volume : ℕ → Controller → Controller
set_player_volume volume c = log (player_volume_set c.player_handle volume) c

unfoldable pub volume_up : Controller → Outcome Controller
unfolding report_volume
volume_up c =
    let raised = u32 (c.current_volume + 1) in
    let c1 = record c { current_volume = if ltb 10 raised then 10 else raised } in
    report_volume (set_player_volume (u32 (c1.current_volume * volume_constant)) c1)

unfoldable pub volume_down : Controller → Outcome Controller
unfolding report_volume
volume_down c =
    let c1 = record c {
      current_volume = if ltb 0 c.current_volume then c.current_volume - 1 else c.current_volume;
    } in
    report_volume (set_player_volume (u32 (c1.current_volume * volume_constant)) c1)

unfoldable pub volume_mute : Controller → Outcome Controller
volume_mute c = done (record (set_player_volume 0 c) { current_volume = 0 })
