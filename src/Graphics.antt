-- ===== src/Graphics.antt =====
-- graphics_controller.h and graphics_controller.c: what is to be drawn, and the timers that take it
-- off the screen again. Device and Render have the calls of DirectFB.
pub mod Timers
pub mod Device
pub mod Render
mod Tests
use ppu_tvi_os.Common.{ℕ, Bool, true, false, List, ◌∷◌}
use ppu_tvi_os.Common.Int.{ℤ}

-- `DrawComponents`
pub record DrawComponents : Type 0 where
  pub show_program_number : Bool
  pub show_volume : Bool
  pub show_info : Bool
  pub show_channel_dial : Bool
  pub program_number : ℕ  -- int32_t
  pub volume : ℕ  -- int32_t

pub data Timer : Type 0 where
  program_number_timer volume_timer info_timer : Timer

-- The variables of the module: the components, the values that the information box shows, and the
-- timers set so far (`timer_settime`), the latest first. `stop_drawing` ends renderThread.
pub record Graphics : Type 0 where
  pub components : DrawComponents
  pub year_to_draw : ℕ  -- uint16_t
  pub tmp_month_to_draw : ℕ  -- uint8_t
  pub day_to_draw : ℕ  -- uint8_t
  pub audio_pid_to_draw : ℤ  -- int16_t
  pub video_pid_to_draw : ℤ  -- int16_t
  pub timers_set : List Timer
  pub stop_drawing : Bool

-- What graphicsControllerInit assigns.
unfoldable pub hidden : DrawComponents
hidden = record {
  show_program_number = false;
  show_volume = false;
  show_info = false;
  show_channel_dial = false;
  program_number = 0;
  volume = 0;
}

abbrev pub set_timer : Timer → Graphics → Graphics
set_timer timer g = record g { timers_set = timer ∷ g.timers_set }

unfoldable pub draw_program_number : Graphics → Graphics
draw_program_number g = record (set_timer program_number_timer g) {
  components = record g.components { show_program_number = true };
}

unfoldable pub draw_volume_bar : ℕ → Graphics → Graphics
draw_volume_bar volume_value g = record (set_timer volume_timer g) {
  components = record g.components { volume = volume_value; show_volume = true };
}

unfoldable pub draw_info_rect : ℕ → ℕ → ℕ → ℤ → ℤ → Graphics → Graphics
draw_info_rect tmp_month day year audio_pid video_pid g = record (set_timer info_timer g) {
  audio_pid_to_draw = audio_pid;
  video_pid_to_draw = video_pid;
  year_to_draw = year;
  tmp_month_to_draw = tmp_month;
  day_to_draw = day;
  components = record g.components { show_info = true };
}

-- The functions that the timers call.
unfoldable pub remove_program_number : Graphics → Graphics
remove_program_number g = record g {
  components = record g.components { show_program_number = false };
}

unfoldable pub remove_volume_bar : Graphics → Graphics
remove_volume_bar g = record g { components = record g.components { show_volume = false } }

unfoldable pub remove_info : Graphics → Graphics
remove_info g = record g { components = record g.components { show_info = false } }

unfoldable pub remove_channel_dial : Graphics → Graphics
remove_channel_dial g = record g { components = record g.components { show_channel_dial = false } }
