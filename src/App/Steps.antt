-- ===== src/App/Steps.antt =====
-- The application of tv_app.c as a step relation: the threads of the program take turns in any order.
-- A step is a key, the expiry of a timer, a round of the stream controller's task, or a section that
-- the demultiplexer delivers; a step that faults or does not end has no successor.
pub mod Audible
pub mod Typed
mod Tests
use mathlib.Core.Path.{subst}
use ppu_tvi_os.Common.Int.{pos}
use ppu_tvi_os.Common.{
  ℕ, ◌≤◌, ◌≡◌, refl, ◌∙◌, sym, ◌==◌, Bool, true, false, if◌then◌else◌, Option, some, none, List,
  ◌∷◌, arith,
}
use ppu_tvi_os.Common.Outcome.{Outcome, done}
use ppu_tvi_os.Stream.Platform.{Platform}
use ppu_tvi_os.Stream.State.{Controller}
use ppu_tvi_os.Stream.Channels.{channel_up, channel_down}
use ppu_tvi_os.Stream.Volume.{volume_up, volume_down}
use ppu_tvi_os.Stream.Volume.Level.{up, down, mute, told, press_lem}
use ppu_tvi_os.Stream.Sections.{section_received}
use ppu_tvi_os.Stream.Start.{change_channel_key, task_round}
use ppu_tvi_os.Graphics.{
  Graphics, Timer, program_number_timer, volume_timer, info_timer, draw_volume_bar,
  draw_program_number, draw_info_rect, remove_program_number, remove_volume_bar, remove_info,
}
use ppu_tvi_os.Graphics.Timers.{step, expired}
use ppu_tvi_os.App.Keypad.{typed_channel}
use ppu_tvi_os.App.Remote.{
  System, register_current_date, volume_key, mute_key, info_key, program_up_key, program_down_key,
  digit_key, digit_of, remote_controller_callback, change_channel,
}

-- The system when the task has come back from a round.
abbrev pub after_round : System → Controller → System
after_round s c = record s {
  controller = c;
  current_date_main =
      if s.controller.time_tables_received
      then s.current_date_main
      else register_current_date c.trace s.current_date_main;
}

pub data Step (platform : Platform) : System → System → Type 0 where
  key_pressed :
      {s s' : System} (code : ℕ) → remote_controller_callback code s ≡ done s' → Step platform s s'
  keys_dialled : {s s' : System} → change_channel platform s ≡ done s' → Step platform s s'
  task_returned :
      {s : System} (c : Controller)
      → task_round platform s.controller ≡ done c
      → Step platform s (after_round s c)
  section_arrived :
      {s : System} (buffer : List ℕ) (signalled : Bool) (c : Controller)
      → section_received buffer s.controller ≡ done (signalled, c)
      → Step platform s (record s { controller = c })
  timer_expired :
      {s : System} (timer : Timer)
      → Step platform s (record s { graphics = step (expired timer) s.graphics })

pub data Reach (platform : Platform) (s : System) : System → Type 0 where
  here : Reach platform s s
  later : {s' s'' : System} → Reach platform s s' → Step platform s' s'' → Reach platform s s''

-- The volume callback is registered, the stream controller's level is at most 10, the application
-- agrees on it, and a volume bar is no longer.
pub record IsAudible (s : System) : Type 0 where
  pub registered : s.controller.volume_report_callback ≡ true
  pub level : s.controller.current_volume ≤ 10
  pub agreed : s.current_volume ≡ s.controller.current_volume
  pub bar : s.graphics.components.volume ≤ 10
