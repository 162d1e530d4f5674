-- ===== src/App/Older/Undated.antt =====
-- vezba_5.c on the stream controller of the repository: it registers no date callback.
use ppu_tvi_os.Common.{true, ◌≡◌, some}
use ppu_tvi_os.Common.Outcome.{done}
use ppu_tvi_os.Stream.Platform.{InitialInfo, thread_create}
use ppu_tvi_os.Stream.State.{sc_no_error, log}
use ppu_tvi_os.Stream.Config.Load.{to_int16, load_config_file, load_initial_info}
use ppu_tvi_os.Stream.Task.{stream_controller_init, start_task}
use ppu_tvi_os.Stream.Task.Undated.{NeverReturns, IsUndated, start_task-NeverReturns}
use ppu_tvi_os.RemoteController.{remote_controller_init, register_remote_controller_callback}
use ppu_tvi_os.Graphics.{Graphics, hidden}
use ppu_tvi_os.App.Main.{Machine, on}
use ppu_tvi_os.App.Main.Willing.{IsWilling, opening, graphics_controller_init-opening}
use ppu_tvi_os.App.Older.{remote_controller_callback}
use ppu_tvi_os.App.Older.Main.{
  OlderApplication, start_input, start_screen, start_controller, open_modules,
}

-- What main waits with for the EXIT key.
abbrev pub opened : (Graphics → Graphics) → InitialInfo → OlderApplication → OlderApplication
opened draw_info info a = record a {
  system = record a.system {
    controller = log thread_create (record a.system.controller {
      config_file = info;
      program_number = to_int16 info.program_number;
    });
    graphics = record a.system.graphics { components = hidden };
  };
  remote = record a.remote {
    callback = some (λ code event_type value. remote_controller_callback draw_info code);
  };
  calls = opening a.calls;
  key_timer = true;
}

module _ (draw_info : Graphics → Graphics) (m : Machine) (w : IsWilling m) where
  open_modules-opened :
      (info : InitialInfo) (a : OlderApplication)
      → load_config_file m.platform m.config_ini a.system.controller.config_file
        ≡ done (sc_no_error, info)
      → open_modules draw_info m a ≡ done (on (opened draw_info info a))
  unfolding open_modules load_initial_info start_input remote_controller_init
      register_remote_controller_callback start_screen start_controller stream_controller_init
  open_modules-opened info a loaded =
      rw loaded (simp (w.created, w.platform, graphics_controller_init-opening m w))

-- On a machine where nothing fails, with a configuration file that loads, vezba_5.c gets to its wait
-- for the EXIT key, but the task of its stream controller never gets to its loop, whatever sections
-- come in: it faults, or it waits for ever. The stream controller has neither a date callback nor
-- the date before.
pub open_modules-start_task :
    (draw_info : Graphics → Graphics) (m : Machine)
    → IsWilling m
    → (info : InitialInfo) (a : OlderApplication)
    → load_config_file m.platform m.config_ini a.system.controller.config_file
      ≡ done (sc_no_error, info)
    → IsUndated a.system.controller
    → (a' : OlderApplication) × (open_modules draw_info m a ≡ done (on a'))
      × NeverReturns (start_task m.platform a'.system.controller)
open_modules-start_task draw_info m w info a loaded undated =
    let a' = opened draw_info info a in
    (
      a',
      open_modules-opened draw_info m w info a loaded,
      start_task-NeverReturns m.platform w.platform w.locks a'.system.controller undated,
    )
