-- ===== src/App/Main/Willing.antt =====
-- main of tv_app.c up to its wait for the EXIT key, on a machine where nothing fails.
use ppu_tvi_os.Common.{◌≡◌, true, false, some, List, ◌∷◌}
use ppu_tvi_os.Common.Outcome.{done}
use ppu_tvi_os.Stream.Platform.{Call, InitialInfo, thread_create}
use ppu_tvi_os.Stream.State.{Controller, sc_no_error, log}
use ppu_tvi_os.Stream.Channels.{register_date_callback, register_volume_callback}
use ppu_tvi_os.Stream.Config.Load.{to_int16, configure, load_config_file, load_initial_info}
use ppu_tvi_os.Stream.Task.{locks_in_time, stream_controller_init}
use ppu_tvi_os.RemoteController.{remote_controller_init, register_remote_controller_callback}
use ppu_tvi_os.Graphics.{Graphics, program_number_timer, volume_timer, info_timer, hidden}
use ppu_tvi_os.Graphics.Device as Device
use ppu_tvi_os.Graphics.Device.{
  Progress, going, direct_fb_init, direct_fb_create, set_cooperative_level, create_primary,
  get_screen_size, create_font, set_font, create_thread, create_timer, set_timer_params,
  open_screen, or_return, dfb_check, graphics_controller_init,
}
use ppu_tvi_os.App.Main.{
  Machine, Application, on, ◌>+>◌, sc_check, with_controller, with_key_timer, on_key, start_remote,
  register_callback, register_date, register_volume, start_stream, start_graphics, start,
}

-- No call of the platforms fails, the tuner locks in time, and the input thread can be made.
pub record IsWilling (m : Machine) : Type 0 where
  pub platform : (made : List Call) (k : Call) → m.platform.fails made k ≡ false
  pub locks : (made : List Call) → locks_in_time (m.platform.statuses made) ≡ true
  pub display : (made : List Device.Call) (k : Device.Call) → m.display.fails made k ≡ false
  pub created : m.input_created ≡ true

-- The calls of graphicsControllerInit, the latest first.
abbrev pub opening : List Device.Call → List Device.Call
opening calls =
    create_thread
    ∷ set_font
    ∷ create_font
    ∷ get_screen_size
    ∷ create_primary
    ∷ set_cooperative_level
    ∷ direct_fb_create
    ∷ create_timer info_timer 3
    ∷ create_timer volume_timer 3
    ∷ create_timer program_number_timer 4
    ∷ direct_fb_init
    ∷ calls

-- The stream controller behind a configuration file and the registrations.
abbrev pub registered : InitialInfo → Controller → Controller
registered info c = record c {
  config_file = info;
  program_number = to_int16 info.program_number;
  date_received_callback = true;
  volume_report_callback = true;
}

-- The application that waits for the EXIT key.
abbrev pub begun : InitialInfo → Application → Application
begun info a = record a {
  system = record a.system {
    controller = log thread_create (registered info a.system.controller);
    graphics = record a.system.graphics { components = hidden };
  };
  remote = record a.remote { callback = some on_key };
  calls = opening a.calls;
  key_timer = true;
}

module _ (m : Machine) (w : IsWilling m) where
  pub graphics_controller_init-opening :
      (g : Graphics) (calls : List Device.Call)
      → graphics_controller_init m.display g calls
        ≡ (going (opening calls), record g { components = hidden })
  unfolding graphics_controller_init set_timer_params open_screen or_return dfb_check
  graphics_controller_init-opening g calls = simp (w.display)

  -- The stages behind the configuration file.
  modules-begun :
      (info : InitialInfo) (a : Application)
      → start_graphics m (
          sc_check sc_no_error (
            with_controller
              (with_key_timer true a)
              (configure a.system.controller (sc_no_error, info)).1)
          >+> start_remote m
          >+> register_callback
          >+> register_date
          >+> register_volume
          >+> start_stream m)
        ≡ done (on (begun info a))
  unfolding start_graphics start_remote remote_controller_init register_callback
      register_remote_controller_callback register_date register_date_callback register_volume
      register_volume_callback start_stream stream_controller_init
  modules-begun info a = simp (w.created, w.platform, graphics_controller_init-opening)

  pub start-begun :
      (info : InitialInfo) (a : Application)
      → load_config_file m.platform m.config_ini a.system.controller.config_file
        ≡ done (sc_no_error, info)
      → start m a ≡ done (on (begun info a))
  unfolding start load_initial_info
  start-begun info a loaded = rw loaded (modules-begun info a)
