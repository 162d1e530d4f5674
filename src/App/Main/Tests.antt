-- ===== src/App/Main/Tests.antt =====
-- The application of tv_app.c on a machine where nothing fails, as concrete data.
use ppu_tvi_os.Common.{arith, ◌≡◌, refl, true, false, some, none, List, [], ◌∷◌, codes}
use ppu_tvi_os.Common.Outcome.{Outcome, done}
use ppu_tvi_os.Stream.Channels.{register_date_callback, register_volume_callback}
use ppu_tvi_os.Stream.Task.{stream_controller_init}
use ppu_tvi_os.Stream.Volume.{volume_up, report_volume}
use ppu_tvi_os.Stream.Tests.{willing, running}
use ppu_tvi_os.Stream.Config.{remove_white_spaces}
use ppu_tvi_os.Stream.Config.Strings.{strtok, same_text, atoi, fgets_all}
use ppu_tvi_os.Stream.Config.Load.{
  next_word, next_number, load_entry, load_line, load_lines, load_config_file, load_initial_info,
}
use ppu_tvi_os.RemoteController.{
  InputEvent, event_read, deinit_called, unregister_called, remote_controller_init,
  register_remote_controller_callback,
}
use ppu_tvi_os.RemoteController.Events.{key_codes, ending}
use ppu_tvi_os.Graphics.{draw_volume_bar}
use ppu_tvi_os.Graphics.Device.{
  Display, dfb_check, or_return, open_screen, set_timer_params, graphics_controller_init,
}
use ppu_tvi_os.Graphics.Render.{render_frame}
use ppu_tvi_os.Graphics.Render.Frames.{IsSound, Stops}
use ppu_tvi_os.App.Tests.{watching, watching-IsReady}
use ppu_tvi_os.App.Remote.{
  System, info_key, volume_key, remote_controller_callback, register_current_volume,
}
use ppu_tvi_os.App.Remote.Ready.{IsReady, press_codes}
use ppu_tvi_os.App.Remote.Input.{read_input, input_event_task-ending}
use ppu_tvi_os.App.Screen.{render_frame-Reach, render_frame-info_key}
use ppu_tvi_os.App.Steps.{Reach, here, later, key_pressed, task_returned, after_round, IsAudible}
use ppu_tvi_os.App.Steps.Audible.{Reach-IsAudible}
use ppu_tvi_os.Stream.Start.{task_round}
use ppu_tvi_os.App.Main.{
  Machine, Application, Stage, on, start_remote, register_callback, register_date, register_volume,
  start_stream, start_graphics, start,
}
use ppu_tvi_os.App.Main.Started.{IsStarted, start-IsStarted}

abbrev pub screen : Display
screen = record {
  fails = λ calls k. false;
  screen_width = 1920;
  screen_height = 1080;
  logo_width = λ calls. 200;
}

abbrev machine : Machine
machine = record {
  platform = willing;
  display = screen;
  config_ini = some (codes "program_number  - 2   \n");
  input_created = true;
  input_joined = true;
  frame_signalled = true;
}

abbrev pub idle : Application
idle = record {
  system = record watching {
    controller = record running {
      date_received_callback = false;
      volume_report_callback = false;
      is_initialized = false;
    };
  };
  remote = record { thread_exit = false; callback = none };
  calls = [];
  key_timer = false;
}

-- Where main has got to.
abbrev reached : Outcome (Stage Application) → Application
reached (done (on a)) = a
reached _ = idle

abbrev started : Application
started = reached (start machine idle)

idle-starts : start machine idle ≡ done (on started)
unfolding start load_initial_info load_config_file load_lines load_line load_entry next_number
    next_word remove_white_spaces strtok same_text atoi fgets_all start_remote
    remote_controller_init register_callback register_date register_volume start_stream
    start_graphics graphics_controller_init open_screen or_return dfb_check
    register_remote_controller_callback register_date_callback register_volume_callback
    stream_controller_init set_timer_params
idle-starts = refl

start-IsStarted_example : IsStarted machine started
start-IsStarted_example = start-IsStarted machine idle started idle-starts

-- The application once its first channel plays.
abbrev playing : Application
playing = record {
  system = record watching { controller = record running { is_initialized = true } };
  remote = record { thread_exit = false; callback = none };
  calls = [];
  key_timer = false;
}

-- The key for more volume is pressed and let go, and then the EXIT key is pressed.
abbrev events : List InputEvent
events =
    record { event_type = 1; code = 63; value = 1 }
    ∷ record { event_type = 1; code = 63; value = 0 }
    ∷ []

abbrev exit_event : InputEvent
exit_event = record { event_type = 1; code = 102; value = 1 }

-- A key is let go.
abbrev release_event : InputEvent
release_event = record { event_type = 1; code = 102; value = 0 }

input_event_task-ending_example :
    (s' : System) × IsReady s'
    × (press_codes (key_codes 1 events) watching ≡ done s')
    × (read_input 1 events
          (unregister_called
            ∷ event_read release_event
            ∷ deinit_called
            ∷ event_read release_event
            ∷ [])
          watching
        ≡ ending (key_codes 1 (release_event ∷ release_event ∷ [])) s')
input_event_task-ending_example =
    input_event_task-ending 1 events (release_event ∷ []) release_event [] watching watching-IsReady

-- The key for more volume is pressed, and the task does a round.
abbrev after : Outcome System → System
after (done s) = s
after _ = watching

abbrev louder : System
louder = after (remote_controller_callback 63 watching)

abbrev left_alone : System
left_alone = after_round louder louder.controller

louder-Reach : Reach willing watching left_alone
unfolding remote_controller_callback volume_key volume_up report_volume register_current_volume
    draw_volume_bar task_round
louder-Reach = later (later here (key_pressed 63 refl)) (task_returned louder.controller refl)

watching-IsAudible : IsAudible watching
watching-IsAudible = record {
  registered = refl;
  level = omega arith;
  agreed = refl;
  bar = omega arith;
}

Reach-IsAudible_example : IsAudible left_alone
Reach-IsAudible_example =
    Reach-IsAudible willing watching left_alone watching-IsAudible louder-Reach

left_alone-hidden : left_alone.graphics.components.show_info ≡ false
unfolding remote_controller_callback volume_key volume_up report_volume register_current_volume
    draw_volume_bar
left_alone-hidden = refl

render_frame-Reach_example : IsSound (render_frame screen left_alone.graphics [])
render_frame-Reach_example =
    render_frame-Reach willing screen [] watching left_alone watching-IsAudible louder-Reach
      left_alone-hidden

render_frame-info_key_example :
    (s' : System) × (info_key watching ≡ done s') × Stops (render_frame screen s'.graphics [])
render_frame-info_key_example = render_frame-info_key screen [] watching
