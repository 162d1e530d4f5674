-- ===== src/App/Older/Main.antt =====
-- main of vezba_5.c, in two parts around its wait for the EXIT key. It registers neither a date
-- callback nor a volume callback, and starts the graphics in front of the stream controller.
use ppu_tvi_os.Common.{Bool, true, false, List, some}
use ppu_tvi_os.Common.Int.{pos}
use ppu_tvi_os.Common.Outcome.{Outcome, done, ◌>>=◌}
use ppu_tvi_os.Stream.State.{Controller}
use ppu_tvi_os.Stream.Config.Load.{load_initial_info}
use ppu_tvi_os.Stream.Task.{stream_controller_init}
use ppu_tvi_os.Stream.Deinit.{stream_controller_deinit}
use ppu_tvi_os.RemoteController.{
  RemoteController, remote_controller_init, remote_controller_deinit,
  register_remote_controller_callback, unregister_remote_controller_callback,
}
use ppu_tvi_os.Graphics.{Graphics}
use ppu_tvi_os.Graphics.Device.{Call, graphics_controller_init, graphics_controller_deinit}
use ppu_tvi_os.App.Main.{Machine, Stage, on, back, off, ◌>+>◌, sc_check, rc_check, gc_check}
use ppu_tvi_os.App.Older.{OlderSystem, remote_controller_callback}

-- The modules' states, the calls of DirectFB so far, and whether keyTimer has been made.
pub record OlderApplication : Type 0 where
  pub system : OlderSystem
  pub remote : RemoteController OlderSystem
  pub calls : List Call
  pub key_timer : Bool

abbrev pub with_stream : OlderApplication → Controller → OlderApplication
with_stream a c = record a { system = record a.system { controller = c } }

abbrev pub with_screen : OlderApplication → Graphics → List Call → OlderApplication
with_screen a g t = record a { system = record a.system { graphics = g }; calls = t }

-- A stage behind which there is more to do.
abbrev pub and_then :
    Stage OlderApplication
    → (OlderApplication → Outcome (Stage OlderApplication))
    → Outcome (Stage OlderApplication)
and_then (on a) f = f a
and_then (back status a) f = done (back status a)
and_then (off a) f = done (off a)

-- The input thread and its callback.
unfoldable pub start_input :
    (Graphics → Graphics) → Machine → OlderApplication → Stage OlderApplication
start_input draw_info m a = rc_check (remote_controller_init m.input_created) a >+> λ a.
    let (code, rc) =
      register_remote_controller_callback
        (some (λ code event_type value. remote_controller_callback draw_info code)) a.remote in
    rc_check code (record a { remote = rc })

unfoldable pub start_screen : Machine → OlderApplication → Outcome (Stage OlderApplication)
start_screen m a =
    let (p, g) = graphics_controller_init m.display a.system.graphics a.calls in
    gc_check p (with_screen a g)

unfoldable pub start_controller : Machine → OlderApplication → Stage OlderApplication
start_controller m a =
    let (code, c) = stream_controller_init m.platform a.system.controller in
    sc_check code (with_stream a c)

-- main from the making of keyTimer to streamControllerInit.
unfoldable pub open_modules :
    (Graphics → Graphics) → Machine → OlderApplication → Outcome (Stage OlderApplication)
open_modules draw_info m a0 = do
  let a = record a0 { key_timer = true }
  (code, c) ← load_initial_info m.platform m.config_ini a.system.controller
  shown ← and_then (sc_check code (with_stream a c) >+> start_input draw_info m) (start_screen m)
  done (shown >+> start_controller m)

-- The input thread loses its callback, and is asked to end.
unfoldable pub finish_input : Machine → OlderApplication → Stage OlderApplication
finish_input m a =
    let (code, rc) = unregister_remote_controller_callback a.remote in
    rc_check code (record a { remote = rc }) >+> λ a.
    let (code, rc) = remote_controller_deinit m.input_joined a.remote in
    rc_check code (record a { remote = rc })

unfoldable pub finish_controller : Machine → OlderApplication → Stage OlderApplication
finish_controller m a =
    let (code, c) = stream_controller_deinit m.platform a.system.controller in
    sc_check code (with_stream a c)

-- main from the deletion of keyTimer to its end.
unfoldable pub close_modules : Machine → OlderApplication → Outcome (Stage OlderApplication)
close_modules m a0 = do
  let a = record a0 { key_timer = false }
  (p, g) ← graphics_controller_deinit m.display m.frame_signalled a.system.graphics a.calls
  closed ← gc_check p (with_screen a g)
  done (closed >+> finish_input m >+> finish_controller m >+> back (pos 0))
