-- ===== src/App/Main.antt =====
-- main of tv_app.c, in two parts: `start` up to the wait for the EXIT key, `finish` behind it.
-- Between them the other threads run. Its ERRORCHECK returns -1 when a function reports an error.
pub mod Started
pub mod Finished
pub mod Willing
pub mod Whole
mod Tests
use ppu_tvi_os.Common.{ℕ, Bool, true, false, if◌then◌else◌, Option, some, none, List, [], ◌∷◌}
use ppu_tvi_os.Common.Int.{ℤ, pos, negsuc}
use ppu_tvi_os.Common.Outcome.{Outcome, done, fault, ◌>>=◌}
use ppu_tvi_os.Stream.Platform.{Platform}
use ppu_tvi_os.Stream.State.{
  Controller, StreamControllerError, sc_no_error, sc_error, sc_thread_error,
}
use ppu_tvi_os.Stream.Channels.{register_date_callback, register_volume_callback}
use ppu_tvi_os.Stream.Config.Load.{load_initial_info}
use ppu_tvi_os.Stream.Task.{stream_controller_init}
use ppu_tvi_os.Stream.Deinit.{stream_controller_deinit}
use ppu_tvi_os.RemoteController.{
  RemoteController, RemoteControllerError, rc_no_error, rc_error, rc_thread_error,
  remote_controller_init, remote_controller_deinit, register_remote_controller_callback,
  unregister_remote_controller_callback,
}
use ppu_tvi_os.Graphics.{Graphics}
use ppu_tvi_os.Graphics.Device.{
  Display, Call, Progress, going, returned, ended, smashed, graphics_controller_init,
  graphics_controller_deinit,
}
use ppu_tvi_os.App.Remote.{System, remote_controller_callback}

-- The world of the program: the platforms, the bytes of config.ini, whether the input thread can be
-- made and joined, and whether renderThread signals its end while it is waited for.
pub record Machine : Type 0 where
  pub platform : Platform
  pub display : Display
  pub config_ini : Option (List ℕ)
  pub input_created : Bool
  pub input_joined : Bool
  pub frame_signalled : Bool

-- The modules' states, the calls of DirectFB so far, and whether keyTimer has been made.
pub record Application : Type 0 where
  pub system : System
  pub remote : RemoteController System
  pub calls : List Call
  pub key_timer : Bool

-- main goes on, it has returned, or DFBCHECK has ended the program.
pub data Stage (A : Type 0) : Type 0 where
  on : A → Stage A
  back : ℤ → A → Stage A
  off : A → Stage A

infixl 5 ◌>+>◌
abbrev pub ◌>+>◌ : {A : Type 0} → Stage A → (A → Stage A) → Stage A
on a >+> f = f a
back status a >+> f = back status a
off a >+> f = off a

-- ERRORCHECK, on the errors of the modules.
abbrev pub sc_check : {A : Type 0} → StreamControllerError → A → Stage A
sc_check sc_no_error a = on a
sc_check sc_error a = back (negsuc 0) a
sc_check sc_thread_error a = back (negsuc 0) a

abbrev pub rc_check : {A : Type 0} → RemoteControllerError → A → Stage A
rc_check rc_no_error a = on a
rc_check rc_error a = back (negsuc 0) a
rc_check rc_thread_error a = back (negsuc 0) a

abbrev pub gc_check : {A : Type 0} → Progress → (List Call → A) → Outcome (Stage A)
gc_check (going t) resume = done (on (resume t))
gc_check (returned e t) resume = done (back (negsuc 0) (resume t))
gc_check (ended t) resume = done (off (resume t))
gc_check (smashed t) resume = fault

abbrev pub with_calls : Application → List Call → Application
with_calls a t = record a { calls = t }

abbrev pub with_controller : Application → Controller → Application
with_controller a c = record a { system = record a.system { controller = c } }

abbrev pub with_graphics : Application → Graphics → Application
with_graphics a g = record a { system = record a.system { graphics = g } }

-- The function that main registers.
abbrev pub on_key : ℕ → ℕ → ℕ → System → Outcome System
on_key code event_type value s = remote_controller_callback code s

unfoldable pub start_remote : Machine → Application → Stage Application
start_remote m a = rc_check (remote_controller_init m.input_created) a

unfoldable pub register_callback : Application → Stage Application
register_callback a =
    let (code, rc) = register_remote_controller_callback (some on_key) a.remote in
    rc_check code (record a { remote = rc })

unfoldable pub register_date : Application → Stage Application
register_date a =
    let (code, c) = register_date_callback true a.system.controller in
    sc_check code (with_controller a c)

unfoldable pub register_volume : Application → Stage Application
register_volume a =
    let (code, c) = register_volume_callback true a.system.controller in
    sc_check code (with_controller a c)

unfoldable pub start_stream : Machine → Application → Stage Application
start_stream m a =
    let (code, c) = stream_controller_init m.platform a.system.controller in
    sc_check code (with_controller a c)

unfoldable pub start_graphics : Machine → Stage Application → Outcome (Stage Application)
start_graphics m (on a) =
    let (p, g) = graphics_controller_init m.display a.system.graphics a.calls in
    gc_check p (with_calls (with_graphics a g))
start_graphics m stage = done stage

abbrev pub with_key_timer : Bool → Application → Application
with_key_timer made a = record a { key_timer = made }

-- main from the making of keyTimer to graphicsControllerInit.
unfoldable pub start : Machine → Application → Outcome (Stage Application)
start m a0 = do
  let a = with_key_timer true a0
  (code, c) ← load_initial_info m.platform m.config_ini a.system.controller
  start_graphics m (
      sc_check code (with_controller a c)
      >+> start_remote m
      >+> register_callback
      >+> register_date
      >+> register_volume
      >+> start_stream m)

unfoldable pub unregister_callback : Application → Stage Application
unregister_callback a =
    let (code, rc) = unregister_remote_controller_callback a.remote in
    rc_check code (record a { remote = rc })

unfoldable pub finish_remote : Machine → Application → Stage Application
finish_remote m a =
    let (code, rc) = remote_controller_deinit m.input_joined a.remote in
    rc_check code (record a { remote = rc })

unfoldable pub finish_stream : Machine → Application → Stage Application
finish_stream m a =
    let (code, c) = stream_controller_deinit m.platform a.system.controller in
    sc_check code (with_controller a c)

-- main from graphicsControllerDeinit to its end.
unfoldable pub finish : Machine → Application → Outcome (Stage Application)
finish m a = do
  (p, g) ← graphics_controller_deinit m.display m.frame_signalled a.system.graphics a.calls
  stage ← gc_check p (with_calls (with_graphics a g))
  done (
      stage >+> unregister_callback >+> finish_remote m >+> finish_stream m >+> λ a.
      back (pos 0) (with_key_timer false a))
