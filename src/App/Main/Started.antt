-- ===== src/App/Main/Started.antt =====
-- What holds when main of tv_app.c waits for the EXIT key.
use ppu_tvi_os.Common.{Bool, true, false, ◌≡◌, refl, if◌then◌else◌, some, List, ◌∷◌}
use mathlib.Core.Path.{subst}
use ppu_tvi_os.Common.Outcome.{done, ◌>>=◌, >>=-eq-done}
use ppu_tvi_os.Stream.Platform.{thread_create}
use ppu_tvi_os.Stream.State.{
  Controller, StreamControllerError, sc_no_error, sc_error, sc_thread_error, log,
}
use ppu_tvi_os.Stream.Platform.{InitialInfo}
use ppu_tvi_os.Stream.Config.Load.{to_int16, configure, load_config_file, load_initial_info}
use ppu_tvi_os.Stream.Channels.{register_date_callback, register_volume_callback}
use ppu_tvi_os.Stream.Task.{stream_controller_init}
use ppu_tvi_os.RemoteController.{
  remote_controller_init, register_remote_controller_callback, rc_no_error, rc_thread_error,
}
use ppu_tvi_os.Graphics.{hidden}
use ppu_tvi_os.Graphics.Device.Opened.{graphics_controller_init-going}
use ppu_tvi_os.Graphics.Device.{
  Call, Progress, going, returned, ended, smashed, create_thread, graphics_controller_init,
}
use ppu_tvi_os.App.Main.{
  Machine, Application, Stage, on, back, off, ◌>+>◌, sc_check, rc_check, gc_check, with_calls,
  with_controller, with_key_timer, with_graphics, on_key, start_remote, register_callback,
  register_date, register_volume, start_stream, start_graphics, start,
}

-- What holds of a stage if main goes on.
abbrev Reaches : (Application → Type 0) → Stage Application → Type 0
Reaches P (on a) = P a
Reaches P (back status a) = Unit
Reaches P (off a) = Unit

>+>-Reaches :
    (P Q : Application → Type 0) (stage : Stage Application) (f : Application → Stage Application)
    → Reaches P stage
    → ((a : Application) → P a → Reaches Q (f a))
    → Reaches Q (stage >+> f)
>+>-Reaches P Q (on a) f h k = k a h
>+>-Reaches P Q (back status a) f h k = tt
>+>-Reaches P Q (off a) f h k = tt

-- The program number is the configured one.
abbrev pub IsConfigured : Application → Type 0
IsConfigured a =
    a.system.controller.program_number ≡ to_int16 a.system.controller.config_file.program_number

module _ (m : Machine) where
  -- The input thread has been made, and the callbacks are registered.
  pub record IsRegistered (a : Application) : Type 0 where
    pub program : IsConfigured a
    pub input : m.input_created ≡ true
    pub key : a.remote.callback ≡ some on_key
    pub date : a.system.controller.date_received_callback ≡ true
    pub volume : a.system.controller.volume_report_callback ≡ true

  -- And the threads of the stream controller and of the graphics controller have been made.
  pub record IsStarted (a : Application) : Type 0 where
    pub registered : IsRegistered a
    pub stream : (before : List _) × (a.system.controller.trace ≡ thread_create ∷ before)
    pub blank : a.system.graphics.components ≡ hidden
    pub frames : (before : List Call) × (a.calls ≡ create_thread ∷ before)

  loaded-IsConfigured :
      (a : Application) (c : Controller) (r : StreamControllerError × InitialInfo)
      → Reaches IsConfigured (sc_check (configure c r).0 (with_controller a (configure c r).1))
  loaded-IsConfigured a c (sc_no_error, info) = refl
  loaded-IsConfigured a c (sc_error, info) = tt
  loaded-IsConfigured a c (sc_thread_error, info) = tt

  start_remote-Reaches :
      (a : Application)
      → IsConfigured a
      → Reaches (λ a'. IsConfigured a' × (m.input_created ≡ true)) (start_remote m a)
  unfolding start_remote remote_controller_init
  start_remote-Reaches a h = made m.input_created refl
    where
      made :
          (b : Bool)
          → m.input_created ≡ b
          → Reaches
              (λ a'. IsConfigured a' × (m.input_created ≡ true))
              (rc_check (if b then rc_no_error else rc_thread_error) a)
      made true e = (h, e)
      made false e = tt

  abbrev HasKey : Application → Type 0
  HasKey a = IsConfigured a × (m.input_created ≡ true) × (a.remote.callback ≡ some on_key)

  abbrev HasDate : Application → Type 0
  HasDate a = HasKey a × (a.system.controller.date_received_callback ≡ true)

  register_callback-Reaches :
      (a : Application)
      → IsConfigured a × (m.input_created ≡ true)
      → Reaches HasKey (register_callback a)
  unfolding register_callback register_remote_controller_callback
  register_callback-Reaches a h = (h.0, h.1, refl)

  register_date-Reaches : (a : Application) → HasKey a → Reaches HasDate (register_date a)
  unfolding register_date register_date_callback
  register_date-Reaches a h = (h, refl)

  register_volume-Reaches : (a : Application) → HasDate a → Reaches IsRegistered (register_volume a)
  unfolding register_volume register_volume_callback
  register_volume-Reaches a h =
      let ((program, input, key), date) = h in
      record { program = program; input = input; key = key; date = date; volume = refl }

  abbrev HasStream : Application → Type 0
  HasStream a =
      IsRegistered a × ((before : List _) × (a.system.controller.trace ≡ thread_create ∷ before))

  start_stream-Reaches : (a : Application) → IsRegistered a → Reaches HasStream (start_stream m a)
  unfolding start_stream stream_controller_init
  start_stream-Reaches a h = made (m.platform.fails a.system.controller.trace thread_create)
    where
      c : Controller
      c = log thread_create a.system.controller

      made :
          (b : Bool)
          → Reaches HasStream (
              let (code, c') : StreamControllerError × Controller =
                if b then (sc_thread_error, c) else (sc_no_error, c) in
              sc_check code (with_controller a c'))
      made true = tt
      made false = (
        record {
          program = h.program;
          input = h.input;
          key = h.key;
          date = h.date;
          volume = h.volume;
        },
        (_, refl),
      )

  -- The stages behind the configuration file.
  abbrev start_modules : Stage Application → Stage Application
  start_modules stage =
      stage
      >+> start_remote m
      >+> register_callback
      >+> register_date
      >+> register_volume
      >+> start_stream m

  start_modules-Reaches :
      (stage : Stage Application)
      → Reaches IsConfigured stage
      → Reaches HasStream (start_modules stage)
  start_modules-Reaches stage h =
      >+>-Reaches IsRegistered HasStream _ _
        (>+>-Reaches HasDate IsRegistered _ _
          (>+>-Reaches HasKey HasDate _ _
            (>+>-Reaches (λ a. IsConfigured a × (m.input_created ≡ true)) HasKey _ _
              (>+>-Reaches IsConfigured (λ a. IsConfigured a × (m.input_created ≡ true)) stage
                (start_remote m) h start_remote-Reaches)
              register_callback-Reaches)
            register_date-Reaches)
          register_volume-Reaches)
        start_stream-Reaches

module _ (m : Machine) where
  gc_check-on :
      (p : Progress) (a a' : Application)
      → gc_check p (with_calls a) ≡ done (on a')
      → (t : List Call) × (p ≡ going t) × (record a { calls = t } ≡ a')
  gc_check-on (going t) a a' h = (t, refl, on-injective h)
    where
      on-injective : {b c : Application} → done (on b) ≡ done (on c) → b ≡ c
      on-injective e = cc
  gc_check-on (returned e t) a a' h = cc
  gc_check-on (ended t) a a' h = cc
  gc_check-on (smashed t) a a' h = cc

  start_graphics-IsStarted :
      (stage : Stage Application) (a' : Application)
      → Reaches (HasStream m) stage
      → start_graphics m stage ≡ done (on a')
      → IsStarted m a'
  unfolding start_graphics
  start_graphics-IsStarted (on a) a' h ran =
      let (p, g) = graphics_controller_init m.display a.system.graphics a.calls in
      let (t, went, same) = gc_check-on p (with_graphics a g) a' ran in
      let (blank, made) =
        graphics_controller_init-going m.display a.system.graphics a.calls t went in
      let r = h.0 in
      subst (IsStarted m) same (record {
        registered = record {
          program = r.program;
          input = r.input;
          key = r.key;
          date = r.date;
          volume = r.volume;
        };
        stream = h.1;
        blank = blank;
        frames = made;
      })
  start_graphics-IsStarted (back status a) a' h ran = cc
  start_graphics-IsStarted (off a) a' h ran = cc

  -- When main gets to its wait for the EXIT key, the program number is the configured one, the input
  -- thread has been made, the callbacks for keys, the date and the volume are registered, and the
  -- threads of the stream controller and of the graphics controller have been made, with nothing to
  -- be drawn yet.
  pub start-IsStarted : (a a' : Application) → start m a ≡ done (on a') → IsStarted m a'
  unfolding start load_initial_info
  start-IsStarted a0 a' ran =
      let a = with_key_timer true a0 in
      let loading = load_config_file m.platform m.config_ini a.system.controller.config_file in
      let (p, loaded, went) =
        >>=-eq-done (loading >>= λ r. done (configure a.system.controller r))
          (λ p. start_graphics m (start_modules m (sc_check p.0 (with_controller a p.1)))) ran in
      let (r, read, same) =
        >>=-eq-done loading (λ r. done (configure a.system.controller r)) loaded in
      start_graphics-IsStarted (start_modules m (sc_check p.0 (with_controller a p.1))) a'
        (start_modules-Reaches m (sc_check p.0 (with_controller a p.1)) (
          subst (λ p. Reaches IsConfigured (sc_check p.0 (with_controller a p.1)))
            (pair-injective same) (loaded-IsConfigured m a a.system.controller r)))
        went
    where
      pair-injective : {p q : StreamControllerError × Controller} → done p ≡ done q → p ≡ q
      pair-injective e = cc
