-- ===== src/App/Main/Whole.antt =====
-- The start of the program on a machine where nothing fails: main of tv_app.c up to its wait, the
-- task of stream_controller.c up to its loop, and then keys and timers.
pub mod Tests
use ppu_tvi_os.Common.{ℕ, ◌≤◌, ◌≡◌, refl, ap, ◌∙◌, true, false, List, [], ◌∷◌, arith}
use mathlib.Core.Path.{sym}
use ppu_tvi_os.Common.Int.{pos}
use ppu_tvi_os.Common.Outcome.{Outcome, done, ◌>>=◌, Returns}
use ppu_tvi_os.Stream.Platform.{InitialInfo}
use ppu_tvi_os.Stream.State.{Controller, sc_no_error}
use ppu_tvi_os.Stream.Config.Load.{to_int16, load_config_file}
use ppu_tvi_os.Stream.Start.{date_of}
use ppu_tvi_os.Stream.Task.{start_task}
use ppu_tvi_os.Stream.Task.Running.{Broadcast, IsBroadcast, IsRunning, start_task-IsRunning}
use ppu_tvi_os.Stream.Task.Quiet.{start_task-IsQuiet}
use ppu_tvi_os.Graphics.{
  Timer, program_number_timer, volume_timer, info_timer, hidden, remove_program_number,
  remove_volume_bar, remove_info,
}
use ppu_tvi_os.Graphics.Timers.{step, expired}
use ppu_tvi_os.App.Remote.{System, register_current_date, remote_controller_callback}
use ppu_tvi_os.App.Remote.Ready.{IsReady, moved-IsReady, remote_controller_callback-IsReady}
use ppu_tvi_os.App.Steps.{after_round}
use ppu_tvi_os.App.Main.{Machine, Application, on, start}
use ppu_tvi_os.App.Main.Willing.{IsWilling, begun, start-begun}

-- An application before main, to which the sections of a broadcast are going to come in.
pub record IsUnstarted (b : Broadcast) (rest : List (List ℕ)) (a : Application) : Type 0 where
  pub undated : a.system.controller.time_tables_received ≡ false
  pub queue :
      a.system.controller.incoming
      ≡ b.pat_section ∷ b.pmt_section ∷ b.tdt_section ∷ b.tot_section ∷ rest
  pub level : a.system.controller.current_volume ≤ 10
  pub agreed : a.system.current_volume ≡ a.system.controller.current_volume

-- A key is pressed, or a timer takes something off the screen.
pub data Touch : Type 0 where
  key : ℕ → Touch
  timer : Timer → Touch

abbrev pub touch : Touch → System → Outcome System
touch (key code) s = remote_controller_callback code s
touch (timer t) s = done (record s { graphics = step (expired t) s.graphics })

abbrev pub touch_all : List Touch → System → Outcome System
touch_all [] s = done s
touch_all (t ∷ touches) s = touch t s >>= touch_all touches

timer-IsReady :
    (t : Timer) (s : System)
    → IsReady s
    → IsReady (record s { graphics = step (expired t) s.graphics })
unfolding remove_program_number remove_volume_bar remove_info
timer-IsReady program_number_timer s r = moved-IsReady s _ r refl refl refl refl refl
timer-IsReady volume_timer s r = moved-IsReady s _ r refl refl refl refl refl
timer-IsReady info_timer s r = moved-IsReady s _ r refl refl refl refl refl

touch_all-IsReady :
    (touches : List Touch) (s : System) → IsReady s → Returns (touch_all touches s) IsReady
touch_all-IsReady [] s r = (s, refl, r)
touch_all-IsReady (key code ∷ touches) s r =
    let (s1, ran, r1) = remote_controller_callback-IsReady code s r in
    let (s2, ran', r2) = touch_all-IsReady touches s1 r1 in
    (s2, ap (λ m. m >>= touch_all touches) ran ∙ ran', r2)
touch_all-IsReady (timer t ∷ touches) s r =
    touch_all-IsReady touches (record s { graphics = step (expired t) s.graphics })
      (timer-IsReady t s r)

-- A start of the program with channel `n`, and what follows it on the remote controller and the
-- screen: what main waits with, what the task has started, and what the keys and timers leave.
pub record Run (m : Machine) (n : ℕ) (b : Broadcast) (rest : List (List ℕ)) (touches : List Touch)
    (a : Application) : Type 0 where
  pub waiting : Application
  pub began : start m a ≡ done (on waiting)
  pub playing : Controller
  pub played : start_task m.platform waiting.system.controller ≡ done (sc_no_error, playing)
  pub running : IsRunning m.platform n b rest playing
  pub dated : (after_round waiting.system playing).current_date_main ≡ date_of b.tdt
  pub watched : System
  pub touched : touch_all touches (after_round waiting.system playing) ≡ done watched
  pub ready : IsReady watched

module _ (m : Machine) (w : IsWilling m) (n : ℕ) (b : Broadcast) (rest : List (List ℕ))
    (info : InitialInfo) (a : Application) (unstarted : IsUnstarted b rest a) where
  -- What the task plays, as the application that has begun sees it.
  hidden_volume : hidden.volume ≤ 10
  unfolding hidden
  hidden_volume = omega arith

  playing-IsReady :
      (c : Controller)
      → start_task m.platform (begun info a).system.controller ≡ done (sc_no_error, c)
      → IsRunning m.platform n b rest c
      → IsReady (after_round (begun info a).system c)
  playing-IsReady c ran running =
      let (level, told) =
        start_task-IsQuiet m.platform w.platform w.locks (begun info a).system.controller
          (sc_no_error, c) ran in
      record {
        pat = b.pat;
        loaded = running.pat;
        registered = told;
        level = rw level unstarted.level;
        agreed = unstarted.agreed ∙ sym level;
        bar = hidden_volume;
      }

  -- The application is told the date.
  started-dated :
      (c : Controller)
      → IsRunning m.platform n b rest c
      → (after_round (begun info a).system c).current_date_main ≡ date_of b.tdt
  unfolding register_current_date
  started-dated c running = let (before, told) = running.told in rw (unstarted.undated, told) refl

-- On a machine where no call fails, with a configuration file that loads and names program n, and
-- with sections of the four tables that parse and have channel n as the first that come in: main gets
-- to its wait for the EXIT key, the task that runs behind that gets to its loop, with the streams of
-- channel n created, and tells the application the date of the TDT; and then any keys and expiries of
-- the timers of the screen, before the task's next round, return, and leave a loaded PAT and a volume
-- of at most 10 that the application knows. Before main the date has not been received, and the
-- volume is at most 10 and the one that the application knows.
pub start-touch_all :
    (m : Machine)
    → IsWilling m
    → (n : ℕ) (b : Broadcast) (rest : List (List ℕ)) → IsBroadcast n b
    → (info : InitialInfo) (a : Application) → IsUnstarted b rest a
    → load_config_file m.platform m.config_ini a.system.controller.config_file
      ≡ done (sc_no_error, info)
    → to_int16 info.program_number ≡ pos n
    → (touches : List Touch) → Run m n b rest touches a
start-touch_all m w n b rest v info a unstarted loaded configured touches =
    let waiting = begun info a in
    let ((code, c), ran, (good, running)) =
      start_task-IsRunning m.platform w.platform w.locks waiting.system.controller n b rest v
        configured unstarted.undated refl unstarted.queue in
    let played : start_task m.platform waiting.system.controller ≡ done (sc_no_error, c) =
      ran ∙ ap (λ e. done (e, c)) good in
    let (s', touched, ready) =
      touch_all-IsReady touches (after_round waiting.system c)
        (playing-IsReady m w n b rest info a unstarted c played running) in
    record {
      waiting = waiting;
      began = start-begun m w info a loaded;
      playing = c;
      played = played;
      running = running;
      dated = started-dated m w n b rest info a unstarted c running;
      watched = s';
      touched = touched;
      ready = ready;
    }
