-- ===== src/App/Main/Finished.antt =====
-- How main of tv_app.c ends behind the EXIT key.
use ppu_tvi_os.Common.{zero, suc, true, false, ◌≡◌, none, List, ◌∷◌}
use ppu_tvi_os.Common.Int.{pos, negsuc}
use ppu_tvi_os.Stream.Deinit.Released.{IsReleased}
use ppu_tvi_os.Graphics.{program_number_timer, volume_timer, info_timer}
use ppu_tvi_os.Graphics.Device.{Call, join_thread, delete_timer, release_primary, release_interface}
use ppu_tvi_os.App.Main.{Application, Stage, on, back, off}

-- The calls of graphicsControllerDeinit, the latest first.
abbrev pub closing : List Call → List Call
closing calls =
    release_interface
    ∷ release_primary
    ∷ delete_timer info_timer
    ∷ delete_timer volume_timer
    ∷ delete_timer program_number_timer
    ∷ join_thread
    ∷ calls

-- What main leaves behind when it returns 0: no thread runs, and everything is released.
pub record IsFinished (before a : Application) : Type 0 where
  pub stream : IsReleased before.system.controller a.system.controller
  pub asked : a.remote.thread_exit ≡ true
  pub silent : a.remote.callback ≡ none
  pub screen : a.calls ≡ closing before.calls
  pub stopped : a.system.graphics.stop_drawing ≡ true
  pub key_timer : a.key_timer ≡ false

-- What it leaves behind when it returns -1: nothing of the stream controller is released, and keyTimer
-- is not deleted.
pub record IsAbandoned (before a : Application) : Type 0 where
  pub pat : a.system.controller.pat_table ≡ before.system.controller.pat_table
  pub initialized : a.system.controller.is_initialized ≡ before.system.controller.is_initialized
  pub key_timer : a.key_timer ≡ before.key_timer

-- main has returned, with one of the two.
abbrev pub Ends : Application → Stage Application → Type 0
Ends before (on a) = ⊥
Ends before (back (pos zero) a) = IsFinished before a
Ends before (back (pos (suc n)) a) = ⊥
Ends before (back (negsuc zero) a) = IsAbandoned before a
Ends before (back (negsuc (suc n)) a) = ⊥
Ends before (off a) = ⊥
