-- ===== src/App/Older/Tests.antt =====
-- Keys on vezba_5.c, as concrete data.
use ppu_tvi_os.Common.{◌≡◌, refl, true, false, none, [], ◌∷◌, arith}
use ppu_tvi_os.Stream.Tests.{willing}
use ppu_tvi_os.Graphics.{Graphics}
use ppu_tvi_os.App.Tests.{watching}
use ppu_tvi_os.Common.Outcome.{done}
use ppu_tvi_os.Stream.Task.{start_task}
use ppu_tvi_os.Stream.Task.Undated.{NeverReturns}
use ppu_tvi_os.App.Main.{on}
use ppu_tvi_os.App.Main.Whole.Tests.{
  receiver, receiver-IsWilling, unplugged, first_program, first_program-loaded,
}
use ppu_tvi_os.App.Older.Main.{OlderApplication, open_modules}
use ppu_tvi_os.App.Older.Undated.{open_modules-start_task}
use ppu_tvi_os.App.Older.Keys.{
  press, dial, part, seen, act_all, older_act_all, drawn_all, older_act_all-act_all,
}

-- An older drawInfoRect, which only shows the box.
abbrev show_box : Graphics → Graphics
show_box g = record g { components = record g.components { show_info = true } }

-- The next channel, the digits 0 and 2, the timer, and the channel info.
older_act_all-act_all_example :
    older_act_all willing show_box
      (press 62 ∷ press 11 ∷ press 3 ∷ dial ∷ press 358 ∷ [])
      (part watching.graphics watching)
    ≡ seen
        (drawn_all willing show_box
          (press 62 ∷ press 11 ∷ press 3 ∷ dial ∷ press 358 ∷ [])
          watching.graphics)
        (act_all willing (press 62 ∷ press 11 ∷ press 3 ∷ dial ∷ press 358 ∷ []) watching)
older_act_all-act_all_example =
    older_act_all-act_all willing show_box (press 62 ∷ press 11 ∷ press 3 ∷ dial ∷ press 358 ∷ [])
      watching.graphics watching
      (
        record { no_more = omega arith; no_less = omega arith; no_mute = omega arith },
        (
          record { no_more = omega arith; no_less = omega arith; no_mute = omega arith },
          (
            record { no_more = omega arith; no_less = omega arith; no_mute = omega arith },
            (
              tt,
              (record { no_more = omega arith; no_less = omega arith; no_mute = omega arith }, tt),
            ),
          ),
        ),
      )

abbrev unwatched : OlderApplication
unwatched = record {
  system = part unplugged.system.graphics (record unplugged.system {
    controller = record unplugged.system.controller { date_received_callback = false };
  });
  remote = record { thread_exit = false; callback = none };
  calls = [];
  key_timer = false;
}

open_modules-start_task_example :
    (a' : OlderApplication) × (open_modules show_box receiver unwatched ≡ done (on a'))
    × NeverReturns (start_task willing a'.system.controller)
open_modules-start_task_example =
    open_modules-start_task show_box receiver receiver-IsWilling first_program unwatched
      first_program-loaded (refl, refl)
