-- ===== src/App/Main/Whole/Tests.antt =====
-- A whole run of the program on concrete sections (tv_app.c, stream_controller.c).
use ppu_tvi_os.Common.{◌≡◌, refl, arith, true, false, some, [], ◌∷◌, codes}
use ppu_tvi_os.Common.Outcome.{done}
use ppu_tvi_os.Stream.Platform.{InitialInfo}
use ppu_tvi_os.Stream.State.{sc_no_error}
use ppu_tvi_os.Stream.Tests.{willing}
use ppu_tvi_os.Stream.Config.{remove_white_spaces}
use ppu_tvi_os.Stream.Config.Strings.{strtok, same_text, atoi, fgets_all}
use ppu_tvi_os.Stream.Config.Load.{
  next_word, next_number, load_entry, load_line, load_lines, load_config_file,
}
use ppu_tvi_os.Stream.Task.Tests.{broadcast, broadcast-IsBroadcast, willing-locks}
use ppu_tvi_os.App.Main.{Machine, Application}
use ppu_tvi_os.App.Main.Tests.{screen, idle}
use ppu_tvi_os.App.Main.Willing.{IsWilling}
use ppu_tvi_os.App.Main.Whole.{IsUnstarted, Run, key, timer, start-touch_all}
use ppu_tvi_os.Graphics.{volume_timer}

-- The configuration names program 0.
abbrev pub receiver : Machine
receiver = record {
  platform = willing;
  display = screen;
  config_ini = some (codes "program_number  - 0   \n");
  input_created = true;
  input_joined = true;
  frame_signalled = true;
}

pub receiver-IsWilling : IsWilling receiver
receiver-IsWilling = record {
  platform = λ made k. refl;
  locks = λ made. willing-locks;
  display = λ made k. refl;
  created = refl;
}

abbrev pub unplugged : Application
unplugged = record idle {
  system = record idle.system {
    controller = record idle.system.controller {
      time_tables_received = false;
      incoming =
          broadcast.pat_section ∷ broadcast.pmt_section ∷ broadcast.tdt_section
          ∷ broadcast.tot_section ∷ [];
    };
  };
}

unplugged-IsUnstarted : IsUnstarted broadcast [] unplugged
unplugged-IsUnstarted = record { undated = refl; queue = refl; level = omega arith; agreed = refl }

abbrev pub first_program : InitialInfo
first_program = record unplugged.system.controller.config_file { program_number = 0 }

pub first_program-loaded :
    load_config_file willing receiver.config_ini unplugged.system.controller.config_file
    ≡ done (sc_no_error, first_program)
unfolding load_config_file load_lines load_line load_entry next_number next_word remove_white_spaces
    strtok same_text atoi fgets_all
first_program-loaded = refl

-- More volume, the volume bar goes, the next channel, the digit 1 and EXIT.
start-touch_all_example :
    Run receiver 0 broadcast []
      (key 63 ∷ timer volume_timer ∷ key 62 ∷ key 2 ∷ key 102 ∷ [])
      unplugged
start-touch_all_example =
    start-touch_all receiver receiver-IsWilling 0 broadcast [] broadcast-IsBroadcast first_program
      unplugged unplugged-IsUnstarted first_program-loaded refl
      (key 63 ∷ timer volume_timer ∷ key 62 ∷ key 2 ∷ key 102 ∷ [])
