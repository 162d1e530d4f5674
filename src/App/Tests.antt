-- ===== src/App/Tests.antt =====
-- The running application and digits typed on its remote controller, as concrete data (tv_app.c).
use ppu_tvi_os.Common.{◌*◌, [], ◌∷◌, false, arith, ◌≡◌}
use ppu_tvi_os.Common.Outcome.{done}
use ppu_tvi_os.App.Keypad.{empty_keypad, typed_channel}
use ppu_tvi_os.App.Keypad.Digits.{type_all, typed_channel_restarts}
use ppu_tvi_os.Common.{refl}
use ppu_tvi_os.Common.Outcome.{Returns}
use ppu_tvi_os.Tables.Pmt.Tests.{pmt_section}
use ppu_tvi_os.Stream.Start.Play.{info_of}
use ppu_tvi_os.Stream.Tests.{
  willing, running, four_services, service, parsed_pmt, parsed_pmt-IsValid, pmt_section-parsed,
}
use ppu_tvi_os.Common.Int.{pos}
use ppu_tvi_os.App.Remote.{System, change_channel}
use ppu_tvi_os.App.Remote.Ready.{IsReady, press_codes, press_codes-IsReady}
use ppu_tvi_os.App.Remote.Dial.{change_channel-info_of}

typed_channel_restarts_example :
    typed_channel (type_all (1 ∷ 2 ∷ 3 ∷ 4 ∷ 5 ∷ []) (empty_keypad false)) ≡ done (100 * 5)
typed_channel_restarts_example = typed_channel_restarts false 1 2 3 (4 ∷ []) 5

abbrev pub watching : System
watching = record {
  controller = running;
  graphics = record {
    components = record {
      show_program_number = false;
      show_volume = false;
      show_info = false;
      show_channel_dial = false;
      program_number = 0;
      volume = 0;
    };
    year_to_draw = 1000;
    tmp_month_to_draw = 0;
    day_to_draw = 0;
    audio_pid_to_draw = pos 0;
    video_pid_to_draw = pos 0;
    timers_set = [];
    stop_drawing = false;
  };
  keypad = empty_keypad false;
  channel_info = record { program_number = pos 0; audio_pid = pos 0; video_pid = pos 0 };
  current_date_main = record { year = 2016; tmp_month = 12; day = 31 };
  current_volume = 10;
  exit_signalled = false;
}

pub watching-IsReady : IsReady watching
watching-IsReady = record {
  pat = four_services;
  loaded = refl;
  registered = refl;
  level = omega arith;
  agreed = refl;
  bar = omega arith;
}

press_codes-IsReady_example : Returns (press_codes (64 ∷ 60 ∷ 62 ∷ 2 ∷ 358 ∷ []) watching) IsReady
press_codes-IsReady_example =
    press_codes-IsReady (64 ∷ 60 ∷ 62 ∷ 2 ∷ 358 ∷ []) watching watching-IsReady

-- The digits 0 and 2 have been typed.
abbrev pub dialled : System
dialled = record watching { keypad = type_all (0 ∷ 2 ∷ []) (empty_keypad false) }

change_channel-info_of_example : Returns (change_channel willing dialled) (λ s'.
    (s'.controller.current_channel ≡ info_of 2 parsed_pmt)
    × (s'.controller.incoming ≡ [])
    × (s'.keypad.keys_pressed ≡ 0)
    × (s'.keypad.keys ≡ 0 ∷ 0 ∷ 0 ∷ []))
change_channel-info_of_example =
    change_channel-info_of willing dialled four_services false (0 ∷ 2 ∷ []) refl refl (omega arith)
      (omega arith) refl service pmt_section [] parsed_pmt (omega arith) refl refl refl
      (omega arith) refl pmt_section-parsed parsed_pmt-IsValid
