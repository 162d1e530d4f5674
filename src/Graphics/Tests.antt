-- ===== src/Graphics/Tests.antt =====
-- A screen with a volume bar whose timer expires (graphics_controller.c).
use ppu_tvi_os.Common.{◌≡◌, false, [], ◌∷◌}
use ppu_tvi_os.Common.Int.{pos}
use ppu_tvi_os.Graphics.{Graphics, volume_timer}
use ppu_tvi_os.Graphics.Timers.{
  number_drawn, volume_drawn, expired, run, shown, last_word, run-last_word,
}

abbrev empty_screen : Graphics
empty_screen = record {
  components = record {
    show_program_number = false;
    show_volume = false;
    show_info = false;
    show_channel_dial = false;
    program_number = 0;
    volume = 0;
  };
  year_to_draw = 1000;
  tmp_month_to_draw = 0;
  day_to_draw = 0;
  audio_pid_to_draw = pos 0;
  video_pid_to_draw = pos 0;
  timers_set = [];
  stop_drawing = false;
}

run-last_word_example :
    shown volume_timer
      (run (volume_drawn 7 ∷ number_drawn ∷ expired volume_timer ∷ []) empty_screen)
    ≡ last_word volume_timer (volume_drawn 7 ∷ number_drawn ∷ expired volume_timer ∷ []) false
run-last_word_example =
    run-last_word volume_timer (volume_drawn 7 ∷ number_drawn ∷ expired volume_timer ∷ [])
      empty_screen
