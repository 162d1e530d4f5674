-- ===== src/Stream/Config/Tests.antt =====
-- A word with blanks around it, as concrete data (stream_controller.c).
use ppu_tvi_os.Common.{codes, ℕ, zero, suc, ◌<◌, ◌≡◌, ◌≢◌, refl, List, [], ◌∷◌, get_or, arith}
use ppu_tvi_os.Common.Outcome.{Returns}
use ppu_tvi_os.Common.{some}
use ppu_tvi_os.Common.Outcome.{done}
use ppu_tvi_os.Stream.Platform.{InitialInfo}
use ppu_tvi_os.Stream.State.{sc_no_error}
use ppu_tvi_os.Stream.Tests.{willing}
use ppu_tvi_os.Stream.Config.Strings.{fgets_all, strtok, same_text, atoi}
use ppu_tvi_os.Stream.Config.Values.{chars}
use ppu_tvi_os.Stream.Config.Load.{
  next_word, next_number, load_module, load_entry, load_line, load_lines, load_config_file,
}
use ppu_tvi_os.Stream.Config.Entries.{frequency, bandwidth, program_number, entry_line}
use ppu_tvi_os.Stream.Config.LastDigit.{load_line-last_digit}
use ppu_tvi_os.Stream.Config.Files.{Setting}
use ppu_tvi_os.Stream.Config.{remove_white_spaces}
use ppu_tvi_os.Stream.Config.Blanks.{IsPadded, IsTrimmed, remove_white_spaces-IsTrimmed}

-- " ab " with its terminator; "aa" comes out of it.
abbrev padded_word : List ℕ
padded_word = 32 ∷ 97 ∷ 98 ∷ 32 ∷ 0 ∷ []

padded_word_inside : (n : ℕ) → n < 4 → get_or padded_word n 0 ≢ 0
padded_word_inside zero lt = omega arith
padded_word_inside (suc zero) lt = omega arith
padded_word_inside (suc (suc zero)) lt = omega arith
padded_word_inside (suc (suc (suc zero))) lt = omega arith
padded_word_inside (suc (suc (suc (suc n)))) lt = absurd (omega arith)

padded_word_before : (n : ℕ) → n < 1 → get_or padded_word n 0 ≡ 32
padded_word_before zero lt = refl
padded_word_before (suc n) lt = absurd (omega arith)

padded_word_behind : (n : ℕ) → 2 < n → n < 4 → get_or padded_word n 0 ≡ 32
padded_word_behind zero more lt = absurd (omega arith)
padded_word_behind (suc zero) more lt = absurd (omega arith)
padded_word_behind (suc (suc zero)) more lt = absurd (omega arith)
padded_word_behind (suc (suc (suc zero))) more lt = refl
padded_word_behind (suc (suc (suc (suc n)))) more lt = absurd (omega arith)

padded_word-IsPadded : IsPadded padded_word 4 1 2
padded_word-IsPadded = record {
  room = omega arith;
  terminated = refl;
  inside = padded_word_inside;
  order = omega arith;
  within = omega arith;
  before = padded_word_before;
  first = omega arith;
  last = omega arith;
  behind = padded_word_behind;
}

remove_white_spaces-IsTrimmed_example :
    Returns (remove_white_spaces padded_word) (IsTrimmed padded_word 1 2)
remove_white_spaces-IsTrimmed_example =
    remove_white_spaces-IsTrimmed padded_word 4 1 2 padded_word-IsPadded

-- The configuration file of the repository.
abbrev config_ini : List ℕ
config_ini =
    codes
      "frequency       - 754000000   \nbandwidth       - 8   \nmodule          - DVB_T   \nprogram_number  - 2   \n"

abbrev no_info : InitialInfo
no_info = record { tune_frequency = 0; tune_bandwidth = 0; program_number = 0; tune_module = 0 }

config_ini_loads :
    load_config_file willing (some config_ini) no_info
    ≡ done (
      sc_no_error,
      record {
        tune_frequency = 754000000;
        tune_bandwidth = 8;
        program_number = 2;
        tune_module = willing.dvb_t;
      },
    )
unfolding load_config_file load_lines load_line load_entry load_module next_number next_word
    remove_white_spaces strtok same_text atoi fgets_all
config_ini_loads = refl

load_line-last_digit_example :
    load_line willing (entry_line program_number 2 1 (chars (1 ∷ 2 ∷ []))) no_info
    ≡ done (sc_no_error, record no_info { program_number = 122 })
load_line-last_digit_example =
    load_line-last_digit willing no_info program_number 2 (1 ∷ []) 2
      (omega arith, (omega arith, (omega arith, tt))) (omega arith)

-- The configuration of the repository, without the line of the module.
abbrev shipped : List Setting
shipped =
    record {
      entry = frequency;
      before = 7;
      inside = 1;
      behind = 2;
      first = 7;
      others = 5 ∷ 4 ∷ 0 ∷ 0 ∷ 0 ∷ 0 ∷ 0 ∷ 0 ∷ [];
    }
    ∷ record { entry = bandwidth; before = 7; inside = 1; behind = 2; first = 8; others = [] }
    ∷ record { entry = program_number; before = 2; inside = 1; behind = 2; first = 2; others = [] }
    ∷ []
