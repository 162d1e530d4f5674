-- ===== src/Stream/Config/Load.antt =====
-- loadConfigFile and loadInitialInfo of stream_controller.c. A file is the list of its bytes, `none`
-- if it cannot be opened.
use ppu_tvi_os.Common.{
  codes, ℕ, ◌-◌, ◌%◌, ◌^◌, ltb, if◌then◌else◌, List, [], ◌∷◌, ◌++◌, Option, none, some,
}
use ppu_tvi_os.Common.Int.{ℤ, pos, negsuc}
use ppu_tvi_os.Common.Outcome.{Outcome, done, ◌>>=◌, or_fault}
use ppu_tvi_os.Stream.Platform.{Platform, InitialInfo}
use ppu_tvi_os.Stream.State.{Controller, StreamControllerError, sc_no_error, sc_error}
use ppu_tvi_os.Stream.Config.{remove_white_spaces}
use ppu_tvi_os.Stream.Config.Strings.{fgets_all, strtok, same_text, atoi}

-- `LINE_LENGTH`
abbrev pub line_length : ℕ
line_length = 100

-- `singleWord = strtok(…, "-"); removeWhiteSpaces(singleWord);`: the word and what strtok has left.
unfoldable pub next_word : List ℕ → Outcome (List ℕ × List ℕ)
next_word text = do
  (token, rest) ← or_fault (strtok text)
  word ← remove_white_spaces token
  done (word, rest)

-- The value of a line, as a number.
unfoldable pub next_number : List ℕ → Outcome ℕ
next_number text = do (word, rest) ← next_word text; atoi word

-- `programNumber = configFile.programNumber`, from uint32_t to int16_t.
abbrev pub to_int16 : ℕ → ℤ
to_int16 n = let low = n % 2 ^ 16 in if ltb low (2 ^ 15) then pos low else negsuc (2 ^ 16 - 1 - low)

abbrev pub configure :
    Controller → StreamControllerError × InitialInfo → StreamControllerError × Controller
configure c (sc_no_error, info) =
    (sc_no_error, record c { config_file = info; program_number = to_int16 info.program_number })
configure c (_, info) = (sc_error, record c { config_file = info })

module _ (platform : Platform) where
  -- The branch for the module: `strcmp` is not compared with 0, so a word other than DVB_T is
  -- accepted, as DVB_T.
  unfoldable pub load_module : List ℕ → InitialInfo → Outcome (StreamControllerError × InitialInfo)
  load_module text info = do
    (word, rest) ← next_word text
    if same_text word (codes "DVB_T")
        then done (sc_error, info)
        else done (sc_no_error, record info { tune_module = platform.dvb_t })

  -- The branches on the first word of a line.
  unfoldable pub load_entry :
      List ℕ → List ℕ → InitialInfo → Outcome (StreamControllerError × InitialInfo)
  load_entry word rest info =
      if same_text word (codes "frequency")
      then (do n ← next_number rest; done (sc_no_error, record info { tune_frequency = n }))
      else if same_text word (codes "bandwidth")
      then (do n ← next_number rest; done (sc_no_error, record info { tune_bandwidth = n }))
      else if same_text word (codes "module")
      then load_module rest info
      else if same_text word (codes "program_number")
      then (do n ← next_number rest; done (sc_no_error, record info { program_number = n }))
      else done (sc_no_error, info)

  -- The body of the loop over the lines.
  unfoldable pub load_line : List ℕ → InitialInfo → Outcome (StreamControllerError × InitialInfo)
  load_line line info = do (word, rest) ← next_word (line ++ (0 ∷ [])); load_entry word rest info

  unfoldable pub load_lines :
      List (List ℕ) → InitialInfo → Outcome (StreamControllerError × InitialInfo)
  load_lines [] info = done (sc_no_error, info)
  load_lines (line ∷ lines) info = do
    (status, info') ← load_line line info
    elim status [ sc_no_error ↦ load_lines lines info' | _ ↦ done (sc_error, info') ]

  unfoldable pub load_config_file :
      Option (List ℕ) → InitialInfo → Outcome (StreamControllerError × InitialInfo)
  load_config_file none info = done (sc_error, info)
  load_config_file (some bytes) info =
      load_lines (fgets_all line_length (line_length - 1) bytes) info

  unfoldable pub load_initial_info :
      Option (List ℕ) → Controller → Outcome (StreamControllerError × Controller)
  load_initial_info file c = do
    loaded ← load_config_file file c.config_file
    done (configure c loaded)
