-- ===== src/Stream/Config/Files.antt =====
-- A configuration file with a number on each line (loadConfigFile of stream_controller.c).
use ppu_tvi_os.Common.{
  ℕ, suc, ◌<◌, ◌≢◌, ◌==◌, Bool, true, not, ◌&&◌, List, [], ◌∷◌, ◌++◌, length, All, decimal,
}
use ppu_tvi_os.Stream.Platform.{Platform, InitialInfo}
use ppu_tvi_os.Stream.Config.Lines.{spaces}
use ppu_tvi_os.Stream.Config.Values.{chars}
use ppu_tvi_os.Stream.Config.Load.{line_length}
use ppu_tvi_os.Stream.Config.Entries.{Entry, key, store, entry_line}

-- A line: its entry, the blanks in front of the dash, behind it, and behind the number but one, and
-- the digits of the number.
pub record Setting : Type 0 where
  pub entry : Entry
  pub before : ℕ
  pub inside : ℕ
  pub behind : ℕ
  pub first : ℕ
  pub others : List ℕ

abbrev value : Setting → List ℕ
value s = chars (s.first ∷ s.others) ++ spaces (suc s.behind)

abbrev pub setting_line : Setting → List ℕ
setting_line s = entry_line s.entry s.before s.inside (value s)

abbrev pub number : Setting → ℕ
number s = decimal 0 (s.first ∷ s.others)

-- The digits are digits, the number has at most 31 bits, and the line fits the buffer.
pub record IsSetting (s : Setting) : Type 0 where
  pub digits : All (λ d. d < 10) (s.first ∷ s.others)
  pub fits : number s < 2147483648
  pub room : length (setting_line s) < line_length

abbrev pub file_of : List Setting → List ℕ
file_of [] = []
file_of (s ∷ ss) = setting_line s ++ file_of ss

-- What the settings store, one behind the other.
abbrev pub store_all : List Setting → InitialInfo → InitialInfo
store_all [] info = info
store_all (s ∷ ss) info = store_all ss (store s.entry (number s) info)

abbrev IsInline : ℕ → Type 0
IsInline c = c ≢ 10

abbrev all_inline : List ℕ → Bool
all_inline [] = true
all_inline (c ∷ cs) = not (c == 10) && all_inline cs

-- A line without its newline.
abbrev line_body : Setting → List ℕ
line_body s = (key s.entry ++ spaces s.before) ++ (b'-' ∷ (spaces s.inside ++ value s))
