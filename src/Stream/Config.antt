-- ===== src/Stream/Config.antt =====
-- The reading of the configuration file config.ini in stream_controller.c: removeWhiteSpaces.
-- The child Load has loadConfigFile and loadInitialInfo.
pub mod Blanks
pub mod Strings
pub mod Load
pub mod Lines
pub mod Values
pub mod Entries
pub mod LastDigit
pub mod Files
mod Tests
use ppu_tvi_os.Common.{ℕ, zero, suc, ◌+◌, ◌-◌, ◌==◌, if◌then◌else◌, List, [], ◌∷◌, set}
use ppu_tvi_os.Common.Outcome.{Outcome, done, fault, ◌>>=◌, element}

-- `strlen`: a buffer without a terminator is read out of bounds.
unfoldable pub string_length : List ℕ → Outcome ℕ
string_length [] = fault
string_length (c ∷ cs) =
    let rest = string_length cs in if c == 0 then done 0 else (rest >>= λ n. done (suc n))

-- The loop over `i`: the first position that is no blank.
unfoldable pub leading_blanks : List ℕ → Outcome ℕ
leading_blanks [] = fault
leading_blanks (c ∷ cs) =
    let rest = leading_blanks cs in if c == 32 then (rest >>= λ i. done (suc i)) else done 0

-- The loop over `k`, from the position in front of `n`. The `&` evaluates both of its tests, which
-- read the same character.
unfoldable pub last_position : List ℕ → ℕ → Outcome ℕ
last_position word zero = fault
last_position word (suc k) =
    let rest = last_position word k in element word k >>= λ c. if c == 32 then rest else done k

-- The `for` loop, with the rounds that are left.
unfoldable pub shift_loop : ℕ → ℕ → ℕ → List ℕ → Outcome (List ℕ)
shift_loop zero j i word = done word
shift_loop (suc left) j i word = do
  c ← element word (j + i)
  shift_loop left (j + 1) i (set word j c)

-- removeWhiteSpaces: the buffer behind `word`, from its first character on. Where `k` is less than
-- `i` a loop above has faulted already.
unfoldable pub remove_white_spaces : List ℕ → Outcome (List ℕ)
unfolding string_length leading_blanks last_position shift_loop
remove_white_spaces word = do
  string_len ← string_length word
  i ← leading_blanks word
  k ← last_position word string_len
  word' ← shift_loop (k - i) 0 i word
  slot ← element word' (k - i + 1)
  done (set word' (k - i + 1) 0)
