-- ===== src/Stream/Config/Strings.antt =====
-- What loadConfigFile uses of the C library on strings: fgets, strtok, strcmp and atoi. A string is
-- the list of its characters up to a terminator, and what lies behind it.
use ppu_tvi_os.Common.{
  ℕ, ◌+◌, ◌-◌, ◌*◌, ◌%◌, ◌^◌, ◌==◌, ltb, leb, ◌||◌, ◌&&◌, if◌then◌else◌, Bool, true, false, List,
  [], ◌∷◌, Option, none, some,
}
use ppu_tvi_os.Common.Outcome.{Outcome, done, fault}

-- A character in front of the first line.
abbrev pub on_first : ℕ → List (List ℕ) → List (List ℕ)
on_first c [] = (c ∷ []) ∷ []
on_first c (line ∷ lines) = (c ∷ line) ∷ lines

-- The results of `fgets(line, size, file)` up to the end of the file, while `room` characters of the
-- line are left: a line ends behind a newline, or when it has `size - 1` characters.
unfoldable pub fgets_all : ℕ → ℕ → List ℕ → List (List ℕ)
fgets_all size room [] = []
fgets_all size room (c ∷ cs) =
    let ends = c == 10 || leb room 1 in
    let rest = fgets_all size (if ends then size - 1 else room - 1) cs in
    if ends then (c ∷ []) ∷ rest else on_first c rest

-- `strtok(…, "-")`: the delimiters in front are skipped.
unfoldable pub skip_dashes : List ℕ → List ℕ
skip_dashes [] = []
skip_dashes (c ∷ cs) = if c == b'-' then skip_dashes cs else c ∷ cs

-- A token with its terminator, and where the next call goes on: behind the delimiter, or at the
-- terminator.
unfoldable pub split_token : List ℕ → List ℕ × List ℕ
split_token [] = ([], [])
split_token (c ∷ cs) =
    let (token, rest) = split_token cs in
    if c == 0 then (0 ∷ [], 0 ∷ cs) else if c == b'-' then (0 ∷ [], cs) else (c ∷ token, rest)

-- NULL if only delimiters are left.
unfoldable pub some_token : List ℕ → Option (List ℕ × List ℕ)
unfolding split_token
some_token [] = none
some_token (c ∷ cs) = if c == 0 then none else some (split_token (c ∷ cs))

unfoldable pub strtok : List ℕ → Option (List ℕ × List ℕ)
unfolding skip_dashes some_token
strtok text = some_token (skip_dashes text)

-- `strcmp(string, text) == 0`
unfoldable pub same_text : List ℕ → List ℕ → Bool
same_text [] text = false
same_text (c ∷ cs) [] = c == 0
same_text (c ∷ cs) (x ∷ xs) = c == x && same_text cs xs

-- `isspace`
abbrev pub is_space : ℕ → Bool
is_space c = c == 32 || leb 9 c && leb c 13

abbrev pub is_digit : ℕ → Bool
is_digit c = leb b'0' c && leb c b'9'

unfoldable pub skip_spaces : List ℕ → List ℕ
skip_spaces [] = []
skip_spaces (c ∷ cs) = if is_space c then skip_spaces cs else c ∷ cs

-- The number of the digits that a string starts with.
unfoldable pub digits : ℕ → List ℕ → ℕ
digits n [] = n
digits n (c ∷ cs) = if is_digit c then digits (10 * n + (c - b'0')) cs else n

-- A number that does not fit an int is undefined behaviour; a negative one is converted to uint32_t.
unfoldable pub signed : Bool → ℕ → Outcome ℕ
signed false n = if ltb n (2 ^ 31) then done n else fault
signed true n = if leb n (2 ^ 31) then done ((2 ^ 32 - n) % 2 ^ 32) else fault

unfoldable pub signed_digits : List ℕ → Outcome ℕ
unfolding digits signed
signed_digits [] = done 0
signed_digits (c ∷ cs) =
    if c == b'-'
    then signed true (digits 0 cs)
    else if c == b'+'
    then signed false (digits 0 cs)
    else signed false (digits 0 (c ∷ cs))

-- `(uint32_t) atoi(string)`
unfoldable pub atoi : List ℕ → Outcome ℕ
unfolding skip_spaces signed_digits
atoi text = signed_digits (skip_spaces text)
