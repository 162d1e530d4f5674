-- ===== src/Stream/Config/Entries.antt =====
-- The lines of config.ini with a number (stream_controller.c).
use ppu_tvi_os.Common.{
  All-append, codes, ℕ, zero, suc, ◌+◌, ◌<◌, ◌≡◌, ◌≢◌, refl, ◌∙◌, ap, not, ◌&&◌, ◌==◌, Bool, true,
  List, [], ◌∷◌, ◌++◌, append_assoc, length, get_or, some, All, decimal, arith,
}
use ppu_tvi_os.Common.Outcome.{done, ◌>>=◌}
use ppu_tvi_os.Stream.Platform.{Platform, InitialInfo}
use ppu_tvi_os.Stream.State.{sc_no_error}
use ppu_tvi_os.Stream.Config.{remove_white_spaces}
use ppu_tvi_os.Stream.Config.Strings.{strtok, same_text, atoi}
use ppu_tvi_os.Stream.Config.Lines.{
  IsPlain, spaces, spaces-IsPlain, strtok-dash, strtok-end, remove_white_spaces-word,
}
use ppu_tvi_os.Stream.Config.Values.{chars, remove_white_spaces-value, atoi-decimal}
use ppu_tvi_os.Stream.Config.Load.{next_word, next_number, load_entry, load_line}

-- The entries with a number.
pub data Entry : Type 0 where
  frequency bandwidth program_number : Entry

abbrev pub key : Entry → List ℕ
key frequency = codes "frequency"
key bandwidth = codes "bandwidth"
key program_number = codes "program_number"

abbrev pub store : Entry → ℕ → InitialInfo → InitialInfo
store frequency n info = record info { tune_frequency = n }
store bandwidth n info = record info { tune_bandwidth = n }
store program_number n info = record info { program_number = n }

-- `key`, blanks, a dash, blanks, a value and a newline.
abbrev pub value_text : ℕ → List ℕ → List ℕ
value_text i value = (spaces i ++ value) ++ (10 ∷ [])

abbrev pub entry_line : Entry → ℕ → ℕ → List ℕ → List ℕ
entry_line e a i value = (key e ++ spaces a) ++ (b'-' ∷ value_text i value)

next_word_lem :
    (text token rest word : List ℕ)
    → strtok text ≡ some (token, rest)
    → remove_white_spaces token ≡ done word
    → next_word text ≡ done (word, rest)
unfolding next_word
next_word_lem text token rest word split trimmed = rw (split, trimmed)

next_number_lem :
    (text token rest word : List ℕ)
    → strtok text ≡ some (token, rest)
    → remove_white_spaces token ≡ done word
    → next_number text ≡ atoi word
unfolding next_number
next_number_lem text token rest word split trimmed =
    ap (λ m. m >>= λ (p : List ℕ × List ℕ). atoi p.0)
      (next_word_lem text token rest word split trimmed)

-- The value, with the character that is left behind it.
pub next_number-value :
    (i y : ℕ) (ys : List ℕ)
    → All IsPlain (y ∷ ys)
    → y ≢ 32
    → (rest : List ℕ) × (next_number (value_text i (y ∷ ys) ++ (0 ∷ []))
        ≡ atoi
            ((y ∷ ys) ++ (get_or (value_text i (y ∷ ys) ++ (0 ∷ [])) (length ys + 1) 0 ∷ 0 ∷ rest)))
next_number-value i y ys plain first_lem =
    let (rest, trimmed) = remove_white_spaces-value i y ys plain first_lem in
    let text = value_text i (y ∷ ys) ++ (0 ∷ []) in
    (rest, next_number_lem text text (0 ∷ []) _ (whole i) trimmed)
  where
    newline : All IsPlain (10 ∷ [])
    newline = (record { inside = omega arith; no_dash = omega arith }, tt)

    whole :
        (i : ℕ)
        → strtok (value_text i (y ∷ ys) ++ (0 ∷ []))
          ≡ some (value_text i (y ∷ ys) ++ (0 ∷ []), 0 ∷ [])
    whole zero =
        strtok-end y (ys ++ (10 ∷ [])) (All-append IsPlain (y ∷ ys) (10 ∷ []) plain newline)
    whole (suc i) = strtok-end 32 ((spaces i ++ (y ∷ ys)) ++ (10 ∷ [])) (
        All-append IsPlain (spaces (suc i) ++ (y ∷ ys)) (10 ∷ [])
          (All-append IsPlain (spaces (suc i)) (y ∷ ys) (spaces-IsPlain (suc i)) plain) newline)

abbrev all_plain : List ℕ → Bool
all_plain [] = true
all_plain (c ∷ cs) = not (c == 0) && not (c == b'-') && all_plain cs

all_plain-IsPlain : (xs : List ℕ) → all_plain xs ≡ true → All IsPlain xs
all_plain-IsPlain [] h = tt
all_plain-IsPlain (c ∷ cs) h = (
  record { inside = ground (arith, h); no_dash = ground (arith, h) },
  all_plain-IsPlain cs (ground arith),
)

key_word :
    (e : Entry) (a : ℕ)
    → (rest : List ℕ) × (remove_white_spaces ((key e ++ spaces a) ++ (0 ∷ []))
        ≡ done (key e ++ (0 ∷ rest)))
key_word frequency a =
    remove_white_spaces-word b'f' (codes "requenc") b'y' a
      (all_plain-IsPlain (codes "frequency") refl) (omega arith) (omega arith)
key_word bandwidth a =
    remove_white_spaces-word b'b' (codes "andwidt") b'h' a
      (all_plain-IsPlain (codes "bandwidth") refl) (omega arith) (omega arith)
key_word program_number a =
    remove_white_spaces-word b'p' (codes "rogram_numbe") b'r' a
      (all_plain-IsPlain (codes "program_number") refl) (omega arith) (omega arith)

key_split :
    (e : Entry) (a : ℕ) (text : List ℕ)
    → strtok ((key e ++ spaces a) ++ (b'-' ∷ text)) ≡ some ((key e ++ spaces a) ++ (0 ∷ []), text)
key_split frequency a text = strtok-dash b'f' (codes "requency" ++ spaces a) text (
    All-append IsPlain (codes "frequency") (spaces a) (all_plain-IsPlain (codes "frequency") refl)
      (spaces-IsPlain a))
key_split bandwidth a text = strtok-dash b'b' (codes "andwidth" ++ spaces a) text (
    All-append IsPlain (codes "bandwidth") (spaces a) (all_plain-IsPlain (codes "bandwidth") refl)
      (spaces-IsPlain a))
key_split program_number a text = strtok-dash b'p' (codes "rogram_number" ++ spaces a) text (
    All-append IsPlain (codes "program_number") (spaces a)
      (all_plain-IsPlain (codes "program_number") refl) (spaces-IsPlain a))

pub chars-IsPlain : (l : List ℕ) → All (λ k. k < 10) l → All IsPlain (chars l)
chars-IsPlain [] h = tt
chars-IsPlain (x ∷ l) h =
    (record { inside = omega arith; no_dash = omega (arith, h.0) }, chars-IsPlain l h.1)

value-IsPlain :
    (b d : ℕ) (ds : List ℕ)
    → All (λ k. k < 10) (d ∷ ds)
    → All IsPlain (chars (d ∷ ds) ++ spaces (suc b))
value-IsPlain b d ds h =
    All-append IsPlain (chars (d ∷ ds)) (spaces (suc b)) (chars-IsPlain (d ∷ ds) h)
      (spaces-IsPlain (suc b))

module _ (platform : Platform) (info : InitialInfo) where
  load_entry-number :
      (e : Entry) (rest text : List ℕ) (n : ℕ)
      → next_number text ≡ done n
      → load_entry platform (key e ++ (0 ∷ rest)) text info ≡ done (sc_no_error, store e n info)
  unfolding load_entry same_text
  load_entry-number frequency rest text n found = rw found
  load_entry-number bandwidth rest text n found = rw found
  load_entry-number program_number rest text n found = rw found

  -- A line with a known key stores the number of its value.
  pub load_line-number :
      (e : Entry) (a i : ℕ) (value : List ℕ) (n : ℕ)
      → next_number (value_text i value ++ (0 ∷ [])) ≡ done n
      → load_line platform (entry_line e a i value) info ≡ done (sc_no_error, store e n info)
  unfolding load_line
  load_line-number e a i value n found =
      let (rest, trimmed) = key_word e a in
      let text = value_text i value ++ (0 ∷ []) in
      let whole : entry_line e a i value ++ (0 ∷ []) ≡ (key e ++ spaces a) ++ (b'-' ∷ text) =
        append_assoc (key e ++ spaces a) (b'-' ∷ value_text i value) (0 ∷ []) in
      ap (λ t. next_word t >>= λ (p : List ℕ × List ℕ). load_entry platform p.0 p.1 info) whole
      ∙ ap (λ m. m >>= λ (p : List ℕ × List ℕ). load_entry platform p.0 p.1 info)
          (next_word_lem _ _ text _ (key_split e a text) trimmed)
      ∙ load_entry-number e rest text n found

  -- A line of a known key, a dash, a number of at most 31 bits in decimal with one blank or more
  -- behind it, and the newline stores that number, whatever blanks stand elsewhere.
  pub load_line-decimal :
      (e : Entry) (a i b d : ℕ) (ds : List ℕ)
      → All (λ k. k < 10) (d ∷ ds)
      → decimal 0 (d ∷ ds) < 2147483648
      → load_line platform (entry_line e a i (chars (d ∷ ds) ++ spaces (suc b))) info
        ≡ done (sc_no_error, store e (decimal 0 (d ∷ ds)) info)
  load_line-decimal e a i b d ds ok fits =
      let ys = chars ds ++ spaces (suc b) in
      let (rest, found) =
        next_number-value i (48 + d) ys (value-IsPlain b d ds ok) (omega (arith, ok.0)) in
      load_line-number e a i (chars (d ∷ ds) ++ spaces (suc b)) (decimal 0 (d ∷ ds)) (
        found
        ∙ ap atoi (append_assoc (chars (d ∷ ds)) (spaces (suc b)) _)
        ∙ atoi-decimal d ds 32 _ ok (omega arith) fits)
