-- ===== src/Stream/Config/LastDigit.antt =====
-- A line of config.ini without a blank behind its number (removeWhiteSpaces and loadConfigFile of
-- stream_controller.c).
use ppu_tvi_os.Common.{
  ℕ, suc, ◌+◌, ◌<◌, ◌≡◌, refl, ◌∙◌, ap, List, [], ◌∷◌, ◌++◌, length, get_or, All, decimal, arith,
}
use ppu_tvi_os.Common.Outcome.{done}
use ppu_tvi_os.Stream.Platform.{Platform, InitialInfo}
use ppu_tvi_os.Stream.State.{sc_no_error}
use ppu_tvi_os.Stream.Config.Strings.{atoi}
use ppu_tvi_os.Stream.Config.Values.{chars, atoi-decimal}
use ppu_tvi_os.Stream.Config.Load.{load_line}
use ppu_tvi_os.Stream.Config.Entries.{
  Entry, store, entry_line, value_text, next_number-value, chars-IsPlain, load_line-number,
}

twice_one :
    (l : List ℕ) (z : ℕ) → All (λ k. k < 10) (l ++ (z ∷ z ∷ [])) → All (λ k. k < 10) (l ++ (z ∷ []))
twice_one [] z h = (h.0, tt)
twice_one (x ∷ l) z h = (h.0, twice_one l z h.1)

chars_twice :
    (l : List ℕ) (z : ℕ) (t : List ℕ)
    → chars (l ++ (z ∷ [])) ++ ((48 + z) ∷ t) ≡ chars (l ++ (z ∷ z ∷ [])) ++ t
chars_twice [] z t = refl
chars_twice (x ∷ l) z t = ap (◌∷◌ (48 + x)) (chars_twice l z t)

last_digit :
    (l : List ℕ) (c z : ℕ) (t u : List ℕ)
    → get_or (c ∷ ((chars (l ++ (z ∷ [])) ++ t) ++ u)) (length (chars (l ++ (z ∷ [])))) 0 ≡ 48 + z
last_digit [] c z t u = refl
last_digit (x ∷ l) c z t u = last_digit l (48 + x) z t u

-- The character that stands where the number's last digit will stand, before it is moved.
stale_digit :
    (x : ℕ) (l : List ℕ) (z : ℕ)
    → get_or
        (value_text 1 (chars (x ∷ (l ++ (z ∷ [])))) ++ (0 ∷ []))
        (length (chars (l ++ (z ∷ []))) + 1)
        0
      ≡ 48 + z
stale_digit x l z =
    let next : length (chars (l ++ (z ∷ []))) + 1 ≡ suc (length (chars (l ++ (z ∷ [])))) =
      omega arith in
    ap (λ k. get_or (value_text 1 (chars (x ∷ (l ++ (z ∷ [])))) ++ (0 ∷ [])) k 0) next
    ∙ last_digit l (48 + x) z (10 ∷ []) (0 ∷ [])

module _ (platform : Platform) (info : InitialInfo) where
  -- With one blank in front of the number and none behind it, the last digit of the number is read
  -- twice, as long as what is read fits 31 bits.
  pub load_line-last_digit :
      (e : Entry) (a : ℕ) (front : List ℕ) (z : ℕ)
      → All (λ k. k < 10) (front ++ (z ∷ z ∷ []))
      → decimal 0 (front ++ (z ∷ z ∷ [])) < 2147483648
      → load_line platform (entry_line e a 1 (chars (front ++ (z ∷ [])))) info
        ≡ done (sc_no_error, store e (decimal 0 (front ++ (z ∷ z ∷ []))) info)
  load_line-last_digit e a [] z ok fits =
      let (rest, found) =
        next_number-value 1 (48 + z) [] (chars-IsPlain (z ∷ []) (ok.0, tt)) (omega (arith, ok.0)) in
      load_line-number platform info e a 1 (chars (z ∷ [])) (decimal 0 (z ∷ z ∷ []))
        (found ∙ atoi-decimal z (z ∷ []) 0 rest ok (omega arith) fits)
  load_line-last_digit e a (d ∷ ds) z ok fits =
      let ys = chars (ds ++ (z ∷ [])) in
      let (rest, found) =
        next_number-value 1 (48 + d) ys
          (chars-IsPlain (d ∷ (ds ++ (z ∷ []))) (twice_one (d ∷ ds) z ok)) (omega (arith, ok.0)) in
      load_line-number platform info e a 1 (chars ((d ∷ ds) ++ (z ∷ [])))
        (decimal 0 ((d ∷ ds) ++ (z ∷ z ∷ [])))
        (found
          ∙ ap (λ c. atoi (((48 + d) ∷ ys) ++ (c ∷ 0 ∷ rest))) (stale_digit d ds z)
          ∙ ap atoi (chars_twice (d ∷ ds) z (0 ∷ rest))
          ∙ atoi-decimal d (ds ++ (z ∷ z ∷ [])) 0 rest ok (omega arith) fits)
