-- ===== src/Stream/Config/Lines.antt =====
-- The words of a line of config.ini, between blanks (stream_controller.c).
use ppu_tvi_os.Common.{
  unequal, All-append, ℕ, zero, suc, ◌+◌, ◌-◌, ◌≤◌, ◌<◌, ◌≡◌, ◌≢◌, refl, sym, ◌∙◌, ap, ap₂, List,
  [], ◌∷◌, ◌++◌, append_assoc, some, length, length-append, get_or, get_or-append, drop, replicate,
  All, arith,
}
use native.Mathlib.Decide.{dec_lt}
use ppu_tvi_os.Common.Outcome.{done}
use ppu_tvi_os.Stream.Config.{remove_white_spaces}
use ppu_tvi_os.Stream.Config.Blanks.{IsPadded, IsTrimmed, remove_white_spaces-IsTrimmed}
use ppu_tvi_os.Stream.Config.Strings.{strtok, skip_dashes, some_token, split_token}

-- Neither a terminator nor the delimiter.
pub record IsPlain (c : ℕ) : Type 0 where
  pub inside : c ≢ 0
  pub no_dash : c ≢ b'-'

pub All-get_or : (xs : List ℕ) (n : ℕ) → All IsPlain xs → n < length xs → IsPlain (get_or xs n 0)
All-get_or [] n h lt = absurd (omega arith)
All-get_or (x ∷ xs) zero h lt = h.0
All-get_or (x ∷ xs) (suc n) h lt = All-get_or xs n h.1 (omega arith)

pub get_or-append_left :
    (xs ys : List ℕ) (n : ℕ) → n < length xs → get_or (xs ++ ys) n 0 ≡ get_or xs n 0
get_or-append_left [] ys n lt = absurd (omega arith)
get_or-append_left (x ∷ xs) ys zero lt = refl
get_or-append_left (x ∷ xs) ys (suc n) lt = get_or-append_left xs ys n (omega arith)

-- A list that begins with another.
pub begins :
    (xs w : List ℕ)
    → length xs ≤ length w
    → ((n : ℕ) → n < length xs → get_or w n 0 ≡ get_or xs n 0)
    → w ≡ xs ++ drop (length xs) w
begins [] w room h = refl
begins (x ∷ xs) [] room h = absurd (omega arith)
begins (x ∷ xs) (c ∷ w) room h =
    ap₂ ◌∷◌ (h 0 (omega arith)) (begins xs w (omega arith) (λ n lt. h (suc n) (omega arith)))

abbrev pub spaces : ℕ → List ℕ
spaces n = replicate n 32

pub length-spaces : (n : ℕ) → length (spaces n) ≡ n
length-spaces zero = refl
length-spaces (suc n) = ap suc (length-spaces n)

pub get_or-spaces : (n k : ℕ) → k < n → get_or (spaces n) k 0 ≡ 32
get_or-spaces zero k lt = absurd (omega arith)
get_or-spaces (suc n) zero lt = refl
get_or-spaces (suc n) (suc k) lt = get_or-spaces n k (omega arith)

pub spaces-IsPlain : (n : ℕ) → All IsPlain (spaces n)
spaces-IsPlain zero = tt
spaces-IsPlain (suc n) = (record { inside = omega arith; no_dash = omega arith }, spaces-IsPlain n)

-- A token ends at a dash, or at the terminator.
split_token-dash :
    (xs rest : List ℕ) → All IsPlain xs → split_token (xs ++ (b'-' ∷ rest)) ≡ (xs ++ (0 ∷ []), rest)
unfolding split_token
split_token-dash [] rest h = refl
split_token-dash (x ∷ xs) rest h =
    rw (split_token-dash xs rest h.1) (ground (arith, h.0.inside, h.0.no_dash))

split_token-end :
    (xs : List ℕ) → All IsPlain xs → split_token (xs ++ (0 ∷ [])) ≡ (xs ++ (0 ∷ []), 0 ∷ [])
unfolding split_token
split_token-end [] h = refl
split_token-end (x ∷ xs) h = rw (split_token-end xs h.1) (ground (arith, h.0.inside, h.0.no_dash))

skip_dashes-plain : (x : ℕ) (t : List ℕ) → IsPlain x → skip_dashes (x ∷ t) ≡ x ∷ t
unfolding skip_dashes
skip_dashes-plain x t h = rw (unequal x b'-' h.no_dash)

some_token-plain :
    (x : ℕ) (t : List ℕ) → IsPlain x → some_token (x ∷ t) ≡ some (split_token (x ∷ t))
unfolding some_token
some_token-plain x t h = rw (unequal x 0 h.inside)

strtok-plain : (x : ℕ) (t : List ℕ) → IsPlain x → strtok (x ∷ t) ≡ some (split_token (x ∷ t))
unfolding strtok
strtok-plain x t h = ap some_token (skip_dashes-plain x t h) ∙ some_token-plain x t h

pub strtok-dash :
    (x : ℕ) (xs rest : List ℕ)
    → All IsPlain (x ∷ xs)
    → strtok ((x ∷ xs) ++ (b'-' ∷ rest)) ≡ some ((x ∷ xs) ++ (0 ∷ []), rest)
strtok-dash x xs rest h =
    strtok-plain x (xs ++ (b'-' ∷ rest)) h.0 ∙ ap some (split_token-dash (x ∷ xs) rest h)

pub strtok-end :
    (x : ℕ) (xs : List ℕ)
    → All IsPlain (x ∷ xs)
    → strtok ((x ∷ xs) ++ (0 ∷ [])) ≡ some ((x ∷ xs) ++ (0 ∷ []), 0 ∷ [])
strtok-end x xs h = strtok-plain x (xs ++ (0 ∷ [])) h.0 ∙ ap some (split_token-end (x ∷ xs) h)

-- A word and blanks behind it: the blanks go.
module _ (x : ℕ) (xs : List ℕ) (last a : ℕ) (plain : All IsPlain ((x ∷ xs) ++ (last ∷ [])))
    (first_lem : x ≢ 32) (last_lem : last ≢ 32) where
  word : List ℕ
  word = (x ∷ xs) ++ (last ∷ [])

  padded : List ℕ
  padded = (word ++ spaces a) ++ (0 ∷ [])

  length-word : length word ≡ length xs + 2
  unfolding word
  length-word = omega (arith, length-append {0} (x ∷ xs) (last ∷ []))

  length-padded : length padded ≡ length xs + 2 + a + 1
  unfolding padded
  length-padded = omega (
    arith,
    length-append {0} (word ++ spaces a) (0 ∷ []),
    length-append {0} word (spaces a),
    length-word,
    length-spaces a,
  )

  padded_word : (n : ℕ) → n < length xs + 2 → get_or padded n 0 ≡ get_or word n 0
  unfolding padded
  padded_word n lt =
      get_or-append_left (word ++ spaces a) (0 ∷ []) n
        (omega (arith, length-append {0} word (spaces a), length-word))
      ∙ get_or-append_left word (spaces a) n (omega (arith, length-word))

  padded_blank : (n : ℕ) → length xs + 2 ≤ n → n < length xs + 2 + a → get_or padded n 0 ≡ 32
  unfolding padded
  padded_blank n lo hi =
      get_or-append_left (word ++ spaces a) (0 ∷ []) n
        (omega (arith, length-append {0} word (spaces a), length-word, length-spaces a))
      ∙ ap (λ k. get_or (word ++ spaces a) k 0) (omega (arith, length-word))
      ∙ get_or-append word (spaces a) (n - (length xs + 2)) 0
      ∙ get_or-spaces a (n - (length xs + 2)) (omega arith)

  length-front : length (word ++ spaces a) ≡ length xs + 2 + a
  length-front = omega (arith, length-append {0} word (spaces a), length-word, length-spaces a)

  padded_front : (n : ℕ) → n < length xs + 2 + a → get_or padded n 0 ≡ get_or (word ++ spaces a) n 0
  unfolding padded
  padded_front n lt = get_or-append_left (word ++ spaces a) (0 ∷ []) n (omega (arith, length-front))

  ends : get_or word (length xs + 1) 0 ≡ last
  unfolding word
  ends = ap (λ k. get_or word k 0) (omega arith) ∙ get_or-append (x ∷ xs) (last ∷ []) 0 0

  padded-IsPadded : IsPadded padded (length xs + 2 + a) 0 (length xs + 1)
  unfolding padded word
  padded-IsPadded = record {
    room = omega (arith, length-padded);
    terminated =
        ap (λ k. get_or padded k 0)
          (omega (arith, length-append {0} word (spaces a), length-word, length-spaces a))
        ∙ get_or-append (word ++ spaces a) (0 ∷ []) 0 0;
    inside = λ n lt.
        rw (padded_front n lt)
          (All-get_or (word ++ spaces a) n
            (All-append IsPlain word (spaces a) plain (spaces-IsPlain a))
            (omega (arith, length-front))).inside;
    order = omega arith;
    within = omega arith;
    before = λ n lt. absurd (omega arith);
    first = rw (padded_word 0 (omega arith)) first_lem;
    last = rw (padded_word (length xs + 1) (omega arith), ends) last_lem;
    behind = λ n lo hi. padded_blank n (omega arith) hi;
  }

  module _ (w : List ℕ) (t : IsTrimmed padded 0 (length xs + 1) w) where
    trimmed_word : (n : ℕ) → n < length xs + 2 → get_or w n 0 ≡ get_or word n 0
    trimmed_word n lt = elim (dec_lt n (length xs + 1)) [
      | yes more ↦
          t.moved n (omega arith) ∙ ap (λ k. get_or padded k 0) (omega arith) ∙ padded_word n lt
      | no last_place ↦
          ap (λ k. get_or w k 0) (omega arith)
          ∙ t.not_moved
          ∙ ap (λ k. get_or padded k 0) (omega arith)
          ∙ padded_word n lt
    ]

    trimmed : (n : ℕ) → n < length (word ++ (0 ∷ [])) → get_or w n 0 ≡ get_or (word ++ (0 ∷ [])) n 0
    trimmed n lt = elim (dec_lt n (length xs + 2)) [
      | yes inside ↦
          trimmed_word n inside
          ∙ sym (get_or-append_left word (0 ∷ []) n (omega (arith, length-word)))
      | no at_end ↦
          ap (λ k. get_or w k 0) (omega (arith, length-append {0} word (0 ∷ []), length-word))
          ∙ t.ended
          ∙ sym (get_or-append word (0 ∷ []) 0 0)
          ∙ ap (λ k. get_or (word ++ (0 ∷ [])) k 0)
              (omega (arith, length-append {0} word (0 ∷ []), length-word))
    ]

    trimmed-begins : w ≡ word ++ (0 ∷ drop (length (word ++ (0 ∷ []))) w)
    trimmed-begins =
        begins (word ++ (0 ∷ [])) w
          (omega (arith, t.size, length-padded, length-append {0} word (0 ∷ []), length-word))
          trimmed
        ∙ append_assoc word (0 ∷ []) _

  -- removeWhiteSpaces leaves the word and its terminator.
  pub remove_white_spaces-word :
      (rest : List ℕ) × (remove_white_spaces ((((x ∷ xs) ++ (last ∷ [])) ++ spaces a) ++ (0 ∷ []))
        ≡ done (((x ∷ xs) ++ (last ∷ [])) ++ (0 ∷ rest)))
  unfolding padded word
  remove_white_spaces-word =
      let (w, ran, t) =
        remove_white_spaces-IsTrimmed padded (length xs + 2 + a) 0 (length xs + 1)
          padded-IsPadded in
      (drop (length (word ++ (0 ∷ []))) w, ran ∙ ap done (trimmed-begins w t))
