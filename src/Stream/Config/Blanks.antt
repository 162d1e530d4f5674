-- ===== src/Stream/Config/Blanks.antt =====
-- What removeWhiteSpaces makes of a word with blanks around it (stream_controller.c).
use ppu_tvi_os.Common.{
  ℕ, zero, suc, ◌+◌, ◌-◌, ◌≤◌, ◌<◌, ◌≡◌, ◌≢◌, refl, ◌∙◌, ◌==◌, if◌then◌else◌, List, [], ◌∷◌, set,
  get_or, length, length-set, arith,
}
use native.Mathlib.Decide.{dec_lt}
use ppu_tvi_os.Common.Outcome.{done, element-done, Returns}
use ppu_tvi_os.Stream.Config.{
  string_length, leading_blanks, last_position, shift_loop, remove_white_spaces,
}

-- A word of `len` characters in a buffer, whose characters that are no blanks begin at `i` and end
-- at `k`.
pub record IsPadded (word : List ℕ) (len i k : ℕ) : Type 0 where
  pub room : len < length word
  pub terminated : get_or word len 0 ≡ 0
  pub inside : (n : ℕ) → n < len → get_or word n 0 ≢ 0
  pub order : i ≤ k
  pub within : k < len
  pub before : (n : ℕ) → n < i → get_or word n 0 ≡ 32
  pub first : get_or word i 0 ≢ 32
  pub last : get_or word k 0 ≢ 32
  pub behind : (n : ℕ) → k < n → n < len → get_or word n 0 ≡ 32

string_length-done :
    (word : List ℕ) (len : ℕ)
    → len < length word
    → get_or word len 0 ≡ 0
    → ((n : ℕ) → n < len → get_or word n 0 ≢ 0)
    → string_length word ≡ done len
unfolding string_length
string_length-done [] len room z h = absurd (omega arith)
string_length-done (c ∷ cs) zero room z h = ground arith
string_length-done (c ∷ cs) (suc len) room z h =
    let rest = string_length-done cs len (omega arith) z (λ n lt. h (suc n) (omega arith)) in
    let ne : c ≢ 0 = h 0 (omega arith) in rw rest (ground arith)

leading_blanks-done :
    (word : List ℕ) (i : ℕ)
    → i < length word
    → get_or word i 0 ≢ 32
    → ((n : ℕ) → n < i → get_or word n 0 ≡ 32)
    → leading_blanks word ≡ done i
unfolding leading_blanks
leading_blanks-done [] i room z h = absurd (omega arith)
leading_blanks-done (c ∷ cs) zero room z h = ground arith
leading_blanks-done (c ∷ cs) (suc i) room z h =
    let rest = leading_blanks-done cs i (omega arith) z (λ n lt. h (suc n) (omega arith)) in
    let blank : c ≡ 32 = h 0 (omega arith) in rw (rest, blank)

last_position-done :
    (word : List ℕ) (n k : ℕ)
    → k < n
    → n ≤ length word
    → get_or word k 0 ≢ 32
    → ((m : ℕ) → k < m → m < n → get_or word m 0 ≡ 32)
    → last_position word n ≡ done k
unfolding last_position
last_position-done word zero k lt room z h = absurd (omega arith)
last_position-done word (suc n) k lt room z h = elim (dec_lt k n) [
  | yes more ↦
      let rest = last_position-done word n k more (omega arith) z (λ m a b. h m a (omega arith)) in
      let blank = h n more (omega arith) in
      rw (element-done word n 0 (omega arith), rest) (ground arith)
  | no over ↦
      let e : k ≡ n = omega arith in
      rw (element-done word n 0 (omega arith), e) (found (rw (← e) z))
]
  where
    found :
        get_or word n 0 ≢ 32
        → (if get_or word n 0 == 32 then last_position word n else done n) ≡ done n
    found ne = ground arith

get_or-set_self : (word : List ℕ) (j v : ℕ) → j < length word → get_or (set word j v) j 0 ≡ v
get_or-set_self [] j v lt = absurd (omega arith)
get_or-set_self (c ∷ cs) zero v lt = refl
get_or-set_self (c ∷ cs) (suc j) v lt = get_or-set_self cs j v (omega arith)

get_or-set_other : (word : List ℕ) (j n v : ℕ) → n ≢ j → get_or (set word j v) n 0 ≡ get_or word n 0
get_or-set_other [] j n v ne = refl
get_or-set_other (c ∷ cs) zero zero v ne = absurd (ne refl)
get_or-set_other (c ∷ cs) zero (suc n) v ne = refl
get_or-set_other (c ∷ cs) (suc j) zero v ne = refl
get_or-set_other (c ∷ cs) (suc j) (suc n) v ne = get_or-set_other cs j n v (omega arith)

-- The characters from `j` on, `left` of them, come from `i` places further on.
record IsShifted (left j i : ℕ) (word w : List ℕ) : Type 0 where
  size : length w ≡ length word
  moved : (n : ℕ) → j ≤ n → n < j + left → get_or w n 0 ≡ get_or word (n + i) 0
  kept_before : (n : ℕ) → n < j → get_or w n 0 ≡ get_or word n 0
  kept_behind : (n : ℕ) → j + left ≤ n → get_or w n 0 ≡ get_or word n 0

shift_loop-Returns :
    (left j i : ℕ) (word : List ℕ)
    → j + i + left ≤ length word
    → Returns (shift_loop left j i word) (IsShifted left j i word)
unfolding shift_loop
shift_loop-Returns zero j i word room = (
  word,
  refl,
  record {
    size = refl;
    moved = λ n a b. absurd (omega arith);
    kept_before = λ n a. refl;
    kept_behind = λ n a. refl;
  },
)
shift_loop-Returns (suc left) j i word room =
    let c = get_or word (j + i) 0 in
    let w1 = set word j c in
    let size1 = length-set word j c in
    let (w, ran, v) = shift_loop-Returns left (j + 1) i w1 (omega (arith, size1)) in
    (
      w,
      rw (element-done word (j + i) 0 (omega arith)) ran,
      record {
        size = omega (arith, v.size, size1);
        moved = λ n a b. elim (dec_lt j n) [
          | yes more ↦
              v.moved n (omega arith) (omega arith)
              ∙ get_or-set_other word j (n + i) c (omega arith)
          | no last ↦
              let e : n ≡ j = omega arith in
              rw e (v.kept_before j (omega arith) ∙ get_or-set_self word j c (omega arith))
        ];
        kept_before =
            λ n a. v.kept_before n (omega arith) ∙ get_or-set_other word j n c (omega arith);
        kept_behind =
            λ n a. v.kept_behind n (omega arith) ∙ get_or-set_other word j n c (omega arith);
      },
    )

-- What is left of a word: it ends where it should, and all but its last character are those that
-- stood between the blanks; the last one is what stood at its place before.
pub record IsTrimmed (word : List ℕ) (i k : ℕ) (w : List ℕ) : Type 0 where
  pub size : length w ≡ length word
  pub moved : (n : ℕ) → n < k - i → get_or w n 0 ≡ get_or word (n + i) 0
  pub not_moved : get_or w (k - i) 0 ≡ get_or word (k - i) 0
  pub ended : get_or w (k - i + 1) 0 ≡ 0

-- A word with a character that is no blank, in a buffer with its terminator, is trimmed without a
-- fault. The result has as many characters as it should, and all but the last are right; the last
-- one is not moved to the front, so it is right only if there were no blanks in front or the same
-- character stands there.
pub remove_white_spaces-IsTrimmed :
    (word : List ℕ) (len i k : ℕ)
    → IsPadded word len i k
    → Returns (remove_white_spaces word) (IsTrimmed word i k)
unfolding remove_white_spaces
remove_white_spaces-IsTrimmed word len i k v =
    let (w, ran, s) =
      shift_loop-Returns (k - i) 0 i word (omega (arith, v.room, v.order, v.within)) in
    (
      set w (k - i + 1) 0,
      rw (
        string_length-done word len v.room v.terminated v.inside,
        leading_blanks-done word i (omega (arith, v.room, v.order, v.within)) v.first v.before,
        last_position-done word len k v.within (omega (arith, v.room)) v.last v.behind,
        ran,
        element-done w (k - i + 1) 0 (omega (arith, s.size, v.room, v.order, v.within)),
      ),
      record {
        size = omega (arith, s.size, length-set w (k - i + 1) 0);
        moved = λ n a.
            get_or-set_other w (k - i + 1) n 0 (omega arith)
            ∙ s.moved n (omega arith) (omega arith);
        not_moved =
            get_or-set_other w (k - i + 1) (k - i) 0 (omega arith)
            ∙ s.kept_behind (k - i) (omega arith);
        ended = get_or-set_self w (k - i + 1) 0 (omega (arith, s.size, v.room, v.order, v.within));
      },
    )
