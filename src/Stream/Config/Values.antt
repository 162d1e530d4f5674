-- ===== src/Stream/Config/Values.antt =====
-- The value of a line of config.ini, between blanks and the newline (stream_controller.c).
use ppu_tvi_os.Common.{
  unequal, All-append, ℕ, ◌+◌, ◌-◌, ◌*◌, lt→ltb, ◌≤◌, ◌<◌, ◌≡◌, ◌≢◌, sym, ◌∙◌, ap, false, List, [],
  ◌∷◌, ◌++◌, append_assoc, length, length-append, get_or, get_or-append, drop, All, decimal, arith,
}
use native.Mathlib.Decide.{dec_lt}
use ppu_tvi_os.Common.Outcome.{done}
use ppu_tvi_os.Stream.Config.{remove_white_spaces}
use ppu_tvi_os.Stream.Config.Blanks.{IsPadded, IsTrimmed, remove_white_spaces-IsTrimmed}
use ppu_tvi_os.Stream.Config.Strings.{skip_spaces, signed_digits, digits, signed, atoi}
use ppu_tvi_os.Stream.Config.Lines.{
  IsPlain, All-get_or, get_or-append_left, begins, spaces, length-spaces, get_or-spaces,
  spaces-IsPlain,
}

-- `core` stands between `i` blanks and a newline.
module _ (i y : ℕ) (ys : List ℕ) (plain : All IsPlain (y ∷ ys)) (first_lem : y ≢ 32) where
  core : List ℕ
  core = y ∷ ys

  front : List ℕ
  front = spaces i ++ core

  body : List ℕ
  body = front ++ (10 ∷ [])

  buffer : List ℕ
  buffer = body ++ (0 ∷ [])

  length-front : length front ≡ i + length ys + 1
  unfolding front core
  length-front = omega (arith, length-append {0} (spaces i) (y ∷ ys), length-spaces i)

  length-body : length body ≡ i + length ys + 2
  unfolding body
  length-body = omega (arith, length-append {0} front (10 ∷ []), length-front)

  length-buffer : length buffer ≡ i + length ys + 3
  unfolding buffer
  length-buffer = omega (arith, length-append {0} body (0 ∷ []), length-body)

  IsPlain-body : All IsPlain body
  unfolding body front core
  IsPlain-body =
      All-append IsPlain (spaces i ++ (y ∷ ys)) (10 ∷ [])
        (All-append IsPlain (spaces i) (y ∷ ys) (spaces-IsPlain i) plain)
        (record { inside = omega arith; no_dash = omega arith }, tt)

  buffer_body : (n : ℕ) → n < i + length ys + 2 → get_or buffer n 0 ≡ get_or body n 0
  unfolding buffer
  buffer_body n lt = get_or-append_left body (0 ∷ []) n (omega (arith, length-body))

  buffer_front : (n : ℕ) → n < i + length ys + 1 → get_or buffer n 0 ≡ get_or front n 0
  unfolding body
  buffer_front n lt =
      buffer_body n (omega arith)
      ∙ get_or-append_left front (10 ∷ []) n (omega (arith, length-front))

  buffer_core : (n : ℕ) → n ≤ length ys → get_or buffer (n + i) 0 ≡ get_or (y ∷ ys) n 0
  unfolding front core
  buffer_core n le =
      buffer_front (n + i) (omega arith)
      ∙ ap (λ k. get_or (spaces i ++ (y ∷ ys)) k 0) (omega (arith, length-spaces i))
      ∙ get_or-append (spaces i) (y ∷ ys) n 0

  buffer_newline : get_or buffer (i + length ys + 1) 0 ≡ 10
  unfolding body
  buffer_newline =
      buffer_body (i + length ys + 1) (omega arith)
      ∙ ap (λ k. get_or (front ++ (10 ∷ [])) k 0) (omega (arith, length-front))
      ∙ get_or-append front (10 ∷ []) 0 0

  buffer-IsPadded : IsPadded buffer (i + length ys + 2) i (i + length ys + 1)
  unfolding buffer front
  buffer-IsPadded = record {
    room = omega (arith, length-buffer);
    terminated =
        ap (λ k. get_or (body ++ (0 ∷ [])) k 0) (omega (arith, length-body))
        ∙ get_or-append body (0 ∷ []) 0 0;
    inside = λ n lt.
        rw (buffer_body n lt) (All-get_or body n IsPlain-body (omega (arith, length-body))).inside;
    order = omega arith;
    within = omega arith;
    before = λ n lt.
        buffer_front n (omega arith)
        ∙ get_or-append_left (spaces i) core n (omega (arith, length-spaces i))
        ∙ get_or-spaces i n lt;
    first = λ e.
        first_lem
          (sym (buffer_core 0 (omega arith)) ∙ ap (λ k. get_or buffer k 0) (omega arith) ∙ e);
    last = omega (arith, buffer_newline);
    behind = λ n lo hi. absurd (omega arith);
  }

  -- The character that removeWhiteSpaces does not move.
  stale : ℕ
  stale = get_or buffer (length ys + 1) 0

  module _ (w : List ℕ) (t : IsTrimmed buffer i (i + length ys + 1) w) where
    trimmed :
        (n : ℕ)
        → n < length ((y ∷ ys) ++ (stale ∷ 0 ∷ []))
        → get_or w n 0 ≡ get_or ((y ∷ ys) ++ (stale ∷ 0 ∷ [])) n 0
    unfolding stale
    trimmed n lt = elim (dec_lt n (length ys + 1)) [
      | yes inside ↦
          t.moved n (omega arith)
          ∙ buffer_core n (omega arith)
          ∙ sym (get_or-append_left (y ∷ ys) (stale ∷ 0 ∷ []) n (omega arith))
      | no past ↦ elim (dec_lt n (length ys + 2)) [
        | yes at ↦
            ap (λ k. get_or w k 0) (omega arith)
            ∙ t.not_moved
            ∙ ap (λ k. get_or buffer k 0) (omega arith)
            ∙ sym (get_or-append (y ∷ ys) (stale ∷ 0 ∷ []) 0 0)
            ∙ ap (λ k. get_or ((y ∷ ys) ++ (stale ∷ 0 ∷ [])) k 0) (omega arith)
        | no later ↦
            ap (λ k. get_or w k 0) (omega (arith, length-append {0} (y ∷ ys) (stale ∷ 0 ∷ [])))
            ∙ t.ended
            ∙ sym (get_or-append (y ∷ ys) (stale ∷ 0 ∷ []) 1 0)
            ∙ ap (λ k. get_or ((y ∷ ys) ++ (stale ∷ 0 ∷ [])) k 0)
                (omega (arith, length-append {0} (y ∷ ys) (stale ∷ 0 ∷ [])))
      ]
    ]

    trimmed-begins : w ≡ (y ∷ ys) ++ (stale ∷ 0 ∷ drop (length ((y ∷ ys) ++ (stale ∷ 0 ∷ []))) w)
    trimmed-begins =
        begins ((y ∷ ys) ++ (stale ∷ 0 ∷ [])) w
          (omega (arith, t.size, length-buffer, length-append {0} (y ∷ ys) (stale ∷ 0 ∷ [])))
          trimmed
        ∙ append_assoc (y ∷ ys) (stale ∷ 0 ∷ []) _

  -- removeWhiteSpaces leaves the value, one character that is not moved, and a terminator.
  pub remove_white_spaces-value :
      (rest : List ℕ) × (remove_white_spaces (((spaces i ++ (y ∷ ys)) ++ (10 ∷ [])) ++ (0 ∷ []))
        ≡ done (
            (y ∷ ys)
            ++ (get_or (((spaces i ++ (y ∷ ys)) ++ (10 ∷ [])) ++ (0 ∷ [])) (length ys + 1) 0
                ∷ 0
                ∷ rest)))
  unfolding buffer body front core stale
  remove_white_spaces-value =
      let (w, ran, t) =
        remove_white_spaces-IsTrimmed buffer (i + length ys + 2) i (i + length ys + 1)
          buffer-IsPadded in
      (drop (length ((y ∷ ys) ++ (stale ∷ 0 ∷ []))) w, ran ∙ ap done (trimmed-begins w t))

-- The characters of digits.
abbrev pub chars : List ℕ → List ℕ
chars [] = []
chars (d ∷ ds) = (48 + d) ∷ chars ds

digits-decimal :
    (ds : List ℕ) (n c : ℕ) (t : List ℕ)
    → All (λ d. d < 10) ds
    → (c < 48)
    → digits n (chars ds ++ (c ∷ t)) ≡ decimal n ds
unfolding digits
digits-decimal [] n c t h stop = ground arith
digits-decimal (d ∷ ds) n c t h stop =
    let rest = digits-decimal ds (10 * n + d) c t h.1 stop in
    let e : 10 * n + (48 + d - 48) ≡ 10 * n + d = omega arith in rw (e, rest) (ground (arith, h.0))

skip_spaces-digit : (d : ℕ) (t : List ℕ) → d < 10 → skip_spaces ((48 + d) ∷ t) ≡ (48 + d) ∷ t
unfolding skip_spaces
skip_spaces-digit d t h = ground arith

signed_digits-digit :
    (d : ℕ) (t : List ℕ)
    → d < 10
    → signed_digits ((48 + d) ∷ t) ≡ signed false (digits 0 ((48 + d) ∷ t))
unfolding signed_digits
signed_digits-digit d t h =
    rw (unequal (48 + d) 45 (omega arith), unequal (48 + d) 43 (omega arith))

signed_small : (n : ℕ) → n < 2147483648 → signed false n ≡ done n
unfolding signed
signed_small n h = rw (lt→ltb n 2147483648 h)

-- atoi reads the digits up to a character below '0'.
pub atoi-decimal :
    (d : ℕ) (ds : List ℕ) (c : ℕ) (t : List ℕ)
    → All (λ k. k < 10) (d ∷ ds)
    → c < 48
    → decimal 0 (d ∷ ds) < 2147483648
    → atoi (chars (d ∷ ds) ++ (c ∷ t)) ≡ done (decimal 0 (d ∷ ds))
unfolding atoi
atoi-decimal d ds c t h stop fits =
    ap signed_digits (skip_spaces-digit d (chars ds ++ (c ∷ t)) h.0)
    ∙ signed_digits-digit d (chars ds ++ (c ∷ t)) h.0
    ∙ ap (signed false) (digits-decimal (d ∷ ds) 0 c t h stop)
    ∙ signed_small (decimal 0 (d ∷ ds)) fits
