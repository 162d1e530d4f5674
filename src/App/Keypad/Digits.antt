-- ===== src/App/Keypad/Digits.antt =====
-- Which channel number a sequence of digit keys stands for (tv_app.c).
use ppu_tvi_os.Common.{
  decimal, ℕ, ◌*◌, ◌≤◌, ◌≡◌, refl, ◌∙◌, ap, Bool, true, List, [], ◌∷◌, ◌++◌, arith, length, set,
  length-set,
}
use ppu_tvi_os.Common.Outcome.{done}
use ppu_tvi_os.App.Keypad.{Keypad, empty_keypad, input_channel_number, typed_channel, clear_keys}

abbrev pub type_all : List ℕ → Keypad → Keypad
type_all [] k = k
type_all (d ∷ ds) k = type_all ds (input_channel_number d k)

-- One to three digits, typed before the timer runs out, are read as the decimal number that they
-- write.
pub typed_channel-decimal :
    (timer : Bool) (digits : List ℕ)
    → 1 ≤ length digits
    → length digits ≤ 3
    → typed_channel (type_all digits (empty_keypad timer)) ≡ done (decimal 0 digits)
unfolding typed_channel input_channel_number empty_keypad
typed_channel-decimal timer [] lo hi = absurd (omega arith)
typed_channel-decimal timer (a ∷ []) lo hi = ground arith
typed_channel-decimal timer (a ∷ b ∷ []) lo hi = ground arith
typed_channel-decimal timer (a ∷ b ∷ d ∷ []) lo hi = ground arith
typed_channel-decimal timer (a ∷ b ∷ d ∷ e ∷ ds) lo hi = absurd (omega arith)

-- A keypad on which three keys or more have been typed.
abbrev full : Bool → ℕ → ℕ → ℕ → Keypad
full timer x y z = record { keys_pressed = 3; keys = x ∷ y ∷ z ∷ []; timer_set = timer }

full_more :
    (ds : List ℕ) (timer : Bool) (x y z d : ℕ)
    → type_all (ds ++ (d ∷ [])) (full timer x y z) ≡ full true d 0 0
unfolding input_channel_number
full_more [] timer x y z d = refl
full_more (e ∷ ds) timer x y z d = full_more ds true e 0 0 d

-- From the fourth digit on the number is a hundred times the last digit: the keys restart at the
-- first place, but their count stays at three.
pub typed_channel_restarts :
    (timer : Bool) (a b c : ℕ) (ds : List ℕ) (d : ℕ)
    → typed_channel (type_all (a ∷ b ∷ c ∷ (ds ++ (d ∷ []))) (empty_keypad timer)) ≡ done (100 * d)
unfolding typed_channel input_channel_number empty_keypad
typed_channel_restarts timer a b c ds d =
    ap typed_channel (full_more ds true a b c d) ∙ ap done (omega arith)

length_keys :
    (digits : List ℕ) (k : Keypad) → length k.keys ≡ 3 → length (type_all digits k).keys ≡ 3
unfolding input_channel_number
length_keys [] k h = h
length_keys (d ∷ ds) k h = length_keys ds (input_channel_number d k) (one k h)
  where
    one : (k : Keypad) → length k.keys ≡ 3 → length (input_channel_number d k).keys ≡ 3
    one k h = ground (
      arith,
      length-set k.keys 0 d,
      length-set k.keys 1 d,
      length-set k.keys 2 d,
      length-set (set k.keys 0 d) 1 0,
      length-set (set (set k.keys 0 d) 1 0) 2 0,
    )

three_zeros : (l : List ℕ) → length l ≡ 3 → set (set (set l 0 0) 1 0) 2 0 ≡ 0 ∷ 0 ∷ 0 ∷ []
three_zeros [] h = absurd (omega arith)
three_zeros (x ∷ []) h = absurd (omega arith)
three_zeros (x ∷ y ∷ []) h = absurd (omega arith)
three_zeros (x ∷ y ∷ z ∷ []) h = refl
three_zeros (x ∷ y ∷ z ∷ w ∷ l) h = absurd (omega arith)

-- Whatever was typed, the timer leaves the keypad of the start, so the next number is read as if it
-- were the first.
pub clear_keys-type_all :
    (timer : Bool) (digits : List ℕ)
    → clear_keys (type_all digits (empty_keypad timer))
      ≡ empty_keypad (type_all digits (empty_keypad timer)).timer_set
unfolding clear_keys empty_keypad
clear_keys-type_all timer digits =
    let k = type_all digits (empty_keypad timer) in
    ap (λ l. record { keys_pressed = 0; keys = l; timer_set = k.timer_set })
      (three_zeros k.keys (length_keys digits (empty_keypad timer) refl))
