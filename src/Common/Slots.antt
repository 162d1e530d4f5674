-- ===== src/Common/Slots.antt =====
-- Filling an array of fixed size from a position on: what the parsers do with their tables.
use Prim.Native.Nat.{ℕ, suc, ◌≤◌}
use mathlib.Core.Path.{◌≡◌, refl, ap, ◌∙◌}
use mathlib.Core.List.{List, [], ◌∷◌, ◌++◌}
use native.Mathlib.Omega.{arith}
use ppu_tvi_os.Common.Lists.{length, drop, set, length-set}

module _ {ℓ} {A : Type ℓ} where
  -- The values stand at `n`, `n + 1` and so on.
  abbrev pub fill : List A → ℕ → List A → List A
  fill array n [] = array
  fill array n (x ∷ xs) = fill (set array n x) (suc n) xs

  pub length-fill : (array : List A) (n : ℕ) (xs : List A) → length (fill array n xs) ≡ length array
  length-fill array n [] = refl
  length-fill array n (x ∷ xs) = length-fill (set array n x) (suc n) xs ∙ length-set array n x

  fill-cons :
      (y : A) (ys : List A) (n : ℕ) (xs : List A) → fill (y ∷ ys) (suc n) xs ≡ y ∷ fill ys n xs
  fill-cons y ys n [] = refl
  fill-cons y ys n (x ∷ xs) = fill-cons y (set ys n x) (suc n) xs

  -- From the start of an array with room: the values, then what stood behind them.
  pub fill_start :
      (array xs : List A)
      → length xs ≤ length array
      → fill array 0 xs ≡ xs ++ drop (length xs) array
  fill_start array [] room = refl
  fill_start [] (x ∷ xs) room = absurd (omega arith)
  fill_start (a ∷ array) (x ∷ xs) room =
      fill-cons x array 0 xs ∙ ap (◌∷◌ x) (fill_start array xs (omega arith))
