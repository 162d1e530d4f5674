-- ===== src/Tables/Print/Rows.antt =====
-- Printing what has been parsed (tables_parser.c).
use ppu_tvi_os.Common.{
  ℕ, zero, suc, ◌+◌, ◌≤◌, ◌≡◌, refl, ap, ◌∙◌, sym, List, [], ◌∷◌, ◌++◌, arith, length, take, drop,
  All,
}
use ppu_tvi_os.Common.Outcome.{Outcome, done, ◌>>=◌, element, element-All}
use ppu_tvi_os.Tables.Print.{Line, print_rows}

-- One element's lines after the other's, with their positions from `i` on.
abbrev pub numbered {ℓ} : {A : Type ℓ} → (ℕ → A → List Line) → ℕ → List A → List Line
numbered lines i [] = []
numbered lines i (x ∷ xs) = lines i x ++ numbered lines (suc i) xs

-- Without the positions.
abbrev pub all_lines {ℓ} : {A : Type ℓ} → (A → List Line) → List A → List Line
all_lines lines = numbered (λ i. lines) 0

-- The elements of an array between two positions.
abbrev from_to {ℓ} : {A : Type ℓ} → List A → ℕ → ℕ → List A
from_to xs i left = take left (drop i xs)

from_to-element {ℓ} :
    {A : Type ℓ} (xs : List A) (i left : ℕ)
    → i + suc left ≤ length xs
    → (x : A) × (element xs i ≡ done x) × (from_to xs i (suc left) ≡ x ∷ from_to xs (suc i) left)
from_to-element [] i left h = absurd (omega arith)
from_to-element (x ∷ xs) zero left h = (x, refl, refl)
from_to-element (x ∷ xs) (suc i) left h = from_to-element xs i left (omega arith)

-- Rows that each print their lines when the element has a property.
pub print_rows-numbered {ℓ κ} :
    {A : Type ℓ} (P : A → Type κ) (row : ℕ → A → Outcome (List Line)) (lines : ℕ → A → List Line)
    → ((i : ℕ) (x : A) → P x → row i x ≡ done (lines i x))
    → (left i : ℕ) (xs : List A) → All P xs
    → i + left ≤ length xs
    → print_rows row left i xs ≡ done (numbered lines i (from_to xs i left))
unfolding print_rows
print_rows-numbered P row lines each zero i xs all h = refl
print_rows-numbered P row lines each (suc left) i xs all h =
    let (x, found, split) = from_to-element xs i left h in
    let rest = print_rows-numbered P row lines each left (suc i) xs all (omega arith) in
    ap
      (λ m.
        m >>= λ x. row i x >>= λ ls. print_rows row left (suc i) xs >>= λ rest. done (ls ++ rest))
      found
    ∙ ap (λ m. m >>= λ ls. print_rows row left (suc i) xs >>= λ rest. done (ls ++ rest))
        (each i x (element-All P xs i all found))
    ∙ ap (λ m. m >>= λ rest. done (lines i x ++ rest)) rest
    ∙ ap (λ ys. done (numbered lines i ys)) (sym split)

-- Any elements will do.
pub All-any {ℓ} : {A : Type ℓ} (xs : List A) → All {ℓ, 0} (λ x. Unit) xs
All-any [] = tt
All-any (x ∷ xs) = (tt, All-any xs)

pub print_rows-all_lines {ℓ} :
    {A : Type ℓ} (lines : A → List Line) (left : ℕ) (xs : List A)
    → left ≤ length xs
    → print_rows (λ i x. done (lines x)) left 0 xs ≡ done (all_lines lines (take left xs))
print_rows-all_lines lines left xs h =
    print_rows-numbered (λ x. Unit) (λ i x. done (lines x)) (λ i. lines) (λ i x u. refl) left 0 xs
      (All-any xs) (omega arith)
