-- ===== src/Common/Outcome.antt =====
-- The result of running C code, and reading memory through a pointer.
-- `fault` is an access outside the object that a pointer points into (undefined behaviour in C);
-- `out_of_fuel` is a loop that has not ended within the rounds it was given.
use Prim.Native.Nat.{ℕ, zero, suc, ◌+◌, ◌<◌, ◌≤◌}
use mathlib.Core.Path.{◌≡◌, refl, ap, ◌∙◌, subst}
use mathlib.Core.Logic.{◌≢◌}
use native.Mathlib.Omega.{arith}
use mathlib.Core.Option.{Option, none, some}
use mathlib.Core.List.{List, [], ◌∷◌, ◌++◌}
use ppu_tvi_os.Common.Lists.{
  length, set, All, get_elem?, get_or, get_elem?-eq-get_or, get_elem?-eq-none, get_or-append,
}
use ppu_tvi_os.Common.Words.{u8}

pub data Outcome {ℓ} (A : Type ℓ) : Type ℓ where
  done : A → Outcome A
  fault : Outcome A
  out_of_fuel : Outcome A

infixl 5 ◌>>=◌ ◌>>◌
abbrev pub ◌>>=◌ {ℓ κ} : {A : Type ℓ} {B : Type κ} → Outcome A → (A → Outcome B) → Outcome B
done a >>= f = f a
fault >>= f = fault
out_of_fuel >>= f = out_of_fuel

abbrev pub ◌>>◌ {ℓ κ} : {A : Type ℓ} {B : Type κ} → Outcome A → Outcome B → Outcome B
m >> k = m >>= λ _. k

-- An element that must be there.
abbrev pub or_fault {ℓ} : {A : Type ℓ} → Option A → Outcome A
or_fault none = fault
or_fault (some a) = done a

-- `array[i]`, a fault out of bounds.
abbrev pub element {ℓ} : {A : Type ℓ} → List A → ℕ → Outcome A
element xs i = or_fault (get_elem? xs i)

pub element-done {ℓ} :
    {A : Type ℓ} (xs : List A) (i : ℕ) (d : A) → i < length xs → element xs i ≡ done (get_or xs i d)
element-done xs i d h = rw (get_elem?-eq-get_or xs i d h)

pub element-fault {ℓ} : {A : Type ℓ} (xs : List A) (i : ℕ) → length xs ≤ i → element xs i ≡ fault
element-fault xs i h = rw (get_elem?-eq-none xs i h)

-- A `const uint8_t*`: a position in a buffer.
pub record Pointer : Type 0 where
  pub buffer : List ℕ
  pub offset : ℕ

abbrev pub start_of : List ℕ → Pointer
start_of bytes = record { buffer = bytes; offset = 0 }

-- `p + n`
abbrev pub advance : Pointer → ℕ → Pointer
advance p n = record p { offset = p.offset + n }

-- `(uint8_t) *(p + i)`
unfoldable pub read : Pointer → ℕ → Outcome ℕ
read p i = element p.buffer (p.offset + i) >>= λ b. done (u8 b)

-- The byte that `read` gives inside the buffer.
abbrev pub byte_at : Pointer → ℕ → ℕ
byte_at p i = u8 (get_or p.buffer (p.offset + i) 0)

-- The `n` bytes from the pointer on lie in the buffer.
abbrev pub Readable : Pointer → ℕ → Type 0
Readable p n = p.offset + n ≤ length p.buffer

pub read-done :
    (p : Pointer) (i : ℕ) → p.offset + i < length p.buffer → read p i ≡ done (byte_at p i)
unfolding read
read-done p i h = rw (get_elem?-eq-get_or p.buffer (p.offset + i) 0 h)

pub read-fault : (p : Pointer) (i : ℕ) → length p.buffer ≤ p.offset + i → read p i ≡ fault
unfolding read
read-fault p i h = rw (get_elem?-eq-none p.buffer (p.offset + i) h)

-- A code that comes back without a fault and before the fuel runs out.
abbrev pub Returns {ℓ κ} : {A : Type ℓ} → Outcome A → (A → Type κ) → Type (ℓ ⊔ κ)
Returns {A} m P = (a : A) × (m ≡ done a) × P a

-- What a pointer shows: from its position on, the buffer holds these bytes.
abbrev pub Shows : Pointer → List ℕ → Type 0
Shows p bytes = (i : ℕ) → get_or p.buffer (p.offset + i) 0 ≡ get_or bytes i 0

pub Shows-byte_at :
    (p : Pointer) (bytes : List ℕ) (i : ℕ) → Shows p bytes → byte_at p i ≡ u8 (get_or bytes i 0)
Shows-byte_at p bytes i h = rw (h i)

pub Shows-start_of : (bytes : List ℕ) → Shows (start_of bytes) bytes
Shows-start_of bytes i = ap (λ k. get_or bytes k 0) (omega arith)

-- Past the first bytes.
pub Shows-advance :
    (p : Pointer) (front bytes : List ℕ)
    → Shows p (front ++ bytes)
    → Shows (advance p (length front)) bytes
Shows-advance p front bytes h i =
    ap (λ k. get_or p.buffer k 0) (omega arith)
    ∙ h (length front + i)
    ∙ get_or-append front bytes i 0

-- A run that ends, if only in a fault.
abbrev pub Halts {ℓ} : {A : Type ℓ} → Outcome A → Type ℓ
Halts m = m ≢ out_of_fuel

pub >>=-Halts {ℓ κ} :
    {A : Type ℓ} {B : Type κ} (m : Outcome A) (f : A → Outcome B)
    → Halts m
    → ((a : A) → Halts (f a))
    → Halts (m >>= f)
>>=-Halts (done a) f h k = k a
>>=-Halts fault f h k = λ e. cc
>>=-Halts out_of_fuel f h k = absurd (h refl)

or_fault-Halts {ℓ} : {A : Type ℓ} (o : Option A) → Halts (or_fault o)
or_fault-Halts none = λ e. cc
or_fault-Halts (some a) = λ e. cc

pub element-Halts {ℓ} : {A : Type ℓ} (xs : List A) (i : ℕ) → Halts (element xs i)
element-Halts xs i = or_fault-Halts (get_elem? xs i)

pub read-Halts : (p : Pointer) (i : ℕ) → Halts (read p i)
unfolding read
read-Halts p i =
    >>=-Halts (element p.buffer (p.offset + i)) (λ b. done (u8 b))
      (element-Halts p.buffer (p.offset + i)) (λ b e. cc)

-- A run that can only end in a fault.
abbrev pub Faults {ℓ} : {A : Type ℓ} → Outcome A → Type ℓ
Faults m = m ≡ fault

-- Whatever the first part returns, the second faults.
pub >>=-Faults {ℓ κ} :
    {A : Type ℓ} {B : Type κ} (m : Outcome A) (f : A → Outcome B)
    → Halts m
    → ((a : A) → m ≡ done a → Faults (f a))
    → Faults (m >>= f)
>>=-Faults (done a) f h k = k a refl
>>=-Faults fault f h k = refl
>>=-Faults out_of_fuel f h k = absurd (h refl)

-- Inversion of a run that returns.
pub >>=-eq-done {ℓ κ} :
    {A : Type ℓ} {B : Type κ} (m : Outcome A) (f : A → Outcome B) {b : B}
    → (m >>= f) ≡ done b
    → (a : A) × (m ≡ done a) × (f a ≡ done b)
>>=-eq-done (done a) f h = (a, refl, h)
>>=-eq-done fault f h = cc
>>=-eq-done out_of_fuel f h = cc

pub read-lt : (p : Pointer) (i : ℕ) {b : ℕ} → read p i ≡ done b → b < 256
unfolding read
read-lt p i h =
    let (a, found, cast) = >>=-eq-done (element p.buffer (p.offset + i)) (λ b. done (u8 b)) h in
    ground arith

-- What is found in an array where all elements have a property has it.
pub element-All {ℓ κ} :
    {A : Type ℓ} (P : A → Type κ) (xs : List A) (i : ℕ) {a : A}
    → All P xs
    → element xs i ≡ done a
    → P a
element-All P [] i all h = cc
element-All P (x ∷ xs) zero {a = a} all h = subst P (some_of h) all.0
  where
    some_of : done x ≡ done a → x ≡ a
    some_of e = cc
element-All P (x ∷ xs) (suc i) all h = element-All P xs i all.1 h

pub set-All {ℓ κ} :
    {A : Type ℓ} (P : A → Type κ) (xs : List A) (i : ℕ) (v : A)
    → All P xs
    → P v
    → All P (set xs i v)
set-All P [] i v all h = all
set-All P (x ∷ xs) zero v all h = (h, all.1)
set-All P (x ∷ xs) (suc i) v all h = (all.0, set-All P xs i v all.1 h)

-- The second part need only end on what the first returns.
pub >>=-Halts_of {ℓ κ} :
    {A : Type ℓ} {B : Type κ} (m : Outcome A) (f : A → Outcome B)
    → Halts m
    → ((a : A) → m ≡ done a → Halts (f a))
    → Halts (m >>= f)
>>=-Halts_of (done a) f h k = k a refl
>>=-Halts_of fault f h k = λ e. cc
>>=-Halts_of out_of_fuel f h k = absurd (h refl)

-- An element that is found lies within the array.
pub element-lt {ℓ} :
    {A : Type ℓ} (xs : List A) (i : ℕ) {a : A} → element xs i ≡ done a → i < length xs
element-lt [] i h = cc
element-lt (x ∷ xs) zero h = omega arith
element-lt (x ∷ xs) (suc i) h = omega (arith, element-lt xs i h)

pub element-set_self {ℓ} :
    {A : Type ℓ} (xs : List A) (i : ℕ) (v : A) {a : A} → element (set xs i v) i ≡ done a → a ≡ v
element-set_self [] i v h = cc
element-set_self (x ∷ xs) zero v h = cc
element-set_self (x ∷ xs) (suc i) v h = element-set_self xs i v h

pub element-set {ℓ} :
    {A : Type ℓ} (xs : List A) (i : ℕ) (v : A) {a : A}
    → element xs i ≡ done a
    → element (set xs i v) i ≡ done v
element-set [] i v h = cc
element-set (x ∷ xs) zero v h = refl
element-set (x ∷ xs) (suc i) v h = element-set xs i v h
