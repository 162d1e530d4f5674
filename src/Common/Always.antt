-- ===== src/Common/Always.antt =====
-- What holds of the result of a run of C code whenever it has one.
use Prim.Native.Nat.{ℕ, zero, suc, ◌+◌, ◌<◌}
use mathlib.Core.Path.{◌≡◌, refl, subst}
use mathlib.Core.Bool.{Bool, true, false}
use mathlib.Core.Option.{Option, none, some}
use mathlib.Core.List.{List, [], ◌∷◌}
use native.Mathlib.Omega.{arith}
use ppu_tvi_os.Common.Tests.{if◌then◌else◌}
use ppu_tvi_os.Common.Lists.{All}
use ppu_tvi_os.Common.Outcome.{Outcome, done, fault, out_of_fuel, ◌>>=◌, Pointer, read, element}

-- What holds of the result of a run, if there is one.
abbrev pub Always {ℓ κ} : {A : Type ℓ} → (A → Type κ) → Outcome A → Type κ
Always P (done a) = P a
Always P fault = Unit
Always P out_of_fuel = Unit

pub >>=-Always {ℓ κ ν μ} :
    {A : Type ℓ} {B : Type κ} (P : A → Type ν) (Q : B → Type μ) (m : Outcome A) (f : A → Outcome B)
    → Always P m
    → ((a : A) → P a → Always Q (f a))
    → Always Q (m >>= f)
>>=-Always P Q (done a) f h k = k a h
>>=-Always P Q fault f h k = tt
>>=-Always P Q out_of_fuel f h k = tt

-- The second part alone decides.
pub >>=-Always_any {ℓ κ μ} :
    {A : Type ℓ} {B : Type κ} (Q : B → Type μ) (m : Outcome A) (f : A → Outcome B)
    → ((a : A) → Always Q (f a))
    → Always Q (m >>= f)
>>=-Always_any Q (done a) f k = k a
>>=-Always_any Q fault f k = tt
>>=-Always_any Q out_of_fuel f k = tt

-- What always holds, holds of a result.
pub Always-done {ℓ κ} :
    {A : Type ℓ} (P : A → Type κ) (m : Outcome A) (a : A) → Always P m → m ≡ done a → P a
Always-done P (done b) a h e = subst P (same e) h
  where
    same : done b ≡ done a → b ≡ a
    same e = cc
Always-done P fault a h e = cc
Always-done P out_of_fuel a h e = cc

pub read-Always : (p : Pointer) (i : ℕ) → Always (λ b. b < 256) (read p i)
unfolding read
read-Always p i = >>=-Always_any (λ b. b < 256) (element p.buffer (p.offset + i)) _ λ b. omega arith

-- What an array's element has, if there is one.
pub element-Always {ℓ κ} :
    {A : Type ℓ} (P : A → Type κ) (xs : List A) (i : ℕ) → All P xs → Always P (element xs i)
element-Always P [] i h = tt
element-Always P (x ∷ xs) zero h = h.0
element-Always P (x ∷ xs) (suc i) h = element-Always P xs i h.1

-- A conditional of two runs.
pub if-Always {ℓ κ} :
    {A : Type ℓ} (P : A → Type κ) (b : Bool) (m k : Outcome A)
    → Always P m
    → Always P k
    → Always P (if b then m else k)
if-Always P true m k h h' = h
if-Always P false m k h h' = h'

-- What holds of the object behind a pointer, if it is not NULL.
abbrev pub Holds {ℓ κ} : {A : Type ℓ} → (A → Type κ) → Option A → Type κ
Holds P none = Unit
Holds P (some a) = P a

-- The second part, knowing what the first has returned.
pub >>=-Always_of {ℓ κ μ} :
    {A : Type ℓ} {B : Type κ} (Q : B → Type μ) (m : Outcome A) (f : A → Outcome B)
    → ((a : A) → m ≡ done a → Always Q (f a))
    → Always Q (m >>= f)
>>=-Always_of Q (done a) f k = k a refl
>>=-Always_of Q fault f k = tt
>>=-Always_of Q out_of_fuel f k = tt

-- A fact that what a run's results have depends on.
pub Always-given {ℓ κ μ} :
    {A : Type ℓ} (H : Type μ) (P : A → Type κ) (m : Outcome A)
    → (H → Always P m)
    → Always (λ a. H → P a) m
Always-given H P (done a) k = k
Always-given H P fault k = tt
Always-given H P out_of_fuel k = tt

-- A result, or what comes later.
pub signalled-Always {ℓ κ} :
    {A : Type ℓ} (P : A → Type κ) (signalled : Bool) (a : A) (later : Outcome A)
    → P a
    → Always P later
    → Always P (elim signalled [ true ↦ done a | false ↦ later ])
signalled-Always P true a later h next = h
signalled-Always P false a later h next = next
