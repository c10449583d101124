-- ===== src/Common/Machine.antt =====
-- The machine's 32-bit arithmetic, and runs of code that may fail an assertion.
use Prim.Native.Nat.{ℕ, ◌+◌, ◌-◌, ◌*◌, ◌%◌, ◌^◌, ◌≤◌, ◌<◌}
use native.Mathlib.Omega.{arith}
use mathlib.Core.Path.{◌≡◌}
use mathlib.Core.Bool.{Bool, true, false}

-- `unsigned long` and `unsigned int` have 32 bits on this machine.
abbrev pub word_mod : ℕ
word_mod = 2 ^ 32

abbrev pub add32 : ℕ → ℕ → ℕ
add32 a b = (a + b) % word_mod

abbrev pub sub32 : ℕ → ℕ → ℕ
sub32 a b = (a + word_mod - b) % word_mod

abbrev pub mul32 : ℕ → ℕ → ℕ
mul32 a b = (a * b) % word_mod

pub add32_small : (a b : ℕ) → a + b < word_mod → add32 a b ≡ a + b
add32_small a b h = omega arith

pub sub32_small : (a b : ℕ) → b ≤ a → a < word_mod → sub32 a b ≡ a - b
sub32_small a b h k = omega arith

-- How a piece of kernel code ends: with a value, in a failed `assert` (which never returns), not
-- within the given fuel, or in a page fault at an address.
pub data Run {ℓ} (A : Type ℓ) : Type ℓ where
  ok : A → Run A
  assert_failed : Run A
  out_of_fuel : Run A
  faulted : ℕ → Run A

infixl 5 ◌>>=◌ ◌>>◌
abbrev pub ◌>>=◌ {ℓ κ} : {A : Type ℓ} {B : Type κ} → Run A → (A → Run B) → Run B
ok a >>= f = f a
assert_failed >>= f = assert_failed
out_of_fuel >>= f = out_of_fuel
faulted a >>= f = faulted a

abbrev pub ◌>>◌ {ℓ} : {B : Type ℓ} → Run (Unit {0}) → Run B → Run B
m >> k = m >>= λ _. k

-- `assert(b)`
abbrev pub assert : Bool → Run (Unit {0})
assert true = ok tt
assert false = assert_failed
