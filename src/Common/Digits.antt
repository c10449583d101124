-- ===== src/Common/Digits.antt =====
-- The machine's bit operations at variables: their law for the lowest digit, and numbers put
-- together from digits that do not overlap.
use Prim.Native.Nat.{
  ℕ, zero, suc, ◌+◌, ◌*◌, ◌/◌, ◌%◌, ◌≤◌, ◌<◌, max, min, bit_or, bit_and, bit_and-bitwise, digits,
  bitwise, bit_or-bitwise,
}
use mathlib.Core.Path.{◌≡◌, refl, sym, ap, ◌∙◌}
use native.Mathlib.Omega.{arith}

module _ (base : ℕ → ℕ) (join : ℕ → ℕ → ℕ) where
  digits-done : (n b : ℕ) → digits base join n 0 b ≡ base b
  digits-done zero b = refl
  digits-done (suc n) b = refl

  -- More digits to go than the first number has change nothing.
  digits-more :
      (n more a b : ℕ) → a ≤ n → n ≤ more → digits base join more a b ≡ digits base join n a b
  digits-more n more zero b le far = digits-done more b ∙ sym (digits-done n b)
  digits-more zero more (suc a) b le far = absurd (omega arith)
  digits-more (suc n) zero (suc a) b le far = absurd (omega arith)
  digits-more (suc n) (suc more) (suc a) b le far =
      ap (λ d. d * 2 + join (suc a % 2) (b % 2))
        (digits-more n more (suc a / 2) (b / 2) (omega arith) (omega arith))

  bitwise_lowest :
      (a b : ℕ)
      → bitwise base join (suc a) b
        ≡ bitwise base join (suc a / 2) (b / 2) * 2 + join (suc a % 2) (b % 2)
  bitwise_lowest a b =
      ap (λ d. d * 2 + join (suc a % 2) (b % 2))
        (digits-more (suc a / 2) a (suc a / 2) (b / 2) (omega arith) (omega arith))

pub bit_or-zero : (b : ℕ) → bit_or 0 b ≡ b
bit_or-zero b = bit_or-bitwise 0 b

pub bit_or_lowest : (a b : ℕ) → bit_or a b ≡ bit_or (a / 2) (b / 2) * 2 + max (a % 2) (b % 2)
bit_or_lowest zero b = omega (arith, bit_or-zero b, bit_or-zero (b / 2))
bit_or_lowest (suc a) b =
    bit_or-bitwise (suc a) b
    ∙ bitwise_lowest (λ d. d) max a b
    ∙ ap (λ d. d * 2 + max (suc a % 2) (b % 2)) (sym (bit_or-bitwise (suc a / 2) (b / 2)))

-- `b << k`
abbrev pub shift : ℕ → ℕ → ℕ
shift zero b = b
shift (suc k) b = shift k b * 2

-- Below its lowest digit, a shifted number takes another one by `|` as by `+`.
pub bit_or-shift : (k a b : ℕ) → a < shift k 1 → bit_or a (shift k b) ≡ a + shift k b
bit_or-shift zero zero b lt = omega (arith, bit_or-zero b)
bit_or-shift zero (suc a) b lt = absurd (omega arith)
bit_or-shift (suc k) a b lt =
    let half : shift k b * 2 / 2 ≡ shift k b = omega arith in
    bit_or_lowest a (shift k b * 2)
    ∙ rw half (omega (arith, bit_or-shift k (a / 2) b (omega arith)))

-- The same with the shifted number first.
bit_or-zero_right : (n a : ℕ) → a ≤ n → bit_or a 0 ≡ a
bit_or-zero_right n zero le = bit_or-zero 0
bit_or-zero_right zero (suc a) le = absurd (omega arith)
bit_or-zero_right (suc n) (suc a) le =
    omega (arith, bit_or_lowest (suc a) 0, bit_or-zero_right n (suc a / 2) (omega arith))

pub shift-bit_or : (k a b : ℕ) → a < shift k 1 → bit_or (shift k b) a ≡ shift k b + a
shift-bit_or zero zero b lt = omega (arith, bit_or-zero_right b b (omega arith))
shift-bit_or zero (suc a) b lt = absurd (omega arith)
shift-bit_or (suc k) a b lt =
    let half : shift k b * 2 / 2 ≡ shift k b = omega arith in
    bit_or_lowest (shift k b * 2) a
    ∙ rw half (omega (arith, shift-bit_or k (a / 2) b (omega arith)))

zero-bit_and : (b : ℕ) → bit_and 0 b ≡ 0
zero-bit_and b = bit_and-bitwise 0 b

pub bit_and_lowest : (a b : ℕ) → bit_and a b ≡ bit_and (a / 2) (b / 2) * 2 + min (a % 2) (b % 2)
bit_and_lowest zero b = omega (arith, zero-bit_and b, zero-bit_and (b / 2))
bit_and_lowest (suc a) b =
    bit_and-bitwise (suc a) b
    ∙ bitwise_lowest (λ d. 0) min a b
    ∙ ap (λ d. d * 2 + min (suc a % 2) (b % 2)) (sym (bit_and-bitwise (suc a / 2) (b / 2)))

-- `k` ones
abbrev pub ones : ℕ → ℕ
ones zero = 0
ones (suc k) = ones k * 2 + 1

pub bit_and-zero_right : (n a : ℕ) → a ≤ n → bit_and a 0 ≡ 0
bit_and-zero_right n zero le = zero-bit_and 0
bit_and-zero_right zero (suc a) le = absurd (omega arith)
bit_and-zero_right (suc n) (suc a) le =
    omega (arith, bit_and_lowest (suc a) 0, bit_and-zero_right n (suc a / 2) (omega arith))

-- A number of `k` digits is its own last `k` digits.
pub bit_and-ones : (k a : ℕ) → a < shift k 1 → bit_and a (ones k) ≡ a
bit_and-ones zero zero lt = zero-bit_and 0
bit_and-ones zero (suc a) lt = absurd (omega arith)
bit_and-ones (suc k) a lt =
    let half : (ones k * 2 + 1) / 2 ≡ ones k = omega arith in
    bit_and_lowest a (ones k * 2 + 1)
    ∙ rw half (omega (arith, bit_and-ones k (a / 2) (omega arith)))

pub bit_and-one : (a : ℕ) → bit_and a 1 ≡ a % 2
bit_and-one a = omega (arith, bit_and_lowest a 1, bit_and-zero_right (a / 2) (a / 2) (omega arith))
