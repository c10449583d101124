-- ===== src/Utils/Examples.antt =====
-- The theorems on memory and string functions at concrete inputs.
use demand_paged_virtual_mem.Common.{ℕ, ◌+◌, ◌≡◌, refl, true, inr, [], ◌∷◌, arith, update, ok}
use demand_paged_virtual_mem.Utils.{
  memcpy, strcpy, uint2str, int2str, fill_digits, last_digit, copy_down,
}
use demand_paged_virtual_mem.Utils.Memory.{IsString, strcpy-memcpy}

-- "ok" at address 9
abbrev text : ℕ → ℕ
text = update (update (λ q. 0) 9 111) 10 107

text-IsString : IsString text 9 2
text-IsString = record { chars = λ j lt. ground arith; terminated = refl }

strcpy-memcpy_example : strcpy 3 40 9 text ≡ ok (memcpy 40 9 (2 + 1) text)
strcpy-memcpy_example = strcpy-memcpy 2 3 40 9 text (omega arith) (inr (omega arith)) text-IsString

test_uint2str : uint2str 4096 ≡ 52 ∷ 48 ∷ 57 ∷ 54 ∷ 0 ∷ []
unfolding uint2str fill_digits last_digit copy_down
test_uint2str = refl

test_uint2str_zero : uint2str 0 ≡ 48 ∷ 0 ∷ []
unfolding uint2str fill_digits last_digit copy_down
test_uint2str_zero = refl

-- A negative number has no sign, and its digits run down from '0': -12 prints as "/.".
test_int2str_negative : int2str true 12 ≡ 47 ∷ 46 ∷ 0 ∷ []
unfolding int2str fill_digits last_digit copy_down
test_int2str_negative = refl
