-- ===== src/Utils.antt =====
-- utils.C of both programs: memory and string functions, and the printing of numbers.
pub mod Memory
pub mod Decimal
mod Examples
use demand_paged_virtual_mem.Common.{
  ℕ, zero, suc, ◌+◌, ◌-◌, ◌*◌, ◌/◌, ◌%◌, ◌≤◌, ◌<◌, ◌≡◌, ◌≢◌, refl, Bool, true, false, ◌==◌, ◌&&◌,
  ◌||◌, not, ◌∙◌, sym, subst, ◌⊎◌, inl, inr, if◌then◌else◌, List, [], ◌∷◌, ◌++◌, length, All, arith,
  ltb, leb, update, add32, sub32, mul32, Run, ok, assert_failed, out_of_fuel, faulted, ◌>>=◌, ◌>>◌,
  assert, dec_lt, dec_le, ap, word_mod, Option, none, some, lt→ltb, le→ltb, eq→==, ne→==,
  Bool-cases, ==→eq, ==→ne, le→leb, lt→leb, bit_and, bit_or, ◌^◌,
}

-- `for (; count != 0; count--) *dp++ = *sp++;`
unfoldable pub memcpy : ℕ → ℕ → ℕ → (ℕ → ℕ) → ℕ → ℕ
memcpy dest src zero memory = memory
memcpy dest src (suc count) memory =
    memcpy (dest + 1) (src + 1) count (update memory dest (memory src))

-- `for (; count != 0; count--) *temp++ = val;`, in `memset` on bytes and in `memsetw` on shorts
unfoldable pub memset : ℕ → ℕ → ℕ → (ℕ → ℕ) → ℕ → ℕ
memset dest val zero memory = memory
memset dest val (suc count) memory = memset (dest + 1) val count (update memory dest val)

unfoldable pub memsetw : ℕ → ℕ → ℕ → (ℕ → ℕ) → ℕ → ℕ
memsetw dest val zero memory = memory
memsetw dest val (suc count) memory = memsetw (dest + 1) val count (update memory dest val)

-- `strlen`: its loop from the length `len` on
unfoldable pub strlen_from : ℕ → (ℕ → ℕ) → ℕ → ℕ → Run ℕ
strlen_from zero memory str len = out_of_fuel
strlen_from (suc fuel) memory str len =
    let rest = strlen_from fuel memory (str + 1) (len + 1) in
    if not (memory str == 0) then rest else ok len

unfoldable pub strlen : ℕ → (ℕ → ℕ) → ℕ → Run ℕ
strlen fuel memory str = strlen_from fuel memory str 0

unfoldable pub strcpy : ℕ → ℕ → ℕ → (ℕ → ℕ) → Run (ℕ → ℕ)
strcpy zero dst src memory = out_of_fuel
strcpy (suc fuel) dst src memory =
    let rest = strcpy fuel (dst + 1) (src + 1) (update memory dst (memory src)) in
    if not (memory src == 0) then rest else ok (update memory dst 0)

-- `temp[i] = num % 10 + '0'; num /= 10;` from `i` on. The remainder of a negative number is negative:
-- the number is given by its magnitude.
unfoldable pub fill_digits : ℕ → Bool → ℕ → ℕ → (ℕ → ℕ) → ℕ → ℕ
fill_digits zero negative i num temp = temp
fill_digits (suc rounds) negative i num temp =
    let digit = if negative then 48 - num % 10 else num % 10 + 48 in
    fill_digits rounds negative (i + 1) (num / 10) (update temp i digit)

-- `for (i = i; temp[i] == '0'; i--);`, where `temp[0]` is the terminator
unfoldable pub last_digit : (ℕ → ℕ) → ℕ → ℕ
last_digit temp zero = zero
last_digit temp (suc i) = if temp (suc i) == 48 then last_digit temp i else suc i

-- `while (i >= 0) *str++ = temp[i--];`: the characters written
unfoldable pub copy_down : (ℕ → ℕ) → ℕ → List ℕ
copy_down temp zero = temp 0 ∷ []
copy_down temp (suc i) = temp (suc i) ∷ copy_down temp i

-- `int2str`, of a number by its sign and its magnitude
unfoldable pub int2str : Bool → ℕ → List ℕ
int2str negative num =
    let temp = fill_digits 10 negative 1 num (λ i. 0) in
    let i = last_digit temp 10 in copy_down temp (if i == 0 then i + 1 else i)

unfoldable pub uint2str : ℕ → List ℕ
uint2str num =
    let temp = fill_digits 10 false 1 num (λ i. 0) in
    let i = last_digit temp 10 in copy_down temp (if i == 0 then i + 1 else i)
