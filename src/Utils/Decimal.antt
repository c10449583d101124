-- ===== src/Utils/Decimal.antt =====
-- What `uint2str` prints: the decimal digits of its argument.
use demand_paged_virtual_mem.Common.{
  ℕ, zero, suc, ◌+◌, ◌-◌, ◌*◌, ◌/◌, ◌%◌, ◌≤◌, ◌<◌, ◌≡◌, ◌≢◌, refl, false, ◌==◌, ◌∙◌, sym, ◌⊎◌, inl,
  inr, if◌then◌else◌, List, [], ◌∷◌, ◌++◌, length, All, arith, update, ap, eq→==, ne→==, ◌^◌,
}
use demand_paged_virtual_mem.Common.{ℕ_discrete}
use demand_paged_virtual_mem.Utils.{fill_digits, last_digit, copy_down, uint2str}

-- The number that decimal characters spell, after the value `v` of those before them.
unfoldable pub read_decimal : ℕ → List ℕ → ℕ
read_decimal v [] = v
read_decimal v (c ∷ cs) = read_decimal (v * 10 + (c - 48)) cs

abbrev pub IsDigit : ℕ → Type 0
IsDigit c = (48 ≤ c) × (c < 58)

-- The usual way to write a number: digits, the first one not 0 unless it is alone.
abbrev pub IsNumeral : List ℕ → Type 0
IsNumeral [] = ⊥
IsNumeral (c ∷ cs) = All IsDigit (c ∷ cs) × ((c ≢ 48) ⊎ (length cs ≡ 0))

pub record Printed (num : ℕ) (str : List ℕ) : Type 0 where
  pub digits : List ℕ
  pub at_most_10 : length digits ≤ 10
  pub numeral : IsNumeral digits
  pub value : read_decimal 0 digits ≡ num
  pub terminated : str ≡ digits ++ 0 ∷ []

-- `num` without its last `i` digits
unfoldable quot : ℕ → ℕ → ℕ
quot num zero = num
quot num (suc i) = quot (num / 10) i

quot-suc : (i num : ℕ) → quot num (suc i) ≡ quot num i / 10
unfolding quot
quot-suc zero num = refl
quot-suc (suc i) num = quot-suc i (num / 10)

quot_ten : (num : ℕ) → num < 2 ^ 32 → quot num 10 ≡ 0
unfolding quot
quot_ten num h = omega arith

fill_digits-outside :
    (r i num : ℕ) (temp : ℕ → ℕ) (q : ℕ) → q < i → fill_digits r false i num temp q ≡ temp q
unfolding fill_digits
fill_digits-outside zero i num temp q lt = refl
fill_digits-outside (suc r) i num temp q lt =
    fill_digits-outside r (i + 1) (num / 10) (update temp i (num % 10 + 48)) q (omega arith)
    ∙ rw (ne→== i q (omega arith)) refl

fill_digits-suc :
    (r i num : ℕ) (temp : ℕ → ℕ)
    → fill_digits (suc r) false i num temp
      ≡ fill_digits r false (i + 1) (num / 10) (update temp i (num % 10 + 48))
unfolding fill_digits
fill_digits-suc r i num temp = refl

fill_digits-inside :
    (r i num : ℕ) (temp : ℕ → ℕ) (j : ℕ)
    → j < r
    → fill_digits r false i num temp (i + j) ≡ quot num j % 10 + 48
fill_digits-inside zero i num temp j lt = absurd (omega arith)
fill_digits-inside (suc r) i num temp zero lt =
    let here : i + 0 ≡ i = omega arith in
    ap (λ (f : ℕ → ℕ). f (i + 0)) (fill_digits-suc r i num temp)
    ∙ fill_digits-outside r (i + 1) (num / 10) (update temp i (num % 10 + 48)) (i + 0) (omega arith)
    ∙ rw (eq→== i (i + 0) (sym here)) (unfold quot in refl)
fill_digits-inside (suc r) i num temp (suc j) lt =
    ap (λ (f : ℕ → ℕ). f (i + suc j)) (fill_digits-suc r i num temp)
    ∙ ap (fill_digits r false (i + 1) (num / 10) (update temp i (num % 10 + 48))) (omega arith)
    ∙ fill_digits-inside r (i + 1) (num / 10) (update temp i (num % 10 + 48)) j (omega arith)
    ∙ unfold quot in refl

-- The buffer after the first loop: a terminator, then the digits from the last to the first.
record IsBuffer (num : ℕ) (temp : ℕ → ℕ) : Type 0 where
  stop : temp 0 ≡ 0
  digit : (j : ℕ) → j < 10 → temp (suc j) ≡ quot num j % 10 + 48

buffer : (num : ℕ) → IsBuffer num (fill_digits 10 false 1 num (λ i. 0))
buffer num = record {
  stop = fill_digits-outside 10 1 num (λ i. 0) 0 (omega arith);
  digit = λ j lt.
      ap (fill_digits 10 false 1 num (λ i. 0)) (omega arith)
      ∙ fill_digits-inside 10 1 num (λ i. 0) j lt;
}

-- The characters `temp[i]` to `temp[1]`
unfoldable printed : (ℕ → ℕ) → ℕ → List ℕ
printed temp zero = []
printed temp (suc i) = temp (suc i) ∷ printed temp i

length-printed : (temp : ℕ → ℕ) (i : ℕ) → length (printed temp i) ≡ i
unfolding printed
length-printed temp zero = refl
length-printed temp (suc i) = ap (λ z. suc z) (length-printed temp i)

module _ (num : ℕ) (temp : ℕ → ℕ) (b : IsBuffer num temp) where
  copy_down_lem : (i : ℕ) → copy_down temp i ≡ printed temp i ++ 0 ∷ []
  unfolding copy_down printed
  copy_down_lem zero = ap (λ z. z ∷ []) b.stop
  copy_down_lem (suc i) = ap (λ z. temp (suc i) ∷ z) (copy_down_lem i)

  temp-IsDigit : (j : ℕ) → j < 10 → IsDigit (temp (suc j))
  temp-IsDigit j lt = let e = b.digit j lt in (omega arith, omega arith)

  printed-All : (i : ℕ) → i ≤ 10 → All IsDigit (printed temp i)
  unfolding printed
  printed-All zero le = tt
  printed-All (suc i) le = (temp-IsDigit i (omega arith), printed-All i (omega arith))

  -- The characters from `temp[i]` on complete the digits before them to `num`.
  read_decimal-printed : (i : ℕ) → i ≤ 10 → read_decimal (quot num i) (printed temp i) ≡ num
  unfolding read_decimal printed quot
  read_decimal-printed zero le = refl
  read_decimal-printed (suc i) le =
      let sum : quot num (suc i) * 10 + (temp (suc i) - 48) ≡ quot num i =
        omega (arith, b.digit i (omega arith), quot-suc i num) in
      ap (λ z. read_decimal z (printed temp i)) sum ∙ read_decimal-printed i (omega arith)

  -- The second loop stops at the first digit that is not 0, with only zeros before it.
  last_digit_lem :
      (i : ℕ)
      → i ≤ 10
      → quot num i ≡ 0
      → let k = last_digit temp i in (k ≤ i) × (quot num k ≡ 0) × ((k ≡ 0) ⊎ (temp k ≢ 48))
  unfolding last_digit
  last_digit_lem zero le z = (omega arith, z, inl refl)
  last_digit_lem (suc i) le z = elim (ℕ_discrete (temp (suc i)) 48) [
    | yes e ↦
        let d = b.digit i (omega arith) in
        let q = quot-suc i num in
        let (at, z1, stop) = last_digit_lem i (omega arith) (omega arith) in
        rw (eq→== (temp (suc i)) 48 e) (omega arith, z1, stop)
    | no ne ↦ rw (ne→== (temp (suc i)) 48 ne) (omega arith, z, inr ne)
  ]

  copy_down-Printed :
      (k : ℕ)
      → k < 10
      → quot num (suc k) ≡ 0
      → (temp (suc k) ≢ 48) ⊎ (k ≡ 0)
      → Printed num (copy_down temp (suc k))
  copy_down-Printed k lt z first = record {
    digits = printed temp (suc k);
    at_most_10 = omega (arith, length-printed temp (suc k));
    numeral =
        let rest : (temp (suc k) ≢ 48) ⊎ (length (printed temp k) ≡ 0) =
          omega (arith, length-printed temp k, first) in
        unfold printed in (printed-All (suc k) (omega arith), rest);
    value =
        ap (λ v. read_decimal v (printed temp (suc k))) (sym z)
        ∙ read_decimal-printed (suc k) (omega arith);
    terminated = copy_down_lem (suc k);
  }

  uint2str-Printed :
      num < 2 ^ 32
      → let i = last_digit temp 10 in Printed num (copy_down temp (if i == 0 then i + 1 else i))
  uint2str-Printed small =
      let (le, z, stop) = last_digit_lem 10 (omega arith) (quot_ten num small) in
      chosen (last_digit temp 10) le z stop
    where
      chosen :
          (i : ℕ)
          → i ≤ 10
          → quot num i ≡ 0
          → (i ≡ 0) ⊎ (temp i ≢ 48)
          → Printed num (copy_down temp (if i == 0 then i + 1 else i))
      chosen zero le z stop =
          copy_down-Printed 0 (omega arith) (omega (arith, quot-suc 0 num, z)) (inr refl)
      chosen (suc k) le z stop =
          rw (ne→== (suc k) 0 (omega arith))
            (copy_down-Printed k (omega arith) z (inl (ground (arith, stop))))

-- For a 32-bit number, `uint2str` writes between one and ten decimal digits and a terminator. The
-- digits spell the number, and the first one is not 0 unless it is the only one.
pub uint2str_lem : (num : ℕ) → num < 2 ^ 32 → Printed num (uint2str num)
unfolding uint2str
uint2str_lem num small =
    uint2str-Printed num (fill_digits 10 false 1 num (λ i. 0)) (buffer num) small
