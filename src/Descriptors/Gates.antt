-- ===== src/Descriptors/Gates.antt =====
-- What the processor reads from the entries of the descriptor tables.
use demand_paged_virtual_mem.Common.{
  ℕ, zero, suc, ◌+◌, ◌-◌, ◌*◌, ◌/◌, ◌%◌, ◌<◌, ◌≡◌, ◌≢◌, refl, ◌==◌, ◌∙◌, sym, arith, ap, word_mod,
  eq→==, ne→==, ==→eq, bit_and, bit_or, ◌^◌,
}
use demand_paged_virtual_mem.Common.{ap₂}
use demand_paged_virtual_mem.Common.Digits.{
  shift, ones, bit_and_lowest, bit_or-shift, bit_and-zero_right,
}
use demand_paged_virtual_mem.Common.Bits.{all_below, all_below_sound}
use demand_paged_virtual_mem.Descriptors.{
  GdtEntry, gdt_entry, set_gdt_gate, init_gdt, IdtEntry, idt_entry, set_idt_gate,
}

-- The base address, the limit and the flags that an entry of the first table stands for
abbrev pub segment_base : GdtEntry → ℕ
segment_base g = g.base_low + 2 ^ 16 * g.base_middle + 2 ^ 24 * g.base_high

abbrev pub segment_limit : GdtEntry → ℕ
segment_limit g = g.limit_low + 2 ^ 16 * (g.granularity % 16)

abbrev pub segment_flags : GdtEntry → ℕ
segment_flags g = g.granularity / 16

abbrev pub gate_base : IdtEntry → ℕ
gate_base i = i.base_lo + 2 ^ 16 * i.base_hi

-- `& (2 ^ k - 1)` leaves the lowest `k` digits.
bit_and-low : (k q r : ℕ) → r < shift k 1 → bit_and (shift k q + r) (ones k) ≡ r
bit_and-low zero q r lt = bit_and_zero (q + r) ∙ omega arith
  where
    bit_and_zero : (a : ℕ) → bit_and a 0 ≡ 0
    bit_and_zero a = bit_and-zero_right a a (omega arith)
bit_and-low (suc k) q r lt =
    let half : (ones k * 2 + 1) / 2 ≡ ones k = omega arith in
    let quotient : (shift k q * 2 + r) / 2 ≡ shift k q + r / 2 = omega arith in
    bit_and_lowest (shift k q * 2 + r) (ones k * 2 + 1)
    ∙ rw (half, quotient) (omega (arith, bit_and-low k q (r / 2) (omega arith)))

low_16 : (a : ℕ) → bit_and a 65535 ≡ a % 2 ^ 16
low_16 a =
    let split : a ≡ shift 16 (a / 2 ^ 16) + a % 2 ^ 16 = omega arith in
    ap (λ z. bit_and z 65535) split ∙ bit_and-low 16 (a / 2 ^ 16) (a % 2 ^ 16) (omega arith)

low_8 : (a : ℕ) → bit_and a 255 ≡ a % 2 ^ 8
low_8 a =
    let split : a ≡ shift 8 (a / 2 ^ 8) + a % 2 ^ 8 = omega arith in
    ap (λ z. bit_and z 255) split ∙ bit_and-low 8 (a / 2 ^ 8) (a % 2 ^ 8) (omega arith)

low_4 : (a : ℕ) → bit_and a 15 ≡ a % 2 ^ 4
low_4 a =
    let split : a ≡ shift 4 (a / 2 ^ 4) + a % 2 ^ 4 = omega arith in
    ap (λ z. bit_and z 15) split ∙ bit_and-low 4 (a / 2 ^ 4) (a % 2 ^ 4) (omega arith)

high_4 : (a : ℕ) → a < 256 → bit_and a 240 ≡ a / 16 * 16
high_4 a lt =
    ==→eq (bit_and a 240) (a / 16 * 16)
      (all_below_sound 256 (λ y. bit_and y 240 == y / 16 * 16) a (unfold all_below in refl) lt)

granularity_lem :
    (limit gran : ℕ)
    → gran < 256
    → bit_or (bit_and (limit / 2 ^ 16) 15) (bit_and gran 240) ≡ limit / 2 ^ 16 % 16 + gran / 16 * 16
granularity_lem limit gran lt =
    let shifted : gran / 16 * 16 ≡ shift 4 (gran / 16) = omega arith in
    ap₂ bit_or (low_4 (limit / 2 ^ 16)) (high_4 gran lt ∙ shifted)
    ∙ bit_or-shift 4 (limit / 2 ^ 16 % 2 ^ 4) (gran / 16) (omega arith)
    ∙ omega arith

-- For a 32-bit base address and a byte of flags, the entry that `set_gate` stores stands for the
-- base address, the lowest 20 bits of the limit, the upper half of the flags and the access byte.
-- The other entries stay.
pub set_gdt_gate_lem :
    (num base limit access gran : ℕ) (gdt : ℕ → GdtEntry)
    → base < word_mod
    → gran < 256
    → let g = set_gdt_gate num base limit access gran gdt num in
      (segment_base g ≡ base)
      × (segment_limit g ≡ limit % 2 ^ 20)
      × (segment_flags g ≡ gran / 16)
      × (g.access ≡ access)
      × ((k : ℕ) → k ≢ num → set_gdt_gate num base limit access gran gdt k ≡ gdt k)
unfolding set_gdt_gate gdt_entry
set_gdt_gate_lem num base limit access gran gdt small byte =
    let b0 = low_16 base in
    let b1 = low_8 (base / 2 ^ 16) in
    let b2 = low_8 (base / 2 ^ 24) in
    let l0 = low_16 limit in
    let g = granularity_lem limit gran byte in
    rw (eq→== num num refl) (
      omega (arith, b0, b1, b2),
      omega (arith, l0, g),
      omega (arith, g),
      refl,
      λ k ne. rw (ne→== num k (λ e. ne (sym e))) refl,
    )

-- The entry of an interrupt stands for the handler's address, its selector and its flags.
pub set_idt_gate_lem :
    (num base sel flags : ℕ) (idt : ℕ → IdtEntry)
    → base < word_mod
    → let i = set_idt_gate num base sel flags idt num in
      (gate_base i ≡ base)
      × (i.sel ≡ sel)
      × (i.flags ≡ flags)
      × (i.always0 ≡ 0)
      × ((k : ℕ) → k ≢ num → set_idt_gate num base sel flags idt k ≡ idt k)
unfolding set_idt_gate idt_entry
set_idt_gate_lem num base sel flags idt small =
    let b0 = low_16 base in
    let b1 = low_16 (base / 2 ^ 16) in
    rw (eq→== num num refl)
      (omega (arith, b0, b1), refl, refl, refl, λ k ne. rw (ne→== num k (λ e. ne (sym e))) refl)

-- The code and the data segment cover the whole memory: base address 0 and 2 ^ 20 pages.
pub init_gdt_lem :
    (address : ℕ) (gdt : ℕ → GdtEntry)
    → let t = (init_gdt address gdt).1 in
      (segment_base (t 1) ≡ 0)
      × (segment_limit (t 1) ≡ 2 ^ 20 - 1)
      × ((t 1).access ≡ 154)
      × (segment_base (t 2) ≡ 0)
      × (segment_limit (t 2) ≡ 2 ^ 20 - 1)
      × ((t 2).access ≡ 146)
      × (t 0 ≡ gdt_entry 0 0 0 0)
unfolding init_gdt set_gdt_gate gdt_entry
init_gdt_lem address gdt = (refl, refl, refl, refl, refl, refl, refl)
