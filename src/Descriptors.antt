-- ===== src/Descriptors.antt =====
-- gdt.C, idt.C and irq.C of both programs: the entries of the two descriptor tables, and the commands
-- that move the interrupts of the two controllers.
pub mod Gates
mod Examples
use demand_paged_virtual_mem.Common.{
  ℕ, zero, suc, ◌+◌, ◌-◌, ◌*◌, ◌/◌, ◌%◌, ◌≤◌, ◌<◌, ◌≡◌, ◌≢◌, refl, Bool, true, false, ◌==◌, ◌&&◌,
  ◌||◌, not, ◌∙◌, sym, subst, ◌⊎◌, inl, inr, if◌then◌else◌, List, [], ◌∷◌, ◌++◌, length, All, arith,
  ltb, leb, update, add32, sub32, mul32, Run, ok, assert_failed, out_of_fuel, faulted, ◌>>=◌, ◌>>◌,
  assert, dec_lt, dec_le, ap, word_mod, Option, none, some, lt→ltb, le→ltb, eq→==, ne→==, if_cases,
  Bool-cases, ==→eq, ==→ne, le→leb, lt→leb, bit_and, bit_or, ◌^◌,
}

pub record GdtEntry : Type 0 where
  pub limit_low : ℕ
  pub base_low : ℕ
  pub base_middle : ℕ
  pub access : ℕ
  pub granularity : ℕ
  pub base_high : ℕ

-- `gdt_ptr` and `idt_ptr`
pub record TablePtr : Type 0 where
  pub limit : ℕ
  pub base : ℕ

-- The entry that `GDT::set_gate` stores
unfoldable pub gdt_entry : ℕ → ℕ → ℕ → ℕ → GdtEntry
gdt_entry base limit access gran = record {
  base_low = bit_and base 65535;
  base_middle = bit_and (base / 2 ^ 16) 255;
  base_high = bit_and (base / 2 ^ 24) 255;
  limit_low = bit_and limit 65535;
  granularity = bit_or (bit_and (limit / 2 ^ 16) 15) (bit_and gran 240);
  access = access;
}

unfoldable pub set_gdt_gate : ℕ → ℕ → ℕ → ℕ → ℕ → (ℕ → GdtEntry) → ℕ → GdtEntry
set_gdt_gate num base limit access gran gdt = update gdt num (gdt_entry base limit access gran)

-- `GDT::init`, of the table of three entries at an address: its pointer and its entries
unfoldable pub init_gdt : ℕ → (ℕ → GdtEntry) → TablePtr × (ℕ → GdtEntry)
init_gdt address gdt =
    let null = set_gdt_gate 0 0 0 0 0 gdt in
    let code = set_gdt_gate 1 0 4294967295 154 207 null in
    (record { limit = 8 * 3 - 1; base = address }, set_gdt_gate 2 0 4294967295 146 207 code)

pub record IdtEntry : Type 0 where
  pub base_lo : ℕ
  pub sel : ℕ
  pub always0 : ℕ
  pub flags : ℕ
  pub base_hi : ℕ

unfoldable pub idt_entry : ℕ → ℕ → ℕ → IdtEntry
idt_entry base sel flags = record {
  base_lo = bit_and base 65535;
  base_hi = bit_and (base / 2 ^ 16) 65535;
  sel = sel;
  always0 = 0;
  flags = flags;
}

unfoldable pub set_idt_gate : ℕ → ℕ → ℕ → ℕ → (ℕ → IdtEntry) → ℕ → IdtEntry
set_idt_gate num base sel flags idt = update idt num (idt_entry base sel flags)

-- `IDT::init`, of the table at an address: `memset` clears its 256 entries.
unfoldable pub init_idt : ℕ → (ℕ → IdtEntry) → TablePtr × (ℕ → IdtEntry)
init_idt address idt = (
  record { limit = 8 * 256 - 1; base = address },
  λ num.
      if ltb num 256
      then record { base_lo = 0; sel = 0; always0 = 0; flags = 0; base_hi = 0 }
      else idt num,
)

-- `irq_remap`, which `IRQ::init` calls: the bytes written, each with its port
unfoldable pub irq_remap : List (ℕ × ℕ)
irq_remap =
    (32, 17)
    ∷ (160, 17)
    ∷ (33, 32)
    ∷ (161, 40)
    ∷ (33, 4)
    ∷ (161, 2)
    ∷ (33, 1)
    ∷ (161, 1)
    ∷ (33, 0)
    ∷ (161, 0)
    ∷ []
