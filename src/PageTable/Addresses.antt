-- ===== src/PageTable/Addresses.antt =====
-- The recursive addresses as indices of the two levels and offsets.
use demand_paged_virtual_mem.Common.{
  ℕ, ◌+◌, ◌*◌, ◌/◌, ◌%◌, ◌<◌, ◌≡◌, arith, mul32, word_mod, bit_or,
}
use demand_paged_virtual_mem.Common.Digits.{bit_or-shift}
use demand_paged_virtual_mem.PageTable.{pde_address, page_table_address, pte_address}

-- The indices of an address into the page directory and into a page table, and its offset.
abbrev pub directory_index : ℕ → ℕ
directory_index address = address / 4194304

abbrev pub table_index : ℕ → ℕ
table_index address = address / 4096 % 1024

abbrev pub offset : ℕ → ℕ
offset address = address % 4096

last_page : (a : ℕ) → a < 4096 → bit_or a 4294963200 ≡ a + 4294963200
last_page a h = bit_or-shift 12 a 1048575 h

last_tables : (a : ℕ) → a < 4194304 → bit_or a 4290772992 ≡ a + 4290772992
last_tables a h = bit_or-shift 22 a 1023 h

module _ (cr2 : ℕ) (h : cr2 < word_mod) where
  pub pde_address_lem : pde_address cr2 ≡ 4294963200 + directory_index cr2 * 4
  unfolding pde_address
  pde_address_lem = omega (arith, last_page (mul32 (cr2 / 4194304) 4) (omega arith))

  pub page_table_address_lem : page_table_address cr2 ≡ 4290772992 + directory_index cr2 * 4096
  unfolding page_table_address
  page_table_address_lem = omega (arith, last_tables (mul32 (cr2 / 4194304) 4096) (omega arith))

  pub pte_address_lem :
      pte_address cr2 ≡ 4290772992 + directory_index cr2 * 4096 + table_index cr2 * 4
  unfolding pte_address
  pte_address_lem = omega (arith, last_tables (mul32 (cr2 / 4096) 4) (omega arith))

-- For a 32-bit faulting address, the three addresses that the fault handler computes lie in the
-- last 4 MB: the directory entry's shows the directory through its last entry twice, at the word
-- of the faulting address's directory index; the page table's shows that table's first word; the
-- table entry's shows the same table at the word of the faulting address's table index.
pub recursive_addresses :
    (cr2 : ℕ)
    → cr2 < word_mod
    → ((directory_index (pde_address cr2) ≡ 1023)
        × (table_index (pde_address cr2) ≡ 1023)
        × (offset (pde_address cr2) ≡ directory_index cr2 * 4))
      × ((directory_index (page_table_address cr2) ≡ 1023)
          × (table_index (page_table_address cr2) ≡ directory_index cr2)
          × (offset (page_table_address cr2) ≡ 0))
      × (directory_index (pte_address cr2) ≡ 1023)
      × (table_index (pte_address cr2) ≡ directory_index cr2)
      × (offset (pte_address cr2) ≡ table_index cr2 * 4)
recursive_addresses cr2 h =
    let pde = pde_address_lem cr2 h in
    let table = page_table_address_lem cr2 h in
    let pte = pte_address_lem cr2 h in
    (
      (omega (arith, pde), omega (arith, pde), omega (arith, pde)),
      (omega (arith, table), omega (arith, table), omega (arith, table)),
      omega (arith, pte),
      omega (arith, pte),
      omega (arith, pte),
    )
