-- ===== src/PageTable/Fault.antt =====
-- `PageTable::handle_fault`: what the processor translates afterwards.
use demand_paged_virtual_mem.Common.{
  ℕ, ◌+◌, ◌*◌, ◌/◌, ◌%◌, ◌<◌, ◌≡◌, ◌≢◌, refl, ◌∙◌, sym, arith, update, ap, some, ◌^◌,
}
use demand_paged_virtual_mem.PageTable.{Translation}
use demand_paged_virtual_mem.PageTable.Addresses.{directory_index, table_index, offset}
use demand_paged_virtual_mem.PageTable.Mmu.{IsMmu, SelfMapped, frame_of, pde, pte, translate-same}
use demand_paged_virtual_mem.PageTable.Fill.{SelfMapped-ext, update-other, update-same}

-- A directory that maps itself, whose tables are in frames of their own.
pub record IsPaging (m : ℕ → ℕ) (cr3 : ℕ) : Type 0 where
  pub self_mapped : SelfMapped m cr3
  pub apart : (i : ℕ) → i < 1023 → m (cr3 + i * 4) % 2 ≡ 1 → frame_of (m (cr3 + i * 4)) ≢ cr3
  pub distinct :
      (i j : ℕ)
      → i < 1023
      → j < 1023
      → m (cr3 + i * 4) % 2 ≡ 1
      → m (cr3 + j * 4) % 2 ≡ 1
      → frame_of (m (cr3 + i * 4)) ≡ frame_of (m (cr3 + j * 4))
      → i ≡ j

-- A frame that the directory and its tables do not use.
abbrev pub IsFresh : (ℕ → ℕ) → ℕ → ℕ → Type 0
IsFresh m cr3 n =
    (n * 4096 ≢ cr3)
    × ((i : ℕ) → i < 1023 → m (cr3 + i * 4) % 2 ≡ 1 → frame_of (m (cr3 + i * 4)) ≢ n * 4096)

-- The page of `cr2` is in frame `n`, and below the last 4 MB other pages are as before.
pub record PageAdded (translate : Translation) (m : ℕ → ℕ) (cr3 cr2 n : ℕ) (m' : ℕ → ℕ)
    : Type 0 where
  pub added : (a : ℕ) → a / 4096 ≡ cr2 / 4096 → translate m' cr3 a ≡ some (n * 4096 + offset a)
  pub others :
      (a : ℕ) → a < 4290772992 → a / 4096 ≢ cr2 / 4096 → translate m' cr3 a ≡ translate m cr3 a
  pub kept : IsPaging m' cr3
  pub table : pde m' cr3 cr2 % 2 ≡ 1
  pub entry : pte m' cr3 cr2 ≡ n * 4096 + 7
  pub elsewhere : (q : ℕ) → frame_of q ≢ frame_of (pde m cr3 cr2) → m' q ≡ m q

-- A directory is no more than its words.
pub IsPaging-ext :
    (m m' : ℕ → ℕ) (cr3 : ℕ)
    → ((i : ℕ) → i < 1024 → m' (cr3 + i * 4) ≡ m (cr3 + i * 4))
    → IsPaging m cr3
    → IsPaging m' cr3
IsPaging-ext m m' cr3 same v = record {
  self_mapped = SelfMapped-ext m m' cr3 (same 1023 (omega arith)) v.self_mapped;
  apart = λ i lt odd e.
      v.apart i lt (ap (λ z. z % 2) (sym (same i (omega arith))) ∙ odd)
        (ap frame_of (sym (same i (omega arith))) ∙ e);
  distinct = λ i j lt lt' odd odd' e.
      v.distinct i j lt lt' (ap (λ z. z % 2) (sym (same i (omega arith))) ∙ odd)
        (ap (λ z. z % 2) (sym (same j (omega arith))) ∙ odd')
        (ap frame_of (sym (same i (omega arith))) ∙ e ∙ ap frame_of (same j (omega arith)));
}

module _ {translate : Translation} (mmu : IsMmu translate) (m : ℕ → ℕ) (cr3 cr2 word : ℕ)
    (v : IsPaging m cr3) (small : cr2 < 4290772992)
    (there : m (cr3 + directory_index cr2 * 4) % 2 ≡ 1) where
  -- Where the entry of the page is, and the memory with a word written there.
  abbrev slot : ℕ
  slot = frame_of (m (cr3 + directory_index cr2 * 4)) + table_index cr2 * 4

  abbrev pub written : ℕ → ℕ
  written = update m slot word

  slot-directory : (i : ℕ) → i < 1024 → written (cr3 + i * 4) ≡ m (cr3 + i * 4)
  slot-directory i lt =
      let aligned = v.self_mapped.aligned in
      let apart = v.apart (directory_index cr2) (omega arith) there in
      update-other m slot word (cr3 + i * 4) (omega arith)

  -- The entries of the page's addresses.
  pub written-pde :
      (a : ℕ) → a / 4096 ≡ cr2 / 4096 → pde written cr3 a ≡ m (cr3 + directory_index cr2 * 4)
  written-pde a same =
      slot-directory (directory_index a) (omega arith) ∙ ap (λ z. m (cr3 + z * 4)) (omega arith)

  pub written-pte : (a : ℕ) → a / 4096 ≡ cr2 / 4096 → pte written cr3 a ≡ word
  written-pte a same =
      let tab : table_index a ≡ table_index cr2 = omega arith in
      ap written (omega (arith, written-pde a same)) ∙ update-same m slot word

  pub written-IsPaging : IsPaging written cr3
  written-IsPaging = IsPaging-ext m written cr3 slot-directory v

  -- Other pages are as before.
  pub written-others :
      (a : ℕ) → a < 4290772992 → a / 4096 ≢ cr2 / 4096 → translate written cr3 a ≡ translate m cr3 a
  written-others a low ne =
      translate-same mmu m written cr3 a v.self_mapped.aligned (omega arith)
        (slot-directory (directory_index a) (omega arith))
        (λ odd.
          update-other m slot word (frame_of (pde m cr3 a) + table_index a * 4) (elsewhere odd))
    where
      elsewhere : pde m cr3 a % 2 ≡ 1 → slot ≢ frame_of (pde m cr3 a) + table_index a * 4
      elsewhere odd e =
          let same : directory_index cr2 ≡ directory_index a =
            v.distinct (directory_index cr2) (directory_index a) (omega arith) (omega arith) there
              odd (omega arith) in
          ne (omega arith)

pub page-PageAdded :
    {translate : Translation} (mmu : IsMmu translate) (m : ℕ → ℕ) (cr3 cr2 n : ℕ)
    (v : IsPaging m cr3) (small : cr2 < 4290772992) (frame : n < 2 ^ 20)
    (there : m (cr3 + directory_index cr2 * 4) % 2 ≡ 1)
    → PageAdded translate m cr3 cr2 n (written mmu m cr3 cr2 (n * 4096 + 7) v small there)
page-PageAdded mmu m cr3 cr2 n v small frame there =
    let m' = written mmu m cr3 cr2 (n * 4096 + 7) v small there in
    record {
      added = λ a same.
          let first = written-pde mmu m cr3 cr2 (n * 4096 + 7) v small there a same in
          let entry = written-pte mmu m cr3 cr2 (n * 4096 + 7) v small there a same in
          mmu.present m' cr3 a v.self_mapped.aligned (omega arith) (ap (λ z. z % 2) first ∙ there)
            (ap (λ z. z % 2) entry ∙ omega arith)
          ∙ ap (λ z. some (z + offset a)) (ap frame_of entry ∙ omega arith);
      others = written-others mmu m cr3 cr2 (n * 4096 + 7) v small there;
      kept = written-IsPaging mmu m cr3 cr2 (n * 4096 + 7) v small there;
      table =
          ap (λ z. z % 2) (written-pde mmu m cr3 cr2 (n * 4096 + 7) v small there cr2 refl) ∙ there;
      entry = written-pte mmu m cr3 cr2 (n * 4096 + 7) v small there cr2 refl;
      elsewhere = λ q ne.
          update-other m (frame_of (pde m cr3 cr2) + table_index cr2 * 4) (n * 4096 + 7) q
            (λ e. ne (omega arith));
    }
