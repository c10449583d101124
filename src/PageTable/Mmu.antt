-- ===== src/PageTable/Mmu.antt =====
-- The processor's two-level walk, and what the last entry of a directory that maps itself shows.
use demand_paged_virtual_mem.Common.{
  ℕ, ◌+◌, ◌*◌, ◌/◌, ◌%◌, ◌<◌, ◌≡◌, ◌∙◌, sym, ◌⊎◌, inl, inr, arith, mul32, ap, word_mod, none, some,
  bit_or, ◌^◌,
}
use demand_paged_virtual_mem.Common.Digits.{shift-bit_or}
use demand_paged_virtual_mem.PageTable.{Translation, entry_of}
use demand_paged_virtual_mem.PageTable.Addresses.{directory_index, table_index, offset}

-- The address of the frame in an entry.
abbrev pub frame_of : ℕ → ℕ
frame_of entry = entry / 4096 * 4096

-- The entries of the two levels for an address.
abbrev pub pde : (ℕ → ℕ) → ℕ → ℕ → ℕ
pde memory cr3 address = memory (cr3 + directory_index address * 4)

abbrev pub pte : (ℕ → ℕ) → ℕ → ℕ → ℕ
pte memory cr3 address = memory (frame_of (pde memory cr3 address) + table_index address * 4)

-- The documented translation of 32-bit addresses with 4 KB pages, for a directory at a page: an
-- entry is present if its lowest bit is set.
pub record IsMmu (translate : Translation) : Type 0 where
  pub present :
      (m : ℕ → ℕ) (cr3 a : ℕ)
      → cr3 % 4096 ≡ 0
      → a < word_mod
      → pde m cr3 a % 2 ≡ 1
      → pte m cr3 a % 2 ≡ 1
      → translate m cr3 a ≡ some (frame_of (pte m cr3 a) + offset a)
  pub no_table :
      (m : ℕ → ℕ) (cr3 a : ℕ)
      → cr3 % 4096 ≡ 0
      → a < word_mod
      → pde m cr3 a % 2 ≡ 0
      → translate m cr3 a ≡ none
  pub no_page :
      (m : ℕ → ℕ) (cr3 a : ℕ)
      → cr3 % 4096 ≡ 0
      → a < word_mod
      → pde m cr3 a % 2 ≡ 1
      → pte m cr3 a % 2 ≡ 0
      → translate m cr3 a ≡ none

pub entry_of_lem :
    (frame flags : ℕ) → frame < 2 ^ 20 → flags < 4096 → entry_of frame flags ≡ frame * 4096 + flags
entry_of_lem frame flags small low =
    let whole : mul32 frame 4096 ≡ frame * 4096 = omega arith in
    let shifted = shift-bit_or 12 flags frame low in
    ap (λ z. bit_or z flags) (whole ∙ omega arith) ∙ shifted ∙ omega arith

-- An odd or an even number.
pub parity : (n : ℕ) → (n % 2 ≡ 1) ⊎ (n % 2 ≡ 0)
parity n = ground arith

-- The walk depends on no more than its two entries.
pub translate-same :
    {translate : Translation} (mmu : IsMmu translate) (m m' : ℕ → ℕ) (cr3 a : ℕ)
    → cr3 % 4096 ≡ 0
    → a < word_mod
    → pde m' cr3 a ≡ pde m cr3 a
    → (pde m cr3 a % 2 ≡ 1 → m' (frame_of (pde m cr3 a) + table_index a * 4) ≡ pte m cr3 a)
    → translate m' cr3 a ≡ translate m cr3 a
translate-same mmu m m' cr3 a aligned small same_pde same_pte = elim (parity (pde m cr3 a)) [
  | inr absent ↦
      mmu.no_table m' cr3 a aligned small (ap (λ z. z % 2) same_pde ∙ absent)
      ∙ sym (mmu.no_table m cr3 a aligned small absent)
  | inl there ↦
      let same : pte m' cr3 a ≡ pte m cr3 a =
        ap (λ z. m' (frame_of z + table_index a * 4)) same_pde ∙ same_pte there in
      elim (parity (pte m cr3 a)) [
        | inl page ↦
            mmu.present m' cr3 a aligned small (ap (λ z. z % 2) same_pde ∙ there)
              (ap (λ z. z % 2) same ∙ page)
            ∙ ap (λ z. some (frame_of z + offset a)) same
            ∙ sym (mmu.present m cr3 a aligned small there page)
        | inr absent ↦
            mmu.no_page m' cr3 a aligned small (ap (λ z. z % 2) same_pde ∙ there)
              (ap (λ z. z % 2) same ∙ absent)
            ∙ sym (mmu.no_page m cr3 a aligned small there absent)
      ]
]

-- A directory at a page, whose last entry is present and shows the directory itself.
pub record SelfMapped (m : ℕ → ℕ) (cr3 : ℕ) : Type 0 where
  pub aligned : cr3 % 4096 ≡ 0
  pub self : frame_of (m (cr3 + 4092)) ≡ cr3
  pub self_present : m (cr3 + 4092) % 2 ≡ 1

module _ {translate : Translation} (mmu : IsMmu translate) (m : ℕ → ℕ) (cr3 : ℕ)
    (s : SelfMapped m cr3) where
  -- Through the last 4 MB, the tables show themselves.
  pub view_table :
      (a x off : ℕ)
      → a ≡ 4290772992 + x * 4096 + off
      → x < 1024
      → off < 4096
      → m (cr3 + x * 4) % 2 ≡ 1
      → translate m cr3 a ≡ some (frame_of (m (cr3 + x * 4)) + off)
  view_table a x off at small low there =
      let dir : cr3 + directory_index a * 4 ≡ cr3 + 4092 = omega arith in
      let word : pde m cr3 a ≡ m (cr3 + 4092) = ap m dir in
      let entry : pte m cr3 a ≡ m (cr3 + x * 4) = ap m (omega (arith, word, s.self)) in
      let rest : offset a ≡ off = omega arith in
      mmu.present m cr3 a s.aligned (omega arith) (ap (λ z. z % 2) word ∙ s.self_present)
        (ap (λ z. z % 2) entry ∙ there)
      ∙ ap (λ z. some (frame_of z + offset a)) entry
      ∙ ap (λ z. some (frame_of (m (cr3 + x * 4)) + z)) rest

  -- And the last page shows the directory.
  pub view_directory :
      (a off : ℕ) → a ≡ 4294963200 + off → off < 4096 → translate m cr3 a ≡ some (cr3 + off)
  view_directory a off at low =
      view_table a 1023 off (omega arith) (omega arith) low s.self_present
      ∙ ap (λ z. some (z + off)) s.self
