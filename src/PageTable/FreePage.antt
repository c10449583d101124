-- ===== src/PageTable/FreePage.antt =====
-- `PageTable::free_page`: an address of the page is not translated any more.
use demand_paged_virtual_mem.Common.{
  ℕ, ◌+◌, ◌*◌, ◌/◌, ◌%◌, ◌<◌, ◌≡◌, ◌≢◌, refl, true, ◌∙◌, List, arith, mul32, ok, faulted, ap,
  word_mod, none, eq→==, ne→==, bit_and,
}
use demand_paged_virtual_mem.Common.Digits.{bit_and-one, bit_and-ones, bit_and_lowest}
use demand_paged_virtual_mem.VmPool.{VmPool}
use demand_paged_virtual_mem.PageTable.{
  FrameSource, Paging, Translation, pte_address, read_word, any_legitimate, load, free_page,
}
use demand_paged_virtual_mem.PageTable.Addresses.{directory_index, table_index, pte_address_lem}
use demand_paged_virtual_mem.PageTable.Mmu.{IsMmu, pde, pte, view_table}
use demand_paged_virtual_mem.PageTable.Fault.{
  IsPaging, written, written-pde, written-pte, written-IsPaging, written-others,
}
use demand_paged_virtual_mem.PageTable.Handler.{write_pte}

clear_present : (word : ℕ) → word < word_mod → bit_and word 4294967294 ≡ word / 2 * 2
clear_present word h =
    let rest : bit_and (word / 2) 2147483647 ≡ word / 2 =
      bit_and-ones 31 (word / 2) (omega arith) in
    omega (arith, bit_and_lowest word 4294967294, rest)

module _ {S : Type 0} (source : FrameSource S) {translate : Translation} (mmu : IsMmu translate)
    (pools : List VmPool) (page_no : ℕ) (small : page_no * 4096 < 4290772992) (st : Paging S)
    (v : IsPaging st.memory st.cr3)
    (there : st.memory (st.cr3 + directory_index (page_no * 4096) * 4) % 2 ≡ 1)
    (legitimate : any_legitimate pools (page_no * 4096) ≡ true) where
  -- The word of the page's entry.
  abbrev pub entry : ℕ
  entry = pte st.memory st.cr3 (page_no * 4096)

  address : mul32 page_no 4096 ≡ page_no * 4096
  address = omega arith

  read_pte : read_word translate (pte_address (page_no * 4096)) st ≡ ok entry
  unfolding read_word
  read_pte =
      let seen =
        view_table mmu st.memory st.cr3 v.self_mapped (pte_address (page_no * 4096))
          (directory_index (page_no * 4096)) (table_index (page_no * 4096) * 4)
          (pte_address_lem (page_no * 4096) (omega arith)) (omega arith) (omega arith) there in
      rw (seen, read_word) refl

  -- A page without a frame: nothing happens.
  pub free_page-absent : entry % 2 ≡ 0 → free_page source translate st.cr3 pools page_no st ≡ ok st
  unfolding free_page
  free_page-absent even =
      rw
        (
          address,
          legitimate,
          read_pte,
          ne→== (bit_and entry 1) 1 (omega (arith, bit_and-one entry)),
        )
        refl

  -- `free_page` of a present page of a registered pool below the last 4 MB, whose page table is
  -- there and whose frame the pool takes back, ends with the page not present; every other page
  -- below the last 4 MB translates as before, and the invariant of the paging structures holds
  -- again. The invariant of the paging structures holds before. The processor's walk is a
  -- parameter with the documented behaviour of two-level paging.
  pub free_page-present :
      (s : S)
      → entry % 2 ≡ 1
      → entry < word_mod
      → source.release_frames (entry / 4096) st.frames ≡ ok s
      → (m' : ℕ → ℕ) × (free_page source translate st.cr3 pools page_no st
          ≡ ok (record st { memory = m'; frames = s }))
        × ((a : ℕ) → a / 4096 ≡ page_no → translate m' st.cr3 a ≡ none)
        × ((a : ℕ)
            → a < 4290772992
            → a / 4096 ≢ page_no
            → translate m' st.cr3 a ≡ translate st.memory st.cr3 a)
        × IsPaging m' st.cr3
  unfolding free_page load
  free_page-present s odd fits released =
      let cr2 = page_no * 4096 in
      let w = bit_and entry 4294967294 in
      let m' = written mmu st.memory st.cr3 cr2 w v small there in
      (
        m',
        rw
            (
              address,
              legitimate,
              read_pte,
              eq→== (bit_and entry 1) 1 (bit_and-one entry ∙ odd),
              released,
              write_pte source mmu cr2 small (record st { frames = s }) w v.self_mapped there,
            )
            refl,
        λ a same.
            mmu.no_page m' st.cr3 a v.self_mapped.aligned (omega arith)
              (ap (λ z. z % 2)
                  (written-pde mmu st.memory st.cr3 cr2 w v small there a (omega arith))
                ∙ there)
              (ap (λ z. z % 2)
                  (written-pte mmu st.memory st.cr3 cr2 w v small there a (omega arith))
                ∙ omega (arith, clear_present entry fits)),
        λ a low ne. written-others mmu st.memory st.cr3 cr2 w v small there a low (omega arith),
        written-IsPaging mmu st.memory st.cr3 cr2 w v small there,
      )

-- A page whose page table is missing: the handler faults itself, at the entry's address.
module _ {S : Type 0} (source : FrameSource S) {translate : Translation} (mmu : IsMmu translate)
    (pools : List VmPool) (page_no : ℕ) (small : page_no * 4096 < 4290772992) (st : Paging S)
    (v : IsPaging st.memory st.cr3) where
  -- `free_page` of a page below the last 4 MB of a registered pool whose page table is missing
  -- ends in a page fault at the address of the missing table's entry. The invariant of the paging
  -- structures holds before. The processor's walk is a parameter with the documented behaviour of
  -- two-level paging.
  pub free_page_no_table :
      st.memory (st.cr3 + directory_index (page_no * 4096) * 4) % 2 ≡ 0
      → any_legitimate pools (page_no * 4096) ≡ true
      → free_page source translate st.cr3 pools page_no st ≡ faulted (pte_address (page_no * 4096))
  unfolding free_page read_word
  free_page_no_table absent legitimate =
      let cr2 = page_no * 4096 in
      let whole : mul32 page_no 4096 ≡ page_no * 4096 = omega arith in
      let at = pte_address_lem cr2 (omega arith) in
      let dir : pde st.memory st.cr3 (pte_address cr2) ≡ st.memory (st.cr3 + 4092) =
        ap st.memory (omega (arith, at)) in
      let missing : translate st.memory st.cr3 (pte_address cr2) ≡ none =
        mmu.no_page st.memory st.cr3 (pte_address cr2) v.self_mapped.aligned (omega (arith, at))
          (ap (λ z. z % 2) dir ∙ v.self_mapped.self_present)
          (ap (λ z. st.memory z % 2) (omega (arith, at, dir, v.self_mapped.self)) ∙ absent) in
      rw (whole, legitimate, missing, read_word) (ap (λ z. faulted (pte_address z)) whole)
