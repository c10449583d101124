-- ===== src/PageTable/Handler.antt =====
-- What `handle_fault` does, step by step.
use demand_paged_virtual_mem.Common.{
  ℕ, ◌+◌, ◌*◌, ◌%◌, ◌<◌, ◌≡◌, ◌≢◌, refl, ◌==◌, not, ◌∙◌, arith, update, ok, assert_failed, ◌>>=◌,
  ◌>>◌, assert, eq→==, ne→==, bit_and, ◌^◌,
}
use demand_paged_virtual_mem.Common.Digits.{bit_and-one}
use demand_paged_virtual_mem.PageTable.{
  FrameSource, Paging, Translation, entry_of, pde_address, pte_address, read_word, write_word,
  make_table, handle_fault,
}
use demand_paged_virtual_mem.PageTable.Addresses.{
  directory_index, table_index, pde_address_lem, pte_address_lem,
}
use demand_paged_virtual_mem.PageTable.Mmu.{
  IsMmu, SelfMapped, frame_of, entry_of_lem, view_table, view_directory,
}
use demand_paged_virtual_mem.PageTable.Fill.{write_word-some}
use demand_paged_virtual_mem.PageTable.Fault.{IsPaging, PageAdded, written, page-PageAdded}

module _ {S : Type 0} (source : FrameSource S) {translate : Translation} (mmu : IsMmu translate)
    (cr2 : ℕ) (small : cr2 < 4290772992) where
  read_pde :
      (st : Paging S)
      → SelfMapped st.memory st.cr3
      → read_word translate (pde_address cr2) st ≡ ok (st.memory (st.cr3 + directory_index cr2 * 4))
  unfolding read_word
  read_pde st s =
      let seen =
        view_directory mmu st.memory st.cr3 s (pde_address cr2) (directory_index cr2 * 4)
          (pde_address_lem cr2 (omega arith)) (omega arith) in
      rw (seen, read_word) refl

  pub write_pde :
      (st : Paging S) (word : ℕ)
      → SelfMapped st.memory st.cr3
      → write_word translate (pde_address cr2) word st
        ≡ ok (record st { memory = update st.memory (st.cr3 + directory_index cr2 * 4) word })
  write_pde st word s =
      write_word-some translate (pde_address cr2) word (st.cr3 + directory_index cr2 * 4) st (
        view_directory mmu st.memory st.cr3 s (pde_address cr2) (directory_index cr2 * 4)
          (pde_address_lem cr2 (omega arith)) (omega arith))

  pub write_pte :
      (st : Paging S) (word : ℕ)
      → SelfMapped st.memory st.cr3
      → st.memory (st.cr3 + directory_index cr2 * 4) % 2 ≡ 1
      → write_word translate (pte_address cr2) word st
        ≡ ok (record st {
          memory =
              update st.memory
                (frame_of (st.memory (st.cr3 + directory_index cr2 * 4)) + table_index cr2 * 4)
                word;
        })
  write_pte st word s there =
      write_word-some translate (pte_address cr2) word
        (frame_of (st.memory (st.cr3 + directory_index cr2 * 4)) + table_index cr2 * 4) st
        (view_table mmu st.memory st.cr3 s (pte_address cr2) (directory_index cr2)
          (table_index cr2 * 4) (pte_address_lem cr2 (omega arith)) (omega arith) (omega arith)
          there)

  pub handle_fault-found :
      (err_code : ℕ) (st : Paging S)
      → err_code % 2 ≡ 0
      → SelfMapped st.memory st.cr3
      → st.memory (st.cr3 + directory_index cr2 * 4) % 2 ≡ 1
      → handle_fault source translate err_code cr2 st ≡ (
          source.get_frame st.frames >>= λ new.
          assert (not (new.0 == 0))
          >> write_word translate
              (pte_address cr2)
              (entry_of new.0 7)
              (record st { frames = new.1 }))
  unfolding handle_fault
  handle_fault-found err_code st even s there =
      let e = st.memory (st.cr3 + directory_index cr2 * 4) in
      rw
        (
          eq→== (bit_and err_code 1) 0 (bit_and-one err_code ∙ even),
          read_pde st s,
          ne→== (bit_and e 1) 0 (omega (arith, bit_and-one e)),
        )
        refl

  pub handle_fault-missing :
      (err_code : ℕ) (st st1 : Paging S)
      → err_code % 2 ≡ 0
      → SelfMapped st.memory st.cr3
      → st.memory (st.cr3 + directory_index cr2 * 4) % 2 ≡ 0
      → make_table source translate cr2 st ≡ ok st1
      → handle_fault source translate err_code cr2 st ≡ (
          source.get_frame st1.frames >>= λ new.
          assert (not (new.0 == 0))
          >> write_word translate
              (pte_address cr2)
              (entry_of new.0 7)
              (record st1 { frames = new.1 }))
  unfolding handle_fault
  handle_fault-missing err_code st st1 even s missing made =
      let e = st.memory (st.cr3 + directory_index cr2 * 4) in
      rw
        (
          eq→== (bit_and err_code 1) 0 (bit_and-one err_code ∙ even),
          read_pde st s,
          eq→== (bit_and e 1) 0 (omega (arith, bit_and-one e)),
          made,
        )
        refl

  -- The part behind the page table, with a table there.
  pub add_page :
      (st : Paging S) (n : ℕ) (s : S)
      → IsPaging st.memory st.cr3
      → st.memory (st.cr3 + directory_index cr2 * 4) % 2 ≡ 1
      → source.get_frame st.frames ≡ ok (n, s)
      → n ≢ 0
      → n < 2 ^ 20
      → (m' : ℕ → ℕ) × ((source.get_frame st.frames >>= λ new.
            assert (not (new.0 == 0))
            >> write_word translate
                (pte_address cr2)
                (entry_of new.0 7)
                (record st { frames = new.1 }))
          ≡ ok (record st { memory = m'; frames = s }))
        × PageAdded translate st.memory st.cr3 cr2 n m'
  add_page st n s v there got real frame = (
    written mmu st.memory st.cr3 cr2 (n * 4096 + 7) v small there,
    rw
        (
          got,
          ne→== n 0 real,
          entry_of_lem n 7 frame (omega arith),
          write_pte (record st { frames = s }) (n * 4096 + 7) v.self_mapped there,
        )
        refl,
    page-PageAdded mmu st.memory st.cr3 cr2 n v small frame there,
  )

  -- A fault below the last 4 MB whose page table is there, when the pool returns a frame, ends
  -- with the faulting page mapped to that frame: every other page below the last 4 MB translates
  -- as before, and the invariant of the paging structures holds again. The processor's walk is a
  -- parameter with the documented behaviour of two-level paging.
  pub handle_fault-PageAdded :
      (err_code : ℕ) (st : Paging S) (n : ℕ) (s : S)
      → err_code % 2 ≡ 0
      → IsPaging st.memory st.cr3
      → st.memory (st.cr3 + directory_index cr2 * 4) % 2 ≡ 1
      → source.get_frame st.frames ≡ ok (n, s)
      → n ≢ 0
      → n < 2 ^ 20
      → (m' : ℕ → ℕ) × (handle_fault source translate err_code cr2 st
          ≡ ok (record st { memory = m'; frames = s }))
        × PageAdded translate st.memory st.cr3 cr2 n m'
  handle_fault-PageAdded err_code st n s even v there got real frame =
      let (m', run, added) = add_page st n s v there got real frame in
      (m', handle_fault-found err_code st even v.self_mapped there ∙ run, added)

  -- A protection fault fails the assertion.
  pub handle_fault-protection :
      (err_code : ℕ) (st : Paging S)
      → err_code % 2 ≡ 1
      → handle_fault source translate err_code cr2 st ≡ assert_failed
  unfolding handle_fault
  handle_fault-protection err_code st odd =
      rw (ne→== (bit_and err_code 1) 0 (omega (arith, bit_and-one err_code))) refl
