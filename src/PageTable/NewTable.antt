-- ===== src/PageTable/NewTable.antt =====
-- `PageTable::handle_fault` where the page table is missing.
use demand_paged_virtual_mem.Common.{
  ℕ, ◌+◌, ◌*◌, ◌/◌, ◌%◌, ◌<◌, ◌≡◌, ◌≢◌, refl, ◌==◌, ◌∙◌, sym, ◌⊎◌, inl, inr, arith, update, ok, ap,
  some, ne→==, Bool-cases, ==→eq, ==→ne, ◌^◌,
}
use demand_paged_virtual_mem.PageTable.{
  FrameSource, Paging, Translation, page_table_address, make_table, handle_fault,
}
use demand_paged_virtual_mem.PageTable.Addresses.{
  directory_index, table_index, offset, page_table_address_lem,
}
use demand_paged_virtual_mem.PageTable.Mmu.{IsMmu, frame_of, pde, pte, entry_of_lem, translate-same}
use demand_paged_virtual_mem.PageTable.Fill.{
  Filled, SelfMapped-ext, update-other, update-same, fill_table_lem,
}
use demand_paged_virtual_mem.PageTable.Fault.{IsPaging, IsFresh, PageAdded}
use demand_paged_virtual_mem.PageTable.Handler.{write_pde, handle_fault-missing, add_page}

-- The memory `m'` has a new table in frame `n` for the directory's entry `x`, which was absent in
-- `m`. The table maps nothing but, through its last entry, itself.
pub record TableAdded (translate : Translation) (m : ℕ → ℕ) (cr3 x n : ℕ) (m' : ℕ → ℕ)
    : Type 0 where
  pub entry : m' (cr3 + x * 4) ≡ n * 4096 + 7
  pub same :
      (a : ℕ)
      → a < 4290772992
      → (directory_index a ≢ x) ⊎ (table_index a < 1023)
      → translate m' cr3 a ≡ translate m cr3 a
  pub last_page :
      (a : ℕ)
      → directory_index a ≡ x
      → table_index a ≡ 1023
      → translate m' cr3 a ≡ some (n * 4096 + offset a)
  pub valid : IsPaging m' cr3
  pub words : (i : ℕ) → i < 1024 → i ≢ x → m' (cr3 + i * 4) ≡ m (cr3 + i * 4)
  pub elsewhere : (q : ℕ) → frame_of q ≢ cr3 → frame_of q ≢ n * 4096 → m' q ≡ m q

module _ {translate : Translation} (mmu : IsMmu translate) (m m' : ℕ → ℕ) (cr3 x n : ℕ)
    (v : IsPaging m cr3) (small : x < 1023) (frame : n < 2 ^ 20) (fresh : IsFresh m cr3 n)
    (absent : m (cr3 + x * 4) % 2 ≡ 0)
    (f : Filled n 0 (update m (cr3 + x * 4) (n * 4096 + 7)) m') where
  aligned : cr3 % 4096 ≡ 0
  aligned = v.self_mapped.aligned

  word-other : (i : ℕ) → i < 1024 → i ≢ x → m' (cr3 + i * 4) ≡ m (cr3 + i * 4)
  word-other i lt ne =
      f.outside (cr3 + i * 4) (ground (arith, aligned, fresh.0))
      ∙ update-other m (cr3 + x * 4) (n * 4096 + 7) (cr3 + i * 4) (omega arith)

  word-new : m' (cr3 + x * 4) ≡ n * 4096 + 7
  word-new =
      f.outside (cr3 + x * 4) (ground (arith, aligned, fresh.0))
      ∙ update-same m (cr3 + x * 4) (n * 4096 + 7)

  -- A present entry is the new one or an old one.
  entry_cases :
      (i : ℕ)
      → i < 1023
      → m' (cr3 + i * 4) % 2 ≡ 1
      → ((i ≡ x) × (frame_of (m' (cr3 + i * 4)) ≡ n * 4096))
        ⊎ ((i ≢ x)
            × (m (cr3 + i * 4) % 2 ≡ 1)
            × (frame_of (m' (cr3 + i * 4)) ≡ frame_of (m (cr3 + i * 4))))
  entry_cases i lt odd = elim (Bool-cases (i == x)) [
    | inl e ↦
        let here = ==→eq i x e in
        inl (here, ap (λ z. frame_of (m' (cr3 + z * 4))) here ∙ ap frame_of word-new ∙ omega arith)
    | inr e ↦
        let ne = ==→ne i x e in
        let old = word-other i (omega arith) ne in
        inr (ne, ap (λ z. z % 2) (sym old) ∙ odd, ap frame_of old)
  ]

  new-IsPaging : IsPaging m' cr3
  new-IsPaging = record {
    self_mapped =
        SelfMapped-ext m m' cr3
          (ap m' (omega arith) ∙ word-other 1023 (omega arith) (omega arith) ∙ ap m (omega arith))
          v.self_mapped;
    apart = λ i lt odd e. elim (entry_cases i lt odd) [
      | inl (here, base) ↦ fresh.0 (sym base ∙ e)
      | inr (ne, odd', base) ↦ v.apart i lt odd' (sym base ∙ e)
    ];
    distinct = λ i j lt lt' odd odd' e. elim (entry_cases i lt odd) [
      | inl (here, base) ↦ elim (entry_cases j lt' odd') [
        | inl (here', base') ↦ here ∙ sym here'
        | inr (ne', was', base') ↦ absurd (fresh.1 j lt' was' (sym base' ∙ sym e ∙ base))
      ]
      | inr (ne, was, base) ↦ elim (entry_cases j lt' odd') [
        | inl (here', base') ↦ absurd (fresh.1 i lt was (sym base ∙ e ∙ base'))
        | inr (ne', was', base') ↦ v.distinct i j lt lt' was was' (sym base ∙ e ∙ base')
      ]
    ];
  }

  pde-new : (a : ℕ) → directory_index a ≡ x → pde m' cr3 a ≡ n * 4096 + 7
  pde-new a d = ap (λ z. m' (cr3 + z * 4)) d ∙ word-new

  pte-new : (a : ℕ) → directory_index a ≡ x → pte m' cr3 a ≡ m' (n * 4096 + 4 * table_index a)
  pte-new a d = ap m' (omega (arith, pde-new a d))

  new-TableAdded : TableAdded translate m cr3 x n m'
  new-TableAdded = record {
    entry = word-new;
    same = λ a low how. elim (Bool-cases (directory_index a == x)) [
      | inl e ↦
          let d = ==→eq (directory_index a) x e in
          let word = pde-new a d in
          let page : pte m' cr3 a ≡ 6 =
            pte-new a d ∙ f.inside (table_index a) (omega arith) (ground (arith, how, d)) in
          mmu.no_page m' cr3 a aligned (omega arith) (ap (λ z. z % 2) word ∙ omega arith)
            (ap (λ z. z % 2) page)
          ∙ sym (
              mmu.no_table m cr3 a aligned (omega arith) (ap (λ z. m (cr3 + z * 4) % 2) d ∙ absent))
      | inr e ↦
          let ne = ==→ne (directory_index a) x e in
          translate-same mmu m m' cr3 a aligned (omega arith)
            (word-other (directory_index a) (omega arith) ne) (λ odd. old_page a low ne odd)
    ];
    last_page = λ a d t.
        let word = pde-new a d in
        let page : pte m' cr3 a ≡ n * 4096 + 7 =
          pte-new a d ∙ ap (λ z. m' (n * 4096 + 4 * z)) t ∙ f.last (omega arith) in
        mmu.present m' cr3 a aligned (omega arith) (ap (λ z. z % 2) word ∙ omega arith)
          (ap (λ z. z % 2) page ∙ omega arith)
        ∙ ap (λ z. some (z + offset a)) (ap frame_of page ∙ omega arith);
    valid = new-IsPaging;
    words = word-other;
    elsewhere = λ q ne ne'.
        f.outside q (ground arith)
        ∙ update-other m (cr3 + x * 4) (n * 4096 + 7) q (λ e. ne (omega (arith, aligned)));
  }
    where
      old_page :
          (a : ℕ)
          → a < 4290772992
          → directory_index a ≢ x
          → pde m cr3 a % 2 ≡ 1
          → m' (frame_of (pde m cr3 a) + table_index a * 4) ≡ pte m cr3 a
      old_page a low ne odd =
          let q = frame_of (pde m cr3 a) + table_index a * 4 in
          let elsewhere = fresh.1 (directory_index a) (omega arith) odd in
          let apart = v.apart (directory_index a) (omega arith) odd in
          f.outside q (ground (arith, elsewhere))
          ∙ update-other m (cr3 + x * 4) (n * 4096 + 7) q (omega (arith, aligned))

module _ {S : Type 0} (source : FrameSource S) {translate : Translation} (mmu : IsMmu translate)
    (cr2 : ℕ) (small : cr2 < 4290772992) (st : Paging S) (v : IsPaging st.memory st.cr3)
    (absent : st.memory (st.cr3 + directory_index cr2 * 4) % 2 ≡ 0) (table : ℕ) (s : S)
    (got : source.get_frame st.frames ≡ ok (table, s)) (real : table ≢ 0) (frame : table < 2 ^ 20)
    (fresh : IsFresh st.memory st.cr3 table) where
  make_table-TableAdded :
      (m' : ℕ → ℕ) × (make_table source translate cr2 st
        ≡ ok (record st { memory = m'; frames = s }))
      × TableAdded translate st.memory st.cr3 (directory_index cr2) table m'
  unfolding make_table
  make_table-TableAdded =
      let w = table * 4096 + 7 in
      let p = st.cr3 + directory_index cr2 * 4 in
      let st1 = record st { memory = update st.memory p w; frames = s } in
      let aligned = v.self_mapped.aligned in
      let self =
        SelfMapped-ext st.memory (update st.memory p w) st.cr3
          (update-other st.memory p w (st.cr3 + 4092) (omega arith)) v.self_mapped in
      let (m', run, f) =
        fill_table_lem mmu table (directory_index cr2) st.cr3 frame (omega arith) fresh.0 1024 0
          (page_table_address cr2) st1 refl refl self (update-same st.memory p w)
          (page_table_address_lem cr2 (omega arith) ∙ omega arith) in
      (
        m',
        rw
            (
              got,
              ne→== table 0 real,
              entry_of_lem table 7 frame (omega arith),
              write_pde source mmu cr2 small (record st { frames = s }) w v.self_mapped,
            )
            run,
        new-TableAdded mmu st.memory m' st.cr3 (directory_index cr2) table v (omega arith) frame
            fresh absent f,
      )

  module _ (err_code n : ℕ) (s' : S) (even : err_code % 2 ≡ 0)
      (got' : source.get_frame s ≡ ok (n, s')) (real' : n ≢ 0) (frame' : n < 2 ^ 20) where
    pub handle_fault-both :
        (m1 m' : ℕ → ℕ) × TableAdded translate st.memory st.cr3 (directory_index cr2) table m1
        × (handle_fault source translate err_code cr2 st
            ≡ ok (record st { memory = m'; frames = s' }))
        × PageAdded translate m1 st.cr3 cr2 n m'
    handle_fault-both =
        let (m1, made, t) = make_table-TableAdded in
        let st1 = record st { memory = m1; frames = s } in
        let (m', run, added) =
          add_page source mmu cr2 small st1 n s' t.valid (ap (λ z. z % 2) t.entry ∙ omega arith)
            got' real' frame' in
        (
          m1,
          m',
          t,
          handle_fault-missing source mmu cr2 small err_code st st1 even v.self_mapped absent made
              ∙ run,
          added,
        )

    -- A fault on a page that is not present, below the last 4 MB, whose page table is missing,
    -- when the pool returns first a frame that the paging structures do not use and then another
    -- frame, both below 2^20 and not 0, ends with the faulting page mapped to the second frame;
    -- below the last 4 MB, every other page outside the region of the fault, and every other page
    -- of the region but its last one, translates as before, and the invariant of the paging
    -- structures holds again. The invariant of the paging structures holds before. The
    -- processor's walk is a parameter with the documented behaviour of two-level paging.
    pub handle_fault-IsPaging :
        (m' : ℕ → ℕ) × (handle_fault source translate err_code cr2 st
          ≡ ok (record st { memory = m'; frames = s' }))
        × ((a : ℕ) → a / 4096 ≡ cr2 / 4096 → translate m' st.cr3 a ≡ some (n * 4096 + offset a))
        × ((a : ℕ)
            → a < 4290772992
            → a / 4096 ≢ cr2 / 4096
            → (directory_index a ≢ directory_index cr2) ⊎ (table_index a < 1023)
            → translate m' st.cr3 a ≡ translate st.memory st.cr3 a)
        × IsPaging m' st.cr3
    handle_fault-IsPaging =
        let (m1, m', t, run, added) = handle_fault-both in
        (
          m',
          run,
          added.added,
          (λ a low ne how. added.others a low ne ∙ t.same a low how),
          added.kept,
        )

    -- A fault on a page that is not present, below the last 4 MB and not the last page of its 4
    -- MB region, whose page table is missing, when the pool returns two frames as in
    -- `handle_fault-IsPaging`, ends with the last page of the region, which was never touched,
    -- mapped to the frame of the new page table itself. The invariant of the paging structures
    -- holds before. The processor's walk is a parameter with the documented behaviour of two-
    -- level paging.
    pub handle_fault_last_page :
        table_index cr2 ≢ 1023
        → (m' : ℕ → ℕ) × (handle_fault source translate err_code cr2 st
            ≡ ok (record st { memory = m'; frames = s' }))
          × ((a : ℕ)
              → directory_index a ≡ directory_index cr2
              → table_index a ≡ 1023
              → translate m' st.cr3 a ≡ some (table * 4096 + offset a))
    handle_fault_last_page ne =
        let (m1, m', t, run, added) = handle_fault-both in
        (m', run, λ a d l. added.others a (omega arith) (omega arith) ∙ t.last_page a d l)
