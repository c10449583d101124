-- ===== src/DemandPaging/Access.antt =====
-- Demand-paged memory as an array of words.
use demand_paged_virtual_mem.Common.{
  ℕ, ◌+◌, ◌*◌, ◌%◌, ◌<◌, ◌≡◌, ◌≢◌, ◌∙◌, sym, inl, inr, arith, update, ap, word_mod, Option, none,
  some,
}
use demand_paged_virtual_mem.FramePool.{Pool}
use demand_paged_virtual_mem.PageTable.{Paging, Translation}
use demand_paged_virtual_mem.PageTable.Addresses.{directory_index, table_index, offset}
use demand_paged_virtual_mem.PageTable.Mmu.{IsMmu, frame_of, pde, pte, parity, translate-same}
use demand_paged_virtual_mem.PageTable.Fill.{update-other}
use demand_paged_virtual_mem.PageTable.Fault.{IsPaging-ext}
use demand_paged_virtual_mem.DemandPaging.{System}
use demand_paged_virtual_mem.DemandPaging.Owned.{IsUsable, IsOwned}
use demand_paged_virtual_mem.DemandPaging.Served.{none-not_some}

-- The word that a page holds at an address, if the page is there.
unfoldable pub view : System → Paging Pool → ℕ → Option ℕ
view sys st a = elim (sys.translate st.memory st.cr3 a) [
  | none ↦ none
  | some physical ↦ some (st.memory physical)
]

-- What a present address means for the two entries, and for its place in the page.
present-entries :
    {translate : Translation} (mmu : IsMmu translate) (m : ℕ → ℕ) (cr3 a y : ℕ)
    → cr3 % 4096 ≡ 0
    → a < word_mod
    → translate m cr3 a ≡ some y
    → (pde m cr3 a % 2 ≡ 1) × (y % 4096 ≡ offset a)
present-entries {translate} mmu m cr3 a y aligned small at = elim (parity (pde m cr3 a)) [
  | inr no_table ↦ absurd (none-not_some y (sym (mmu.no_table m cr3 a aligned small no_table) ∙ at))
  | inl table ↦ elim (parity (pte m cr3 a)) [
    | inl page ↦
        let same : some (frame_of (pte m cr3 a) + offset a) ≡ some y =
          sym (mmu.present m cr3 a aligned small table page) ∙ at in
        let value : frame_of (pte m cr3 a) + offset a ≡ y = cc in (table, omega (arith, value))
    | inr no_page ↦
        absurd (none-not_some y (sym (mmu.no_page m cr3 a aligned small table no_page) ∙ at))
  ]
]

-- A word written to a page of the demand-paged memory changes no translation and no owner.
module _ {translate : Translation} (mmu : IsMmu translate) {m : ℕ → ℕ} {cr3 : ℕ} {p : Pool}
    (o : IsOwned translate m cr3 p) (a y word : ℕ) (u : IsUsable a)
    (at : translate m cr3 a ≡ some y) where
  write-directory : (i : ℕ) → i < 1024 → update m y word (cr3 + i * 4) ≡ m (cr3 + i * 4)
  write-directory i lt =
      update-other m y word (cr3 + i * 4)
        (λ e. o.off_directory a y u at (omega (arith, o.paging.self_mapped.aligned, e)))

  pub write-translate : (b : ℕ) → IsUsable b → translate (update m y word) cr3 b ≡ translate m cr3 b
  write-translate b ub =
      translate-same mmu m (update m y word) cr3 b o.paging.self_mapped.aligned (omega arith)
        (write-directory (directory_index b) (omega arith))
        (λ odd.
          update-other m y word (frame_of (pde m cr3 b) + table_index b * 4)
            (λ e. o.off_tables a y (directory_index b) u at (omega arith) odd (omega arith)))

  pub write-IsOwned : IsOwned translate (update m y word) cr3 p
  write-IsOwned = record {
    paging = IsPaging-ext m (update m y word) cr3 write-directory o.paging;
    valid = o.valid;
    real = o.real;
    fresh = λ g lt is.
        let f = o.fresh g lt is in
        (
          f.0,
          λ i li odd e.
              f.1 i li (ap (λ z. z % 2) (sym (write-directory i (omega arith))) ∙ odd)
                (ap frame_of (sym (write-directory i (omega arith))) ∙ e),
        );
    unmapped = λ g b x lt is ub bt. o.unmapped g b x lt is ub (sym (write-translate b ub) ∙ bt);
    injective = λ b c x z ub uc bt ct.
        o.injective b c x z ub uc (sym (write-translate b ub) ∙ bt)
          (sym (write-translate c uc) ∙ ct);
    off_directory = λ b x ub bt. o.off_directory b x ub (sym (write-translate b ub) ∙ bt);
    off_tables = λ b x i ub bt li odd e.
        let same = write-directory i (omega arith) in
        o.off_tables b x i ub (sym (write-translate b ub) ∙ bt) li
          (ap (λ z. z % 2) (sym same) ∙ odd) (e ∙ ap frame_of same);
  }

  -- Words at other addresses stay.
  pub write-other :
      (b x : ℕ) → IsUsable b → b ≢ a → translate m cr3 b ≡ some x → update m y word x ≡ m x
  write-other b x ub ne bt =
      let (odd, low) =
        present-entries mmu m cr3 a y o.paging.self_mapped.aligned (omega arith) at in
      let (odd', low') =
        present-entries mmu m cr3 b x o.paging.self_mapped.aligned (omega arith) bt in
      update-other m y word x
        (λ e. ne (omega (arith, o.injective b a x y ub u bt at (omega (arith, e)), low, low', e)))
