-- ===== src/DemandPaging/Steps.antt =====
-- What a new page table and a new page keep of the ownership of frames.
use demand_paged_virtual_mem.Common.{
  ℕ, ◌+◌, ◌*◌, ◌/◌, ◌%◌, ◌<◌, ◌≡◌, ◌≢◌, ◌∙◌, sym, subst, ◌⊎◌, inl, inr, arith, ap, some,
}
use demand_paged_virtual_mem.Common.{ℕ_discrete}
use demand_paged_virtual_mem.FramePool.{Pool}
use demand_paged_virtual_mem.PageTable.{Translation}
use demand_paged_virtual_mem.PageTable.Addresses.{directory_index, offset}
use demand_paged_virtual_mem.PageTable.Mmu.{frame_of, pde}
use demand_paged_virtual_mem.PageTable.Fault.{IsFresh, PageAdded}
use demand_paged_virtual_mem.PageTable.NewTable.{TableAdded}
use demand_paged_virtual_mem.DemandPaging.Owned.{IsUsable, IsOwned, OneTaken}

module _ {translate : Translation} {m m' : ℕ → ℕ} {cr3 : ℕ} {p q : Pool} {s : ℕ}
    (o : IsOwned translate m cr3 p) (k : OneTaken p s q) where
  module _ {x : ℕ} (t : TableAdded translate m cr3 x (p.base_frame_no + s) m') where
    table_cases :
        (i : ℕ)
        → i < 1023
        → m' (cr3 + i * 4) % 2 ≡ 1
        → (frame_of (m' (cr3 + i * 4)) ≡ (p.base_frame_no + s) * 4096)
          ⊎ ((m (cr3 + i * 4) % 2 ≡ 1) × (frame_of (m' (cr3 + i * 4)) ≡ frame_of (m (cr3 + i * 4))))
    table_cases i lt odd = elim (ℕ_discrete i x) [
      | yes e ↦ inl (ap (λ z. frame_of (m' (cr3 + z * 4))) e ∙ ap frame_of t.entry ∙ omega arith)
      | no ne ↦
          let same = t.words i (omega arith) ne in
          inr (ap (λ z. z % 2) (sym same) ∙ odd, ap frame_of same)
    ]

    table-same : (b : ℕ) → IsUsable b → translate m' cr3 b ≡ translate m cr3 b
    table-same b u = t.same b u.1 (inr u.2)

    -- A new page table in a frame of the pool.
    pub table-IsOwned : IsOwned translate m' cr3 q
    table-IsOwned = record {
      paging = t.valid;
      valid = k.valid;
      real = omega (arith, k.base, o.real);
      fresh = λ g lt is.
          let (ne, was) = k.left g is in
          let f = o.fresh g (omega (arith, k.size)) was in
          subst (λ z. IsFresh m' cr3 (z + g)) (sym k.base)
            (
              f.0,
              λ i li odd e. elim (table_cases i li odd) [
                | inl new ↦ ne (omega (arith, new, e))
                | inr (odd', old) ↦ f.1 i li odd' (sym old ∙ e)
              ],
            );
      unmapped = λ g b y lt is u at e.
          let (ne, was) = k.left g is in
          o.unmapped g b y (omega (arith, k.size)) was u (sym (table-same b u) ∙ at)
            (omega (arith, e, k.base));
      injective = λ a b y z ua ub at bt e.
          o.injective a b y z ua ub (sym (table-same a ua) ∙ at) (sym (table-same b ub) ∙ bt) e;
      off_directory = λ b y u at e. o.off_directory b y u (sym (table-same b u) ∙ at) e;
      off_tables = λ b y i u at li odd e.
          let was = sym (table-same b u) ∙ at in
          elim (table_cases i li odd) [
            | inl new ↦ o.unmapped s b y k.inside k.was u was (omega (arith, e, new))
            | inr (odd', old) ↦ o.off_tables b y i u was li odd' (e ∙ old)
          ];
    }

    pub table-data :
        (b y : ℕ)
        → IsUsable b
        → translate m cr3 b ≡ some y
        → (translate m' cr3 b ≡ some y) × (m' y ≡ m y)
    table-data b y u at = (
      table-same b u ∙ at,
      t.elsewhere y (o.off_directory b y u at)
          (λ e. o.unmapped s b y k.inside k.was u at (omega (arith, e))),
    )

  module _ {cr2 : ℕ} (usable : IsUsable cr2) (there : pde m cr3 cr2 % 2 ≡ 1)
      (a : PageAdded translate m cr3 cr2 (p.base_frame_no + s) m') where
    -- The directory's words stay, since the page's table is not the directory.
    word-same : (i : ℕ) → i < 1023 → m' (cr3 + i * 4) ≡ m (cr3 + i * 4)
    word-same i lt = a.elsewhere (cr3 + i * 4) (λ e.
        o.paging.apart (directory_index cr2) (omega (arith, usable)) there
          (omega (arith, o.paging.self_mapped.aligned, e)))

    page_cases :
        (b y : ℕ)
        → IsUsable b
        → translate m' cr3 b ≡ some y
        → ((b / 4096 ≡ cr2 / 4096) × (y / 4096 ≡ p.base_frame_no + s))
          ⊎ ((b / 4096 ≢ cr2 / 4096) × (translate m cr3 b ≡ some y))
    page_cases b y u at = elim (ℕ_discrete (b / 4096) (cr2 / 4096)) [
      | yes e ↦
          let same : some ((p.base_frame_no + s) * 4096 + offset b) ≡ some y =
            sym (a.added b e) ∙ at in
          let value : (p.base_frame_no + s) * 4096 + offset b ≡ y = cc in
          inl (e, omega (arith, value))
      | no ne ↦ inr (ne, sym (a.others b u.1 ne) ∙ at)
    ]

    -- A new page in a frame of the pool.
    pub page-IsOwned : IsOwned translate m' cr3 q
    page-IsOwned = record {
      paging = a.kept;
      valid = k.valid;
      real = omega (arith, k.base, o.real);
      fresh = λ g lt is.
          let (ne, was) = k.left g is in
          let f = o.fresh g (omega (arith, k.size)) was in
          subst (λ z. IsFresh m' cr3 (z + g)) (sym k.base)
            (
              f.0,
              λ i li odd e.
                  f.1 i li (ap (λ z. z % 2) (sym (word-same i li)) ∙ odd)
                    (ap frame_of (sym (word-same i li)) ∙ e),
            );
      unmapped = λ g b y lt is u at e.
          let (ne, was) = k.left g is in
          elim (page_cases b y u at) [
            | inl (here, frame) ↦ ne (omega (arith, frame, e, k.base))
            | inr (there_, old) ↦
                o.unmapped g b y (omega (arith, k.size)) was u old (omega (arith, e, k.base))
          ];
      injective = λ b c y z ub uc bt ct e. elim (page_cases b y ub bt) [
        | inl (here, frame) ↦ elim (page_cases c z uc ct) [
          | inl (here', frame') ↦ here ∙ sym here'
          | inr (ne, old) ↦ absurd (o.unmapped s c z k.inside k.was uc old (sym e ∙ frame))
        ]
        | inr (ne, old) ↦ elim (page_cases c z uc ct) [
          | inl (here', frame') ↦ absurd (o.unmapped s b y k.inside k.was ub old (e ∙ frame'))
          | inr (ne', old') ↦ o.injective b c y z ub uc old old' e
        ]
      ];
      off_directory = λ b y u at e. elim (page_cases b y u at) [
        | inl (here, frame) ↦ (o.fresh s k.inside k.was).0 (omega (arith, frame, e))
        | inr (ne, old) ↦ o.off_directory b y u old e
      ];
      off_tables = λ b y i u at li odd e.
          let odd' = ap (λ z. z % 2) (sym (word-same i li)) ∙ odd in
          let e' = e ∙ ap frame_of (word-same i li) in
          elim (page_cases b y u at) [
            | inl (here, frame) ↦ (o.fresh s k.inside k.was).1 i li odd' (omega (arith, frame, e'))
            | inr (ne, old) ↦ o.off_tables b y i u old li odd' e'
          ];
    }

    pub page-data :
        (b y : ℕ)
        → IsUsable b
        → b / 4096 ≢ cr2 / 4096
        → translate m cr3 b ≡ some y
        → (translate m' cr3 b ≡ some y) × (m' y ≡ m y)
    page-data b y u ne at = (
      a.others b u.1 ne ∙ at,
      a.elsewhere y (o.off_tables b y (directory_index cr2) u at (omega (arith, usable)) there),
    )
