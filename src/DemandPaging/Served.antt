-- ===== src/DemandPaging/Served.antt =====
-- A page fault of the demand-paged memory, from the exception to the handler's return.
use demand_paged_virtual_mem.Common.{
  ℕ, ◌+◌, ◌*◌, ◌/◌, ◌%◌, ◌≤◌, ◌<◌, ◌≡◌, ◌≢◌, refl, ◌∙◌, sym, inl, inr, arith, ok, ap, word_mod,
  none, some, eq→==, ne→==,
}
use demand_paged_virtual_mem.FramePool.{Pool, get_frames}
use demand_paged_virtual_mem.Dispatch.{handled, dispatch_exception}
use demand_paged_virtual_mem.PageTable.{Paging, Translation, handle_fault}
use demand_paged_virtual_mem.PageTable.Addresses.{offset}
use demand_paged_virtual_mem.PageTable.Mmu.{IsMmu, frame_of, pde, pte, parity}
use demand_paged_virtual_mem.PageTable.Handler.{handle_fault-PageAdded}
use demand_paged_virtual_mem.PageTable.Frames.{pte-page}
use demand_paged_virtual_mem.PageTable.NewTable.{handle_fault-both}
use demand_paged_virtual_mem.DemandPaging.{System, handle_exception}
use demand_paged_virtual_mem.DemandPaging.Owned.{IsUsable, IsOwned, get_frames-OneTaken}
use demand_paged_virtual_mem.DemandPaging.Steps.{table-IsOwned, table-data, page-IsOwned, page-data}

-- The processor walks as documented, frames come from the process pool, and the page fault handler is
-- registered for exception 14.
pub record IsSystem (sys : System) (fuel : ℕ) : Type 0 where
  pub mmu : IsMmu sys.translate
  pub frames : (p : Pool) → sys.source.get_frame p ≡ get_frames fuel p 1
  pub registered : sys.handlers 14 ≡ sys.pagefault_handler
  pub not_null : sys.pagefault_handler ≢ 0

pub record IsReady (sys : System) (fuel : ℕ) (st : Paging Pool) : Type 0 where
  pub owned : IsOwned sys.translate st.memory st.cr3 st.frames
  pub enough : st.frames.nframes < fuel

-- What is mapped stays mapped with what it holds, and at most two frames are taken.
pub record IsKept (sys : System) (st st1 : Paging Pool) : Type 0 where
  pub same_cr3 : st1.cr3 ≡ st.cr3
  pub pages :
      (b y : ℕ)
      → IsUsable b
      → sys.translate st.memory st.cr3 b ≡ some y
      → (sys.translate st1.memory st1.cr3 b ≡ some y) × (st1.memory y ≡ st.memory y)
  pub cost : st.frames.n_free_frames ≤ st1.frames.n_free_frames + 2

-- The fault at `a` is served: the page is there afterwards.
pub record IsServed (sys : System) (fuel : ℕ) (st : Paging Pool) (a : ℕ) (st1 : Paging Pool)
    : Type 0 where
  pub ready : IsReady sys fuel st1
  pub physical : ℕ
  pub there : sys.translate st1.memory st1.cr3 a ≡ some physical
  pub kept : IsKept sys st st1

pub none-not_some : (y : ℕ) → none ≢ some y
none-not_some y e = ground arith

-- The addresses of one page are present together.
pub absent-page :
    {translate : Translation} (mmu : IsMmu translate) (m : ℕ → ℕ) (cr3 a b y : ℕ)
    → cr3 % 4096 ≡ 0
    → a < word_mod
    → translate m cr3 a ≡ none
    → translate m cr3 b ≡ some y
    → b / 4096 ≢ a / 4096
absent-page mmu m cr3 a b y aligned small absent at same =
    let (dir, word) = pte-page m cr3 b a same in
    elim (parity (pde m cr3 a)) [
      | inr no_table ↦
          none-not_some y
            (sym (mmu.no_table m cr3 b aligned (omega arith) (ap (λ z. z % 2) dir ∙ no_table)) ∙ at)
      | inl table ↦ elim (parity (pte m cr3 a)) [
        | inl page ↦
            none-not_some (frame_of (pte m cr3 a) + offset a)
              (sym absent ∙ mmu.present m cr3 a aligned small table page)
        | inr no_page ↦ none-not_some y (
            sym (
              mmu.no_page m cr3 b aligned (omega arith) (ap (λ z. z % 2) dir ∙ table)
                (ap (λ z. z % 2) word ∙ no_page))
            ∙ at)
      ]
    ]

module _ {sys : System} {fuel : ℕ} (w : IsSystem sys fuel) (st : Paging Pool)
    (r : IsReady sys fuel st) (a : ℕ) (u : IsUsable a)
    (absent : sys.translate st.memory st.cr3 a ≡ none) (err_code : ℕ)
    (even : err_code % 2 ≡ 0) where
  found-IsServed :
      pde st.memory st.cr3 a % 2 ≡ 1
      → 0 < st.frames.n_free_frames
      → (st1 : Paging Pool) × (handle_fault sys.source sys.translate err_code a st ≡ ok st1)
        × IsServed sys fuel st a st1
  found-IsServed there pos =
      let o = r.owned in
      let (s, q, got, k) = get_frames-OneTaken st.frames fuel o.valid r.enough pos in
      let n = st.frames.base_frame_no + s in
      let (m', run, added) =
        handle_fault-PageAdded sys.source w.mmu a u.1 err_code st n q even o.paging there
          (w.frames st.frames ∙ got) (omega (arith, o.real))
          (omega (arith, o.valid.small, k.inside)) in
      (
        record st { memory = m'; frames = q },
        run,
        record {
          ready = record {
            owned = page-IsOwned o k u there added;
            enough = omega (arith, k.size, r.enough);
          };
          physical = n * 4096 + offset a;
          there = added.added a refl;
          kept = record {
            same_cr3 = refl;
            pages = λ b y ub at.
                page-data o k u there added b y ub
                  (absent-page w.mmu st.memory st.cr3 a b y o.paging.self_mapped.aligned
                    (omega arith) absent at)
                  at;
            cost = omega (arith, k.counter);
          };
        },
      )

  missing-IsServed :
      pde st.memory st.cr3 a % 2 ≡ 0
      → 1 < st.frames.n_free_frames
      → (st1 : Paging Pool) × (handle_fault sys.source sys.translate err_code a st ≡ ok st1)
        × IsServed sys fuel st a st1
  missing-IsServed no_table pos =
      let o = r.owned in
      let (s, q, got, k) = get_frames-OneTaken st.frames fuel o.valid r.enough (omega arith) in
      let (s2, q2, got2, k2) =
        get_frames-OneTaken q fuel k.valid (omega (arith, k.size, r.enough))
          (omega (arith, k.counter)) in
      let table = st.frames.base_frame_no + s in
      let n = q.base_frame_no + s2 in
      let (m1, m', t, run, added) =
        handle_fault-both sys.source w.mmu a u.1 st o.paging no_table table q
          (w.frames st.frames ∙ got) (omega (arith, o.real))
          (omega (arith, o.valid.small, k.inside)) (o.fresh s k.inside k.was) err_code n q2 even
          (w.frames q ∙ got2) (omega (arith, o.real, k.base))
          (omega (arith, o.valid.small, k2.inside, k.base, k.size)) in
      let o1 = table-IsOwned o k t in
      let there : pde m1 st.cr3 a % 2 ≡ 1 = ap (λ z. z % 2) t.entry ∙ omega arith in
      (
        record st { memory = m'; frames = q2 },
        run,
        record {
          ready = record {
            owned = page-IsOwned o1 k2 u there added;
            enough = omega (arith, k.size, k2.size, r.enough);
          };
          physical = n * 4096 + offset a;
          there = added.added a refl;
          kept = record {
            same_cr3 = refl;
            pages = λ b y ub at.
                let (at1, word1) = table-data o k t b y ub at in
                let (at2, word2) =
                  page-data o1 k2 u there added b y ub
                    (absent-page w.mmu st.memory st.cr3 a b y o.paging.self_mapped.aligned
                      (omega arith) absent at)
                    at1 in
                (at2, word2 ∙ word1);
            cost = omega (arith, k.counter, k2.counter);
          };
        },
      )

  handle_fault-IsServed :
      1 < st.frames.n_free_frames
      → (st1 : Paging Pool) × (handle_fault sys.source sys.translate err_code a st ≡ ok st1)
        × IsServed sys fuel st a st1
  handle_fault-IsServed pos = elim (parity (pde st.memory st.cr3 a)) [
    | inl there ↦ found-IsServed there (omega arith)
    | inr no_table ↦ missing-IsServed no_table pos
  ]

  -- The processor's walk is a parameter with the documented behaviour of two-level paging, the
  -- frames come from the process pool, and the page fault handler is registered for exception 14.
  -- The memory is ready: each frame belongs to the pool, to the paging structures or to one page,
  -- and there is more fuel than the pool has frames. With two frames free, the exception for a
  -- reference to a usable address, from 4 MB up to the last 4 MB and not on the last page of a 4
  -- MB region, that is not present is handled: the handler returns, the address is present, every
  -- usable address that was present stays so with the word it holds, the memory is ready again,
  -- and at most two frames are taken.
  pub dispatch_exception-IsServed :
      1 < st.frames.n_free_frames
      → (st1 : Paging Pool) × (dispatch_exception
            (handle_exception sys err_code a)
            sys.handlers
            14
            st
          ≡ ok (handled st1))
        × IsServed sys fuel st a st1
  dispatch_exception-IsServed pos =
      let (st1, run, served) = handle_fault-IsServed pos in
      (
        st1,
        (unfold dispatch_exception handle_exception in
            rw
              (
                w.registered,
                ne→== sys.pagefault_handler 0 w.not_null,
                eq→== sys.pagefault_handler sys.pagefault_handler refl,
                run,
              )
              refl),
        served,
      )
