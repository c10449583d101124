-- ===== src/DemandPaging/Start.antt =====
-- The memory as `main` sets it up.
use demand_paged_virtual_mem.Common.{
  ℕ, ◌+◌, ◌*◌, ◌<◌, ◌≡◌, ◌≢◌, refl, ◌∙◌, sym, subst, inl, arith, update, ok, ap, none, some, ◌^◌,
}
use demand_paged_virtual_mem.FramePool.{
  Pool, new_pool, get_frames, needed_info_frames, mark_inaccessible,
}
use demand_paged_virtual_mem.FramePool.Count.{IsValid}
use demand_paged_virtual_mem.FramePool.Search.{FreeRun}
use demand_paged_virtual_mem.FramePool.Mark.{mark_inaccessible_lem, mark_inaccessible-place}
use demand_paged_virtual_mem.FramePool.Construct.{new_pool-inside, new_pool-outside, new_pool-place}
use demand_paged_virtual_mem.Dispatch.{HandlerTable, register_handler}
use demand_paged_virtual_mem.PageTable.{Paging, Translation, load, enable_paging}
use demand_paged_virtual_mem.PageTable.Mmu.{IsMmu}
use demand_paged_virtual_mem.PageTable.Construct.{
  Built, word_cases, Built-IsPaging, Built-absent, new_page_table-Built,
}
use demand_paged_virtual_mem.DemandPaging.{System, init_memory, main_handlers, generate_references}
use demand_paged_virtual_mem.DemandPaging.Owned.{IsUsable, IsOwned, OneTaken, get_frames-OneTaken}
use demand_paged_virtual_mem.DemandPaging.Served.{IsSystem, IsReady, none-not_some}
use demand_paged_virtual_mem.DemandPaging.References.{IsNumbered, generate_references-IsNumbered}

frames_apart :
    {p q r : Pool} {s t : ℕ}
    → OneTaken p s q
    → OneTaken q t r
    → p.base_frame_no + s ≢ q.base_frame_no + t
frames_apart {t} k l e = (k.left t l.was).0 (omega (arith, k.base, e))

module _ {translate : Translation} (mmu : IsMmu translate) {p q r : Pool} {s t : ℕ} {m : ℕ → ℕ}
    (real : 0 < p.base_frame_no) (valid : IsValid p) (k : OneTaken p s q) (l : OneTaken q t r)
    (b : Built (p.base_frame_no + s) (q.base_frame_no + t) m) where
  small : p.base_frame_no + s < 2 ^ 20
  small = omega (arith, valid.small, k.inside)

  small' : q.base_frame_no + t < 2 ^ 20
  small' = omega (arith, valid.small, k.base, k.size, l.inside)

  pub start-none : (a : ℕ) → IsUsable a → translate m ((p.base_frame_no + s) * 4096) a ≡ none
  start-none a u =
      Built-absent mmu (p.base_frame_no + s) (q.base_frame_no + t) m small small' (frames_apart k l)
        b a u.0 u.1

  absent : (a y : ℕ) → IsUsable a → translate m ((p.base_frame_no + s) * 4096) a ≢ some y
  absent a y u at = none-not_some y (sym (start-none a u) ∙ at)

  -- No page is mapped yet, and the directory and its table are the pool's first two frames.
  pub start-IsOwned : IsOwned translate m ((p.base_frame_no + s) * 4096) r
  start-IsOwned = record {
    paging =
        Built-IsPaging mmu (p.base_frame_no + s) (q.base_frame_no + t) m small small'
          (frames_apart k l) b;
    valid = l.valid;
    real = omega (arith, k.base, l.base, real);
    fresh = λ g lt is.
        let (ne, was) = l.left g is in
        let (ne', was') = k.left g was in
        (
          (λ e. ne' (omega (arith, k.base, l.base, e))),
          λ i li odd e.
              let (first, frame) =
                word_cases mmu (p.base_frame_no + s) (q.base_frame_no + t) m small small'
                  (frames_apart k l) b i li odd in
              ne (omega (arith, k.base, l.base, e, frame)),
        );
    unmapped = λ g c x lt is u at e. absent c x u at;
    injective = λ a c x y ua uc at ct e. absurd (absent a x ua at);
    off_directory = λ c x u at e. absent c x u at;
    off_tables = λ c x i u at li odd e. absent c x u at;
  }

one_info_frame : needed_info_frames 7168 ≡ 1
unfolding needed_info_frames
one_info_frame = refl

-- The kernel's pool has a frame for the bitmap of the process pool.
kernel_pool_frame :
    (bits : ℕ → ℕ) (fuel : ℕ)
    → ((i : ℕ) → bits i < 256)
    → 512 < fuel
    → (info : ℕ) × (rest : Pool) × (get_frames fuel (new_pool bits 512 512 0) 1 ≡ ok (info, rest))
      × (info < 1024)
      × (info ≢ 0)
kernel_pool_frame bits fuel bytes enough =
    let (states, counter, valid) =
      new_pool-inside bits 512 512 0 bytes (omega arith) (omega arith) 0 (omega arith)
        (unfold needed_info_frames in omega arith) in
    let (base, size) = new_pool-place bits 512 512 0 bytes (omega arith) (omega arith) in
    let info_frames : needed_info_frames 512 ≡ 1 = unfold needed_info_frames in refl in
    let (s, q, got, k) =
      get_frames-OneTaken (new_pool bits 512 512 0) fuel valid (omega (arith, size))
        (omega (arith, counter, info_frames)) in
    (
      (new_pool bits 512 512 0).base_frame_no + s,
      q,
      got,
      omega (arith, base, size, k.inside),
      λ e. absurd (omega (arith, base, e)),
    )

process_pool :
    (bits : ℕ → ℕ) (info : ℕ)
    → ((i : ℕ) → bits i < 256)
    → info < 1024
    → info ≢ 0
    → let p = mark_inaccessible (new_pool bits 1024 7168 info) 3840 256 in
      IsValid p × (p.n_free_frames ≡ 6912) × (p.base_frame_no ≡ 1024) × (p.nframes ≡ 7168)
process_pool bits info bytes low some_info =
    let p = new_pool bits 1024 7168 info in
    let (states, counter, valid) =
      new_pool-outside bits 1024 7168 info bytes (omega arith) (omega arith) some_info (inl low)
        (omega arith) in
    let (base, size) = new_pool-place bits 1024 7168 info bytes (omega arith) (omega arith) in
    let at : p.base_frame_no + 2816 ≡ 3840 = omega (arith, base) in
    let run : FreeRun p 2816 256 = λ i lo hi. states i (omega arith) in
    let (marked, counter', valid') =
      mark_inaccessible_lem {p = p} {s = 2816} {n = 256} valid (omega arith) (omega (arith, size))
        run in
    let (base', size') = mark_inaccessible-place p 3840 256 in
    (
      subst (λ z. IsValid (mark_inaccessible p z 256)) at valid',
      omega (arith, ap (λ z. (mark_inaccessible p z 256).n_free_frames) at, counter', counter),
      base' ∙ base,
      size' ∙ size,
    )

module _ {sys : System} {fuel : ℕ} (w : IsSystem sys fuel) (kernel_bits process_bits : ℕ → ℕ)
    (kernel_bytes : (i : ℕ) → kernel_bits i < 256) (process_bytes : (i : ℕ) → process_bits i < 256)
    (enough : 7168 < fuel) (st : Paging Pool) where
  pub init_memory-IsReady :
      (k : Pool) × (st1 : Paging Pool) × (init_memory fuel sys.source kernel_bits process_bits st
        ≡ ok (k, st1))
      × IsReady sys fuel st1
      × (st1.frames.n_free_frames ≡ 6910)
      × ((a : ℕ) → IsUsable a → sys.translate st1.memory st1.cr3 a ≡ none)
  unfolding init_memory enable_paging load
  init_memory-IsReady =
      let (info, rest, got, low, some_info) =
        kernel_pool_frame kernel_bits fuel kernel_bytes (omega arith) in
      let p = mark_inaccessible (new_pool process_bits 1024 7168 info) 3840 256 in
      let (valid, counter, base, size) =
        process_pool process_bits info process_bytes low some_info in
      let (s, q, got1, k) =
        get_frames-OneTaken p fuel valid (omega (arith, size)) (omega (arith, counter)) in
      let (t, r, got2, l) =
        get_frames-OneTaken q fuel k.valid (omega (arith, size, k.size))
          (omega (arith, counter, k.counter)) in
      let (m', run, b) =
        new_page_table-Built sys.source (record st { frames = p }) (p.base_frame_no + s)
          (q.base_frame_no + t) q r (w.frames p ∙ got1) (w.frames q ∙ got2) (omega (arith, base))
          (omega (arith, base, k.base)) (frames_apart k l) (omega (arith, base, size, k.inside))
          (omega (arith, base, size, k.base, k.size, l.inside)) in
      (
        rest,
        enable_paging (
            load ((p.base_frame_no + s) * 4096)
              (record (record st { frames = p }) { memory = m'; frames = r })),
        rw (one_info_frame, got, run) refl,
        record {
          owned = start-IsOwned w.mmu (omega (arith, base)) valid k l b;
          enough = omega (arith, size, k.size, l.size);
        },
        omega (arith, counter, k.counter, l.counter),
        λ a u. start-none w.mmu (omega (arith, base)) valid k l b a u,
      )

  -- The first program passes its test. The processor's walk is a parameter with the documented
  -- behaviour of two-level paging, the frames come from the process pool, and the page fault
  -- handler is registered for exception 14. The pools find any bytes in their bitmaps, and there
  -- is more fuel than 7168. Then the setup in `main` ends with a state from which the test of the
  -- page table, 2048 references from 4 MB on, runs to its end without a failure, afterwards each
  -- of the 2048 words is in memory, and the memory is still ready for further references: each
  -- frame belongs to the pool, to the paging structures or to one page.
  pub init_memory-generate_references :
      (k : Pool) × (st1 st2 : Paging Pool) × (init_memory fuel sys.source kernel_bits process_bits
          st
        ≡ ok (k, st1))
      × (generate_references 2 sys 4194304 2048 st1 ≡ ok (some st2))
      × IsReady sys fuel st2
      × IsNumbered sys st2 4194304 2048
  init_memory-generate_references =
      let (k, st1, run, ready, counter, absent) = init_memory-IsReady in
      let (st2, run2, ready2, numbered) =
        generate_references-IsNumbered w 0 4194304 2048
          (λ j lt. ((omega arith, omega arith, omega arith), omega arith)) st1 ready
          (omega (arith, counter)) in
      (k, st1, st2, run, run2, ready2, numbered)

-- The page fault handler is the one that exception 14 finds.
pub main_handlers-registered :
    (dbz_handler pagefault_handler : ℕ) (table : HandlerTable)
    → (table' : HandlerTable) × (main_handlers dbz_handler pagefault_handler table ≡ ok table')
      × (table' 14 ≡ pagefault_handler)
      × (table' 0 ≡ dbz_handler)
unfolding main_handlers register_handler
main_handlers-registered dbz_handler pagefault_handler table =
    (update (update table 0 dbz_handler) 14 pagefault_handler, refl, refl, refl)
