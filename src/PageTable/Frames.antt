-- ===== src/PageTable/Frames.antt =====
-- The page table over the frame pools of cont_frame_pool.C.
use demand_paged_virtual_mem.Common.{
  ℕ, zero, suc, ◌+◌, ◌*◌, ◌/◌, ◌%◌, ◌≤◌, ◌<◌, ◌≡◌, ◌≢◌, refl, true, false, ◌∙◌, List, [], ◌∷◌, ◌++◌,
  length, All, arith, Run, ok, assert_failed, ◌>>=◌, ap, word_mod, none,
}
use demand_paged_virtual_mem.Common.{
  ℕ, zero, suc, ◌+◌, ◌*◌, ◌/◌, ◌%◌, ◌≤◌, ◌<◌, ◌≡◌, ◌≢◌, refl, true, false, ◌∙◌, List, [], ◌∷◌, ◌++◌,
  length, All, arith, Run, ok, assert_failed, ◌>>=◌, ap, word_mod, none,
}
use demand_paged_virtual_mem.FramePool.{
  Pool, get_state, get_frames, release_in, release_frames, owns,
}
use demand_paged_virtual_mem.FramePool.Search.{FirstFit}
use demand_paged_virtual_mem.FramePool.Count.{IsValid}
use demand_paged_virtual_mem.FramePool.Allocate.{get_frames_first_fit}
use demand_paged_virtual_mem.FramePool.Release.{release_in-get_frames}
use demand_paged_virtual_mem.FramePool.OneFrame.{first_free-FirstFit}
use demand_paged_virtual_mem.FramePool.PoolList.{release_frames-owner}
use demand_paged_virtual_mem.VmPool.{VmPool}
use demand_paged_virtual_mem.PageTable.{
  FrameSource, Paging, Translation, handle_fault, any_legitimate, free_page,
}
use demand_paged_virtual_mem.PageTable.Addresses.{directory_index, table_index}
use demand_paged_virtual_mem.PageTable.Addresses.{table_index}
use demand_paged_virtual_mem.PageTable.Mmu.{frame_of, pde}
use demand_paged_virtual_mem.PageTable.Mmu.{IsMmu, frame_of, pde, pte}
use demand_paged_virtual_mem.PageTable.Fault.{IsPaging, PageAdded}
use demand_paged_virtual_mem.PageTable.Handler.{handle_fault-PageAdded, handle_fault-found}
use demand_paged_virtual_mem.PageTable.FreePage.{free_page-present}

-- The pool at place `i` of a list.
abbrev pub pool_number : ℕ → List Pool → Pool → Pool
pool_number i [] other = other
pool_number zero (p ∷ ps) other = p
pool_number (suc i) (p ∷ ps) other = pool_number i ps other

pool_number-append :
    (before after : List Pool) (p other : Pool)
    → pool_number (length before) (before ++ p ∷ after) other ≡ p
pool_number-append [] after p other = refl
pool_number-append (o ∷ before) after p other = pool_number-append before after p other

-- `process_mem_pool`, between the pools that stand before and behind it in the list of all pools.
unfoldable pub process_source : ℕ → (before after : List Pool) → FrameSource Pool
process_source fuel before after = record {
  get_frame = λ p. get_frames fuel p 1;
  release_frames = λ first p. release_frames (before ++ p ∷ after) first >>= λ pools.
      ok (pool_number (length before) pools p);
}

pub pte-page :
    (m : ℕ → ℕ) (cr3 a b : ℕ)
    → a / 4096 ≡ b / 4096
    → (pde m cr3 a ≡ pde m cr3 b) × (pte m cr3 a ≡ pte m cr3 b)
pte-page m cr3 a b same =
    let d : directory_index a ≡ directory_index b = omega arith in
    let t : table_index a ≡ table_index b = omega arith in
    (
      ap (λ z. m (cr3 + z * 4)) d,
      ap (λ z. m (frame_of (m (cr3 + z * 4)) + table_index a * 4)) d
          ∙ ap (λ z. m (frame_of (pde m cr3 b) + z * 4)) t,
    )

-- The frame that one allocation has returned goes back to the pool that it came from.
release-process_source :
    (fuel : ℕ) (before after : List Pool) (q r : Pool) (n : ℕ)
    → All (λ o. owns o n ≡ false) before
    → owns q n ≡ true
    → release_in q n ≡ ok r
    → (process_source fuel before after).release_frames n q ≡ ok r
unfolding process_source
release-process_source fuel before after q r n out own released =
    rw (release_frames-owner before after q n out own, released)
      (ap (λ z. ok z) (pool_number-append before after r q))

same_result : (n : ℕ) (q q' : Pool) (m : Run (ℕ × Pool)) → m ≡ ok (n, q) → m ≡ ok (n, q') → q ≡ q'
same_result n q q' m e e' = cc

owns_lem :
    (q : Pool) (n : ℕ)
    → q.base_frame_no ≤ n
    → n < q.base_frame_no + q.nframes
    → q.base_frame_no + q.nframes < word_mod
    → owns q n ≡ true
owns_lem q n lo hi small = ground arith

module _ {translate : Translation} (mmu : IsMmu translate) (fuel : ℕ) (before after : List Pool)
    (cr2 : ℕ) (small : cr2 < 4290772992) (st : Paging Pool) (v : IsPaging st.memory st.cr3)
    (there : st.memory (st.cr3 + directory_index cr2 * 4) % 2 ≡ 1) (valid : IsValid st.frames)
    (real : 0 < st.frames.base_frame_no) (enough : st.frames.nframes < fuel) where
  -- With a valid frame pool that has a free frame and does not start at frame 0, with more fuel
  -- than the pool has frames, a fault on a page that is not present, below the last 4 MB, whose
  -- page table is there, is always resolved: the handler returns with the page mapped to the
  -- first free frame, and the pool stays valid. The invariant of the paging structures holds
  -- before. The processor's walk is a parameter with the documented behaviour of two-level
  -- paging.
  pub handle_fault-resolved :
      (err_code : ℕ)
      → err_code % 2 ≡ 0
      → 0 < st.frames.n_free_frames
      → (s : ℕ) × (q : Pool) × (m' : ℕ → ℕ) × FirstFit st.frames 1 s
        × (handle_fault (process_source fuel before after) translate err_code cr2 st
            ≡ ok (record st { memory = m'; frames = q }))
        × PageAdded translate st.memory st.cr3 cr2 (st.frames.base_frame_no + s) m'
        × IsValid q
  handle_fault-resolved err_code even pos =
      let (s, fit) = first_free-FirstFit valid fuel enough pos in
      let (q, got, a, valid') = get_frames_first_fit valid (omega arith) fit fuel enough in
      let (m', run, added) =
        handle_fault-PageAdded (process_source fuel before after) mmu cr2 small err_code st
          (st.frames.base_frame_no + s) q even v there (unfold process_source in got) (omega arith)
          (omega (arith, valid.small, fit.fits)) in
      (s, q, m', fit, run, added, valid')

  -- With no frame free, it fails its assertion.
  pub handle_fault-exhausted :
      (err_code : ℕ)
      → err_code % 2 ≡ 0
      → st.frames.n_free_frames ≡ 0
      → handle_fault (process_source fuel before after) translate err_code cr2 st ≡ assert_failed
  handle_fault-exhausted err_code even empty =
      let failed : (process_source fuel before after).get_frame st.frames ≡ assert_failed =
        unfold process_source get_frames in rw empty refl in
      handle_fault-found (process_source fuel before after) mmu cr2 small err_code st even
        v.self_mapped there
      ∙ rw failed refl

  -- After a fault on a page that is not present, below the last 4 MB, of which the page table is
  -- there and a frame free in a valid pool that does not start at frame 0, `free_page` of the
  -- same page of a registered pool succeeds: the page is not present again, every other page
  -- below the last 4 MB translates as before the fault, and each frame of the pool and its
  -- counter are as before the fault. No pool earlier in the list owns a frame of this one, and
  -- there is more fuel than the pool has frames. The invariant of the paging structures holds
  -- before. The processor's walk is a parameter with the documented behaviour of two-level
  -- paging.
  pub free_page-handle_fault :
      (err_code : ℕ) (pools : List VmPool)
      → err_code % 2 ≡ 0
      → 0 < st.frames.n_free_frames
      → ((first : ℕ)
          → st.frames.base_frame_no ≤ first
          → first < st.frames.base_frame_no + st.frames.nframes
          → All (λ o. owns o first ≡ false) before)
      → any_legitimate pools (cr2 / 4096 * 4096) ≡ true
      → (st1 st2 : Paging Pool) × (handle_fault
            (process_source fuel before after)
            translate
            err_code
            cr2
            st
          ≡ ok st1)
        × (free_page (process_source fuel before after) translate st.cr3 pools (cr2 / 4096) st1
            ≡ ok st2)
        × ((a : ℕ) → a / 4096 ≡ cr2 / 4096 → translate st2.memory st.cr3 a ≡ none)
        × ((a : ℕ)
            → a < 4290772992
            → a / 4096 ≢ cr2 / 4096
            → translate st2.memory st.cr3 a ≡ translate st.memory st.cr3 a)
        × ((g : ℕ) → get_state st2.frames g ≡ get_state st.frames g)
        × (st2.frames.n_free_frames ≡ st.frames.n_free_frames)
  free_page-handle_fault err_code pools even pos apart legitimate =
      let (s, fit) = first_free-FirstFit valid fuel enough pos in
      let (q, r, got, released, states, counter) =
        release_in-get_frames valid (omega arith) fit fuel enough in
      let n = st.frames.base_frame_no + s in
      let (m', run, added) =
        handle_fault-PageAdded (process_source fuel before after) mmu cr2 small err_code st n q even
          v there (unfold process_source in got) (omega arith)
          (omega (arith, valid.small, fit.fits)) in
      let (q', got', a, valid') = get_frames_first_fit valid (omega arith) fit fuel enough in
      let same = same_result n q q' (get_frames fuel st.frames 1) got got' in
      let base : q.base_frame_no ≡ st.frames.base_frame_no =
        ap (λ (z : Pool). z.base_frame_no) same ∙ a.base in
      let size : q.nframes ≡ st.frames.nframes = ap (λ (z : Pool). z.nframes) same ∙ a.frames in
      let st1 = record st { memory = m'; frames = q } in
      let at = pte-page m' st.cr3 (cr2 / 4096 * 4096) cr2 (omega arith) in
      let word : pte m' st.cr3 (cr2 / 4096 * 4096) ≡ n * 4096 + 7 = at.1 ∙ added.entry in
      let given =
        release-process_source fuel before after q r n
          (apart n (omega arith) (omega (arith, fit.fits)))
          (owns_lem q n (omega (arith, base)) (omega (arith, base, size, fit.fits))
            (omega (arith, base, size, valid.small)))
          released in
      let (m'', run', gone, others, kept) =
        free_page-present (process_source fuel before after) mmu pools (cr2 / 4096) (omega arith)
          st1 added.kept (ap (λ z. z % 2) at.0 ∙ added.table) legitimate r
          (ap (λ z. z % 2) word ∙ omega arith) (omega (arith, word, valid.small, fit.fits))
          (ap (λ z. (process_source fuel before after).release_frames z q)
              (ap (λ z. z / 4096) word ∙ omega arith)
            ∙ given) in
      (
        st1,
        record st1 { memory = m''; frames = r },
        run,
        run',
        gone,
        λ b low ne. others b low ne ∙ added.others b low ne,
        states,
        counter,
      )
