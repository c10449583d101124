-- ===== src/FramePool/Construct.antt =====
-- The constructor of `ContFramePool`: all frames free, but for the info frames that lie in the pool.
use demand_paged_virtual_mem.Common.{if_cases}
use demand_paged_virtual_mem.Common.{sym}
use demand_paged_virtual_mem.Common.{subst}
use demand_paged_virtual_mem.Common.{
  ℕ, zero, suc, ◌+◌, ◌≤◌, ◌<◌, ◌≡◌, ◌≢◌, ◌&&◌, ◌⊎◌, refl, true, false, ◌∙◌, ◌==◌, if◌then◌else◌,
  arith, ltb, leb, add32, sub32, mul32, word_mod, ap, add32_small, ne→==,
}
use demand_paged_virtual_mem.FramePool.{
  free, used, hos, Pool, get_state, set_state, mark_rest, mark_inaccessible, mark_free, mark_info,
  new_pool, needed_info_frames, frame_size,
}
use demand_paged_virtual_mem.FramePool.InfoFrames.{needed_info_frames_pos, needed_info_frames_le}
use demand_paged_virtual_mem.FramePool.States.{Bytes, get_state-set_state, set_state-Bytes}
use demand_paged_virtual_mem.FramePool.Search.{FreeRun}
use demand_paged_virtual_mem.FramePool.Count.{
  IsValid, frame_limit, count_free, count_free-run, count_free-le,
}
use demand_paged_virtual_mem.FramePool.Allocate.{section_state}
use demand_paged_virtual_mem.FramePool.Mark.{
  set_state-place, mark_one, mark_inaccessible-rest, mark_inaccessible_lem,
}

mark_free-fields :
    (k : ℕ) (p : Pool) (f : ℕ) → mark_free k p f ≡ record p { bitmap = (mark_free k p f).bitmap }
unfolding mark_free set_state
mark_free-fields zero p f = refl
mark_free-fields (suc k) p f = mark_free-fields k (set_state p f free) (add32 f 1)

mark_free-Bytes : (k : ℕ) (p : Pool) (f : ℕ) → Bytes p → Bytes (mark_free k p f)
unfolding mark_free
mark_free-Bytes zero p f b = b
mark_free-Bytes (suc k) p f b =
    mark_free-Bytes k (set_state p f free) (add32 f 1) (set_state-Bytes p f free b)

get_state-mark_free :
    (k : ℕ) (p : Pool) (f g : ℕ)
    → Bytes p
    → f + k < word_mod
    → get_state (mark_free k p f) g ≡ (if leb f g && ltb g (f + k) then free else get_state p g)
unfolding mark_free
get_state-mark_free zero p f g b h = ground arith
get_state-mark_free (suc k) p f g b h = rw (add32_small f 1 (omega arith)) (
    get_state-mark_free k (set_state p f free) (f + 1) g (set_state-Bytes p f free b) (omega arith)
    ∙ rw (get_state-set_state p f g free b) (ground arith))

-- Behind its first round the loop over the info frames is that of `mark_inaccessible`.
mark_info-rest :
    (k : ℕ) (p : Pool) (start s i : ℕ)
    → sub32 start p.base_frame_no ≡ s
    → s + i + k < word_mod
    → 0 < i
    → mark_info k p start i ≡ mark_rest k p (s + i)
unfolding mark_info mark_rest
mark_info-rest zero p start s i e h pos = refl
mark_info-rest (suc k) p start s i e h pos =
    let here : add32 s i ≡ s + i = omega arith in
    let next : add32 i 1 ≡ i + 1 = omega arith in
    let next' : add32 (s + i) 1 ≡ s + (i + 1) = omega arith in
    rw (e, here, next, next', ne→== i 0 (omega arith))
      (mark_info-rest k (mark_one p (s + i) used) start s (i + 1) (unfold set_state in e)
        (omega arith) (omega arith))

mark_info-mark_inaccessible :
    (n : ℕ) (p : Pool) (s : ℕ)
    → p.base_frame_no + p.nframes ≤ frame_limit
    → s + n ≤ p.nframes
    → 0 < n
    → mark_info n p (p.base_frame_no + s) 0 ≡ mark_inaccessible p (p.base_frame_no + s) n
mark_info-mark_inaccessible zero p s small fits pos = absurd (omega arith)
mark_info-mark_inaccessible (suc n) p s small fits pos =
    let here : sub32 (p.base_frame_no + s) p.base_frame_no ≡ s = omega arith in
    rw (mark_inaccessible-rest p s (suc n) small fits pos) (
      first
      ∙ mark_info-rest n (mark_one p s hos) (p.base_frame_no + s) s 1 (unfold set_state in here)
          (omega arith) (omega arith)
      ∙ ap (λ k. mark_rest k (mark_one p s hos) (s + 1)) (omega arith))
  where
    first :
        mark_info (suc n) p (p.base_frame_no + s) 0
        ≡ mark_info n (mark_one p s hos) (p.base_frame_no + s) 1
    first =
        let here : sub32 (p.base_frame_no + s) p.base_frame_no ≡ s = omega arith in
        let at : add32 s 0 ≡ s = omega arith in unfold mark_info in rw (here, at)

module _ (memory : ℕ → ℕ) (base n info : ℕ) (b : (i : ℕ) → memory i < 256) (pos : 0 < n)
    (small : base + n ≤ frame_limit) where
  abbrev start : ℕ
  start = if info == 0 then base else info

  -- The pool before the info frames are marked.
  blank : Pool
  blank = record {
    bitmap_at = mul32 (if info == 0 then base else info) frame_size;
    bitmap = memory;
    n_free_frames = n;
    base_frame_no = base;
    nframes = n;
    info_frame_no = info;
    info_frame_total = needed_info_frames n;
  }

  all_free : Pool
  unfolding blank
  all_free = mark_free n blank 0

  all_free-states : (g : ℕ) → g < n → get_state all_free g ≡ free
  unfolding all_free
  all_free-states g lt = get_state-mark_free n blank 0 g b (omega arith) ∙ ground arith

  all_free-fields :
      (all_free.n_free_frames ≡ n) × (all_free.base_frame_no ≡ base) × (all_free.nframes ≡ n)
  unfolding all_free
  all_free-fields =
      let e = mark_free-fields n blank 0 in
      (
        ap (λ (q : Pool). q.n_free_frames) e,
        ap (λ (q : Pool). q.base_frame_no) e,
        ap (λ (q : Pool). q.nframes) e,
      )

  all_free-run : FreeRun all_free 0 n
  all_free-run i lo hi = all_free-states i (omega arith)

  all_free-IsValid : IsValid all_free
  all_free-IsValid = record {
    bytes = unfold all_free in mark_free-Bytes n blank 0 b;
    counted = omega (
      arith,
      all_free-fields,
      count_free-le all_free n,
      count_free-run all_free 0 n n all_free-run (omega arith),
      ap (count_free all_free) all_free-fields.2,
    );
    headed = λ g lt h. ground (arith, all_free-states (g + 1) (omega (arith, all_free-fields)));
    first = ground (arith, all_free-states 0 pos);
    small = omega (arith, all_free-fields);
  }

  new_pool-cases : new_pool memory base n info ≡ (
      if leb base start && leb (add32 start (needed_info_frames n)) (add32 base n)
      then mark_info (needed_info_frames n) all_free start 0
      else all_free)
  unfolding new_pool all_free blank
  new_pool-cases = refl

  -- A new pool of `n > 0` frames whose info frames lie inside it, from its frame `s` on, is
  -- valid, these frames are one section, all other frames are free, and the counter is exact. The
  -- frames are those of a 32-bit physical address space.
  pub new_pool-inside :
      (s : ℕ)
      → (if info == 0 then base else info) ≡ base + s
      → s + needed_info_frames n ≤ n
      → let p = new_pool memory base n info in
        ((g : ℕ) → g < n → get_state p g ≡ section_state s (needed_info_frames n) (λ _. free) g)
        × (p.n_free_frames + needed_info_frames n ≡ n)
        × IsValid p
  new_pool-inside s at fits =
      let some_info = needed_info_frames_pos n pos (omega arith) in
      let run : FreeRun all_free s (needed_info_frames n) =
        λ i lo hi. all_free-states i (omega arith) in
      let fits' : s + needed_info_frames n ≤ all_free.nframes = omega (arith, all_free-fields) in
      let (states, counter, valid) =
        mark_inaccessible_lem {p = all_free} {s = s} {n = needed_info_frames n} all_free-IsValid
          some_info fits' run in
      let same_pool =
        mark_info-mark_inaccessible (needed_info_frames n) all_free s
          (omega (arith, all_free-fields)) fits' some_info in
      rw (marks, same_pool)
        (
          λ g lt. states g ∙ ground (arith, all_free-states g lt),
          counter ∙ all_free-fields.0,
          valid,
        )
    where
      marks :
          new_pool memory base n info
          ≡ mark_info (needed_info_frames n) all_free (all_free.base_frame_no + s) 0
      marks =
          let le = needed_info_frames_le n (omega arith) in
          let low : leb base (base + s) ≡ true = ground arith in
          let sum : add32 (base + s) (needed_info_frames n) ≡ base + s + needed_info_frames n =
            omega arith in
          let end : add32 base n ≡ base + n = omega arith in
          let high : leb (base + s + needed_info_frames n) (base + n) ≡ true = ground arith in
          let same_base : all_free.base_frame_no + s ≡ base + s = omega (arith, all_free-fields) in
          rw (new_pool-cases, at, low, sum, end, high, same_base)

  -- A new pool of `n > 0` frames whose info frames do not lie inside it is valid, and all its
  -- frames are free. The frames are those of a 32-bit physical address space.
  pub new_pool-outside :
      info ≢ 0
      → (info < base) ⊎ (base + n < info + needed_info_frames n)
      → info ≤ frame_limit
      → let p = new_pool memory base n info in
        ((g : ℕ) → g < n → get_state p g ≡ free) × (p.n_free_frames ≡ n) × IsValid p
  new_pool-outside some_info out le =
      rw (plain out) (all_free-states, all_free-fields.0, all_free-IsValid)
    where
      plain :
          (info < base) ⊎ (base + n < info + needed_info_frames n)
          → new_pool memory base n info ≡ all_free
      plain out =
          let le' = needed_info_frames_le n (omega arith) in
          let at : start ≡ info = ground arith in
          let sum : add32 info (needed_info_frames n) ≡ info + needed_info_frames n = omega arith in
          let end : add32 base n ≡ base + n = omega arith in
          let test : (leb base info && leb (info + needed_info_frames n) (base + n)) ≡ false =
            ground (arith, out) in
          rw (new_pool-cases, at, sum, end, test)

mark_info-place :
    (k : ℕ) (p : Pool) (at i : ℕ)
    → ((mark_info k p at i).base_frame_no ≡ p.base_frame_no)
      × ((mark_info k p at i).nframes ≡ p.nframes)
unfolding mark_info
mark_info-place zero p at i = (refl, refl)
mark_info-place (suc k) p at i =
    let state = if i == 0 then hos else used in
    let q = set_state p (add32 (sub32 at p.base_frame_no) i) state in
    let e = set_state-place p (add32 (sub32 at p.base_frame_no) i) state in
    let rest =
      mark_info-place k (record q { n_free_frames = sub32 q.n_free_frames 1 }) at (add32 i 1) in
    (rest.0 ∙ e.0, rest.1 ∙ e.1)

-- The place and the size of a new pool.
pub new_pool-place :
    (memory : ℕ → ℕ) (base n info : ℕ)
    → ((i : ℕ) → memory i < 256)
    → 0 < n
    → base + n ≤ frame_limit
    → ((new_pool memory base n info).base_frame_no ≡ base)
      × ((new_pool memory base n info).nframes ≡ n)
new_pool-place memory base n info b pos small =
    let p = all_free memory base n info b pos small in
    let first = if info == 0 then base else info in
    let f = all_free-fields memory base n info b pos small in
    let m = mark_info-place (needed_info_frames n) p first 0 in
    subst (λ (q : Pool). (q.base_frame_no ≡ base) × (q.nframes ≡ n))
      (sym (new_pool-cases memory base n info b pos small))
      (if_cases (λ (q : Pool). (q.base_frame_no ≡ base) × (q.nframes ≡ n))
        (leb base first && leb (add32 first (needed_info_frames n)) (add32 base n))
        (λ inside. (m.0 ∙ f.1, m.1 ∙ f.2)) (λ outside. (f.1, f.2)))
