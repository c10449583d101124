-- ===== src/FramePool/Allocate.antt =====
-- `ContFramePool::get_frames` as a whole: what it marks, what it returns, and that the pool stays
-- valid.
use demand_paged_virtual_mem.Common.{
  ℕ, zero, suc, ◌+◌, ◌-◌, ◌≤◌, ◌<◌, ◌≡◌, ◌≢◌, ◌&&◌, refl, ◌==◌, ◌∙◌, if◌then◌else◌, arith, ltb, leb,
  eq→==, le→leb, add32, sub32, ok, word_mod, ap, sub32_small,
}
use demand_paged_virtual_mem.FramePool.{
  FrameState, free, used, hos, Pool, get_state, set_state, mark_used, take_frames, get_frames,
}
use demand_paged_virtual_mem.FramePool.States.{Bytes, get_state-set_state, set_state-Bytes}
use demand_paged_virtual_mem.FramePool.Search.{FreeRun, FirstFit, search_frames_fit}
use demand_paged_virtual_mem.FramePool.Count.{
  IsValid, Taken, count_free, count_free-Taken, count_free-run, count_free-le,
}

-- The states of a section of `n` frames at `s`, and `other` elsewhere.
abbrev pub section_state : ℕ → ℕ → (ℕ → FrameState) → ℕ → FrameState
section_state s n other g =
    if g == s then hos else if ltb s g && ltb g (s + n) then used else other g

set_state-fields :
    (p : Pool) (f : ℕ) (s : FrameState)
    → set_state p f s ≡ record p { bitmap = (set_state p f s).bitmap }
unfolding set_state
set_state-fields p f s = refl

mark_used-fields :
    (k : ℕ) (p : Pool) (f : ℕ) → mark_used k p f ≡ record p { bitmap = (mark_used k p f).bitmap }
unfolding mark_used set_state
mark_used-fields zero p f = refl
mark_used-fields (suc k) p f = mark_used-fields k (set_state p f used) (sub32 f 1)

mark_used-Bytes : (k : ℕ) (p : Pool) (f : ℕ) → Bytes p → Bytes (mark_used k p f)
unfolding mark_used
mark_used-Bytes zero p f b = b
mark_used-Bytes (suc k) p f b =
    mark_used-Bytes k (set_state p f used) (sub32 f 1) (set_state-Bytes p f used b)

-- The loop marks the `k` frames up to `f`, and no other.
get_state-mark_used :
    (k : ℕ) (p : Pool) (f g : ℕ)
    → Bytes p
    → k ≤ f
    → f < word_mod
    → get_state (mark_used k p f) g ≡ (if ltb f (g + k) && leb g f then used else get_state p g)
unfolding mark_used
get_state-mark_used zero p f g b h w = ground arith
get_state-mark_used (suc k) p f g b h w = rw (sub32_small f 1 (omega arith) w) (
    get_state-mark_used k (set_state p f used) (f - 1) g (set_state-Bytes p f used b) (omega arith)
      (omega arith)
    ∙ rw (get_state-set_state p f g used b) (ground arith))

-- The counter is no part of a frame's state.
pub get_state-counter :
    (q : Pool) (k g : ℕ) → get_state (record q { n_free_frames = k }) g ≡ get_state q g
unfolding get_state
get_state-counter q k g = refl

-- The pool that `take_frames` leaves, with its arithmetic done.
section_pool : Pool → ℕ → ℕ → Pool
section_pool p n s = record (set_state (mark_used (n - 1) p (s + n - 1)) s hos) {
  n_free_frames = sub32 p.n_free_frames n;
}

module _ (p : Pool) (n s : ℕ) (b : Bytes p) (pos : 0 < n) (fits : s + n < word_mod) where
  take_frames-section : take_frames p n (s + n) ≡ (add32 s p.base_frame_no, section_pool p n s)
  unfolding take_frames section_pool
  take_frames-section =
      let last : sub32 (s + n) 1 ≡ s + n - 1 = omega arith in
      let first : sub32 (s + n) n ≡ s = omega arith in
      let rounds : s + n - 1 - s ≡ n - 1 = omega arith in rw (last, first, rounds)

  get_state-section_pool :
      (g : ℕ) → get_state (section_pool p n s) g ≡ section_state s n (get_state p) g
  unfolding section_pool
  get_state-section_pool g =
      let marked = mark_used (n - 1) p (s + n - 1) in
      get_state-counter (set_state marked s hos) (sub32 p.n_free_frames n) g
      ∙ get_state-set_state marked s g hos (mark_used-Bytes (n - 1) p (s + n - 1) b)
      ∙ rw (get_state-mark_used (n - 1) p (s + n - 1) g b (omega arith) (omega arith))
          (ground arith)

  section_pool-Bytes : Bytes (section_pool p n s)
  unfolding section_pool
  section_pool-Bytes =
      set_state-Bytes (mark_used (n - 1) p (s + n - 1)) s hos
        (mark_used-Bytes (n - 1) p (s + n - 1) b)

-- What a successful allocation of `n` frames at frame `s` of pool `p` leaves.
pub record Allocated (p : Pool) (n s : ℕ) (q : Pool) : Type 0 where
  pub states : (g : ℕ) → get_state q g ≡ section_state s n (get_state p) g
  pub counter : q.n_free_frames + n ≡ p.n_free_frames
  pub base : q.base_frame_no ≡ p.base_frame_no
  pub frames : q.nframes ≡ p.nframes

section_pool-fields :
    (p : Pool) (n s : ℕ)
    → section_pool p n s
      ≡ record p { bitmap = (section_pool p n s).bitmap; n_free_frames = sub32 p.n_free_frames n }
unfolding section_pool set_state
section_pool-fields p n s =
    ap (λ (q : Pool). record (set_state q s hos) { n_free_frames = sub32 p.n_free_frames n })
      (mark_used-fields (n - 1) p (s + n - 1))

module _ {p : Pool} {n s : ℕ} (v : IsValid p) (pos : 0 < n) (fits : s + n ≤ p.nframes)
    (run : FreeRun p s n) where
  section-Taken : {q : Pool} → Allocated p n s q → Taken p q s n
  section-Taken {q} a = record {
    was = run;
    now = λ g lo hi. ground (arith, a.states g);
    below = λ g lo. ground (arith, a.states g);
    above = λ g hi. ground (arith, a.states g);
  }

  -- A valid pool stays valid.
  pub Allocated-IsValid : {q : Pool} → Allocated p n s q → Bytes q → IsValid q
  Allocated-IsValid {q} a b = record {
    bytes = b;
    counted = omega (
      arith,
      a.counter,
      v.counted,
      fits,
      a.frames,
      count_free-Taken p.nframes (section-Taken a),
      ap (count_free q) a.frames,
    );
    headed = headed;
    first = λ e. ground (arith, a.states 0, v.first);
    small = omega (arith, v.small, a.base, a.frames);
  }
    where
      headed : (g : ℕ) → g + 1 < q.nframes → get_state q (g + 1) ≡ used → get_state q g ≢ free
      headed g lt e e' = ground (
        arith,
        a.states g,
        a.states (g + 1),
        a.frames,
        v.headed g (omega (arith, a.frames)),
        λ (lo : s ≤ g) (hi : g < s + n). run g lo hi,
      )

module _ {p : Pool} {n s : ℕ} (v : IsValid p) (pos : 0 < n) (fit : FirstFit p n s) where
  enough : n ≤ p.n_free_frames
  enough = omega (arith, v.counted, count_free-run p s n p.nframes fit.run fit.fits)

  section_pool-Allocated : Allocated p n s (section_pool p n s)
  section_pool-Allocated = record {
    states = get_state-section_pool p n s v.bytes pos (omega (arith, fit.fits, v.small));
    counter = omega (
      arith,
      ap (λ (r : Pool). r.n_free_frames) (section_pool-fields p n s),
      enough,
      v.counted,
      v.small,
      count_free-le p p.nframes,
    );
    base = ap (λ (r : Pool). r.base_frame_no) (section_pool-fields p n s);
    frames = ap (λ (r : Pool). r.nframes) (section_pool-fields p n s);
  }

  -- In a valid pool where `s` is the first place with `n > 0` free frames in a row, `get_frames`
  -- returns frame `s` of the pool, marks these frames as one section, lowers the counter by `n`,
  -- changes no other state, and leaves a valid pool. Fuel above the pool's size is enough.
  pub get_frames_first_fit :
      (fuel : ℕ)
      → p.nframes < fuel
      → (q : Pool) × (get_frames fuel p n ≡ ok (p.base_frame_no + s, q))
        × Allocated p n s q
        × IsValid q
  unfolding get_frames
  get_frames_first_fit fuel h =
      let found =
        search_frames_fit p n s (omega (arith, v.small)) fit fuel fuel 0 0 (omega (arith, fit.fits))
          (omega (arith, fit.fits)) pos (omega arith) (λ i a b. absurd (omega arith)) in
      let number : add32 s p.base_frame_no ≡ p.base_frame_no + s =
        omega (arith, v.small, fit.fits) in
      let taken = take_frames-section p n s v.bytes pos (omega (arith, fit.fits, v.small)) in
      (
        section_pool p n s,
        rw (le→leb n p.n_free_frames enough, found, eq→== n n refl, taken, number),
        section_pool-Allocated,
        Allocated-IsValid v pos fit.fits fit.run section_pool-Allocated
            (section_pool-Bytes p n s v.bytes pos (omega (arith, fit.fits, v.small))),
      )
