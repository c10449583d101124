-- ===== src/FramePool/Count.antt =====
-- The invariant of a frame pool, and how the number of free frames follows the states.
use demand_paged_virtual_mem.Common.{
  ℕ, zero, suc, ◌+◌, ◌-◌, ◌≤◌, ◌<◌, ◌≡◌, ◌≢◌, refl, arith, ◌^◌, dec_lt, min, ap,
}
use demand_paged_virtual_mem.FramePool.{FrameState, free, used, hos, Pool, get_state}
use demand_paged_virtual_mem.FramePool.States.{Bytes}
use demand_paged_virtual_mem.FramePool.Search.{FreeRun}

abbrev pub weight : FrameState → ℕ
weight free = 1
weight used = 0
weight hos = 0

-- The number of free frames below frame `k` of the pool.
unfoldable pub count_free : Pool → ℕ → ℕ
count_free p zero = 0
count_free p (suc k) = count_free p k + weight (get_state p k)

-- A 32-bit physical address space has 2^20 frames.
abbrev pub frame_limit : ℕ
frame_limit = 2 ^ 20

-- Bytes behind the map, an exact counter, every used frame behind a frame that is not free, and
-- frames of a 32-bit physical address space.
pub record IsValid (p : Pool) : Type 0 where
  pub bytes : Bytes p
  pub counted : p.n_free_frames ≡ count_free p p.nframes
  pub headed : (g : ℕ) → g + 1 < p.nframes → get_state p (g + 1) ≡ used → get_state p g ≢ free
  pub first : get_state p 0 ≢ used
  pub small : p.base_frame_no + p.nframes ≤ frame_limit

-- `n` free frames of `p` from `s` on are not free in `q`, and the other frames are as in `p`.
pub record Taken (p q : Pool) (s n : ℕ) : Type 0 where
  pub was : FreeRun p s n
  pub now : (g : ℕ) → s ≤ g → g < s + n → get_state q g ≢ free
  pub below : (g : ℕ) → g < s → get_state q g ≡ get_state p g
  pub above : (g : ℕ) → s + n ≤ g → get_state q g ≡ get_state p g

weight_ne : (s : FrameState) → s ≢ free → weight s ≡ 0
weight_ne free h = absurd (h refl)
weight_ne _ h = refl

-- Each frame below `k` that was taken is one free frame fewer.
pub count_free-Taken :
    {p q : Pool} {s n : ℕ} (k : ℕ)
    → Taken p q s n
    → count_free q k + (min k (s + n) - s) ≡ count_free p k
unfolding count_free
count_free-Taken {s} {n} zero t = omega arith
count_free-Taken {p} {q} {s} {n} (suc k) t = elim (dec_lt k s) [
  | yes lo ↦ omega (arith, count_free-Taken k t, ap weight (t.below k lo))
  | no lo ↦ elim (dec_lt k (s + n)) [
    | yes hi ↦ omega (
      arith,
      count_free-Taken k t,
      ap weight (t.was k (omega arith) hi),
      weight_ne (get_state q k) (t.now k (omega arith) hi),
    )
    | no hi ↦ omega (arith, count_free-Taken k t, ap weight (t.above k (omega arith)))
  ]
]

-- A run of `n` free frames is counted.
pub count_free-run : (p : Pool) (s n k : ℕ) → FreeRun p s n → s + n ≤ k → n ≤ count_free p k
unfolding count_free
count_free-run p s zero zero run h = omega arith
count_free-run p s (suc n) zero run h = absurd (omega arith)
count_free-run p s zero (suc k) run h = omega arith
count_free-run p s (suc n) (suc k) run h = elim (dec_lt k (s + suc n)) [
  | yes lt ↦ omega (
    arith,
    count_free-run p s n k (λ i a b. run i a (omega arith)) (omega arith),
    ap weight (run k (omega arith) lt),
  )
  | no ge ↦ omega (arith, count_free-run p s (suc n) k run (omega arith))
]

pub count_free-le : (p : Pool) (k : ℕ) → count_free p k ≤ k
unfolding count_free
count_free-le p zero = omega arith
count_free-le p (suc k) = omega (arith, count_free-le p k, weight-le (get_state p k))
  where
    weight-le : (s : FrameState) → weight s ≤ 1
    weight-le s = ground arith
