-- ===== src/FramePool/Examples.antt =====
-- The theorems on frame pools at concrete pools, and tests by evaluation.
use demand_paged_virtual_mem.FramePool.OneFrame.{get_frames_one}
use demand_paged_virtual_mem.Common.{◌⊎◌, inr, [], ◌∷◌, ◌++◌}
use demand_paged_virtual_mem.Common.{◌-◌, ap, ◌∙◌, ◌||◌, not, le→ltb}
use demand_paged_virtual_mem.Common.{
  ℕ, ◌+◌, ◌*◌, ◌≤◌, ◌<◌, ◌≡◌, ◌≢◌, refl, true, false, inl, arith, ltb, ok, assert_failed,
  out_of_fuel, dec_lt,
}
use demand_paged_virtual_mem.FramePool.{
  same, free, used, hos, Pool, get_state, set_state, get_frames, release_in, release_frames,
  new_pool, mark_inaccessible, needed_info_frames, mark_free, mark_rest, frame_size,
}
use demand_paged_virtual_mem.Common.Bits.{all_below, all_below_sound}
use demand_paged_virtual_mem.FramePool.Search.{FirstFit}
use demand_paged_virtual_mem.FramePool.Count.{IsValid}
use demand_paged_virtual_mem.FramePool.Allocate.{Allocated, section_state, get_frames_first_fit}
use demand_paged_virtual_mem.FramePool.Sections.{Section, Released}
use demand_paged_virtual_mem.FramePool.Release.{release_in-get_frames}
use demand_paged_virtual_mem.FramePool.PoolList.{release_frames_lem}
use demand_paged_virtual_mem.FramePool.Failure.{NoFit, get_frames-NoFit, get_frames_overruns}
use demand_paged_virtual_mem.FramePool.InfoFrames.{needed_info_frames_exact}
use demand_paged_virtual_mem.FramePool.Mark.{mark_inaccessible_lem}
use demand_paged_virtual_mem.FramePool.Construct.{new_pool-inside, new_pool-outside}

abbrev zeros : ℕ → ℕ
zeros i = 0

zeros-lt : (i : ℕ) → zeros i < 256
zeros-lt i = omega arith

-- Eight frames from frame 512 on, with the bitmap elsewhere: all free.
abbrev fresh : Pool
fresh = new_pool zeros 512 8 3

fresh-facts :
    ((g : ℕ) → g < 8 → get_state fresh g ≡ free) × (fresh.n_free_frames ≡ 8) × IsValid fresh
fresh-facts =
    new_pool-outside zeros 512 8 3 zeros-lt (omega arith) (omega arith) (omega arith)
      (inl (omega arith)) (omega arith)

fresh-size : (fresh.nframes ≡ 8) × (fresh.base_frame_no ≡ 512)
unfolding new_pool mark_free set_state needed_info_frames
fresh-size = (refl, refl)

fresh-FirstFit : FirstFit fresh 3 0
fresh-FirstFit = record {
  fits = omega (arith, fresh-size);
  run = λ i lo hi. fresh-facts.0 i (omega arith);
  least = λ t lt. absurd (omega arith);
}

-- Frame 2 is taken, and then frames 6 and 7 (`crowded`) or frame 5 (`spread`).
abbrev one : Pool
one = mark_inaccessible fresh (fresh.base_frame_no + 2) 1

mark_inaccessible_lem_example :
    ((g : ℕ) → get_state one g ≡ section_state 2 1 (get_state fresh) g)
    × (one.n_free_frames + 1 ≡ fresh.n_free_frames)
    × IsValid one
mark_inaccessible_lem_example =
    mark_inaccessible_lem {p = fresh} {s = 2} {n = 1} fresh-facts.2 (omega arith)
      (omega (arith, fresh-size)) (λ i lo hi. fresh-facts.0 i (omega arith))

one-size : (one.nframes ≡ 8) × (one.base_frame_no ≡ 512)
unfolding new_pool mark_free set_state needed_info_frames mark_inaccessible mark_rest
one-size = (refl, refl)

one-free : (g : ℕ) → 3 ≤ g → g < 8 → get_state one g ≡ free
one-free g lo hi = mark_inaccessible_lem_example.0 g ∙ ground (arith, fresh-facts.0 g hi)

abbrev crowded : Pool
crowded = mark_inaccessible one (one.base_frame_no + 6) 2

crowded-facts :
    ((g : ℕ) → get_state crowded g ≡ section_state 6 2 (get_state one) g)
    × (crowded.n_free_frames + 2 ≡ one.n_free_frames)
    × IsValid crowded
crowded-facts =
    mark_inaccessible_lem {p = one} {s = 6} {n = 2} mark_inaccessible_lem_example.2 (omega arith)
      (omega (arith, one-size)) (λ i lo hi. one-free i (omega arith) (omega arith))

abbrev spread : Pool
spread = mark_inaccessible one (one.base_frame_no + 5) 1

spread-facts :
    ((g : ℕ) → get_state spread g ≡ section_state 5 1 (get_state one) g)
    × (spread.n_free_frames + 1 ≡ one.n_free_frames)
    × IsValid spread
spread-facts =
    mark_inaccessible_lem {p = one} {s = 5} {n = 1} mark_inaccessible_lem_example.2 (omega arith)
      (omega (arith, one-size)) (λ i lo hi. one-free i (omega arith) (omega arith))

run_pools :
    (crowded.nframes ≡ 8)
    × (crowded.n_free_frames ≡ 5)
    × (get_state crowded 2 ≡ hos)
    × (get_state crowded 6 ≡ hos)
    × (get_state crowded 7 ≡ used)
    × (spread.nframes ≡ 8)
    × (spread.n_free_frames ≡ 6)
    × (get_state spread 2 ≡ hos)
    × (get_state spread 5 ≡ hos)
    × (get_state spread 7 ≡ free)
unfolding new_pool mark_free set_state needed_info_frames mark_inaccessible mark_rest get_state
run_pools = (refl, refl, refl, refl, refl, refl, refl, refl, refl, refl)

crowded-NoFit : NoFit crowded 4
crowded-NoFit t h run = elim (dec_lt t 3) [
  | yes lt ↦ ground (arith, run 2 (omega arith) (omega arith), run_pools)
  | no ge ↦ ground (
    arith,
    run 6 (omega (arith, run_pools.0)) (omega (arith, run_pools.0, run_pools.1)),
    run_pools,
  )
]

spread-NoFit : NoFit spread 3
spread-NoFit t h run = elim (dec_lt t 3) [
  | yes lt ↦ ground (arith, run 2 (omega arith) (omega arith), run_pools)
  | no ge ↦ ground (
    arith,
    run 5 (omega (arith, run_pools.5)) (omega (arith, run_pools.5, run_pools.6)),
    run_pools,
  )
]

-- Behind the pool the memory is zero, which reads as used frames.
behind : all_below 28 (λ g. ltb g 7 || not (same (get_state crowded g) free)) ≡ true
unfolding new_pool mark_free set_state needed_info_frames mark_inaccessible mark_rest get_state
    all_below
behind = refl

behind-away :
    (g : ℕ) → crowded.nframes ≤ g + 1 → g < crowded.nframes + 20 → get_state crowded g ≢ free
behind-away g lo hi e =
    let t =
      all_below_sound 28 (λ g. ltb g 7 || not (same (get_state crowded g) free)) g behind
        (omega (arith, run_pools.0, run_pools.1)) in
    let n : ltb g 7 ≡ false = le→ltb g 7 (omega (arith, run_pools.0, run_pools.1)) in
    ground (arith, t, n, e)

get_frames_first_fit_example :
    (q : Pool) × (get_frames 9 fresh 3 ≡ ok (fresh.base_frame_no + 0, q))
    × Allocated fresh 3 0 q
    × IsValid q
get_frames_first_fit_example =
    get_frames_first_fit fresh-facts.2 (omega arith) fresh-FirstFit 9 (omega (arith, fresh-size))

release_in-get_frames_example :
    (q : Pool) × (r : Pool) × (get_frames 9 fresh 3 ≡ ok (fresh.base_frame_no + 0, q))
    × (release_in q (fresh.base_frame_no + 0) ≡ ok r)
    × ((g : ℕ) → get_state r g ≡ get_state fresh g)
    × (r.n_free_frames ≡ fresh.n_free_frames)
release_in-get_frames_example =
    release_in-get_frames fresh-facts.2 (omega arith) fresh-FirstFit 9 (omega (arith, fresh-size))

-- Another pool, of eight frames from frame 16 on.
abbrev lower : Pool
lower = new_pool zeros 16 8 3

bases : (lower.base_frame_no ≡ 16) × (lower.nframes ≡ 8) × (crowded.base_frame_no ≡ 512)
unfolding new_pool mark_free set_state needed_info_frames mark_inaccessible mark_rest
bases = (refl, refl, refl)

release_frames_lem_example :
    ((get_state crowded 6 ≡ hos)
      × ((e : ℕ) × (q : Pool) × Section crowded 6 e
          × (release_frames ((lower ∷ []) ++ crowded ∷ []) (crowded.base_frame_no + 6)
              ≡ ok ((lower ∷ []) ++ q ∷ []))
          × Released crowded 6 e q
          × IsValid q))
    ⊎ ((get_state crowded 6 ≢ hos)
        × (release_frames ((lower ∷ []) ++ crowded ∷ []) (crowded.base_frame_no + 6)
            ≡ assert_failed))
release_frames_lem_example =
    release_frames_lem (lower ∷ []) [] crowded crowded-facts.2 6
      (omega (arith, run_pools.0, run_pools.1))
      ((omega (arith, bases), inr (omega (arith, bases))), tt)

get_frames-NoFit_example : get_frames 9 spread 3 ≡ ok (0, spread)
get_frames-NoFit_example =
    get_frames-NoFit 9 spread-facts.2 (omega arith) (omega (arith, run_pools.5, run_pools.6))
      spread-NoFit (ground (arith, run_pools, ap (λ k. get_state spread (k - 1)) run_pools.5))
      (omega (arith, run_pools.5, run_pools.6))

get_frames_overruns_example : get_frames 20 crowded 4 ≡ out_of_fuel
get_frames_overruns_example =
    get_frames_overruns 20 crowded-facts.2 (omega arith) (omega (arith, run_pools.0, run_pools.1))
      (omega (arith, run_pools.0, run_pools.1)) crowded-NoFit behind-away
      (omega (arith, run_pools.0, run_pools.1))

needed_info_frames_exact_example :
    (7168 ≤ needed_info_frames 7168 * frame_size * 4)
    × (needed_info_frames 7168 * frame_size * 4 < 7168 + frame_size * 4)
needed_info_frames_exact_example = needed_info_frames_exact 7168 (omega arith)

new_pool-inside_example :
    let p = new_pool zeros 512 512 0 in
    ((g : ℕ) → g < 512 → get_state p g ≡ section_state 0 (needed_info_frames 512) (λ _. free) g)
    × (p.n_free_frames + needed_info_frames 512 ≡ 512)
    × IsValid p
new_pool-inside_example =
    new_pool-inside zeros 512 512 0 zeros-lt (omega arith) (omega arith) 0 refl
      (unfold needed_info_frames in omega arith)

get_frames_one_example :
    ((fresh.n_free_frames ≡ 0) × (get_frames 9 fresh 1 ≡ assert_failed))
    ⊎ ((s : ℕ) × (q : Pool) × FirstFit fresh 1 s
        × (get_frames 9 fresh 1 ≡ ok (fresh.base_frame_no + s, q))
        × Allocated fresh 1 s q
        × IsValid q)
get_frames_one_example = get_frames_one fresh-facts.2 9 (omega (arith, fresh-size))
