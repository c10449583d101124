-- ===== src/PageTable/Examples.antt =====
-- The theorems on page tables at a concrete directory, with a walk and a list of frames.
use demand_paged_virtual_mem.Common.{
  ℕ, ◌+◌, ◌*◌, ◌/◌, ◌≤◌, ◌<◌, ◌≡◌, ◌≢◌, refl, true, ◌==◌, ◌⊎◌, inl, if◌then◌else◌, List, [], ◌∷◌,
  arith, Run, ok, faulted, none, some,
}
use demand_paged_virtual_mem.FramePool.{
  free, Pool, get_state, set_state, new_pool, mark_free, needed_info_frames,
}
use demand_paged_virtual_mem.FramePool.Count.{IsValid}
use demand_paged_virtual_mem.FramePool.Construct.{new_pool-outside}
use demand_paged_virtual_mem.PageTable.Frames.{process_source, free_page-handle_fault}
use demand_paged_virtual_mem.VmPool.{VmPool, is_legitimate, in_entries}
use demand_paged_virtual_mem.PageTable.{
  FrameSource, Paging, pde_address, page_table_address, pte_address, new_page_table, handle_fault,
  any_legitimate, free_page,
}
use demand_paged_virtual_mem.PageTable.Addresses.{
  directory_index, table_index, offset, recursive_addresses,
}
use demand_paged_virtual_mem.PageTable.Fault.{IsPaging, IsFresh}
use demand_paged_virtual_mem.PageTable.NewTable.{handle_fault-IsPaging, handle_fault_last_page}
use demand_paged_virtual_mem.PageTable.FreePage.{free_page-present, free_page_no_table}
use demand_paged_virtual_mem.PageTable.Walk.{walk, walk-IsMmu}
use demand_paged_virtual_mem.PageTable.Construct.{new_page_table-IsPaging}

recursive_addresses_example :
    ((directory_index (pde_address 536879104) ≡ 1023)
      × (table_index (pde_address 536879104) ≡ 1023)
      × (offset (pde_address 536879104) ≡ directory_index 536879104 * 4))
    × ((directory_index (page_table_address 536879104) ≡ 1023)
        × (table_index (page_table_address 536879104) ≡ directory_index 536879104)
        × (offset (page_table_address 536879104) ≡ 0))
    × (directory_index (pte_address 536879104) ≡ 1023)
    × (table_index (pte_address 536879104) ≡ directory_index 536879104)
    × (offset (pte_address 536879104) ≡ table_index 536879104 * 4)
recursive_addresses_example = recursive_addresses 536879104 (omega arith)

test_pte_address : pte_address 536879104 ≡ 4291297288
unfolding pte_address
test_pte_address = refl

-- Frames handed out from a list.
abbrev take_first : List ℕ → Run (ℕ × List ℕ)
take_first [] = ok (0, [])
take_first (f ∷ fs) = ok (f, fs)

abbrev listed : FrameSource (List ℕ)
listed = record { get_frame = take_first; release_frames = λ f fs. ok (f ∷ fs) }

-- The directory in frame 1024 maps itself and has a table in frame 1025 for the second 4 MB, whose
-- first page is in frame 1026.
abbrev paged : ℕ → ℕ
paged q =
    if q == 4198396
    then 4194307
    else if q == 4194308
    then 4198407
    else if q == 4198400
    then 4202503
    else 2

abbrev state : Paging (List ℕ)
state = record {
  memory = paged;
  frames = 1040 ∷ 1041 ∷ [];
  cr0 = 0;
  cr3 = 4194304;
  paging_enabled = 1;
}

paged-IsPaging : IsPaging paged 4194304
paged-IsPaging = record {
  self_mapped = record { aligned = refl; self = refl; self_present = refl };
  apart = λ i lt odd e. ground arith;
  distinct = λ i j lt lt' odd odd' e. ground arith;
}

paged-IsFresh : IsFresh paged 4194304 1040
paged-IsFresh = (omega arith, λ i lt odd e. ground arith)

new_page_table-IsPaging_example :
    (m' : ℕ → ℕ) × (new_page_table listed (record state { frames = 1024 ∷ 1025 ∷ [] })
      ≡ ok (1024 * 4096, record state { memory = m'; frames = [] }))
    × IsPaging m' (1024 * 4096)
    × ((a : ℕ) → a < 4194304 → walk m' (1024 * 4096) a ≡ some a)
    × ((a : ℕ) → 4194304 ≤ a → a < 4290772992 → walk m' (1024 * 4096) a ≡ none)
new_page_table-IsPaging_example =
    new_page_table-IsPaging listed walk-IsMmu (record state { frames = 1024 ∷ 1025 ∷ [] }) 1024 1025
      (1025 ∷ []) [] refl refl (omega arith) (omega arith) (omega arith) (omega arith) (omega arith)

handle_fault-IsPaging_example :
    (m' : ℕ → ℕ) × (handle_fault listed walk 2 8388608 state
      ≡ ok (record state { memory = m'; frames = [] }))
    × ((a : ℕ) → a / 4096 ≡ 8388608 / 4096 → walk m' 4194304 a ≡ some (1041 * 4096 + offset a))
    × ((a : ℕ)
        → a < 4290772992
        → a / 4096 ≢ 8388608 / 4096
        → (directory_index a ≢ directory_index 8388608) ⊎ (table_index a < 1023)
        → walk m' 4194304 a ≡ walk paged 4194304 a)
    × IsPaging m' 4194304
handle_fault-IsPaging_example =
    handle_fault-IsPaging listed walk-IsMmu 8388608 (omega arith) state paged-IsPaging refl 1040
      (1041 ∷ []) refl (omega arith) (omega arith) paged-IsFresh 2 1041 [] refl refl (omega arith)
      (omega arith)

handle_fault_last_page_example :
    (m' : ℕ → ℕ) × (handle_fault listed walk 2 8388608 state
      ≡ ok (record state { memory = m'; frames = [] }))
    × ((a : ℕ)
        → directory_index a ≡ directory_index 8388608
        → table_index a ≡ 1023
        → walk m' 4194304 a ≡ some (1040 * 4096 + offset a))
handle_fault_last_page_example =
    handle_fault_last_page listed walk-IsMmu 8388608 (omega arith) state paged-IsPaging refl 1040
      (1041 ∷ []) refl (omega arith) (omega arith) paged-IsFresh 2 1041 [] refl refl (omega arith)
      (omega arith) (omega arith)

-- Pools at 4 MB and at 8 MB.
abbrev pool_at : ℕ → VmPool
pool_at base = record {
  base_address = base;
  size = 4194304;
  alloc_list = λ i. 0;
  free_list = λ i. 0;
}

abbrev pools : List VmPool
pools = pool_at 8388608 ∷ pool_at 4194304 ∷ []

pools-legitimate :
    (any_legitimate pools (1024 * 4096) ≡ true) × (any_legitimate pools (2048 * 4096) ≡ true)
unfolding any_legitimate is_legitimate in_entries
pools-legitimate = (refl, refl)

free_page-present_example :
    (m' : ℕ → ℕ) × (free_page listed walk 4194304 pools 1024 state
      ≡ ok (record state { memory = m'; frames = 1026 ∷ 1040 ∷ 1041 ∷ [] }))
    × ((a : ℕ) → a / 4096 ≡ 1024 → walk m' 4194304 a ≡ none)
    × ((a : ℕ) → a < 4290772992 → a / 4096 ≢ 1024 → walk m' 4194304 a ≡ walk paged 4194304 a)
    × IsPaging m' 4194304
free_page-present_example =
    free_page-present listed walk-IsMmu pools 1024 (omega arith) state paged-IsPaging refl
      pools-legitimate.0 (1026 ∷ 1040 ∷ 1041 ∷ []) refl (omega arith) refl

free_page_no_table_example :
    free_page listed walk 4194304 pools 2048 state ≡ faulted (pte_address (2048 * 4096))
free_page_no_table_example =
    free_page_no_table listed walk-IsMmu pools 2048 (omega arith) state paged-IsPaging refl
      pools-legitimate.1

-- The process pool with eight free frames from frame 512 on.
abbrev zeros : ℕ → ℕ
zeros i = 0

abbrev eight : Pool
eight = new_pool zeros 512 8 3

eight-IsValid :
    ((g : ℕ) → g < 8 → get_state eight g ≡ free) × (eight.n_free_frames ≡ 8) × IsValid eight
eight-IsValid =
    new_pool-outside zeros 512 8 3 (λ i. omega arith) (omega arith) (omega arith) (omega arith)
      (inl (omega arith)) (omega arith)

eight-size : (eight.nframes ≡ 8) × (eight.base_frame_no ≡ 512)
unfolding new_pool mark_free set_state needed_info_frames
eight-size = (refl, refl)

abbrev pool_state : Paging Pool
pool_state = record { memory = paged; frames = eight; cr0 = 0; cr3 = 4194304; paging_enabled = 1 }

free_page-handle_fault_example :
    (st1 st2 : Paging Pool) × (handle_fault (process_source 9 [] []) walk 2 4194500 pool_state
      ≡ ok st1)
    × (free_page (process_source 9 [] []) walk 4194304 pools (4194500 / 4096) st1 ≡ ok st2)
    × ((a : ℕ) → a / 4096 ≡ 4194500 / 4096 → walk st2.memory 4194304 a ≡ none)
    × ((a : ℕ)
        → a < 4290772992
        → a / 4096 ≢ 4194500 / 4096
        → walk st2.memory 4194304 a ≡ walk paged 4194304 a)
    × ((g : ℕ) → get_state st2.frames g ≡ get_state eight g)
    × (st2.frames.n_free_frames ≡ eight.n_free_frames)
free_page-handle_fault_example =
    free_page-handle_fault walk-IsMmu 9 [] [] 4194500 (omega arith) pool_state paged-IsPaging refl
      eight-IsValid.2 (omega (arith, eight-size)) (omega (arith, eight-size)) 2 pools refl
      (omega (arith, eight-IsValid.1)) (λ first lo hi. tt) pools-legitimate.0
