-- ===== src/VmPool/Examples.antt =====
-- The theorems on virtual memory pools at a concrete pool, and tests by evaluation.
use demand_paged_virtual_mem.Common.{
  ℕ, ◌+◌, ◌-◌, ◌*◌, ◌/◌, ◌≤◌, ◌≡◌, refl, List, [], ◌∷◌, ◌++◌, arith, Run, ok, none, some,
}
use demand_paged_virtual_mem.VmPool.{
  VmPool, page_size, round_up, new_vm_pool, allocate, release, free_pages,
}
use demand_paged_virtual_mem.VmPool.Regions.{take_region}
use demand_paged_virtual_mem.VmPool.Allocate.{IsValid, allocate_first_fit}
use demand_paged_virtual_mem.VmPool.Release.{release_lem}
use demand_paged_virtual_mem.VmPool.Construct.{new_vm_pool-IsValid}

abbrev zeros : ℕ → ℕ
zeros i = 0

-- The heap pool of a test, ten pages from 512 MB on.
abbrev base : ℕ
base = 536870912

abbrev heap : VmPool
heap = new_vm_pool zeros zeros base 40000

test_round_up : (round_up 40000 ≡ 40960) × (round_up 8192 ≡ 8192)
unfolding round_up
test_round_up = (refl, refl)

new_vm_pool-IsValid_example :
    IsValid heap
      ((base, page_size) ∷ (base + page_size, page_size) ∷ [])
      ((base + 2 * page_size, round_up 40000 - 2 * page_size) ∷ [])
new_vm_pool-IsValid_example = new_vm_pool-IsValid zeros zeros base 40000 (omega arith) (omega arith)

first_cut :
    take_region (round_up 5000) ((base + 2 * page_size, round_up 40000 - 2 * page_size) ∷ [])
    ≡ some (base + 8192, (base + 16384, 24576) ∷ [])
unfolding take_region round_up
first_cut = refl

allocate_first_fit_example :
    (q : VmPool) × (allocate heap 5000 ≡ ok (base + 8192, q))
    × IsValid q
        (((base, page_size) ∷ (base + page_size, page_size) ∷ [])
          ++ (base + 8192, round_up 5000) ∷ [])
        ((base + 16384, 24576) ∷ [])
allocate_first_fit_example =
    allocate_first_fit new_vm_pool-IsValid_example 5000 (base + 8192) ((base + 16384, 24576) ∷ [])
      (omega arith) (omega arith) (omega arith) first_cut

no_cut :
    take_region (round_up 50000) ((base + 2 * page_size, round_up 40000 - 2 * page_size) ∷ [])
    ≡ none
unfolding take_region round_up
no_cut = refl

-- A page table that notes the pages that it gets back, the last one first.
abbrev noted_page : ℕ → List ℕ → Run (List ℕ)
noted_page page seen = ok (page ∷ seen)

rounded_5000 : round_up 5000 ≡ 8192
unfolding round_up
rounded_5000 = refl

after_first : VmPool
after_first = allocate_first_fit_example.0

after_first-IsValid :
    IsValid after_first
      (((base, page_size) ∷ (base + page_size, page_size) ∷ []) ++ (base + 8192, 8192) ∷ [])
      ((base + 16384, 24576) ∷ [])
unfolding after_first round_up
after_first-IsValid = allocate_first_fit_example.2

test_free_pages :
    free_pages noted_page (8192 / page_size) (base + 8192) [] ≡ ok (131075 ∷ 131074 ∷ [])
unfolding free_pages
test_free_pages = refl

release_lem_example :
    (q : VmPool) × (release noted_page after_first (base + 8192) [] ≡ ok (131075 ∷ 131074 ∷ [], q))
    × IsValid q
        (((base, page_size) ∷ (base + page_size, page_size) ∷ []) ++ [])
        (((base + 16384, 24576) ∷ []) ++ (base + 8192, 8192) ∷ [])
release_lem_example =
    release_lem ((base, page_size) ∷ (base + page_size, page_size) ∷ []) [] (base + 8192) 8192
      after_first-IsValid (omega arith, (omega arith, tt)) (refl, refl) (omega arith) noted_page []
      (131075 ∷ 131074 ∷ []) test_free_pages

heap_pages : 2 * page_size ≤ heap.size
unfolding new_vm_pool round_up
heap_pages = omega arith
