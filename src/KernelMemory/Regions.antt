-- ===== src/KernelMemory/Regions.antt =====
-- What the kernel's memory pool hands out.
use demand_paged_virtual_mem.Common.{
  ℕ, zero, suc, ◌+◌, ◌-◌, ◌*◌, ◌<◌, ◌≡◌, ◌∙◌, List, [], ◌∷◌, arith, add32, ap, word_mod,
}
use demand_paged_virtual_mem.VmPool.Regions.{cover, holds}
use demand_paged_virtual_mem.KernelMemory.{
  get_frame, take_rest, new_mem_pool, allocate_memory, allocate_all,
}

abbrev pub total : List ℕ → ℕ
total [] = 0
total (size ∷ sizes) = size + total sizes

take_rest_lem : (k next : ℕ) → next + k * 4096 < word_mod → take_rest k next ≡ next + k * 4096
unfolding take_rest get_frame
take_rest_lem zero next h = omega arith
take_rest_lem (suc k) next h =
    let one : add32 next 4096 ≡ next + 4096 = omega arith in
    rw one (take_rest_lem k (next + 4096) (omega arith) ∙ omega arith)

-- A memory pool of `n > 0` frames that end below 2^32 starts at the next free frame, and the next
-- free frame after it lies behind exactly these frames.
pub new_mem_pool_lem :
    (n next : ℕ)
    → 0 < n
    → next + n * 4096 < word_mod
    → new_mem_pool n next ≡ (next, next + n * 4096)
unfolding new_mem_pool get_frame
new_mem_pool_lem n next pos h =
    let one : add32 next 4096 ≡ next + 4096 = omega arith in
    rw one (ap (λ z. (next, z)) (take_rest_lem (n - 1) (next + 4096) (omega arith) ∙ omega arith))

-- Allocations from a memory pool, one after the other, that together end below 2^32, hand out
-- each byte from the pool's address on, up to their total size, exactly once, and no other byte.
pub cover-allocate_all :
    (sizes : List ℕ) (start : ℕ)
    → start + total sizes < word_mod
    → ((x : ℕ) → cover x (allocate_all sizes start).0 ≡ holds x start (total sizes))
      × ((allocate_all sizes start).1 ≡ start + total sizes)
unfolding allocate_all allocate_memory
cover-allocate_all [] start h = ((λ x. ground arith), omega arith)
cover-allocate_all (size ∷ sizes) start h =
    let next : add32 start size ≡ start + size = omega arith in
    let rest = cover-allocate_all sizes (start + size) (omega arith) in
    rw next ((λ x. ground (arith, rest.0 x)), omega (arith, rest.1))
