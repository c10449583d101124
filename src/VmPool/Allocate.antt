-- ===== src/VmPool/Allocate.antt =====
-- `VMPool::allocate` against first fit, and the invariant of a pool.
use demand_paged_virtual_mem.Common.{length-append}
use demand_paged_virtual_mem.Common.{
  ℕ, ◌+◌, ◌*◌, ◌%◌, ◌≤◌, ◌<◌, ◌≡◌, refl, List, [], ◌∷◌, ◌++◌, length, All, arith, ok, assert_failed,
  word_mod, none, some,
}
use demand_paged_virtual_mem.VmPool.{VmPool, page_size, round_up, cut_chunk, put_entry, allocate}
use demand_paged_virtual_mem.VmPool.Tables.{Table, Table-Positive, find_end-Table, put_entry-Table}
use demand_paged_virtual_mem.VmPool.Regions.{
  cover, holds, cover-append, take_region, cover-take_region, length-take_region, ends_of_cover,
}
use demand_paged_virtual_mem.VmPool.Chunks.{find_chunk-Table, find_chunk-none}

-- The two tables hold the regions `taken` and `fs`, with their last entries unused, and these regions
-- cover each byte of the pool exactly once and no other byte.
pub record IsValid (p : VmPool) (taken fs : List (ℕ × ℕ)) : Type 0 where
  pub alloc : Table p.alloc_list 0 512 taken
  pub free : Table p.free_list 0 512 fs
  pub alloc_few : length taken ≤ 511
  pub free_few : length fs ≤ 511
  pub exact : (x : ℕ) → cover x taken + cover x fs ≡ holds x p.base_address p.size
  pub small : p.base_address + p.size < word_mod

-- For a size at least a page below 2^32, `round_up` gives whole pages, at least the size, and
-- less than a page more.
pub round_up_lem :
    (size : ℕ)
    → size + page_size < word_mod
    → (round_up size % page_size ≡ 0) × (size ≤ round_up size) × (round_up size < size + page_size)
unfolding round_up
round_up_lem size h = ground arith

module _ {p : VmPool} {taken fs : List (ℕ × ℕ)} (v : IsValid p taken fs) where
  outside : (x : ℕ) → p.base_address + p.size ≤ x → (cover x taken ≡ 0) × (cover x fs ≡ 0)
  outside x h =
      let none_here : holds x p.base_address p.size ≡ 0 = ground arith in omega (arith, v.exact x)

  weaken :
      (limit : ℕ) (rs : List (ℕ × ℕ))
      → limit < word_mod
      → All (λ r. r.0 + r.1 ≤ limit) rs
      → All (λ r. r.0 + r.1 < word_mod) rs
  weaken limit [] h a = tt
  weaken limit (r ∷ rs) h a = (omega (arith, a.0), weaken limit rs h a.1)

  pub free_ends : All (λ r. r.0 + r.1 < word_mod) fs
  free_ends = weaken (p.base_address + p.size) fs v.small (
      ends_of_cover (p.base_address + p.size) fs (Table-Positive p.free_list 0 512 fs v.free)
        (λ x h. (outside x h).1))

  pub alloc_ends : All (λ r. r.0 + r.1 < word_mod) taken
  alloc_ends = weaken (p.base_address + p.size) taken v.small (
      ends_of_cover (p.base_address + p.size) taken
        (Table-Positive p.alloc_list 0 512 taken v.alloc) (λ x h. (outside x h).0))

  -- In a valid pool with at most 510 allocated regions, `allocate` of a positive size returns the
  -- start of the first free region that is large enough for the size in whole pages, cuts that
  -- size from its front, adds it to the allocated regions, and leaves a valid pool. The search
  -- ends within its fuel. The size plus a page is below 2^32.
  pub allocate_first_fit :
      (wanted t : ℕ) (left : List (ℕ × ℕ))
      → 0 < wanted
      → wanted + page_size < word_mod
      → length taken ≤ 510
      → take_region (round_up wanted) fs ≡ some (t, left)
      → (q : VmPool) × (allocate p wanted ≡ ok (t, q))
        × IsValid q (taken ++ (t, round_up wanted) ∷ []) left
  allocate_first_fit wanted t left pos fits few took =
      let size = round_up wanted in
      let rounded = round_up_lem wanted fits in
      let (iter, found, le, start, cut) =
        find_chunk-Table 513 512 p.free_list 0 size fs t left refl (omega (arith, v.free_few))
          (omega arith) (omega (arith, rounded)) free_ends v.free took in
      let last =
        find_end-Table 513 512 p.alloc_list 0 taken v.alloc (omega arith) (omega arith)
          (omega arith) in
      (
        record p {
          alloc_list = put_entry p.alloc_list (0 + 2 * length taken) t size;
          free_list = cut_chunk p.free_list iter size;
        },
        unfold allocate in rw (found, last, start),
        record {
          alloc =
              put_entry-Table p.alloc_list 0 512 taken t size (0 + 2 * length taken) refl
                (omega arith) (omega (arith, rounded)) v.alloc;
          free = cut;
          alloc_few = omega (arith, length-append taken ((t, size) ∷ []));
          free_few = omega (arith, length-take_region size fs t left took, v.free_few);
          exact = λ x. omega (
            arith,
            v.exact x,
            cover-append x taken ((t, size) ∷ []),
            cover-take_region size fs t left x took,
          );
          small = v.small;
        },
      )

  -- In a valid pool without a free region that is large enough for the positive size in whole
  -- pages, `allocate` fails its assertion. The size plus a page is below 2^32.
  pub allocate-no_fit :
      (wanted : ℕ)
      → 0 < wanted
      → wanted + page_size < word_mod
      → take_region (round_up wanted) fs ≡ none
      → allocate p wanted ≡ assert_failed
  unfolding allocate
  allocate-no_fit wanted pos fits took =
      let rounded = round_up_lem wanted fits in
      rw (
        find_chunk-none 513 511 p.free_list 0 (round_up wanted) fs refl (omega (arith, v.free_few))
          (omega arith) (omega (arith, rounded)) v.free took)
