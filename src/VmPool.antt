-- ===== src/VmPool.antt =====
-- vm_pool.H and vm_pool.C: regions of virtual memory in two tables of 512 entries, each a page.
mod Tables
pub mod Regions
mod Chunks
mod Allocate
mod Release
mod Construct
mod Examples
use demand_paged_virtual_mem.Common.{
  ℕ, zero, suc, ◌+◌, ◌-◌, ◌*◌, ◌/◌, ◌%◌, Bool, true, false, ◌&&◌, ◌||◌, not, ltb, leb, ◌==◌,
  if◌then◌else◌, update, add32, sub32, mul32, Run, ok, assert_failed, out_of_fuel, ◌>>=◌, ◌>>◌,
  assert,
}

-- `PageTable::PAGE_SIZE` and `PageTable::ENTRIES_PER_PAGE`
abbrev pub page_size : ℕ
page_size = 4096

abbrev pub entries_per_page : ℕ
entries_per_page = 1024

-- The members of a pool. The two tables are the words of the pool's first two pages: entry `k`
-- has its start at word `2 * k` and its length at word `2 * k + 1`.
pub record VmPool : Type 0 where
  pub base_address : ℕ
  pub size : ℕ
  pub alloc_list : ℕ → ℕ
  pub free_list : ℕ → ℕ

-- A size rounded up to whole pages.
unfoldable pub round_up : ℕ → ℕ
round_up size = if size % page_size == 0 then size else mul32 (add32 (size / page_size) 1) page_size

-- `for (i = i; i < ENTRIES_PER_PAGE - 1; i += 2) { list[i] = 0; list[i + 1] = 0; }`
unfoldable pub clear_from : ℕ → (ℕ → ℕ) → ℕ → ℕ → ℕ
clear_from zero list i = list
clear_from (suc rounds) list i = clear_from rounds (update (update list i 0) (i + 1) 0) (i + 2)

-- The rounds of a loop that takes `i` in steps of two to the end of a table.
abbrev pub rounds_from : ℕ → ℕ
rounds_from i = (entries_per_page - i) / 2

-- The constructor; `alloc` and `free` are what the two pages hold before.
unfoldable pub new_vm_pool : (alloc free : ℕ → ℕ) → ℕ → ℕ → VmPool
new_vm_pool alloc free base wanted =
    let size = round_up wanted in
    let second = add32 base page_size in
    let alloc' = update (update (update (update alloc 0 base) 1 page_size) 2 second) 3 page_size in
    let free' =
      update (update free 0 (add32 base (2 * page_size))) 1 (sub32 size (2 * page_size)) in
    record {
      base_address = base;
      size = size;
      alloc_list = clear_from (rounds_from 4) alloc' 4;
      free_list = clear_from (rounds_from 2) free' 2;
    }

-- `while (list[iter + 1] < size) { iter += 2; assert(iter < ENTRIES_PER_PAGE - 1); }`
unfoldable pub find_chunk : ℕ → (ℕ → ℕ) → ℕ → ℕ → Run ℕ
find_chunk zero list size iter = out_of_fuel
find_chunk (suc fuel) list size iter =
    let rest =
      assert (ltb (iter + 2) (entries_per_page - 1)) >> find_chunk fuel list size (iter + 2) in
    if ltb (list (iter + 1)) size then rest else ok iter

-- `while (list[iter + 1] != 0) { iter += 2; assert(iter < ENTRIES_PER_PAGE - 3); }`
unfoldable pub find_end : ℕ → (ℕ → ℕ) → ℕ → Run ℕ
find_end zero list iter = out_of_fuel
find_end (suc fuel) list iter =
    let rest = assert (ltb (iter + 2) (entries_per_page - 3)) >> find_end fuel list (iter + 2) in
    if list (iter + 1) == 0 then ok iter else rest

-- `while (list[iter] != start) { iter += 2; assert(iter < ENTRIES_PER_PAGE - 1); }`
unfoldable pub find_start : ℕ → (ℕ → ℕ) → ℕ → ℕ → Run ℕ
find_start zero list start iter = out_of_fuel
find_start (suc fuel) list start iter =
    let rest =
      assert (ltb (iter + 2) (entries_per_page - 1)) >> find_start fuel list start (iter + 2) in
    if list iter == start then ok iter else rest

-- The loop that moves the entries from `i` on up by one and clears the last one.
unfoldable pub shift_up : ℕ → (ℕ → ℕ) → ℕ → ℕ → ℕ
shift_up zero list i = list
shift_up (suc rounds) list i =
    let moved = update (update list (i - 2) (list i)) (i - 1) (list (i + 1)) in
    let cleared = update (update moved i 0) (i + 1) 0 in
    shift_up rounds (if leb (entries_per_page - 1) (i + 2) then cleared else moved) (i + 2)

-- `list[iter] = start; list[iter + 1] = length;`
abbrev pub put_entry : (ℕ → ℕ) → ℕ → ℕ → ℕ → ℕ → ℕ
put_entry list iter start length = update (update list iter start) (iter + 1) length

-- What `allocate` does to the free list at the chunk that it found.
unfoldable pub cut_chunk : (ℕ → ℕ) → ℕ → ℕ → ℕ → ℕ
cut_chunk list iter size =
    if ltb size (list (iter + 1))
    then put_entry list iter (add32 (list iter) size) (sub32 (list (iter + 1)) size)
    else shift_up (rounds_from (iter + 2)) list (iter + 2)

-- More rounds than a search loop can make before its assertion fails.
abbrev pub search_fuel : ℕ
search_fuel = 513

unfoldable pub allocate : VmPool → ℕ → Run (ℕ × VmPool)
allocate p wanted = do
  let size = round_up wanted
  iter ← find_chunk search_fuel p.free_list size 0
  let start = p.free_list iter
  end ← find_end search_fuel p.alloc_list 0
  ok (
    start,
    record p {
      alloc_list = put_entry p.alloc_list end start size;
      free_list = cut_chunk p.free_list iter size;
    },
  )

-- The loop of `release` that gives the pages back, through the page table's `free_page`.
unfoldable pub free_pages : {S : Type 0} → (ℕ → S → Run S) → ℕ → ℕ → S → Run S
free_pages free_page zero i s = ok s
free_pages free_page (suc rounds) i s =
    free_page (i / page_size) s >>= free_pages free_page rounds (i + page_size)

-- `release`; `S` is the page table's state, and `free_page` its method.
unfoldable pub release : {S : Type 0} → (ℕ → S → Run S) → VmPool → ℕ → S → Run (S × VmPool)
release free_page p start s = do
  iter ← find_start search_fuel p.alloc_list start 0
  let from = p.alloc_list iter
  let length = p.alloc_list (iter + 1)
  assert (from % page_size == 0)
  assert (length % page_size == 0)
  s' ← free_pages free_page ((add32 from length - from) / page_size) from s
  end ← find_end search_fuel p.free_list 0
  ok (
    s',
    record p {
      alloc_list = shift_up (rounds_from (iter + 2)) (put_entry p.alloc_list iter 0 0) (iter + 2);
      free_list = put_entry p.free_list end from length;
    },
  )

-- `_address >= start && _address < start + length`
abbrev pub within : ℕ → ℕ → ℕ → Bool
within address start length = leb start address && ltb address (add32 start length)

-- The loop of `is_legitimate` over the entries from `i` on.
unfoldable pub in_entries : ℕ → (ℕ → ℕ) → ℕ → ℕ → Bool
in_entries zero list address i = false
in_entries (suc rounds) list address i =
    within address (list i) (list (i + 1)) || in_entries rounds list address (i + 2)

unfoldable pub is_legitimate : VmPool → ℕ → Bool
is_legitimate p address =
    within address p.base_address page_size
    || within address (add32 p.base_address page_size) page_size
    || in_entries (rounds_from 0) p.alloc_list address 0
