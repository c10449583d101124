-- ===== src/KernelMemory.antt =====
-- frame_pool.C and mem_pool.C of the second program: the kernel's own memory, which is only handed
-- out.
pub mod Regions
mod Examples
use demand_paged_virtual_mem.Common.{
  ℕ, zero, suc, ◌+◌, ◌-◌, ◌*◌, ◌/◌, ◌%◌, ◌≤◌, ◌<◌, ◌≡◌, ◌≢◌, refl, Bool, true, false, ◌==◌, ◌&&◌,
  ◌||◌, not, ◌∙◌, sym, subst, ◌⊎◌, inl, inr, if◌then◌else◌, List, [], ◌∷◌, ◌++◌, length, All, arith,
  ltb, leb, update, add32, sub32, mul32, Run, ok, assert_failed, out_of_fuel, ◌>>=◌, ◌>>◌, assert,
  dec_lt, ap, word_mod, Option, none, some, lt→ltb, le→ltb, eq→==, ne→==, Bool-cases, ==→eq, ==→ne,
  le→leb, lt→leb, bit_and,
}

-- `next_free_frame` after the constructor of `FramePool`
abbrev pub first_frame : ℕ
first_frame = 2097152

-- `get_frame` at `next_free_frame`: the frame's address, and the next free one.
unfoldable pub get_frame : ℕ → ℕ × ℕ
get_frame next_free_frame = (next_free_frame, add32 next_free_frame 4096)

-- The loop of the constructor of `MemPool`.
unfoldable pub take_rest : ℕ → ℕ → ℕ
take_rest zero next_free_frame = next_free_frame
take_rest (suc rounds) next_free_frame = take_rest rounds (get_frame next_free_frame).1

-- The constructor of `MemPool`: its `start_address`, and the next free frame.
unfoldable pub new_mem_pool : ℕ → ℕ → ℕ × ℕ
new_mem_pool n_frames next_free_frame =
    let (start_address, next) = get_frame next_free_frame in
    (start_address, take_rest (n_frames - 1) next)

-- `MemPool::allocate` at `start_address`: the memory's address, and the pool's new one.
unfoldable pub allocate_memory : ℕ → ℕ → ℕ × ℕ
allocate_memory size start_address = (start_address, add32 start_address size)

-- Allocations one after the other: the addresses with their sizes, and the pool's last address.
unfoldable pub allocate_all : List ℕ → ℕ → List (ℕ × ℕ) × ℕ
allocate_all [] start_address = ([], start_address)
allocate_all (size ∷ sizes) start_address =
    let (address, next) = allocate_memory size start_address in
    let (regions, last) = allocate_all sizes next in ((address, size) ∷ regions, last)
