-- ===== src/PageTable.antt =====
-- page_table.C and page_table.H of the first program: two levels of paging that map themselves.
pub mod Addresses
pub mod Mmu
pub mod Fill
pub mod Fault
pub mod Handler
pub mod NewTable
pub mod FreePage
pub mod Construct
pub mod Frames
pub mod Walk
mod Examples
use demand_paged_virtual_mem.Common.{
  ℕ, zero, suc, ◌+◌, ◌-◌, ◌*◌, ◌/◌, ◌%◌, ◌≤◌, ◌<◌, ◌≡◌, ◌≢◌, refl, Bool, true, false, ◌==◌, ◌&&◌,
  ◌||◌, not, ◌∙◌, sym, subst, ◌⊎◌, inl, inr, if◌then◌else◌, List, [], ◌∷◌, ◌++◌, length, All, arith,
  ltb, leb, update, add32, sub32, mul32, Run, ok, assert_failed, out_of_fuel, faulted, ◌>>=◌, ◌>>◌,
  assert, dec_lt, ap, word_mod, Option, none, some, lt→ltb, le→ltb, eq→==, ne→==, Bool-cases, ==→eq,
  ==→ne, le→leb, lt→leb, bit_and, bit_or, ◌^◌,
}
use demand_paged_virtual_mem.VmPool.{VmPool, is_legitimate}

-- What the page table uses of the frame pools: one frame from the process pool, and its return.
pub record FrameSource (S : Type 0) : Type 0 where
  pub get_frame : S → Run (ℕ × S)
  pub release_frames : ℕ → S → Run S

-- The memory, as words at the physical addresses divisible by four, the frame pools, and the
-- registers and members that the paging subsystem sets.
pub record Paging (S : Type 0) : Type 0 where
  pub memory : ℕ → ℕ
  pub frames : S
  pub cr0 : ℕ
  pub cr3 : ℕ
  pub paging_enabled : ℕ

-- `((cr2 >> 22) << 2) | 0xFFFFF000`
unfoldable pub pde_address : ℕ → ℕ
pde_address cr2 = bit_or (mul32 (cr2 / 2 ^ 22) (2 ^ 2)) 4294963200

-- `((cr2 >> 22) << 12) | 0xFFC00000`
unfoldable pub page_table_address : ℕ → ℕ
page_table_address cr2 = bit_or (mul32 (cr2 / 2 ^ 22) (2 ^ 12)) 4290772992

-- `((cr2 >> 12) << 2) | 0xFFC00000`
unfoldable pub pte_address : ℕ → ℕ
pte_address cr2 = bit_or (mul32 (cr2 / 2 ^ 12) (2 ^ 2)) 4290772992

-- `frame * PAGE_SIZE | flags`
abbrev pub entry_of : ℕ → ℕ → ℕ
entry_of frame flags = bit_or (mul32 frame 4096) flags

-- The loop of the constructor that maps the first 4 MB to themselves, from page `pno` on.
unfoldable pub map_identity : ℕ → ℕ → ℕ → (ℕ → ℕ) → ℕ → ℕ
map_identity zero table pno memory = memory
map_identity (suc rounds) table pno memory =
    map_identity rounds table (pno + 1) (update memory (table + 4 * pno) (entry_of pno 3))

-- The loop of the constructor over the other entries of the directory, from `pdno` on.
unfoldable pub fill_directory : ℕ → ℕ → ℕ → ℕ → (ℕ → ℕ) → ℕ → ℕ
fill_directory zero frame directory pdno memory = memory
fill_directory (suc rounds) frame directory pdno memory =
    let absent = update memory (directory + 4 * pdno) 2 in
    let filled = update absent (directory + 4 * pdno) (entry_of frame 3) in
    fill_directory rounds frame directory (pdno + 1) (if pdno == 1023 then filled else absent)

-- The constructor, with paging disabled: the address of the page directory, and the state.
unfoldable pub new_page_table : {S : Type 0} → FrameSource S → Paging S → Run (ℕ × Paging S)
new_page_table source st = source.get_frame st.frames >>= λ pd.
    assert (not (pd.0 == 0))
    >> (let page_directory = mul32 pd.0 4096 in
        source.get_frame pd.1 >>= λ pt.
        assert (not (pt.0 == 0))
        >> (let first_page_table = mul32 pt.0 4096 in
            let m1 = update st.memory page_directory (bit_or first_page_table 3) in
            let m2 = map_identity 1024 first_page_table 0 m1 in
            let m3 = fill_directory 1023 pd.0 page_directory 1 m2 in
            ok (page_directory, record st { memory = m3; frames = pt.1 })))

-- `load`, of the page table with the given directory
unfoldable pub load : {S : Type 0} → ℕ → Paging S → Paging S
load page_directory st = record st { cr3 = page_directory }

-- `enable_paging`
unfoldable pub enable_paging : {S : Type 0} → Paging S → Paging S
enable_paging st = record st { cr0 = bit_or st.cr0 2147483649; paging_enabled = 1 }

-- How the processor translates an address, with the memory and the directory's address.
abbrev pub Translation : Type 0
Translation = (ℕ → ℕ) → ℕ → ℕ → Option ℕ

-- `*address`, with paging enabled
unfoldable pub read_word : {S : Type 0} → Translation → ℕ → Paging S → Run ℕ
read_word translate address st = elim (translate st.memory st.cr3 address) [
  | none ↦ faulted address
  | some physical ↦ ok (st.memory physical)
]

-- `*address = word`, with paging enabled
unfoldable pub write_word : {S : Type 0} → Translation → ℕ → ℕ → Paging S → Run (Paging S)
write_word translate address word st = elim (translate st.memory st.cr3 address) [
  | none ↦ faulted address
  | some physical ↦ ok (record st { memory = update st.memory physical word })
]

-- The loop of `handle_fault` over the entries of a new page table, from entry `i` on.
unfoldable pub fill_table : {S : Type 0} → Translation → ℕ → ℕ → ℕ → ℕ → Paging S → Run (Paging S)
fill_table translate frame zero i page_table st = ok st
fill_table translate frame (suc rounds) i page_table st =
    write_word translate page_table (bit_or 2 4) st >>= λ st1.
    (if i == 1023 then write_word translate page_table (entry_of frame 7) st1 else ok st1)
    >>= λ st2. fill_table translate frame rounds (i + 1) (add32 page_table 4) st2

-- The part of `handle_fault` for an address whose page table is missing.
unfoldable pub make_table :
    {S : Type 0} → FrameSource S → Translation → ℕ → Paging S → Run (Paging S)
make_table source translate cr2 st = source.get_frame st.frames >>= λ new.
    assert (not (new.0 == 0))
    >> (write_word translate (pde_address cr2) (entry_of new.0 7) (record st { frames = new.1 })
        >>= λ st1. fill_table translate new.0 1024 0 (page_table_address cr2) st1)

-- `handle_fault` with the error code, at the address in `cr2`
unfoldable pub handle_fault :
    {S : Type 0} → FrameSource S → Translation → ℕ → ℕ → Paging S → Run (Paging S)
handle_fault source translate err_code cr2 st =
    assert (bit_and err_code 1 == 0)
    >> (read_word translate (pde_address cr2) st >>= λ pde.
        (if bit_and pde 1 == 0 then make_table source translate cr2 st else ok st) >>= λ st1.
        source.get_frame st1.frames >>= λ new.
        assert (not (new.0 == 0))
        >> write_word translate (pte_address cr2) (entry_of new.0 7)
            (record st1 { frames = new.1 }))

-- `register_pool`: the pools of a page table, the last one registered first.
unfoldable pub register_pool : VmPool → List VmPool → List VmPool
register_pool pool pools = pool ∷ pools

-- The loop of `free_page` over the pools.
unfoldable pub any_legitimate : List VmPool → ℕ → Bool
any_legitimate [] address = false
any_legitimate (pool ∷ pools) address =
    let rest = any_legitimate pools address in if is_legitimate pool address then true else rest

-- `free_page`, of the page table with the given directory and pools
unfoldable pub free_page :
    {S : Type 0} → FrameSource S → Translation → ℕ → List VmPool → ℕ → Paging S → Run (Paging S)
free_page source translate page_directory pools page_no st =
    assert (any_legitimate pools (mul32 page_no 4096))
    >> (let pte = pte_address (mul32 page_no 4096) in
        read_word translate pte st >>= λ word.
        let released = source.release_frames (word / 4096) st.frames >>= λ s.
        write_word translate pte (bit_and word 4294967294) (record st { frames = s }) >>= λ st1.
        ok (load page_directory st1) in
        if bit_and word 1 == 1 then released else ok st)
