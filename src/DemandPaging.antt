-- ===== src/DemandPaging.antt =====
-- kernel.C of the first program: memory references that the page fault handler serves, and the test
-- of the page table by memory references.
pub mod Owned
pub mod Steps
pub mod Served
pub mod Access
pub mod Memory
pub mod References
pub mod Start
pub mod Main
mod Examples
use demand_paged_virtual_mem.Common.{
  ℕ, zero, suc, ◌+◌, ◌-◌, ◌*◌, ◌/◌, ◌%◌, ◌≤◌, ◌<◌, ◌≡◌, ◌≢◌, refl, Bool, true, false, ◌==◌, ◌&&◌,
  ◌||◌, not, ◌∙◌, sym, subst, ◌⊎◌, inl, inr, if◌then◌else◌, List, [], ◌∷◌, ◌++◌, length, All, arith,
  ltb, leb, update, add32, sub32, mul32, Run, ok, assert_failed, out_of_fuel, faulted, ◌>>=◌, ◌>>◌,
  assert, dec_lt, dec_le, ap, word_mod, Option, none, some, lt→ltb, le→ltb, eq→==, ne→==, if_cases,
  Bool-cases, ==→eq, ==→ne, le→leb, lt→leb, bit_and, bit_or, ◌^◌,
}
use demand_paged_virtual_mem.FramePool.{
  Pool, new_pool, get_frames, needed_info_frames, mark_inaccessible,
}
use demand_paged_virtual_mem.Dispatch.{
  HandlerTable, Exception, handled, aborted, dispatch_exception, register_handler,
  exception_table_size,
}
use demand_paged_virtual_mem.PageTable.{
  FrameSource, Paging, Translation, new_page_table, enable_paging, handle_fault,
}
use demand_paged_virtual_mem.PageTable.Frames.{process_source}
use demand_paged_virtual_mem.Common.{List, []}
use demand_paged_virtual_mem.Dispatch.{init_exceptions}
use demand_paged_virtual_mem.PageTable

-- What a memory reference meets: the processor's walk, the process frame pool, the handlers that are
-- registered for exceptions, and the one of them that calls `PageTable::handle_fault`.
pub record System : Type 0 where
  pub translate : Translation
  pub source : FrameSource Pool
  pub handlers : HandlerTable
  pub pagefault_handler : ℕ

-- `handle_exception` of a handler, at the error code and the address of a page fault. The handler of
-- divisions by zero, the only other one, loops for ever.
unfoldable pub handle_exception : System → ℕ → ℕ → ℕ → Paging Pool → Run (Paging Pool)
handle_exception sys err_code address handler st =
    if handler == sys.pagefault_handler
    then handle_fault sys.source sys.translate err_code address st
    else out_of_fuel

-- The physical address of a reference: the processor raises exception 14 where the address is not
-- present, and starts the instruction again behind the handler. An exception without a handler stops
-- the machine, like a failed assertion.
unfoldable pub resolve : ℕ → System → ℕ → ℕ → Paging Pool → Run (ℕ × Paging Pool)
resolve zero sys err_code address st = out_of_fuel
resolve (suc fuel) sys err_code address st = elim (sys.translate st.memory st.cr3 address) [
  | some physical ↦ ok (physical, st)
  | none ↦
      dispatch_exception (handle_exception sys err_code address) sys.handlers 14 st
      >>= λ (e : Exception (Paging Pool)). elim e [
        | handled st1 ↦ resolve fuel sys err_code address st1
        | aborted ↦ assert_failed
      ]
]

-- `main` up to `enable_paging`: the kernel pool at 2 MB, the process pool at 4 MB with its bitmap in
-- a frame of the kernel pool, and the page table; the two pools find memory for their bitmaps. The
-- results are the kernel pool and the state.
unfoldable pub init_memory :
    ℕ → FrameSource Pool → (ℕ → ℕ) → (ℕ → ℕ) → Paging Pool → Run (Pool × Paging Pool)
init_memory fuel source kernel_bits process_bits st =
    let kernel_mem_pool = new_pool kernel_bits 512 512 0 in
    get_frames fuel kernel_mem_pool (needed_info_frames 7168) >>= λ (k : ℕ × Pool).
    let process_mem_pool = mark_inaccessible (new_pool process_bits 1024 7168 k.0) 3840 256 in
    new_page_table source (record st { frames = process_mem_pool }) >>= λ (pt : ℕ × Paging Pool).
    ok (k.1, enable_paging (PageTable.load pt.0 pt.1))

-- The handlers that `main` registers, in a table that `init_dispatcher` has cleared
unfoldable pub main_handlers : ℕ → ℕ → HandlerTable → Run HandlerTable
main_handlers dbz_handler pagefault_handler table = do
  with_dbz ← register_handler exception_table_size table 0 dbz_handler
  register_handler exception_table_size with_dbz 14 pagefault_handler

-- `foo[i] = i`: the write bit of the error code is set.
unfoldable pub store : ℕ → System → ℕ → ℕ → Paging Pool → Run (Paging Pool)
store fuel sys address word st = resolve fuel sys 2 address st >>= λ (r : ℕ × Paging Pool).
    ok (record r.1 { memory = update r.1.memory r.0 word })

unfoldable pub load : ℕ → System → ℕ → Paging Pool → Run (ℕ × Paging Pool)
load fuel sys address st =
    resolve fuel sys 0 address st >>= λ (r : ℕ × Paging Pool). ok (r.1.memory r.0, r.1)

-- The two loops of `GeneratePageTableMemoryReferences`, from reference `i` on; `none` where the test
-- fails.
unfoldable pub write_references : ℕ → ℕ → System → ℕ → ℕ → Paging Pool → Run (Paging Pool)
write_references zero fuel sys start i st = ok st
write_references (suc rounds) fuel sys start i st =
    store fuel sys (add32 start (mul32 4 i)) i st >>= λ (st1 : Paging Pool).
    write_references rounds fuel sys start (i + 1) st1

unfoldable pub check_references : ℕ → ℕ → System → ℕ → ℕ → Paging Pool → Run (Option (Paging Pool))
check_references zero fuel sys start i st = ok (some st)
check_references (suc rounds) fuel sys start i st =
    load fuel sys (add32 start (mul32 4 i)) st >>= λ (r : ℕ × Paging Pool).
    let rest = check_references rounds fuel sys start (i + 1) r.1 in
    if not (r.0 == i) then ok none else rest

unfoldable pub generate_references : ℕ → System → ℕ → ℕ → Paging Pool → Run (Option (Paging Pool))
generate_references fuel sys start_address n_references st =
    write_references n_references fuel sys start_address 0 st >>= λ (st1 : Paging Pool).
    check_references n_references fuel sys start_address 0 st1

-- `main` as far as its page table test goes: the exception handlers, the memory, and the references.
-- The list of the other frame pools, which only a release reads, is left out.
unfoldable pub main :
    Translation
    → ℕ
    → ℕ
    → ℕ
    → HandlerTable
    → (ℕ → ℕ)
    → (ℕ → ℕ)
    → Paging Pool
    → Run (Option (Paging Pool))
main translate fuel dbz_handler pagefault_handler table kernel_bits process_bits st =
    main_handlers dbz_handler pagefault_handler (init_exceptions table).1
    >>= λ (handlers : HandlerTable).
        let sys : System = record {
          translate = translate;
          source = process_source fuel [] [];
          handlers = handlers;
          pagefault_handler = pagefault_handler;
        } in
        init_memory fuel sys.source kernel_bits process_bits st >>= λ (r : Pool × Paging Pool).
        generate_references 2 sys 4194304 2048 r.1
