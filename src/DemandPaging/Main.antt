-- ===== src/DemandPaging/Main.antt =====
-- The first program's `main`, up to the end of its page table test.
use demand_paged_virtual_mem.Common.{ℕ, ◌<◌, ◌≡◌, ◌≢◌, refl, [], ok, some}
use demand_paged_virtual_mem.FramePool.{Pool}
use demand_paged_virtual_mem.Dispatch.{HandlerTable, init_exceptions}
use demand_paged_virtual_mem.PageTable.{Paging, Translation}
use demand_paged_virtual_mem.PageTable.Mmu.{IsMmu}
use demand_paged_virtual_mem.PageTable.Frames.{process_source}
use demand_paged_virtual_mem.DemandPaging.{System, main}
use demand_paged_virtual_mem.DemandPaging.Served.{IsSystem, IsReady}
use demand_paged_virtual_mem.DemandPaging.References.{IsNumbered}
use demand_paged_virtual_mem.DemandPaging.Start.{
  main_handlers-registered, init_memory-generate_references,
}

-- The parts of the system that `main` puts together.
abbrev pub main_system : Translation → ℕ → ℕ → HandlerTable → System
main_system translate fuel pagefault_handler handlers = record {
  translate = translate;
  source = process_source fuel [] [];
  handlers = handlers;
  pagefault_handler = pagefault_handler;
}

module _ {translate : Translation} (mmu : IsMmu translate) (fuel dbz_handler pagefault_handler : ℕ)
    (table : HandlerTable) (kernel_bits process_bits : ℕ → ℕ)
    (kernel_bytes : (i : ℕ) → kernel_bits i < 256) (process_bytes : (i : ℕ) → process_bits i < 256)
    (enough : 7168 < fuel) (real : pagefault_handler ≢ 0) where
  -- The first program passes its test. The processor's walk is a parameter with the documented
  -- behaviour of two-level paging; the pools find any bytes in their bitmaps, the page fault
  -- handler is not at address 0, and there is more fuel than 7168. Then `main`, with the handlers
  -- that it registers, the memory that it sets up and its test of the page table, 2048 references
  -- from 4 MB on, runs to its end without a failure; afterwards each of the 2048 words is in
  -- memory, and each frame belongs to the pool, to the paging structures or to one page.
  pub main-IsNumbered :
      (st : Paging Pool)
      → (handlers : HandlerTable) × (st1 : Paging Pool) × (main translate fuel dbz_handler
            pagefault_handler table kernel_bits process_bits st
          ≡ ok (some st1))
        × IsReady (main_system translate fuel pagefault_handler handlers) fuel st1
        × IsNumbered (main_system translate fuel pagefault_handler handlers) st1 4194304 2048
  unfolding main
  main-IsNumbered st =
      let (handlers, registered, fourteen, first) =
        main_handlers-registered dbz_handler pagefault_handler (init_exceptions table).1 in
      let w : IsSystem (main_system translate fuel pagefault_handler handlers) fuel = record {
        mmu = mmu;
        frames = λ p. unfold process_source in refl;
        registered = fourteen;
        not_null = real;
      } in
      let (k, st1, st2, set_up, run, ready, numbered) =
        init_memory-generate_references w kernel_bits process_bits kernel_bytes process_bytes enough
          st in
      (handlers, st2, rw (registered, set_up) run, ready, numbered)
