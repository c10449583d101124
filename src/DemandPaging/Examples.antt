-- ===== src/DemandPaging/Examples.antt =====
-- The theorems on demand-paged memory at a concrete processor, with the process pool that `main` sets up.
use demand_paged_virtual_mem.Dispatch.{HandlerTable}
use demand_paged_virtual_mem.DemandPaging.{main}
use demand_paged_virtual_mem.DemandPaging.Main.{main_system, main-IsNumbered}
use demand_paged_virtual_mem.Common.{
  ℕ, ◌+◌, ◌≤◌, ◌≡◌, ◌≢◌, refl, ◌==◌, if◌then◌else◌, arith, ok, none, some,
}
use demand_paged_virtual_mem.FramePool.{Pool, new_pool, get_frames}
use demand_paged_virtual_mem.PageTable.{Paging}
use demand_paged_virtual_mem.PageTable.Walk.{walk, walk-IsMmu}
use demand_paged_virtual_mem.Dispatch.{handled, dispatch_exception}
use demand_paged_virtual_mem.DemandPaging.{System, init_memory, store, load, handle_exception}
use demand_paged_virtual_mem.DemandPaging.Owned.{IsUsable, IsWord}
use demand_paged_virtual_mem.DemandPaging.Served.{
  IsSystem, IsReady, IsServed, dispatch_exception-IsServed,
}
use demand_paged_virtual_mem.DemandPaging.Access.{view}
use demand_paged_virtual_mem.DemandPaging.Memory.{load-store}
use demand_paged_virtual_mem.DemandPaging.References.{IsNumbered}
use demand_paged_virtual_mem.DemandPaging.Start.{init_memory-IsReady}

abbrev zeros : ℕ → ℕ
zeros i = 0

-- The handler of divisions by zero at 4096, the page fault handler at 4100.
abbrev machine : System
machine = record {
  translate = walk;
  source = record { get_frame = λ p. get_frames 8000 p 1; release_frames = λ f p. ok p };
  handlers = λ n. if n == 14 then 4100 else if n == 0 then 4096 else 0;
  pagefault_handler = 4100;
}

machine-IsSystem : IsSystem machine 8000
machine-IsSystem = record {
  mmu = walk-IsMmu;
  frames = λ p. refl;
  registered = refl;
  not_null = omega arith;
}

abbrev at_boot : Paging Pool
at_boot = record {
  memory = zeros;
  frames = new_pool zeros 512 512 0;
  cr0 = 0;
  cr3 = 0;
  paging_enabled = 0;
}

booted :
    (k : Pool) × (st1 : Paging Pool) × (init_memory 8000 machine.source zeros zeros at_boot
      ≡ ok (k, st1))
    × IsReady machine 8000 st1
    × (st1.frames.n_free_frames ≡ 6910)
    × ((a : ℕ) → IsUsable a → walk st1.memory st1.cr3 a ≡ none)
booted =
    init_memory-IsReady machine-IsSystem zeros zeros (λ i. omega arith) (λ i. omega arith)
      (omega arith) at_boot

usable_address : IsUsable 4194308
usable_address = (omega arith, omega arith, omega arith)

load-store_example :
    (st1 : Paging Pool) × (store 2 machine 4194308 7 booted.1 ≡ ok st1)
    × (load 2 machine 4194308 st1 ≡ ok (7, st1))
    × ((b w : ℕ)
        → IsWord b
        → b ≢ 4194308
        → view machine booted.1 b ≡ some w
        → load 2 machine b st1 ≡ ok (w, st1))
    × IsReady machine 8000 st1
    × (booted.1.frames.n_free_frames ≤ st1.frames.n_free_frames + 2)
load-store_example =
    load-store machine-IsSystem booted.1 booted.3 4194308 (usable_address, refl) 0 7 (omega arith)
      (omega (arith, booted.4))

dispatch_exception-IsServed_example :
    (st1 : Paging Pool) × (dispatch_exception
        (handle_exception machine 2 4194308)
        machine.handlers
        14
        booted.1
      ≡ ok (handled st1))
    × IsServed machine 8000 booted.1 4194308 st1
dispatch_exception-IsServed_example =
    dispatch_exception-IsServed machine-IsSystem booted.1 booted.3 4194308 usable_address
      (booted.5 4194308 usable_address) 2 refl (omega (arith, booted.4))

main-IsNumbered_example :
    (handlers : HandlerTable) × (st1 : Paging Pool) × (main walk 8000 4096 4100 zeros zeros zeros
        at_boot
      ≡ ok (some st1))
    × IsReady (main_system walk 8000 4100 handlers) 8000 st1
    × IsNumbered (main_system walk 8000 4100 handlers) st1 4194304 2048
main-IsNumbered_example =
    main-IsNumbered walk-IsMmu 8000 4096 4100 zeros zeros zeros (λ i. omega arith)
      (λ i. omega arith) (omega arith) (omega arith) at_boot
