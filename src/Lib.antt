-- ===== src/Lib.antt =====
-- A small x86 kernel, in two programs that share their low-level files. "Virtual Memory Management
-- and Memory Allocation" has frame pools, paging and pools of virtual memory; "Kernel-level Thread
-- Scheduling and Disk Device Driver" has threads, a scheduler and disk drivers.
--
-- Common: shared names, tests on numbers, lists and arrays, 32-bit arithmetic with wrap-around, and
--   the result type `Run` of code that may fail an assertion or use up its fuel.
-- FramePool: cont_frame_pool.C and cont_frame_pool.H of the first program. A pool hands out
--   contiguous sections of physical frames, with a state of two bits for each frame in a bitmap.
--   `Pool` is the class and the memory behind its bitmap pointer; `get_frames`, `release_frames`,
--   `mark_inaccessible`, `needed_info_frames` and `new_pool` (the constructor) are its methods. The
--   loops of `get_frames` run on fuel: more than the frames of the pool is enough where it returns.
--   The list of all pools is an argument of `release_frames`.
-- VmPool: vm_pool.C and vm_pool.H of the first program. A pool of virtual memory keeps its free and
--   its allocated regions in two tables of 512 entries in its first two pages. The methods have the
--   names of the source, the constructor is `new_vm_pool`. The search loops run on `search_fuel`,
--   which exceeds the entries of a table. The page table's `free_page` is an argument of `release`.
-- Scheduler: scheduler.C and scheduler.H of the second program, the lock and the queue of
--   nonblocking_disk.C, and the interrupt flag of machine.C. `Kernel` is the scheduler's members, the
--   disk's queue with its lock, the running thread and the interrupt flag. The queues are nodes in
--   memory with links in both directions; `IsQueue` says which threads they hold in which order. The
--   address of a new node and the device's busy bit are arguments. `yield` ends where it switches to
--   another thread (`switched`). Its fuel bounds how deep it and the lock call each other: 1 is enough
--   while the lock is free.
-- Timer: simple_timer.C and simple_timer.H of both programs, with `EOQTimer` of the second one
--   (`handle_quantum` is its interrupt handler). `wait` runs over the timers that its tests see.
-- Dispatch: interrupts.C and exceptions.C of both programs, whose handlers are a parameter;
--   `end_of_interrupt` is what the dispatcher writes to the two controllers.
-- KernelMemory: frame_pool.C and mem_pool.C of the second program, the memory of operator new.
-- PageTable: page_table.C and page_table.H of the first program. `Paging` is the memory, as words at
--   the physical addresses, the frame pools and the registers; the constructor is `new_page_table`.
--   `handle_fault` and `free_page` reach the paging structures through the recursive mapping, by
--   `read_word` and `write_word`. The processor's two-level walk is a parameter `translate`, and
--   `IsMmu` is what its manual says of it. `FrameSource` is what the page table uses of the process
--   pool, which PageTable/Frames fills with `get_frames` and `release_frames` of FramePool.
-- Utils: utils.C of both programs. Memory is a function of the address; `strlen` and `strcpy` run on
--   fuel, for which more than the characters of the string are enough.
-- Console: console.C and console.H of both programs. `Console` is the static members, the words of
--   text memory and the bytes written to ports; each method is a function on it. `puts` runs on fuel,
--   for which more than the characters of the string are enough.
-- SimpleDisk: simple_disk.C and simple_disk.H of the second program. `Io` is what the controller will
--   answer to reads from its ports, and the accesses so far. The virtual wait for the drive is an
--   argument; the disk's own `wait_while_busy` runs on fuel, for which more than the rounds that the
--   drive is busy are enough.
-- Thread: thread.C and thread.H of the second program, the constructor with the initial stack,
--   and the functions in which a thread starts and ends.
-- Descriptors: gdt.C, idt.C and irq.C of both programs.
-- NonBlockingDisk: nonblocking_disk.C and nonblocking_disk.H of the second program, over the kernel of
--   Scheduler and the transfers of SimpleDisk. `request` is the code that its `read` and `write` share.
--   A transfer is followed as long as its waits find the drive ready.
-- DemandPaging: kernel.C of the first program, with the exception stub of idt_low.asm: what `main` does
--   to set up the memory, and a memory reference as the test of the page table makes it, from the
--   processor's walk through the exception dispatcher and `handle_fault` back to the instruction.
--   `System` has the parts that a reference meets, and `IsSystem` says how they fit together. Two
--   rounds of fuel are enough for a reference, the one that faults and the one behind the handler.
--   The invariant `IsOwned` gives each frame one owner. It leaves out the last page of each 4 MB
--   region, which a new page table maps to its own frame.
-- MultiThreading: kernel.C of the second program over Scheduler, Thread and KernelMemory: operator new,
--   the objects and threads that `main` makes, `pass_on_CPU`, and what a thread does once it is
--   switched to (`run_on`). `World` is the state that they share; `Sizes` has the sizes of objects,
--   which the compiler chooses. `Steps` are the runs in which threads pass the processor on and end.
--   Its fuel is that of `yield`, of which 1 is enough, since nobody locks the disk's queue.
-- Clock: kernel.C of both programs over Dispatch and Timer: the timer that `main` registers, and the
--   interrupts that the stub of irq_low.asm dispatches. A handler is called by its address.
--
-- Not modelled: what the other parts print, `print_frame_states`, assembly, the thread that uses the disk,
-- the test of the virtual memory pools, and the parts of the kernel without a file above.
pub mod Common
pub mod FramePool
pub mod VmPool
pub mod Scheduler
pub mod Timer
pub mod Dispatch
pub mod KernelMemory
pub mod PageTable
pub mod Utils
pub mod Console
pub mod SimpleDisk
pub mod Thread
pub mod Descriptors
pub mod NonBlockingDisk
pub mod DemandPaging
pub mod MultiThreading
pub mod Clock
