-- ===== src/MultiThreading.antt =====
-- kernel.C of the second program: the kernel's objects in the memory of operator new, its threads, and
-- how they pass the processor on.
pub mod Order
pub mod Turns
pub mod Lives
pub mod SetUp
pub mod Boot
mod Examples
use demand_paged_virtual_mem.Common.{
  ℕ, zero, suc, ◌+◌, ◌-◌, ◌*◌, ◌/◌, ◌%◌, ◌≤◌, ◌<◌, ◌≡◌, ◌≢◌, refl, Bool, true, false, ◌==◌, ◌&&◌,
  ◌||◌, not, ◌∙◌, sym, subst, ◌⊎◌, inl, inr, if◌then◌else◌, List, [], ◌∷◌, ◌++◌, length, All, arith,
  ltb, leb, update, add32, sub32, mul32, Run, ok, assert_failed, out_of_fuel, faulted, ◌>>=◌, ◌>>◌,
  assert, dec_lt, dec_le, ap, word_mod, Option, none, some, lt→ltb, le→ltb, eq→==, ne→==, if_cases,
  Bool-cases, ==→eq, ==→ne, le→leb, lt→leb, bit_and, bit_or, ◌^◌,
}
use demand_paged_virtual_mem.KernelMemory.{allocate_memory, new_mem_pool, first_frame}
use demand_paged_virtual_mem.Scheduler.{
  Kernel, Links, Control, goes_on, switched, new_scheduler, enable_interrupts, add, resume, yield,
}
use demand_paged_virtual_mem.Thread.{Thread, new_thread}
use demand_paged_virtual_mem.Thread.Shutdown.{thread_shutdown, thread_start}

-- The parts of the system that the threads share: the scheduler with the queues, the processor and the
-- locks, the address from which the memory pool hands memory out, the words of memory, the `Thread`
-- objects by their addresses, the next thread's id, and which threads have run.
pub record World : Type 0 where
  pub kernel : Kernel
  pub start_address : ℕ
  pub memory : ℕ → ℕ
  pub threads : ℕ → Thread
  pub next_free_pid : ℕ
  pub started : ℕ → Bool

-- The sizes of objects, `sizeof` of the four classes
pub record Sizes : Type 0 where
  pub disk : ℕ
  pub scheduler : ℕ
  pub thread : ℕ
  pub ready_thread : ℕ

-- `operator new`
unfoldable pub operator_new : ℕ → World → ℕ × World
operator_new size w =
    let (address, next) = allocate_memory size w.start_address in
    (address, record w { start_address = next })

-- What a thread does first when it is switched to: a new one begins in `thread_start`, all others behind
-- the switch in `yield`, whose `delete node` gives nothing back to the memory pool.
unfoldable pub run_on : World → Run World
run_on w =
    let thread = w.kernel.current_thread in
    let begun = thread_start w.kernel >>= λ (k : Kernel).
    ok (record w { kernel = k; started = update w.started thread true }) in
    if w.started thread
    then ok (record w { kernel = record w.kernel { curr_thread = thread } })
    else begun

-- `SCHEDULER->add`, with the node that `resume` takes from operator new
unfoldable pub add_thread : Sizes → ℕ → World → Run World
add_thread sizes thread w =
    let (node, w1) = operator_new sizes.ready_thread w in
    add node thread w1.kernel >>= λ (k : Kernel). ok (record w1 { kernel = k })

-- `pass_on_CPU`, with a scheduler, up to where the next thread goes on.
unfoldable pub pass_on_cpu : Sizes → ℕ → (ℕ → Bool) → World → Run World
pass_on_cpu sizes fuel busy w =
    let (node, w1) = operator_new sizes.ready_thread w in
    resume node w1.kernel.current_thread w1.kernel >>= λ (k : Kernel).
    yield fuel busy false k >>= λ (c : Control). elim c [
      | goes_on k1 ↦ ok (record w1 { kernel = k1 })
      | switched k1 ↦ run_on (record w1 { kernel = k1 })
    ]

-- Rounds of the loops of `fun1`, `fun3` and `fun4`, without their output: whichever thread runs passes
-- the processor on.
unfoldable pub passes : ℕ → Sizes → ℕ → (ℕ → Bool) → World → Run World
passes zero sizes fuel busy w = ok w
passes (suc rounds) sizes fuel busy w =
    pass_on_cpu sizes fuel busy w >>= λ (w1 : World). passes rounds sizes fuel busy w1

-- A thread whose function returns: the threads that are deleted, whose destructor gives nothing back
-- to the memory pool, and where the next thread goes on.
unfoldable pub finish : ℕ → (ℕ → Bool) → World → Run (List ℕ × World)
finish fuel busy w = thread_shutdown fuel busy w.kernel >>= λ (r : List ℕ × Control). elim r.1 [
  | goes_on k ↦ ok (r.0, record w { kernel = k })
  | switched k ↦ run_on (record w { kernel = k }) >>= λ (w1 : World). ok (r.0, w1)
]

-- `new Thread` on a stack of `new char[4096]`: the thread's address
unfoldable pub create_thread : Sizes → ℕ → ℕ → ℕ → World → ℕ × World
create_thread sizes thread_shutdown thread_start tfunction w =
    let (stack, w1) = operator_new 4096 w in
    let (address, w2) = operator_new sizes.thread w1 in
    let made =
      new_thread thread_shutdown thread_start tfunction stack 4096 (w2.memory, w2.next_free_pid) in
    (
      address,
      record w2 {
        memory = made.0.1;
        threads = update w2.threads address made.0.0;
        next_free_pid = made.1;
      },
    )

-- The objects that `main` makes before it enables the interrupts: the memory pool of 256 frames, the
-- disk with its empty queue, and the scheduler.
unfoldable pub init_kernel : Sizes → World → World
init_kernel sizes w =
    let w1 = record w { start_address = (new_mem_pool 256 first_frame).0 } in
    let w2 = (operator_new sizes.disk w1).1 in
    let w3 = record w2 {
      kernel = record w2.kernel {
        waiting = record { nodes = w2.kernel.waiting.nodes; head = 0; tail = 0 };
        queue_locked = false;
      };
    } in
    let w4 = (operator_new sizes.scheduler w3).1 in record w4 { kernel = new_scheduler w4.kernel }

-- The end of `main`: the threads but the first are added, and the first one is dispatched to.
unfoldable pub kick_off : Sizes → ℕ → ℕ → ℕ → ℕ → World → Run World
kick_off sizes thread1 thread2 thread3 thread4 w = add_thread sizes thread2 w >>= λ (w1 : World).
    add_thread sizes thread3 w1 >>= λ (w2 : World). add_thread sizes thread4 w2 >>= λ (w3 : World).
    run_on (record w3 { kernel = record w3.kernel { current_thread = thread1 } })

-- `main` from the memory pool on, with the functions `fun1` to `fun4` of the threads
unfoldable pub start_threads : Sizes → ℕ → ℕ → (ℕ → ℕ) → World → Run World
start_threads sizes thread_shutdown thread_start fun w =
    let w0 = init_kernel sizes w in
    enable_interrupts w0.kernel >>= λ (k : Kernel).
    let (thread1, w1) =
      create_thread sizes thread_shutdown thread_start (fun 1) (record w0 { kernel = k }) in
    let (thread2, w2) = create_thread sizes thread_shutdown thread_start (fun 2) w1 in
    let (thread3, w3) = create_thread sizes thread_shutdown thread_start (fun 3) w2 in
    let (thread4, w4) = create_thread sizes thread_shutdown thread_start (fun 4) w3 in
    kick_off sizes thread1 thread2 thread3 thread4 w4
