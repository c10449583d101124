-- ===== src/Scheduler.antt =====
-- scheduler.C and scheduler.H, the queue and its lock of nonblocking_disk.C, the interrupt flag of
-- machine.C: which thread runs next.
pub mod Queue
pub mod Yield
mod Examples
use demand_paged_virtual_mem.Common.{◌∷◌}
use demand_paged_virtual_mem.Common.{[]}
use demand_paged_virtual_mem.Common.{List}
use demand_paged_virtual_mem.Common.{
  ℕ, zero, suc, Bool, true, false, ◌==◌, ◌||◌, not, if◌then◌else◌, update, Run, ok, assert_failed,
  out_of_fuel, faulted, ◌>>=◌, ◌>>◌, assert,
}

-- `ReadyThread` and `IOThreadNode`. Threads and nodes are addresses, with 0 as the null pointer.
pub record Node : Type 0 where
  pub thread : ℕ
  pub next : ℕ
  pub prev : ℕ

-- A doubly linked list: the nodes in memory, and the pointers to its two ends.
pub record Links : Type 0 where
  pub nodes : ℕ → Node
  pub head : ℕ
  pub tail : ℕ

-- A thread at the end of a list, in the node that `new` has put at `at`.
unfoldable pub push : ℕ → ℕ → Links → Links
push at thread q =
    let fresh = update q.nodes at (record { thread = thread; next = 0; prev = 0 }) in
    let after = update fresh q.tail (record (fresh q.tail) { next = at }) in
    if q.tail == 0 then record { nodes = fresh; head = at; tail = at } else record {
      nodes = update after at (record (after at) { prev = q.tail });
      head = q.head;
      tail = at;
    }

-- The first node out of a list that has one.
unfoldable pub pop : Links → Links
pop q =
    let second = (q.nodes q.head).next in
    if q.head == q.tail then record q { head = 0; tail = 0 } else record q {
      nodes = update q.nodes second (record (q.nodes second) { prev = 0 });
      head = second;
    }

-- The members of `Scheduler` (`ready` with its `head` and `tail`, `curr_thread`, `zombie_thread`),
-- the queue of the disk and its lock, the running thread and the processor's interrupt flag.
pub record Kernel : Type 0 where
  pub ready : Links
  pub curr_thread : ℕ
  pub zombie_thread : ℕ
  pub waiting : Links
  pub queue_locked : Bool
  pub current_thread : ℕ
  pub interrupts : Bool

-- The scheduler's constructor, in the memory that it finds.
unfoldable pub new_scheduler : Kernel → Kernel
new_scheduler k = record k {
  ready = record { nodes = k.ready.nodes; head = 0; tail = 0 };
  curr_thread = k.current_thread;
  zombie_thread = 0;
}

unfoldable pub enable_interrupts : Kernel → Run Kernel
enable_interrupts k = do assert (not k.interrupts); ok (record k { interrupts = true })

unfoldable pub disable_interrupts : Kernel → Run Kernel
disable_interrupts k = do assert k.interrupts; ok (record k { interrupts = false })

-- `if (Machine::interrupts_enabled()) Machine::disable_interrupts();`
unfoldable pub ensure_disabled : Kernel → Run Kernel
ensure_disabled k = if k.interrupts then disable_interrupts k else ok k

-- `if (!Machine::interrupts_enabled()) Machine::enable_interrupts();`
unfoldable pub ensure_enabled : Kernel → Run Kernel
ensure_enabled k = if not k.interrupts then enable_interrupts k else ok k

-- `resume`, with the node for the thread at `at`.
unfoldable pub resume : ℕ → ℕ → Kernel → Run Kernel
resume at thread k = do
  k1 ← ensure_disabled k
  ensure_enabled (record k1 { ready = push at thread k1.ready })

unfoldable pub add : ℕ → ℕ → Kernel → Run Kernel
add at thread k = resume at thread k

-- `terminate`: the threads that it deletes, and the state that it leaves.
unfoldable pub terminate : ℕ → Kernel → List ℕ × Kernel
terminate thread k =
    (if k.zombie_thread == 0 then [] else k.zombie_thread ∷ [], record k { zombie_thread = thread })

-- How far a call has come: it goes on, or the processor has switched to another thread. What
-- follows the switch runs once the caller is switched to again.
pub data Control : Type 0 where
  goes_on switched : Kernel → Control

-- More code of the caller behind a call.
unfoldable pub continue : Run Control → (Kernel → Run Control) → Run Control
continue (ok (goes_on k)) f = f k
continue (ok (switched k)) f = ok (switched k)
continue assert_failed f = assert_failed
continue out_of_fuel f = out_of_fuel
continue (faulted a) f = faulted a

-- `DiskLock::lock` on the queue's lock, with the scheduler's `yield`.
unfoldable pub lock_queue : (Kernel → Run Control) → ℕ → Kernel → Run Control
lock_queue yield zero k = out_of_fuel
lock_queue yield (suc fuel) k = ensure_disabled k >>= λ k1.
    let again = enable_interrupts k1 >>= λ k2. continue (yield k2) (lock_queue yield fuel) in
    let taken = enable_interrupts (record k1 { queue_locked = true }) >>= λ k2. ok (goes_on k2) in
    if not k1.queue_locked then taken else again

-- `DiskLock::unlock`
unfoldable pub unlock_queue : Kernel → Run Kernel
unlock_queue k = do k1 ← ensure_disabled k; enable_interrupts (record k1 { queue_locked = false })

-- `Thread::dispatch_to`
unfoldable pub dispatch_to : ℕ → Kernel → Run Control
dispatch_to thread k = ok (switched (record k { current_thread = thread }))

-- The branch of `yield` that takes a thread from the ready queue.
unfoldable pub run_ready : Kernel → Run Control
run_ready k =
    let node = k.ready.head in
    let taken = ensure_enabled (record k { ready = pop k.ready }) >>= λ k1.
    dispatch_to (k1.ready.nodes node).thread k1 in
    if not (node == 0) then taken else ok (goes_on k)

-- The branch of `yield` that takes a thread from the disk's queue.
unfoldable pub run_waiting : (Kernel → Run Control) → ℕ → Kernel → Run Control
run_waiting yield fuel k = continue (lock_queue yield fuel k) λ k1.
    let node = k1.waiting.head in
    unlock_queue (record k1 { waiting = pop k1.waiting }) >>= λ k2.
    ensure_enabled k2 >>= λ k3. dispatch_to (k3.waiting.nodes node).thread k3

-- `yield`, as an interrupt handler calls it or not; `busy n` is what `is_busy` reads from the
-- device in the call with fuel `n + 1`.
unfoldable pub yield : ℕ → (ℕ → Bool) → Bool → Kernel → Run Control
yield zero busy interrupt k = out_of_fuel
yield (suc fuel) busy interrupt k =
    let retry = yield fuel busy false in
    ensure_disabled k >>= λ k1.
    let k2 = record k1 { curr_thread = k1.current_thread } in
    assert (not (k2.curr_thread == 0))
    >> (let disk_busy = if not interrupt then busy fuel else false in
        continue (lock_queue retry (suc fuel) k2) λ k3.
          let disk_queue_empty = k3.waiting.head == 0 in
          unlock_queue k3 >>= λ k4.
          if disk_busy || disk_queue_empty then run_ready k4 else run_waiting retry (suc fuel) k4)
