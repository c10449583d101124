-- ===== src/Scheduler/Examples.antt =====
-- The theorems on the scheduler at concrete queues.
use demand_paged_virtual_mem.Common.{
  ℕ, ◌≡◌, refl, Bool, true, false, inr, [], ◌∷◌, ◌++◌, arith, ok, out_of_fuel,
}
use demand_paged_virtual_mem.Scheduler.{Links, push, pop, Kernel, switched, yield}
use demand_paged_virtual_mem.Scheduler.Queue.{Chain, IsQueue, push-IsQueue}
use demand_paged_virtual_mem.Scheduler.Yield.{settled, yield_locked, yield-ready, yield-waiting}

abbrev no_links : Links
no_links = record { nodes = λ a. record { thread = 0; next = 0; prev = 0 }; head = 0; tail = 0 }

no_links-IsQueue : IsQueue no_links []
unfolding Chain
no_links-IsQueue = (refl, refl)

one_IsQueue : IsQueue (push 100 5 no_links) ((100, 5) ∷ [])
one_IsQueue = push-IsQueue no_links [] 100 5 (omega arith) tt no_links-IsQueue

-- Thread 9 runs, threads 5 and 7 are ready, and `waiting` wait for the disk.
abbrev busy_kernel : Links → Links → Kernel
busy_kernel ready waiting = record {
  ready = ready;
  curr_thread = 9;
  zombie_thread = 0;
  waiting = waiting;
  queue_locked = false;
  current_thread = 9;
  interrupts = true;
}

abbrev two : Links
two = push 200 7 (push 100 5 no_links)

abbrev never_busy : ℕ → Bool
never_busy n = false

one_pushed : IsQueue (push 200 7 (push 100 5 no_links)) (((100, 5) ∷ []) ++ (200, 7) ∷ [])
one_pushed =
    push-IsQueue (push 100 5 no_links) ((100, 5) ∷ []) 200 7 (omega arith) (omega arith, tt)
      one_IsQueue

yield-ready_example :
    (yield 3 never_busy false (busy_kernel two no_links)
      ≡ ok (
          switched
            (record (settled (busy_kernel two no_links)) { ready = pop two; current_thread = 5 })))
    × IsQueue (pop two) ((200, 7) ∷ [])
yield-ready_example =
    yield-ready 2 never_busy false (busy_kernel two no_links) refl (omega arith) 100 5
      ((200, 7) ∷ []) (inr no_links-IsQueue) one_pushed

yield-waiting_example :
    (yield 3 never_busy false (busy_kernel no_links two)
      ≡ ok (
          switched (record (settled (busy_kernel no_links two)) {
            waiting = pop two;
            current_thread = 5;
          })))
    × IsQueue (pop two) ((200, 7) ∷ [])
yield-waiting_example =
    yield-waiting 2 never_busy false (busy_kernel no_links two) refl (omega arith) 100 5
      ((200, 7) ∷ []) refl one_pushed

abbrev locked_kernel : Kernel
locked_kernel = record (busy_kernel two no_links) { queue_locked = true }

yield_locked_example : yield 8 never_busy false locked_kernel ≡ out_of_fuel
yield_locked_example = yield_locked 8 never_busy false locked_kernel refl (omega arith)
