-- ===== src/Timer/Examples.antt =====
-- The theorems on the timers at concrete states.
use demand_paged_virtual_mem.Common.{
  ℕ, ◌+◌, ◌*◌, ◌≤◌, ◌<◌, ◌≡◌, refl, Bool, false, inr, [], ◌∷◌, arith, ok,
}
use demand_paged_virtual_mem.Scheduler.{Links, Kernel, switched, push}
use demand_paged_virtual_mem.Scheduler.Queue.{Chain, IsQueue, push-IsQueue}
use demand_paged_virtual_mem.Timer.{SimpleTimer, wait, handle_quantum, new_eoq_timer}
use demand_paged_virtual_mem.Timer.Elapsed.{after, Ends, GoesOn, wait_lem}
use demand_paged_virtual_mem.Timer.Quantum.{handle_quantum-rotates}

abbrev clock : SimpleTimer
clock = record { seconds = 3; ticks = 90; hz = 100 }

-- Each test of the wait comes ten interrupts after the one before, the first one twenty after the call.
abbrev interrupts_seen : ℕ → ℕ
interrupts_seen j = 20 + 10 * j

wait_lem_example :
    (i : ℕ) × (wait 9 clock (λ j. after (interrupts_seen j) clock) 60 ≡ ok i)
    × (i ≤ 8)
    × Ends (3 + 60) 90 (after (interrupts_seen i) clock)
    × ((j : ℕ) → j < i → GoesOn (3 + 60) 90 (after (interrupts_seen j) clock))
wait_lem_example =
    wait_lem 9 60 clock interrupts_seen 8 (omega arith) (omega arith) (omega arith) (omega arith)
      refl (omega arith)

test_new_eoq_timer : (new_eoq_timer 100 50).quantum ≡ 5
unfolding new_eoq_timer
test_new_eoq_timer = refl

abbrev no_links : Links
no_links = record { nodes = λ a. record { thread = 0; next = 0; prev = 0 }; head = 0; tail = 0 }

no_links-IsQueue : IsQueue no_links []
unfolding Chain
no_links-IsQueue = (refl, refl)

-- Thread 9 runs, and thread 5 is ready.
abbrev running : Kernel
running = record {
  ready = push 100 5 no_links;
  curr_thread = 9;
  zombie_thread = 0;
  waiting = no_links;
  queue_locked = false;
  current_thread = 9;
  interrupts = false;
}

abbrev never_busy : ℕ → Bool
never_busy n = false

handle_quantum-rotates_example :
    (k' : Kernel) × (handle_quantum 3 never_busy 32 200
        (record { eoq_ticks = 4; quantum = 5 })
        running
      ≡ ok (record { eoq_ticks = 0; quantum = 5 }, (32, 32) ∷ [], switched k'))
    × (k'.current_thread ≡ 5)
    × IsQueue k'.ready ((200, 9) ∷ [])
    × (k'.waiting ≡ no_links)
handle_quantum-rotates_example =
    handle_quantum-rotates 2 never_busy 32 200 (record { eoq_ticks = 4; quantum = 5 }) running
      (omega arith) (omega arith) ((100, 5) ∷ []) ((200, 9) ∷ []) 100 5 (omega arith) (omega arith)
      refl (inr no_links-IsQueue) refl (omega arith) (omega arith, tt)
      (push-IsQueue no_links [] 100 5 (omega arith) tt no_links-IsQueue) refl
