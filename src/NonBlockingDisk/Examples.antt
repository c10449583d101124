-- ===== src/NonBlockingDisk/Examples.antt =====
-- The theorems on requests at a concrete kernel.
use demand_paged_virtual_mem.Common.{ℕ, ◌≡◌, refl, true, false, [], ◌∷◌, ◌++◌, arith, Run, ok}
use demand_paged_virtual_mem.Scheduler.{Links, push, Kernel, switched}
use demand_paged_virtual_mem.Scheduler.Queue.{Chain, IsQueue, push-IsQueue}
use demand_paged_virtual_mem.SimpleDisk.{Io}
use demand_paged_virtual_mem.NonBlockingDisk.{transferred, request}
use demand_paged_virtual_mem.NonBlockingDisk.Request.{request_lem}

abbrev no_links : Links
no_links = record { nodes = λ a. record { thread = 0; next = 0; prev = 0 }; head = 0; tail = 0 }

no_links-IsQueue : IsQueue no_links []
unfolding Chain
no_links-IsQueue = (refl, refl)

-- Thread 5 waits for the disk, and thread 9 runs.
abbrev one : Links
one = push 100 5 no_links

one-IsQueue : IsQueue one ((100, 5) ∷ [])
one-IsQueue = push-IsQueue no_links [] 100 5 (omega arith) tt no_links-IsQueue

abbrev kernel : Kernel
kernel = record {
  ready = no_links;
  curr_thread = 9;
  zombie_thread = 0;
  waiting = one;
  queue_locked = false;
  current_thread = 9;
  interrupts = true;
}

abbrev silent : Io
silent = record { inputs = []; log = [] }

abbrev transfer : Io → Run (ℕ × Io)
transfer io = ok (7, io)

-- Thread 9 has its data, and is in the disk's queue and in the ready queue.
request_lem_example :
    (k' : Kernel) × (request transfer 2 (λ n. false) 200 300 false silent kernel
      ≡ ok (transferred 7 silent (switched k')))
    × (k'.current_thread ≡ 5)
    × IsQueue k'.waiting ((200, 9) ∷ [])
    × IsQueue k'.ready ([] ++ (300, 9) ∷ [])
request_lem_example =
    request_lem transfer 1 (λ n. false) 200 300 silent silent 7 kernel [] ((100, 5) ∷ []) 100 5
      ((200, 9) ∷ []) refl (omega arith) (omega arith) (omega arith) (omega arith, tt) tt
      one-IsQueue no_links-IsQueue refl refl refl
