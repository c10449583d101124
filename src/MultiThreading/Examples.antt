-- ===== src/MultiThreading/Examples.antt =====
-- The theorems on threads at the four threads of `main`.
use demand_paged_virtual_mem.Common.{
  ℕ, ◌+◌, ◌*◌, ◌≡◌, refl, Bool, false, List, [], ◌∷◌, ◌++◌, arith, ok,
}
use demand_paged_virtual_mem.Scheduler.{Links}
use demand_paged_virtual_mem.MultiThreading.{
  World, Sizes, start_threads, pass_on_cpu, passes, finish,
}
use demand_paged_virtual_mem.MultiThreading.Turns.{IsTurn, pass_on_cpu-IsTurn}
use demand_paged_virtual_mem.MultiThreading.Boot.{
  Made, thread_at, pool_after, four_threads, start_threads-IsTurn, start_threads-passes,
}
use demand_paged_virtual_mem.MultiThreading.Lives.{
  count, zombies, nothing, passed, ended, finish-IsTurn, Steps-live,
}

abbrev no_nodes : Links
no_nodes = record { nodes = λ a. record { thread = 0; next = 0; prev = 0 }; head = 0; tail = 0 }

-- The machine behind its boot loader.
abbrev blank : World
blank = record {
  kernel = record {
    ready = no_nodes;
    curr_thread = 0;
    zombie_thread = 0;
    waiting = no_nodes;
    queue_locked = false;
    current_thread = 0;
    interrupts = false;
  };
  start_address = 0;
  memory = λ a. 0;
  threads = λ a. record { esp = 0; thread_id = 0; stack = 0; stack_size = 0 };
  next_free_pid = 0;
  started = λ a. false;
}

abbrev i386 : Sizes
i386 = record { disk = 40; scheduler = 20; thread = 24; ready_thread = 12 }

-- `fun1` to `fun4`
abbrev functions : ℕ → ℕ
functions i = 65536 + 256 * i

abbrev idle_disk : ℕ → Bool
idle_disk n = false

start_threads-passes_example :
    (w1 w2 : World) × (start_threads i386 66000 66100 functions blank ≡ ok w1)
    × Made i386 functions w1 4
    × (passes (5 * 4 + 2) i386 2 idle_disk w1 ≡ ok w2)
    × (w2.kernel.current_thread ≡ thread_at i386 2)
    × (w2.start_address ≡ pool_after i386 + (5 * 4 + 2) * i386.ready_thread)
start_threads-passes_example =
    start_threads-passes i386 66000 66100 functions blank refl (omega arith) (omega arith) 1
      idle_disk 5 2 (omega arith) (omega arith)

booted :
    (w1 : World) × (start_threads i386 66000 66100 functions blank ≡ ok w1)
    × IsTurn w1 (four_threads i386)
    × (w1.kernel.zombie_thread ≡ 0)
    × (w1.start_address ≡ pool_after i386)
    × Made i386 functions w1 4
booted =
    start_threads-IsTurn i386 66000 66100 functions blank refl (omega arith) (omega arith)
      (omega arith)

-- The first thread passes the processor on, and the second one ends.
abbrev second : List ℕ
second = thread_at i386 1 ∷ thread_at i386 2 ∷ thread_at i386 3 ∷ thread_at i386 0 ∷ []

first_pass :
    (w2 : World) × (pass_on_cpu i386 2 idle_disk booted.0 ≡ ok w2)
    × IsTurn w2 second
    × (w2.kernel.zombie_thread ≡ booted.0.kernel.zombie_thread)
    × (w2.start_address ≡ booted.0.start_address + 12)
first_pass =
    pass_on_cpu-IsTurn i386 1 idle_disk (omega arith) booted.0 (four_threads i386) booted.2
      (omega (arith, booted.4))

first_end :
    (w3 : World) × (finish 2 idle_disk first_pass.0 ≡ ok (zombies first_pass.0, w3))
    × IsTurn w3 (thread_at i386 2 ∷ thread_at i386 3 ∷ thread_at i386 0 ∷ [])
    × (w3.kernel.zombie_thread ≡ thread_at i386 1)
    × (w3.start_address ≡ first_pass.0.start_address)
first_end =
    finish-IsTurn 1 idle_disk first_pass.0 (thread_at i386 1) (thread_at i386 2)
      (thread_at i386 3 ∷ thread_at i386 0 ∷ []) first_pass.2

Steps-live_example :
    (ts' : List ℕ) × IsTurn first_end.0 ts'
    × ((x : ℕ)
        → count x (four_threads i386)
          ≡ count x ts' + count x (first_pass.0.kernel.current_thread ∷ []))
    × (first_pass.0.kernel.current_thread ∷ []
        ≡ (zombies first_pass.0 ++ []) ++ zombies first_end.0)
    × (count first_end.0.kernel.current_thread (first_pass.0.kernel.current_thread ∷ []) ≡ 0)
    × (count first_end.0.kernel.current_thread (zombies first_pass.0 ++ []) ≡ 0)
Steps-live_example =
    Steps-live i386 1 idle_disk (omega arith) (four_threads i386)
      (passed first_pass.1 (ended first_end.1 nothing)) booted.2 (λ x. ground arith) booted.3
      (omega arith) (omega (arith, booted.4))
