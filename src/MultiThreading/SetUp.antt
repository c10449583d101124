-- ===== src/MultiThreading/SetUp.antt =====
-- The objects and the threads that `main` makes, one after the other.
use demand_paged_virtual_mem.Common.{
  ℕ, ◌+◌, ◌-◌, ◌*◌, ◌≤◌, ◌<◌, ◌≡◌, ◌≢◌, refl, true, false, ◌∙◌, sym, subst, inl, List, [], ◌∷◌,
  ◌++◌, arith, update, add32, ok, ap, word_mod, eq→==, ne→==,
}
use demand_paged_virtual_mem.Common.{
  ℕ, ◌+◌, ◌-◌, ◌*◌, ◌≤◌, ◌<◌, ◌≡◌, ◌≢◌, refl, true, false, ◌∙◌, sym, subst, inl, List, [], ◌∷◌,
  ◌++◌, arith, update, add32, ok, ap, word_mod, eq→==, ne→==,
}
use demand_paged_virtual_mem.KernelMemory.{allocate_memory}
use demand_paged_virtual_mem.Scheduler.{push, add}
use demand_paged_virtual_mem.Scheduler.Queue.{IsQueue}
use demand_paged_virtual_mem.Scheduler.Yield.{resume-IsQueue}
use demand_paged_virtual_mem.MultiThreading.{World, Sizes, operator_new, add_thread}
use demand_paged_virtual_mem.Scheduler.{new_scheduler}
use demand_paged_virtual_mem.Scheduler.Queue.{Chain}
use demand_paged_virtual_mem.KernelMemory.{new_mem_pool, first_frame}
use demand_paged_virtual_mem.KernelMemory.Regions.{new_mem_pool_lem}
use demand_paged_virtual_mem.Thread.{Thread}
use demand_paged_virtual_mem.Thread.Stack.{new_thread-Started}
use demand_paged_virtual_mem.MultiThreading.{create_thread, init_kernel, kick_off}
use demand_paged_virtual_mem.MultiThreading.Turns.{
  Below, Real, threads_of, IsTurn, run_on-Onward, Below-Absent, Below-append,
}

-- The thread at `a`, right behind its stack, starts in the function `tf`.
abbrev pub StartsIn : World → ℕ → ℕ → Type 0
StartsIn w a tf = ((w.threads a).esp + 80 ≡ a) × (w.memory (a - 12) ≡ tf)

-- The state while the threads are made: the ready ones, and where the memory pool stands.
pub record IsSetUp (w : World) (nodes : List (ℕ × ℕ)) (at : ℕ) : Type 0 where
  pub stands : w.start_address ≡ at
  pub ready : IsQueue w.kernel.ready nodes
  pub below : Below at nodes
  pub free : w.kernel.queue_locked ≡ false
  pub idle : IsQueue w.kernel.waiting []
  pub undead : w.kernel.zombie_thread ≡ 0

-- The threads at or below `at` stay.
abbrev pub Keeps : World → World → ℕ → Type 0
Keeps w w' at = (a tf : ℕ) → a ≤ at → StartsIn w a tf → StartsIn w' a tf

module _ (sizes : Sizes) (shutdown start tf : ℕ) where
  pub create_thread-StartsIn :
      (w : World) (at : ℕ)
      → IsSetUp w [] at
      → 0 < sizes.thread
      → at + 4096 + sizes.thread < word_mod
      → (w' : World) × (create_thread sizes shutdown start tf w ≡ (at + 4096, w'))
        × IsSetUp w' [] (at + 4096 + sizes.thread)
        × StartsIn w' (at + 4096) tf
        × Keeps w w' at
  unfolding create_thread operator_new allocate_memory
  create_thread-StartsIn w at u sized small =
      let stack = w.start_address in
      let address = add32 stack 4096 in
      let stack_end : address ≡ at + 4096 = omega (arith, u.stands) in
      let (after, m', made, s) =
        new_thread-Started shutdown start tf stack 4096 w.next_free_pid w.memory (omega arith)
          (omega (arith, u.stands)) in
      let finish : (Thread × (ℕ → ℕ)) × ℕ → World = λ z. record w {
        start_address = add32 address sizes.thread;
        memory = z.0.1;
        threads = update w.threads address z.0.0;
        next_free_pid = z.1;
      } in
      (
        finish ((after, m'), add32 w.next_free_pid 1),
        ap (λ z. (address, finish z)) made
            ∙ ap (λ z. (z, finish ((after, m'), add32 w.next_free_pid 1))) stack_end,
        record {
          stands = omega (arith, stack_end);
          ready = u.ready;
          below = tt;
          free = u.free;
          idle = u.idle;
          undead = u.undead;
        },
        (
          rw (eq→== address (at + 4096) stack_end) (s.pointer ∙ omega (arith, u.stands)),
          ap m' (omega (arith, u.stands)) ∙ s.function,
        ),
        λ a g le has. (
          rw (ne→== address a (λ e. absurd (omega (arith, e, stack_end)))) has.0,
          s.outside (a - 12) (inl (omega (arith, u.stands))) ∙ has.1,
        ),
      )

pub add_thread-IsSetUp :
    (sizes : Sizes) (thread : ℕ) (w : World) (at : ℕ) (nodes : List (ℕ × ℕ))
    → IsSetUp w nodes at
    → at ≢ 0
    → 0 < sizes.ready_thread
    → at + sizes.ready_thread < word_mod
    → (w' : World) × (add_thread sizes thread w ≡ ok w')
      × IsSetUp w' (nodes ++ (at, thread) ∷ []) (at + sizes.ready_thread)
      × ((a tf : ℕ) → StartsIn w a tf → StartsIn w' a tf)
unfolding add_thread operator_new allocate_memory add
add_thread-IsSetUp sizes thread w at nodes u real sized small =
    let grown : add32 at sizes.ready_thread ≡ at + sizes.ready_thread = omega arith in
    let (resumed, q) =
      resume-IsQueue w.kernel at thread nodes real (Below-Absent at nodes u.below) u.ready in
    let k = record w.kernel { ready = push at thread w.kernel.ready; interrupts = true } in
    (
      record w { start_address = at + sizes.ready_thread; kernel = k },
      rw (u.stands, resumed, grown) refl,
      record {
        stands = refl;
        ready = q;
        below =
            Below-append at (at + sizes.ready_thread) at thread nodes (omega arith) (omega arith)
              u.below;
        free = u.free;
        idle = u.idle;
        undead = u.undead;
      },
      λ a tf has. has,
    )

pub init_kernel-IsSetUp :
    (sizes : Sizes) (w : World)
    → 2097152 + sizes.disk + sizes.scheduler < word_mod
    → IsSetUp (init_kernel sizes w) [] (2097152 + sizes.disk + sizes.scheduler)
unfolding init_kernel operator_new allocate_memory new_scheduler Chain
init_kernel-IsSetUp sizes w small =
    let pool : (new_mem_pool 256 first_frame).0 ≡ 2097152 =
      ap (λ z. z.0) (new_mem_pool_lem 256 first_frame (omega arith) (omega arith)) in
    record {
      stands = rw pool (omega arith);
      ready = (refl, refl);
      below = tt;
      free = refl;
      idle = (refl, refl);
      undead = refl;
    }

pub init_kernel-interrupts :
    (sizes : Sizes) (w : World) → (init_kernel sizes w).kernel.interrupts ≡ w.kernel.interrupts
unfolding init_kernel operator_new allocate_memory new_scheduler
init_kernel-interrupts sizes w = refl

pub kick_off-IsTurn :
    (sizes : Sizes) (t1 t2 t3 t4 : ℕ) (w : World) (at : ℕ)
    → IsSetUp w [] at
    → at ≢ 0
    → Real (t1 ∷ t2 ∷ t3 ∷ t4 ∷ [])
    → 0 < sizes.ready_thread
    → at + 3 * sizes.ready_thread < word_mod
    → (w' : World) × (kick_off sizes t1 t2 t3 t4 w ≡ ok w')
      × IsTurn w' (t1 ∷ t2 ∷ t3 ∷ t4 ∷ [])
      × (w'.kernel.zombie_thread ≡ 0)
      × (w'.start_address ≡ at + 3 * sizes.ready_thread)
      × ((a tf : ℕ) → StartsIn w a tf → StartsIn w' a tf)
unfolding kick_off
kick_off-IsTurn sizes t1 t2 t3 t4 w at u real reals sized small =
    let n = sizes.ready_thread in
    let (w1, run1, u1, keep1) = add_thread-IsSetUp sizes t2 w at [] u real sized (omega arith) in
    let (w2, run2, u2, keep2) =
      add_thread-IsSetUp sizes t3 w1 (at + n) ((at, t2) ∷ []) u1 (λ e. absurd (omega arith)) sized
        (omega arith) in
    let (w3, run3, u3, keep3) =
      add_thread-IsSetUp sizes t4 w2 (at + n + n) ((at, t2) ∷ (at + n, t3) ∷ []) u2
        (λ e. absurd (omega arith)) sized (omega arith) in
    let (w4, run4, o) =
      run_on-Onward (record w3 { kernel = record w3.kernel { current_thread = t1 } }) in
    let nodes = (at, t2) ∷ (at + n, t3) ∷ (at + n + n, t4) ∷ [] in
    (
      w4,
      rw (run1, run2, run3) run4,
      record {
        nodes = nodes;
        order = ap (λ z. z ∷ threads_of nodes) o.same_thread;
        ready = subst (λ z. IsQueue z nodes) (sym o.same_ready) u3.ready;
        below = subst (λ z. Below z nodes) (sym (o.same_pool ∙ u3.stands)) u3.below;
        pool = λ e. absurd (omega (arith, e, o.same_pool, u3.stands));
        reals = reals;
        free = o.same_lock ∙ u3.free;
        idle = subst (λ z. IsQueue z []) (sym o.same_waiting) u3.idle;
      },
      o.same_zombie ∙ u3.undead,
      omega (arith, o.same_pool, u3.stands),
      λ a tf has.
          let kept = keep3 a tf (keep2 a tf (keep1 a tf has)) in
          (
            ap (λ f. (f a).esp + 80) o.same_threads ∙ kept.0,
            ap (λ f. f (a - 12)) o.same_memory ∙ kept.1,
          ),
    )
