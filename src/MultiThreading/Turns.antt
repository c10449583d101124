-- ===== src/MultiThreading/Turns.antt =====
-- The threads pass the processor on in turn.
use demand_paged_virtual_mem.Common.{
  ℕ, zero, suc, ◌+◌, ◌*◌, ◌≤◌, ◌<◌, ◌≡◌, ◌≢◌, refl, Bool, true, false, ◌∙◌, sym, subst, inl, inr,
  List, [], ◌∷◌, ◌++◌, length, All, arith, update, add32, ok, ap, word_mod, Bool-cases,
}
use demand_paged_virtual_mem.KernelMemory.{allocate_memory}
use demand_paged_virtual_mem.Scheduler.{push, pop}
use demand_paged_virtual_mem.Scheduler.Queue.{IsQueue, Absent}
use demand_paged_virtual_mem.Scheduler.Yield.{
  settled, ensure_enabled-ok, yield-ready, resume-IsQueue,
}
use demand_paged_virtual_mem.Thread.Shutdown.{thread_start}
use demand_paged_virtual_mem.MultiThreading.{
  World, Sizes, operator_new, run_on, pass_on_cpu, passes,
}
use demand_paged_virtual_mem.MultiThreading.Order.{rotate, rotate_times, rotate_times-turn}

abbrev pub threads_of : List (ℕ × ℕ) → List ℕ
threads_of [] = []
threads_of (x ∷ xs) = x.1 ∷ threads_of xs

threads_of-append : (xs ys : List (ℕ × ℕ)) → threads_of (xs ++ ys) ≡ threads_of xs ++ threads_of ys
threads_of-append [] ys = refl
threads_of-append (x ∷ xs) ys = ap (λ z. x.1 ∷ z) (threads_of-append xs ys)

-- The nodes lie below `limit`.
abbrev pub Below : ℕ → List (ℕ × ℕ) → Type 0
Below limit xs = All (λ x. x.0 < limit) xs

-- Threads are objects.
abbrev pub Real : List ℕ → Type 0
Real ts = All (λ t. t ≢ 0) ts

pub Below-Absent : (at : ℕ) (xs : List (ℕ × ℕ)) → Below at xs → Absent at xs
Below-Absent at [] below = tt
Below-Absent at (x ∷ xs) below =
    ((λ e. absurd (omega (arith, e, below.0))), Below-Absent at xs below.1)

pub Below-append :
    (limit limit' at t : ℕ) (xs : List (ℕ × ℕ))
    → limit ≤ limit'
    → at < limit'
    → Below limit xs
    → Below limit' (xs ++ (at, t) ∷ [])
Below-append limit limit' at t [] le lt below = (lt, tt)
Below-append limit limit' at t (x ∷ xs) le lt below =
    (omega (arith, below.0), Below-append limit limit' at t xs le lt below.1)

Real-append : (t : ℕ) (ts : List ℕ) → t ≢ 0 → Real ts → Real (ts ++ t ∷ [])
Real-append t [] real reals = (real, tt)
Real-append t (u ∷ ts) real reals = (reals.0, Real-append t ts real reals.1)

-- The running thread and the ready ones, in the order of their turns; nobody waits for the disk.
pub record IsTurn (w : World) (ts : List ℕ) : Type 0 where
  pub nodes : List (ℕ × ℕ)
  pub order : w.kernel.current_thread ∷ threads_of nodes ≡ ts
  pub ready : IsQueue w.kernel.ready nodes
  pub below : Below w.start_address nodes
  pub pool : w.start_address ≢ 0
  pub reals : Real ts
  pub free : w.kernel.queue_locked ≡ false
  pub idle : IsQueue w.kernel.waiting []

-- The thread that is switched to goes on, and changes nothing that decides on turns.
pub record Onward (w w' : World) : Type 0 where
  pub same_ready : w'.kernel.ready ≡ w.kernel.ready
  pub same_thread : w'.kernel.current_thread ≡ w.kernel.current_thread
  pub same_lock : w'.kernel.queue_locked ≡ w.kernel.queue_locked
  pub same_waiting : w'.kernel.waiting ≡ w.kernel.waiting
  pub same_pool : w'.start_address ≡ w.start_address
  pub same_memory : w'.memory ≡ w.memory
  pub same_threads : w'.threads ≡ w.threads
  pub same_zombie : w'.kernel.zombie_thread ≡ w.kernel.zombie_thread

pub run_on-Onward : (w : World) → (w' : World) × (run_on w ≡ ok w') × Onward w w'
unfolding run_on thread_start
run_on-Onward w = elim (Bool-cases (w.started w.kernel.current_thread)) [
  | inl old ↦ (
    record w { kernel = record w.kernel { curr_thread = w.kernel.current_thread } },
    rw old refl,
    record {
      same_ready = refl;
      same_thread = refl;
      same_lock = refl;
      same_waiting = refl;
      same_pool = refl;
      same_memory = refl;
      same_threads = refl;
      same_zombie = refl;
    },
  )
  | inr new ↦ (
    record w {
      kernel = record w.kernel { interrupts = true };
      started = update w.started w.kernel.current_thread true;
    },
    rw (new, ensure_enabled-ok w.kernel) refl,
    record {
      same_ready = refl;
      same_thread = refl;
      same_lock = refl;
      same_waiting = refl;
      same_pool = refl;
      same_memory = refl;
      same_threads = refl;
      same_zombie = refl;
    },
  )
]

-- A queue with one more thread has a first one.
first_of :
    (xs : List (ℕ × ℕ)) (x : ℕ × ℕ)
    → (y : ℕ × ℕ) × (rest : List (ℕ × ℕ)) × (xs ++ x ∷ [] ≡ y ∷ rest)
first_of [] x = (x, [], refl)
first_of (y ∷ ys) x = (y, ys ++ x ∷ [], refl)

module _ (sizes : Sizes) (fuel : ℕ) (busy : ℕ → Bool) (sized : 0 < sizes.ready_thread) where
  -- A pass hands the processor to the next thread in the order and puts the running one at its end.
  pub pass_on_cpu-IsTurn :
      (w : World) (ts : List ℕ)
      → IsTurn w ts
      → w.start_address + sizes.ready_thread < word_mod
      → (w' : World) × (pass_on_cpu sizes (suc fuel) busy w ≡ ok w')
        × IsTurn w' (rotate ts)
        × (w'.kernel.zombie_thread ≡ w.kernel.zombie_thread)
        × (w'.start_address ≡ w.start_address + sizes.ready_thread)
  unfolding pass_on_cpu operator_new allocate_memory
  pass_on_cpu-IsTurn w ts i small =
      let at = w.start_address in
      let k = w.kernel in
      let cur = k.current_thread in
      let grown : add32 at sizes.ready_thread ≡ at + sizes.ready_thread = omega arith in
      let reals : Real (cur ∷ threads_of i.nodes) = subst Real (sym i.order) i.reals in
      let (resumed, q1) =
        resume-IsQueue k at cur i.nodes i.pool (Below-Absent at i.nodes i.below) i.ready in
      let k1 = record k { ready = push at cur k.ready; interrupts = true } in
      let (first, rest, next) = first_of i.nodes (at, cur) in
      let (yielded, q2) =
        yield-ready fuel busy false k1 i.free reals.0 first.0 first.1 rest (inr i.idle)
          (subst (λ ys. IsQueue k1.ready ys) next q1) in
      let k2 = record (settled k1) { ready = pop k1.ready; current_thread = first.1 } in
      let w1 = record w { start_address = at + sizes.ready_thread; kernel = k2 } in
      let (w2, run, o) = run_on-Onward w1 in
      let below : Below (at + sizes.ready_thread) (first ∷ rest) =
        subst (Below (at + sizes.ready_thread)) next (
          Below-append at (at + sizes.ready_thread) at cur i.nodes (omega arith) (omega arith)
            i.below) in
      let turned : first.1 ∷ threads_of rest ≡ threads_of i.nodes ++ cur ∷ [] =
        sym (ap threads_of next) ∙ threads_of-append i.nodes ((at, cur) ∷ []) in
      (
        w2,
        rw (resumed, yielded, grown) run,
        record {
          nodes = rest;
          order = ap (λ z. z ∷ threads_of rest) o.same_thread ∙ turned ∙ ap rotate i.order;
          ready = subst (λ z. IsQueue z rest) (sym o.same_ready) q2;
          below = subst (λ z. Below z rest) (sym o.same_pool) below.1;
          pool = λ e. absurd (omega (arith, e, o.same_pool));
          reals =
              subst Real (ap rotate i.order) (Real-append cur (threads_of i.nodes) reals.0 reals.1);
          free = o.same_lock;
          idle = subst (λ z. IsQueue z []) (sym o.same_waiting) i.idle;
        },
        o.same_zombie,
        o.same_pool,
      )

  pub passes-IsTurn :
      (rounds : ℕ) (w : World) (ts : List ℕ)
      → IsTurn w ts
      → w.start_address + rounds * sizes.ready_thread < word_mod
      → (w' : World) × (passes rounds sizes (suc fuel) busy w ≡ ok w')
        × IsTurn w' (rotate_times rounds ts)
        × (w'.start_address ≡ w.start_address + rounds * sizes.ready_thread)
  unfolding passes
  passes-IsTurn zero w ts i small = (w, refl, i, omega arith)
  passes-IsTurn (suc rounds) w ts i small =
      let one_more : suc rounds * sizes.ready_thread
          ≡ sizes.ready_thread + rounds * sizes.ready_thread =
        omega arith in
      let (w1, run, i1, zombie, grown) = pass_on_cpu-IsTurn w ts i (omega (arith, one_more)) in
      let (w2, run2, i2, grown2) =
        passes-IsTurn rounds w1 (rotate ts) i1 (omega (arith, one_more, grown)) in
      (w2, rw run run2, i2, omega (arith, grown, grown2, one_more))

  pub passes-turn :
      (w : World) (ts xs ys : List ℕ) (x rounds : ℕ)
      → ts ≡ xs ++ x ∷ ys
      → IsTurn w ts
      → w.start_address + (rounds * length ts + length xs) * sizes.ready_thread < word_mod
      → (w' : World) × (passes (rounds * length ts + length xs) sizes (suc fuel) busy w ≡ ok w')
        × (w'.kernel.current_thread ≡ x)
        × IsTurn w' (x ∷ (ys ++ xs))
        × (w'.start_address
            ≡ w.start_address + (rounds * length ts + length xs) * sizes.ready_thread)
  passes-turn w ts xs ys x rounds split i small =
      let (w', run, i', grown) = passes-IsTurn (rounds * length ts + length xs) w ts i small in
      let turned : rotate_times (rounds * length ts + length xs) ts ≡ x ∷ (ys ++ xs) =
        subst (λ z. rotate_times (rounds * length z + length xs) z ≡ x ∷ (ys ++ xs)) (sym split)
          (rotate_times-turn rounds xs (x ∷ ys)) in
      let order : w'.kernel.current_thread ∷ threads_of i'.nodes ≡ x ∷ (ys ++ xs) =
        i'.order ∙ turned in
      (w', run, cc, subst (IsTurn w') turned i', grown)
