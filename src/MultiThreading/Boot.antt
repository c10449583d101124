-- ===== src/MultiThreading/Boot.antt =====
-- The threads as `main` starts them.
use demand_paged_virtual_mem.Common.{
  ℕ, zero, suc, ◌+◌, ◌*◌, ◌≤◌, ◌<◌, ◌≡◌, ◌≢◌, refl, Bool, true, false, ◌∙◌, sym, subst, List, [],
  ◌∷◌, ◌++◌, length, arith, ok, dec_lt, ap, word_mod,
}
use demand_paged_virtual_mem.MultiThreading.{World, Sizes, passes}
use demand_paged_virtual_mem.Scheduler.{enable_interrupts}
use demand_paged_virtual_mem.MultiThreading.{create_thread, init_kernel, start_threads}
use demand_paged_virtual_mem.MultiThreading.Turns.{IsTurn, passes-turn}
use demand_paged_virtual_mem.MultiThreading.SetUp.{
  StartsIn, IsSetUp, create_thread-StartsIn, init_kernel-IsSetUp, init_kernel-interrupts,
  kick_off-IsTurn,
}

-- Where the stacks of the threads are, and the threads behind them.
abbrev pub stack_at : Sizes → ℕ → ℕ
stack_at sizes zero = 2097152 + sizes.disk + sizes.scheduler
stack_at sizes (suc j) = stack_at sizes j + 4096 + sizes.thread

abbrev pub thread_at : Sizes → ℕ → ℕ
thread_at sizes j = stack_at sizes j + 4096

stack_at-behind :
    (sizes : Sizes) (k j : ℕ) → k < j → thread_at sizes k + sizes.thread ≤ stack_at sizes j
stack_at-behind sizes k zero lt = absurd (omega arith)
stack_at-behind sizes k (suc j) lt = elim (dec_lt k j) [
  | yes before ↦ omega (arith, stack_at-behind sizes k j before)
  | no last ↦
      let here : k ≡ j = omega arith in
      subst (λ z. thread_at sizes z + sizes.thread ≤ stack_at sizes (suc j)) (sym here)
        (omega arith)
]

-- The first `n` threads are made, and start in their functions.
abbrev pub Made : Sizes → (ℕ → ℕ) → World → ℕ → Type 0
Made sizes fun w n = (j : ℕ) → j < n → StartsIn w (thread_at sizes j) (fun (j + 1))

module _ (sizes : Sizes) (shutdown start : ℕ) (fun : ℕ → ℕ) (sized' : 0 < sizes.thread) where
  create_thread-Made :
      (j : ℕ) (w : World)
      → IsSetUp w [] (stack_at sizes j)
      → Made sizes fun w j
      → stack_at sizes (suc j) < word_mod
      → (w' : World) × (create_thread sizes shutdown start (fun (j + 1)) w
          ≡ (thread_at sizes j, w'))
        × IsSetUp w' [] (stack_at sizes (suc j))
        × Made sizes fun w' (suc j)
  create_thread-Made j w u made small =
      let (w', run, u', has, keep) =
        create_thread-StartsIn sizes shutdown start (fun (j + 1)) w (stack_at sizes j) u sized'
          small in
      (
        w',
        run,
        u',
        λ k lt. elim (dec_lt k j) [
          | yes before ↦
              keep (thread_at sizes k) (fun (k + 1))
                (omega (arith, stack_at-behind sizes k j before)) (made k before)
          | no last ↦
              let here : j ≡ k = omega arith in
              subst (λ z. StartsIn w' (thread_at sizes z) (fun (z + 1))) here has
        ],
      )

-- The threads in the order of their turns
abbrev pub four_threads : Sizes → List ℕ
four_threads sizes =
    thread_at sizes 0 ∷ thread_at sizes 1 ∷ thread_at sizes 2 ∷ thread_at sizes 3 ∷ []

four_threads_split :
    (sizes : Sizes) (j : ℕ)
    → j < 4
    → (xs ys : List ℕ) × (four_threads sizes ≡ xs ++ thread_at sizes j ∷ ys) × (length xs ≡ j)
four_threads_split sizes zero lt = ([], _, refl, refl)
four_threads_split sizes (suc zero) lt = (thread_at sizes 0 ∷ [], _, refl, refl)
four_threads_split sizes (suc (suc zero)) lt =
    (thread_at sizes 0 ∷ thread_at sizes 1 ∷ [], _, refl, refl)
four_threads_split sizes (suc (suc (suc zero))) lt =
    (thread_at sizes 0 ∷ thread_at sizes 1 ∷ thread_at sizes 2 ∷ [], [], refl, refl)
four_threads_split sizes (suc (suc (suc (suc j)))) lt = absurd (omega arith)

-- The memory pool's address once the threads are added
abbrev pub pool_after : Sizes → ℕ
pool_after sizes = stack_at sizes 4 + 3 * sizes.ready_thread

module _ (sizes : Sizes) (shutdown start : ℕ) (fun : ℕ → ℕ) (w : World)
    (off : w.kernel.interrupts ≡ false) (sized : 0 < sizes.ready_thread)
    (sized' : 0 < sizes.thread) where
  pub start_threads-IsTurn :
      pool_after sizes < word_mod
      → (w' : World) × (start_threads sizes shutdown start fun w ≡ ok w')
        × IsTurn w' (four_threads sizes)
        × (w'.kernel.zombie_thread ≡ 0)
        × (w'.start_address ≡ pool_after sizes)
        × Made sizes fun w' 4
  unfolding start_threads enable_interrupts
  start_threads-IsTurn small =
      let w0 = init_kernel sizes w in
      let u = init_kernel-IsSetUp sizes w (omega arith) in
      let w0' = record w0 { kernel = record w0.kernel { interrupts = true } } in
      let u0 : IsSetUp w0' [] (stack_at sizes 0) = record {
        stands = u.stands;
        ready = u.ready;
        below = tt;
        free = u.free;
        idle = u.idle;
        undead = u.undead;
      } in
      let (w1, run1, u1, made1) =
        create_thread-Made sizes shutdown start fun sized' 0 w0' u0 (λ j lt. absurd (omega arith))
          (omega arith) in
      let (w2, run2, u2, made2) =
        create_thread-Made sizes shutdown start fun sized' 1 w1 u1 made1 (omega arith) in
      let (w3, run3, u3, made3) =
        create_thread-Made sizes shutdown start fun sized' 2 w2 u2 made2 (omega arith) in
      let (w4, run4, u4, made4) =
        create_thread-Made sizes shutdown start fun sized' 3 w3 u3 made3 (omega arith) in
      let real : (j : ℕ) → thread_at sizes j ≢ 0 = λ j e. absurd (omega (arith, e)) in
      let (w5, run5, turn, undead, pool, keep) =
        kick_off-IsTurn sizes (thread_at sizes 0) (thread_at sizes 1) (thread_at sizes 2)
          (thread_at sizes 3) w4 (stack_at sizes 4) u4 (λ e. absurd (omega (arith, e)))
          (real 0, (real 1, (real 2, (real 3, tt)))) sized small in
      (
        w5,
        rw (init_kernel-interrupts sizes w ∙ off, run1, run2, run3, run4) run5,
        turn,
        undead,
        pool,
        λ j lt. keep (thread_at sizes j) (fun (j + 1)) (made4 j lt),
      )

  -- `main` of the second program starts its four threads, each with its function on its own
  -- stack, and as long as the threads only pass the processor on, they run in turn: with
  -- interrupts off at first, objects of any size but 0, and addresses that stay below 2^32, after
  -- `4 * q + j` passes the thread that runs is the one of number `j`, counted from 0. Each pass
  -- takes the memory of one node, which never comes back.
  pub start_threads-passes :
      (fuel : ℕ) (busy : ℕ → Bool) (q j : ℕ)
      → j < 4
      → pool_after sizes + (q * 4 + j) * sizes.ready_thread < word_mod
      → (w1 w2 : World) × (start_threads sizes shutdown start fun w ≡ ok w1)
        × Made sizes fun w1 4
        × (passes (q * 4 + j) sizes (suc fuel) busy w1 ≡ ok w2)
        × (w2.kernel.current_thread ≡ thread_at sizes j)
        × (w2.start_address ≡ pool_after sizes + (q * 4 + j) * sizes.ready_thread)
  start_threads-passes fuel busy q j lt small =
      let (w1, run1, turn, undead, pool, made) = start_threads-IsTurn (omega arith) in
      let (xs, ys, split, place) = four_threads_split sizes j lt in
      let when : q * 4 + length xs ≡ q * 4 + j = ap (λ z. q * 4 + z) place in
      let cost = ap (λ z. z * sizes.ready_thread) when in
      let (w2, run2, runs, turn2, grown) =
        passes-turn sizes fuel busy sized w1 (four_threads sizes) xs ys (thread_at sizes j) q split
          turn (omega (arith, pool, cost)) in
      (
        w1,
        w2,
        run1,
        made,
        subst (λ z. passes z sizes (suc fuel) busy w1 ≡ ok w2) when run2,
        runs,
        grown ∙ omega (arith, pool, cost),
      )
