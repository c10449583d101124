-- ===== src/Timer/Quantum.antt =====
-- `EOQTimer::handle_interrupt`: the end of a quantum hands the processor round.
use demand_paged_virtual_mem.Common.{
  ℕ, suc, ◌+◌, ◌<◌, ◌≡◌, ◌≢◌, refl, Bool, true, false, subst, ◌⊎◌, List, [], ◌∷◌, ◌++◌, arith,
  add32, sub32, ◌-◌, ◌≤◌, le→ltb, ok, word_mod, eq→==, ne→==,
}
use demand_paged_virtual_mem.Dispatch.{irq_base, set_eoi, end_of_interrupt}
use demand_paged_virtual_mem.Scheduler.{Kernel, goes_on, switched, push, pop}
use demand_paged_virtual_mem.Scheduler.Queue.{IsQueue, Absent}
use demand_paged_virtual_mem.Scheduler.Yield.{device_busy, settled, yield-ready, resume-IsQueue}
use demand_paged_virtual_mem.Timer.{EoqTimer, handle_quantum, reset_ticks}

set_eoi-master :
    (vector : ℕ) → irq_base ≤ vector → vector < irq_base + 8 → set_eoi vector ≡ (32, 32) ∷ []
unfolding set_eoi end_of_interrupt
set_eoi-master vector low high =
    let number : sub32 vector irq_base ≡ vector - irq_base = omega arith in
    rw (number, le→ltb 7 (vector - irq_base) (omega arith)) refl

module _ (fuel : ℕ) (busy : ℕ → Bool) (vector at : ℕ) (e : EoqTimer) (k : Kernel)
    (real : k.current_thread ≢ 0) (small : e.eoq_ticks + 1 < word_mod) where
  -- At the last tick of a quantum, while a thread runs, with ticks below 2^32, with the lock of
  -- the disk's queue free, with the disk busy or nobody waiting for it, and with a fresh node,
  -- the timer's interrupt, one of the first eight, puts the running thread at the end of the
  -- ready queue, tells the master controller that the interrupt has ended, resets the ticks, and
  -- switches to the first thread of that queue; the disk's queue stays.
  pub handle_quantum-rotates :
      (xs rest : List (ℕ × ℕ)) (a t : ℕ)
      → irq_base ≤ vector
      → vector < irq_base + 8
      → k.queue_locked ≡ false
      → (device_busy false (busy fuel) ≡ true) ⊎ IsQueue k.waiting []
      → e.eoq_ticks + 1 ≡ e.quantum
      → at ≢ 0
      → Absent at xs
      → IsQueue k.ready xs
      → xs ++ (at, k.current_thread) ∷ [] ≡ (a, t) ∷ rest
      → (k' : Kernel) × (handle_quantum (suc fuel) busy vector at e k
          ≡ ok (record e { eoq_ticks = 0 }, (32, 32) ∷ [], switched k'))
        × (k'.current_thread ≡ t)
        × IsQueue k'.ready rest
        × (k'.waiting ≡ k.waiting)
  handle_quantum-rotates xs rest a t low high free skip full fresh out q next =
      let (resumed, q1) = resume-IsQueue k at k.current_thread xs fresh out q in
      let k1 = record k { ready = push at k.current_thread k.ready; interrupts = true } in
      let (yielded, q2) =
        yield-ready fuel busy false k1 free real a t rest skip
          (subst (λ ys. IsQueue (push at k.current_thread k.ready) ys) next q1) in
      let tick : add32 e.eoq_ticks 1 ≡ e.eoq_ticks + 1 = omega arith in
      (
        record (settled k1) { ready = pop k1.ready; current_thread = t },
        unfold handle_quantum reset_ticks in
            rw
              (
                ne→== k.current_thread 0 real,
                tick,
                eq→== (e.eoq_ticks + 1) e.quantum full,
                resumed,
                yielded,
                set_eoi-master vector low high,
              )
              refl,
        refl,
        q2,
        refl,
      )

  -- While a thread runs and its quantum does not end with this tick, the timer's interrupt only
  -- adds one to the ticks, which are below 2^32.
  pub handle_quantum-counts :
      e.eoq_ticks + 1 ≢ e.quantum
      → handle_quantum fuel busy vector at e k
        ≡ ok (record e { eoq_ticks = e.eoq_ticks + 1 }, [], goes_on k)
  unfolding handle_quantum
  handle_quantum-counts ne =
      let tick : add32 e.eoq_ticks 1 ≡ e.eoq_ticks + 1 = omega arith in
      rw (ne→== k.current_thread 0 real, tick, ne→== (e.eoq_ticks + 1) e.quantum ne) refl
