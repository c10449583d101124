-- ===== src/Clock/Examples.antt =====
-- The clock at a few interrupts.
use demand_paged_virtual_mem.Common.{
  ℕ, ◌+◌, ◌*◌, ◌<◌, ◌≡◌, List, [], ◌∷◌, ◌++◌, arith, ok, assert_failed,
}
use demand_paged_virtual_mem.Clock.{Clock, start_clock, interrupts}
use demand_paged_virtual_mem.Clock.Count.{timer_interrupts, ends, start_clock-interrupts}

abbrev some_interrupts : List ℕ
some_interrupts = 0 ∷ 14 ∷ 0 ∷ 1 ∷ []

start_clock-interrupts_example :
    (c c' : Clock) × (start_clock 4096 (λ irq. 77) ≡ ok c)
    × (interrupts 4096 (λ handler t. assert_failed) some_interrupts c ≡ ok c')
    × (c'.timer.seconds * 100 + c'.timer.ticks ≡ timer_interrupts some_interrupts)
    × (c'.timer.ticks < 100)
    × (c'.written ≡ c.written ++ ends some_interrupts)
start_clock-interrupts_example =
    start_clock-interrupts 4096 (omega arith) (λ handler t. assert_failed) (λ irq. 77)
      some_interrupts (omega arith, (omega arith, (omega arith, (omega arith, tt)))) (omega arith)
