-- ===== src/Clock/Count.antt =====
-- The clock counts the interrupts of its timer, whatever other interrupts come.
use demand_paged_virtual_mem.Common.{ℕ_discrete, append_nil, append_assoc}
use demand_paged_virtual_mem.Common.{
  ℕ, ◌+◌, ◌*◌, ◌<◌, ◌≡◌, ◌≢◌, refl, ◌==◌, ◌∙◌, sym, subst, if◌then◌else◌, List, [], ◌∷◌, ◌++◌,
  length, All, arith, update, Run, ok, ap, word_mod, eq→==, ne→==,
}
use demand_paged_virtual_mem.Dispatch.{
  HandlerTable, init_interrupts, register_handler, end_of_interrupt, clear_table,
}
use demand_paged_virtual_mem.Dispatch.Interrupts.{
  dispatch_interrupt-handler, dispatch_interrupt-none, clear_table-inside,
}
use demand_paged_virtual_mem.Timer.{SimpleTimer, new_timer, set_frequency, handle_interrupt}
use demand_paged_virtual_mem.Timer.Elapsed.{elapsed, handle_interrupt-step}
use demand_paged_virtual_mem.Clock.{Clock, start_clock, call_handler, interrupt, interrupts}

-- How many of the interrupts are the timer's.
abbrev pub timer_interrupts : List ℕ → ℕ
timer_interrupts [] = 0
timer_interrupts (irq ∷ irqs) = (if irq == 0 then 1 else 0) + timer_interrupts irqs

-- What ends the interrupts at the controllers.
abbrev pub ends : List ℕ → List (ℕ × ℕ)
ends [] = []
ends (irq ∷ irqs) = end_of_interrupt irq ++ ends irqs

-- The timer alone is registered.
record IsTicking (timer : ℕ) (c : Clock) : Type 0 where
  first : c.handlers 0 ≡ timer
  others : (irq : ℕ) → irq < 16 → irq ≢ 0 → c.handlers irq ≡ 0
  ticks : c.timer.ticks < c.timer.hz
  rate : c.timer.hz ≡ 100

module _ (timer : ℕ) (real : timer ≢ 0) (unused : ℕ → SimpleTimer → Run SimpleTimer) where
  interrupt-timer :
      (c : Clock)
      → IsTicking timer c
      → interrupt timer unused 0 c
        ≡ ok (record c {
          timer = handle_interrupt c.timer;
          written = c.written ++ end_of_interrupt 0;
        })
  unfolding interrupt call_handler
  interrupt-timer c i =
      rw
        (
          dispatch_interrupt-handler (call_handler timer unused) c.handlers 0 c.timer (omega arith)
              (λ e. real (sym i.first ∙ e)),
          call_handler,
          eq→== (c.handlers 0) timer i.first,
        )
        refl

  interrupt-other :
      (c : Clock) (irq : ℕ)
      → IsTicking timer c
      → irq < 16
      → irq ≢ 0
      → interrupt timer unused irq c ≡ ok (record c { written = c.written ++ end_of_interrupt irq })
  unfolding interrupt
  interrupt-other c irq i lt ne =
      rw
        (dispatch_interrupt-none (call_handler timer unused) c.handlers irq c.timer lt
          (i.others irq lt ne))
        refl

  interrupts-count :
      (irqs : List ℕ) (c : Clock)
      → IsTicking timer c
      → All (λ irq. irq < 16) irqs
      → c.timer.seconds + length irqs < word_mod
      → (c' : Clock) × (interrupts timer unused irqs c ≡ ok c')
        × (elapsed c'.timer ≡ elapsed c.timer + timer_interrupts irqs)
        × (c'.written ≡ c.written ++ ends irqs)
        × IsTicking timer c'
  unfolding interrupts
  interrupts-count [] c i lts small = (c, refl, omega arith, sym (append_nil c.written), i)
  interrupts-count (irq ∷ irqs) c i lts small = elim (ℕ_discrete irq 0) [
    | yes here ↦
        let (more, below, rate, slow) =
          handle_interrupt-step c.timer i.ticks (omega (arith, i.rate)) (omega arith) in
        let c1 : Clock = record c {
          timer = handle_interrupt c.timer;
          written = c.written ++ end_of_interrupt irq;
        } in
        let step : interrupt timer unused irq c ≡ ok c1 =
          subst
            (λ z.
              interrupt timer unused z c
              ≡ ok (record c {
                timer = handle_interrupt c.timer;
                written = c.written ++ end_of_interrupt z;
              }))
            (sym here) (interrupt-timer c i) in
        let i1 : IsTicking timer c1 = record {
          first = i.first;
          others = i.others;
          ticks = below;
          rate = rate ∙ i.rate;
        } in
        let (c2, run, time, told, i2) = interrupts-count irqs c1 i1 lts.1 (omega (arith, slow)) in
        (
          c2,
          rw step run,
          time ∙ ap (λ z. z + timer_interrupts irqs) more ∙ rw (eq→== irq 0 here) (omega arith),
          told ∙ append_assoc c.written (end_of_interrupt irq) (ends irqs),
          i2,
        )
    | no ne ↦
        let c1 : Clock = record c { written = c.written ++ end_of_interrupt irq } in
        let i1 : IsTicking timer c1 = record {
          first = i.first;
          others = i.others;
          ticks = i.ticks;
          rate = i.rate;
        } in
        let (c2, run, time, told, i2) = interrupts-count irqs c1 i1 lts.1 (omega arith) in
        (
          c2,
          rw (interrupt-other c irq i lts.0 ne) run,
          time ∙ rw (ne→== irq 0 ne) (omega arith),
          told ∙ append_assoc c.written (end_of_interrupt irq) (ends irqs),
          i2,
        )
  ]

  start_clock-IsTicking :
      (table : HandlerTable)
      → (c : Clock) × (start_clock timer table ≡ ok c)
        × (c.timer.seconds ≡ 0)
        × (c.timer.ticks ≡ 0)
        × (c.written ≡ (67, 52) ∷ (64, 155) ∷ (64, 46) ∷ [])
        × IsTicking timer c
  unfolding start_clock init_interrupts register_handler new_timer set_frequency
  start_clock-IsTicking table = (
    record {
      handlers = update (clear_table 16 table 0) 0 timer;
      timer = record { seconds = 0; ticks = 0; hz = 100 };
      written = (67, 52) ∷ (64, 155) ∷ (64, 46) ∷ [];
    },
    refl,
    refl,
    refl,
    refl,
    record {
      first = refl;
      others = λ irq lt ne.
          rw (ne→== 0 irq (λ e. ne (sym e)))
            (clear_table-inside 16 table 0 irq (omega arith) (omega arith));
      ticks = omega arith;
      rate = refl;
    },
  )

  -- Once `main` has registered its timer of 100 ticks a second, which is not at address 0, after
  -- any sequence of fewer than 2^32 of the sixteen interrupts the timer's seconds times 100 and
  -- its ticks, which are below 100, add up to the interrupts 0 of the sequence: no other
  -- interrupt moves the clock. The end of each interrupt is written to the controllers, in order
  -- and behind the timer's programming, and nothing else.
  pub start_clock-interrupts :
      (table : HandlerTable) (irqs : List ℕ)
      → All (λ irq. irq < 16) irqs
      → length irqs < word_mod
      → (c c' : Clock) × (start_clock timer table ≡ ok c)
        × (interrupts timer unused irqs c ≡ ok c')
        × (c'.timer.seconds * 100 + c'.timer.ticks ≡ timer_interrupts irqs)
        × (c'.timer.ticks < 100)
        × (c'.written ≡ c.written ++ ends irqs)
  start_clock-interrupts table irqs lts small =
      let (c, run, seconds, ticks, written, i) = start_clock-IsTicking table in
      let (c', run', time, told, i') = interrupts-count irqs c i lts (omega (arith, seconds)) in
      (
        c,
        c',
        run,
        run',
        ap (λ z. c'.timer.seconds * z + c'.timer.ticks) (sym i'.rate)
            ∙ time
            ∙ rw (i.rate, seconds, ticks) (omega arith),
        omega (arith, i'.ticks, i'.rate),
        told,
      )
