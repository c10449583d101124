-- ===== src/Clock.antt =====
-- kernel.C of both programs: the timer as the handler of interrupt 0, and the interrupts that come.
pub mod Count
mod Examples
use demand_paged_virtual_mem.Common.{
  ℕ, zero, suc, ◌+◌, ◌-◌, ◌*◌, ◌/◌, ◌%◌, ◌≤◌, ◌<◌, ◌≡◌, ◌≢◌, refl, Bool, true, false, ◌==◌, ◌&&◌,
  ◌||◌, not, ◌∙◌, sym, subst, ◌⊎◌, inl, inr, if◌then◌else◌, List, [], ◌∷◌, ◌++◌, length, All, arith,
  ltb, leb, update, add32, sub32, mul32, Run, ok, assert_failed, out_of_fuel, faulted, ◌>>=◌, ◌>>◌,
  assert, dec_lt, dec_le, ap, word_mod, Option, none, some, lt→ltb, le→ltb, eq→==, ne→==, if_cases,
  Bool-cases, ==→eq, ==→ne, le→leb, lt→leb, bit_and, bit_or, ◌^◌,
}
use demand_paged_virtual_mem.Dispatch.{
  HandlerTable, init_interrupts, irq_base, irq_table_size, register_handler, dispatch_interrupt,
}
use demand_paged_virtual_mem.Timer.{SimpleTimer, new_timer, handle_interrupt}

-- The handlers, the timer, and the bytes written to the ports since interrupts are dispatched
pub record Clock : Type 0 where
  pub handlers : HandlerTable
  pub timer : SimpleTimer
  pub written : List (ℕ × ℕ)

-- What `main` does for its timer at address `timer`: the dispatcher's table is cleared, the timer ticks
-- every 10 ms, and it is registered for interrupt 0.
unfoldable pub start_clock : ℕ → HandlerTable → Run Clock
start_clock timer table =
    let (gates, cleared) = init_interrupts table in
    let (simple_timer, programmed) = new_timer 100 in
    register_handler irq_table_size cleared 0 timer >>= λ (handlers : HandlerTable).
    ok (record { handlers = handlers; timer = simple_timer; written = programmed })

-- The virtual call of `handle_interrupt`; `others` are handlers that are not the timer.
unfoldable pub call_handler :
    ℕ → (ℕ → SimpleTimer → Run SimpleTimer) → ℕ → SimpleTimer → Run SimpleTimer
call_handler timer others handler t =
    let ticked = ok (handle_interrupt t) in if handler == timer then ticked else others handler t

-- One interrupt of the processor, dispatched
unfoldable pub interrupt : ℕ → (ℕ → SimpleTimer → Run SimpleTimer) → ℕ → Clock → Run Clock
interrupt timer others irq c =
    dispatch_interrupt (call_handler timer others) c.handlers (irq_base + irq) c.timer
    >>= λ (r : SimpleTimer × List (ℕ × ℕ)).
        ok (record c { timer = r.0; written = c.written ++ r.1 })

-- Interrupts one after the other
unfoldable pub interrupts : ℕ → (ℕ → SimpleTimer → Run SimpleTimer) → List ℕ → Clock → Run Clock
interrupts timer others [] c = ok c
interrupts timer others (irq ∷ irqs) c =
    interrupt timer others irq c >>= λ (c1 : Clock). interrupts timer others irqs c1
