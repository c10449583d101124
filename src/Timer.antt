-- ===== src/Timer.antt =====
-- simple_timer.C and simple_timer.H: seconds and ticks, waiting, and the end of a thread's quantum.
pub mod Elapsed
mod Quantum
mod Examples
use demand_paged_virtual_mem.Common.{bit_and}
use demand_paged_virtual_mem.Common.{
  ℕ, zero, suc, ◌+◌, ◌-◌, ◌*◌, ◌/◌, ◌%◌, ◌≤◌, ◌<◌, ◌≡◌, ◌≢◌, refl, Bool, true, false, ◌==◌, ◌&&◌,
  ◌||◌, not, ◌∙◌, sym, subst, ◌⊎◌, inl, inr, if◌then◌else◌, List, [], ◌∷◌, ◌++◌, length, All, arith,
  ltb, leb, update, add32, sub32, mul32, Run, ok, assert_failed, out_of_fuel, ◌>>=◌, ◌>>◌, assert,
  dec_lt, ap, word_mod, Option, none, some, lt→ltb, le→ltb, eq→==, ne→==, Bool-cases,
}
use demand_paged_virtual_mem.Dispatch.{set_eoi}
use demand_paged_virtual_mem.Scheduler.{Kernel, Control, goes_on, switched, resume, yield}

-- The members of `SimpleTimer`.
pub record SimpleTimer : Type 0 where
  pub seconds : ℕ
  pub ticks : ℕ
  pub hz : ℕ

-- `SimpleTimer::handle_interrupt`
unfoldable pub handle_interrupt : SimpleTimer → SimpleTimer
handle_interrupt t =
    let ticks = add32 t.ticks 1 in
    if leb t.hz ticks
    then record t { seconds = add32 t.seconds 1; ticks = 0 }
    else record t { ticks = ticks }

-- `set_frequency`: the frequency kept, and the bytes written to the ports of the timer's chip.
unfoldable pub set_frequency : ℕ → SimpleTimer → SimpleTimer × List (ℕ × ℕ)
set_frequency hz t =
    let divisor = 1193180 / hz in
    (record t { hz = hz }, (67, 52) ∷ (64, bit_and divisor 255) ∷ (64, (divisor / 256) % 256) ∷ [])

-- The constructor
unfoldable pub new_timer : ℕ → SimpleTimer × List (ℕ × ℕ)
new_timer hz = set_frequency hz (record { seconds = 0; ticks = 0; hz = 0 })

-- `current`
unfoldable pub current : SimpleTimer → ℕ × ℕ
current t = (t.seconds, t.ticks)

-- `(seconds <= then_seconds) && (ticks < now_ticks)`
abbrev pub still_waits : ℕ → ℕ → SimpleTimer → Bool
still_waits then_seconds now_ticks t = leb t.seconds then_seconds && ltb t.ticks now_ticks

-- The loop of `wait`, where its test number `i` finds the timer `seen i`: the test that ends it.
unfoldable pub wait_loop : ℕ → ℕ → ℕ → (ℕ → SimpleTimer) → ℕ → Run ℕ
wait_loop zero then_seconds now_ticks seen i = out_of_fuel
wait_loop (suc fuel) then_seconds now_ticks seen i =
    let rest = wait_loop fuel then_seconds now_ticks seen (i + 1) in
    if still_waits then_seconds now_ticks (seen i) then rest else ok i

-- `wait`, called at the timer `t`.
unfoldable pub wait : ℕ → SimpleTimer → (ℕ → SimpleTimer) → ℕ → Run ℕ
wait fuel t seen seconds =
    let (now_seconds, now_ticks) = current t in
    wait_loop fuel (add32 now_seconds seconds) now_ticks seen 0

-- `EOQTimer`: the shared tick counter, the quantum in ticks.
pub record EoqTimer : Type 0 where
  pub eoq_ticks : ℕ
  pub quantum : ℕ

-- The constructor's quantum, for a quantum in milliseconds.
unfoldable pub new_eoq_timer : ℕ → ℕ → EoqTimer
new_eoq_timer hz quantum = record { eoq_ticks = 0; quantum = mul32 quantum hz / 1000 }

unfoldable pub reset_ticks : EoqTimer → EoqTimer
reset_ticks e = record e { eoq_ticks = 0 }

-- `EOQTimer::handle_interrupt` of the interrupt with this vector, with the scheduler: the node for the
-- running thread is put at `at`. The bytes that `set_EOI` writes, each with its port, come before what
-- becomes of the yield.
unfoldable pub handle_quantum :
    ℕ → (ℕ → Bool) → ℕ → ℕ → EoqTimer → Kernel → Run (EoqTimer × List (ℕ × ℕ) × Control)
handle_quantum fuel busy vector at e k =
    let counted =
      if not (k.current_thread == 0) then record e { eoq_ticks = add32 e.eoq_ticks 1 } else e in
    let reset = reset_ticks counted in
    let ended = resume at k.current_thread k >>= λ k1.
    let end_of_interrupt = set_eoi vector in
    yield fuel busy false k1 >>= λ c. ok (reset, end_of_interrupt, c) in
    if counted.eoq_ticks == counted.quantum
    then (if not (k.current_thread == 0) then ended else ok (reset, [], goes_on k))
    else ok (counted, [], goes_on k)

-- `RRScheduler::yield`: the ticks are reset before the yield.
unfoldable pub rr_yield : ℕ → (ℕ → Bool) → Bool → EoqTimer → Kernel → Run (EoqTimer × Control)
rr_yield fuel busy interrupt e k =
    let reset = reset_ticks e in yield fuel busy interrupt k >>= λ c. ok (reset, c)
