-- ===== src/Timer/Elapsed.antt =====
-- `SimpleTimer`: the time that its interrupts count, the divisor of its chip, and `wait`.
use demand_paged_virtual_mem.Common.{
  ℕ, zero, suc, ◌+◌, ◌*◌, ◌%◌, ◌≤◌, ◌<◌, ◌≡◌, ◌≢◌, refl, true, false, ◌∙◌, sym, subst, ◌⊎◌, inl,
  inr, arith, add32, ok, dec_lt, ap, word_mod, le→leb, lt→leb,
}
use demand_paged_virtual_mem.Common.{
  ℕ, zero, suc, ◌+◌, ◌*◌, ◌≤◌, ◌<◌, ◌≡◌, refl, ◌∙◌, arith, add32, ok, dec_lt, word_mod, le→leb,
  lt→leb,
}
use native.Mathlib.Nat.{mul-add-mod_self_right, mod-eq_of_lt, add-mod_right}
use demand_paged_virtual_mem.Timer.{
  SimpleTimer, handle_interrupt, still_waits, wait_loop, wait, current,
}

-- The timer after `n` interrupts.
abbrev pub after : ℕ → SimpleTimer → SimpleTimer
after zero t = t
after (suc n) t = after n (handle_interrupt t)

-- The interrupts that the timer has counted.
abbrev pub elapsed : SimpleTimer → ℕ
elapsed t = t.seconds * t.hz + t.ticks

pub handle_interrupt-step :
    (t : SimpleTimer)
    → t.ticks < t.hz
    → t.hz < word_mod
    → t.seconds + 1 < word_mod
    → (elapsed (handle_interrupt t) ≡ elapsed t + 1)
      × ((handle_interrupt t).ticks < (handle_interrupt t).hz)
      × ((handle_interrupt t).hz ≡ t.hz)
      × ((handle_interrupt t).seconds ≤ t.seconds + 1)
unfolding handle_interrupt
handle_interrupt-step t lt small room =
    let tick : add32 t.ticks 1 ≡ t.ticks + 1 = omega arith in
    let second : add32 t.seconds 1 ≡ t.seconds + 1 = omega arith in
    elim (dec_lt (t.ticks + 1) t.hz) [
      | yes more ↦ rw (tick, lt→leb t.hz (t.ticks + 1) more) (omega arith, more, refl, omega arith)
      | no full ↦
          rw (tick, second, le→leb t.hz (t.ticks + 1) (omega arith))
            (grind arith, omega arith, refl, omega arith)
    ]

-- From a timer whose ticks are below its frequency, which is below 2^32, and with room for `n`
-- more seconds, `n` interrupts add `n` to seconds times frequency plus ticks, and the ticks stay
-- below the frequency.
pub after-elapsed :
    (n : ℕ) (t : SimpleTimer)
    → t.ticks < t.hz
    → t.hz < word_mod
    → t.seconds + n < word_mod
    → (elapsed (after n t) ≡ elapsed t + n) × ((after n t).ticks < t.hz) × ((after n t).hz ≡ t.hz)
after-elapsed zero t lt small room = (omega arith, lt, refl)
after-elapsed (suc n) t lt small room =
    let step = handle_interrupt-step t lt small (omega arith) in
    let more =
      after-elapsed n (handle_interrupt t) step.1 (omega (arith, step.2)) (omega (arith, step.3)) in
    (omega (arith, more.0, step.0), omega (arith, more.1, step.2), more.2 ∙ step.2)

-- After one second the ticks are those of the start.
ticks-elapsed : (t : SimpleTimer) → t.ticks < t.hz → elapsed t % t.hz ≡ t.ticks
ticks-elapsed t lt = mul-add-mod_self_right t.seconds t.hz t.ticks ∙ mod-eq_of_lt lt

after-second :
    (t : SimpleTimer)
    → t.ticks < t.hz
    → t.hz < word_mod
    → t.seconds + t.hz < word_mod
    → (after t.hz t).ticks ≡ t.ticks
after-second t lt small room =
    let (time, below, same) = after-elapsed t.hz t lt small room in
    sym (ticks-elapsed (after t.hz t) (omega (arith, below, same)))
    ∙ ap (λ z. elapsed (after t.hz t) % z) same
    ∙ ap (λ z. z % t.hz) time
    ∙ add-mod_right (elapsed t) t.hz
    ∙ ticks-elapsed t lt

-- A test of the loop goes on with waiting, or ends the wait.
abbrev pub GoesOn : ℕ → ℕ → SimpleTimer → Type 0
GoesOn then_seconds now_ticks t = (t.seconds ≤ then_seconds) × (t.ticks < now_ticks)

abbrev pub Ends : ℕ → ℕ → SimpleTimer → Type 0
Ends then_seconds now_ticks t = (then_seconds < t.seconds) ⊎ (now_ticks ≤ t.ticks)

wait_cases :
    (then_seconds now_ticks : ℕ) (t : SimpleTimer)
    → GoesOn then_seconds now_ticks t ⊎ Ends then_seconds now_ticks t
wait_cases then_seconds now_ticks t = ground arith

still_waits-GoesOn :
    (then_seconds now_ticks : ℕ) (t : SimpleTimer)
    → GoesOn then_seconds now_ticks t
    → still_waits then_seconds now_ticks t ≡ true
still_waits-GoesOn then_seconds now_ticks t g = ground (arith, g)

still_waits-Ends :
    (then_seconds now_ticks : ℕ) (t : SimpleTimer)
    → Ends then_seconds now_ticks t
    → still_waits then_seconds now_ticks t ≡ false
still_waits-Ends then_seconds now_ticks t e = ground (arith, e)

wait_loop-first :
    (fuel then_seconds now_ticks : ℕ) (seen : ℕ → SimpleTimer) (i last : ℕ)
    → i ≤ last
    → last < i + fuel
    → Ends then_seconds now_ticks (seen last)
    → (r : ℕ) × (wait_loop fuel then_seconds now_ticks seen i ≡ ok r)
      × (r ≤ last)
      × Ends then_seconds now_ticks (seen r)
      × ((j : ℕ) → i ≤ j → j < r → GoesOn then_seconds now_ticks (seen j))
unfolding wait_loop
wait_loop-first zero then_seconds now_ticks seen i last le lt over = absurd (omega arith)
wait_loop-first (suc fuel) then_seconds now_ticks seen i last le lt over =
    elim (wait_cases then_seconds now_ticks (seen i)) [
      | inr ends ↦ (
        i,
        rw (still_waits-Ends then_seconds now_ticks (seen i) ends) refl,
        le,
        ends,
        λ j lo hi. absurd (omega arith),
      )
      | inl goes ↦
          let before : i ≢ last =
            λ e. ground (arith, subst (λ z. GoesOn then_seconds now_ticks (seen z)) e goes, over) in
          let (r, run, bound, ends, first) =
            wait_loop-first fuel then_seconds now_ticks seen (i + 1) last (omega (arith, before))
              (omega arith) over in
          (
            r,
            rw (still_waits-GoesOn then_seconds now_ticks (seen i) goes) run,
            bound,
            ends,
            λ j lo hi. elim (dec_lt i j) [
              | yes later ↦ first j (omega arith) hi
              | no here ↦
                  let same : i ≡ j = omega arith in
                  subst (λ z. GoesOn then_seconds now_ticks (seen z)) same goes
            ],
          )
    ]

-- A wait ends at the first of its tests that finds the seconds above those of the call plus the
-- length of the wait, or the ticks not below those of the call. The timer's ticks are below its
-- frequency, which is below 2^32, its seconds have room for the length of the wait and for as
-- many more as its frequency, each test finds the timer after some number of interrupts since the
-- call, one of the tests exactly one second after it, by which the wait is over whatever its
-- length, and there is more fuel than the number of that test.
pub wait_lem :
    (fuel seconds : ℕ) (t : SimpleTimer) (interrupts : ℕ → ℕ) (last : ℕ)
    → t.ticks < t.hz
    → t.hz < word_mod
    → t.seconds + t.hz < word_mod
    → t.seconds + seconds < word_mod
    → interrupts last ≡ t.hz
    → last < fuel
    → (i : ℕ) × (wait fuel t (λ j. after (interrupts j) t) seconds ≡ ok i)
      × (i ≤ last)
      × Ends (t.seconds + seconds) t.ticks (after (interrupts i) t)
      × ((j : ℕ) → j < i → GoesOn (t.seconds + seconds) t.ticks (after (interrupts j) t))
unfolding wait current
wait_lem fuel seconds t interrupts last lt small room room' second enough =
    let then_seconds : add32 t.seconds seconds ≡ t.seconds + seconds = omega arith in
    let ticks : t.ticks ≤ (after (interrupts last) t).ticks =
      subst (λ z. t.ticks ≤ (after z t).ticks) (sym second)
        (omega (arith, after-second t lt small room)) in
    let (i, run, bound, ends, first) =
      wait_loop-first fuel (t.seconds + seconds) t.ticks (λ j. after (interrupts j) t) 0 last
        (omega arith) (omega arith) (inr ticks) in
    (
      i,
      ap (λ z. wait_loop fuel z t.ticks (λ j. after (interrupts j) t) 0) then_seconds ∙ run,
      bound,
      ends,
      λ j hi. first j (omega arith) hi,
    )
