-- ===== src/Scheduler/Yield.antt =====
-- `Scheduler::yield` and `Scheduler::resume`: which thread the processor switches to.
use demand_paged_virtual_mem.Common.{
  ℕ, zero, suc, ◌≡◌, ◌≢◌, refl, Bool, true, false, ◌==◌, ◌||◌, not, ◌∙◌, sym, ◌⊎◌, inl, inr,
  if◌then◌else◌, List, [], ◌∷◌, ◌++◌, arith, Run, ok, out_of_fuel, ap, eq→==, ne→==, Bool-cases,
}
use demand_paged_virtual_mem.Scheduler.{
  Links, push, pop, Kernel, enable_interrupts, disable_interrupts, ensure_disabled, ensure_enabled,
  resume, Control, goes_on, switched, continue, lock_queue, unlock_queue, dispatch_to, run_ready,
  run_waiting, yield,
}
use demand_paged_virtual_mem.Scheduler.Queue.{Chain, IsQueue, Absent, push-IsQueue, pop-IsQueue}

pub ensure_disabled-ok : (k : Kernel) → ensure_disabled k ≡ ok (record k { interrupts = false })
unfolding ensure_disabled disable_interrupts
ensure_disabled-ok k = elim (Bool-cases k.interrupts) [ inl e ↦ rw e refl | inr e ↦ rw e refl ]

pub ensure_enabled-ok : (k : Kernel) → ensure_enabled k ≡ ok (record k { interrupts = true })
unfolding ensure_enabled enable_interrupts
ensure_enabled-ok k = elim (Bool-cases k.interrupts) [ inl e ↦ rw e refl | inr e ↦ rw e refl ]

pub unlock_queue-ok :
    (k : Kernel) → unlock_queue k ≡ ok (record k { queue_locked = false; interrupts = true })
unfolding unlock_queue enable_interrupts
unlock_queue-ok k = rw (ensure_disabled-ok k) refl

pub lock_queue-free :
    (y : Kernel → Run Control) (f : ℕ) (k : Kernel)
    → k.queue_locked ≡ false
    → lock_queue y (suc f) k ≡ ok (goes_on (record k { queue_locked = true; interrupts = true }))
unfolding lock_queue enable_interrupts
lock_queue-free y f k free = rw (ensure_disabled-ok k, free) refl

lock_queue-taken :
    (y : Kernel → Run Control) (f : ℕ) (k : Kernel)
    → ((k' : Kernel) → k'.queue_locked ≡ true → k'.current_thread ≢ 0 → y k' ≡ out_of_fuel)
    → k.queue_locked ≡ true
    → k.current_thread ≢ 0
    → lock_queue y f k ≡ out_of_fuel
unfolding lock_queue enable_interrupts continue
lock_queue-taken y zero k never locked real = refl
lock_queue-taken y (suc f) k never locked real =
    rw
      (
        ensure_disabled-ok k,
        locked,
        never (record k { queue_locked = true; interrupts = true }) refl real,
      )
      refl

-- The disk's state as `yield` sees it.
abbrev pub device_busy : Bool → Bool → Bool
device_busy interrupt status = if not interrupt then status else false

-- The state in which `yield` chooses.
abbrev pub settled : Kernel → Kernel
settled k = record k { curr_thread = k.current_thread; queue_locked = false; interrupts = true }

-- While the lock of the disk's queue is taken and a thread runs, `yield` switches to no thread
-- and does not return, on any fuel: it calls itself from the lock before it looks at either
-- queue.
pub yield_locked :
    (fuel : ℕ) (busy : ℕ → Bool) (interrupt : Bool) (k : Kernel)
    → k.queue_locked ≡ true
    → k.current_thread ≢ 0
    → yield fuel busy interrupt k ≡ out_of_fuel
unfolding yield continue
yield_locked zero busy interrupt k locked real = refl
yield_locked (suc fuel) busy interrupt k locked real =
    let k2 = record k { interrupts = false; curr_thread = k.current_thread } in
    rw
      (
        ensure_disabled-ok k,
        ne→== k.current_thread 0 real,
        lock_queue-taken (yield fuel busy false) (suc fuel) k2
            (λ k' l r. yield_locked fuel busy false k' l r) locked real,
      )
      refl

module _ (fuel : ℕ) (busy : ℕ → Bool) (interrupt : Bool) (k : Kernel)
    (free : k.queue_locked ≡ false) (real : k.current_thread ≢ 0) where
  yield-choice : yield (suc fuel) busy interrupt k ≡ (
      if device_busy interrupt (busy fuel) || k.waiting.head == 0
      then run_ready (settled k)
      else run_waiting (yield fuel busy false) (suc fuel) (settled k))
  unfolding yield continue
  yield-choice =
      let k2 = record k { interrupts = false; curr_thread = k.current_thread } in
      rw
        (
          ensure_disabled-ok k,
          ne→== k.current_thread 0 real,
          lock_queue-free (yield fuel busy false) fuel k2 free,
          unlock_queue-ok (record k2 { queue_locked = true; interrupts = true }),
        )
        refl

  -- With the disk busy or nobody waiting for it, `yield` switches to the first ready thread, or goes
  -- on with the current one.
  yield-run_ready :
      (device_busy interrupt (busy fuel) || k.waiting.head == 0) ≡ true
      → yield (suc fuel) busy interrupt k ≡ run_ready (settled k)
  yield-run_ready h = yield-choice ∙ rw h refl

first_thread :
    (q : Links) (a t : ℕ) (xs : List (ℕ × ℕ))
    → IsQueue q ((a, t) ∷ xs)
    → (q.head ≢ 0) × (((pop q).nodes q.head).thread ≡ t)
unfolding Chain
first_thread q a t xs c =
    let p = pop-IsQueue q a t xs c in
    ((λ e. c.1 (sym c.0 ∙ e)), ap (λ z. ((pop q).nodes z).thread) p.1 ∙ p.2)

no_thread : (q : Links) → IsQueue q [] → q.head ≡ 0
unfolding Chain
no_thread q c = c.0

run_ready-next :
    (k : Kernel) (a t : ℕ) (xs : List (ℕ × ℕ))
    → IsQueue k.ready ((a, t) ∷ xs)
    → run_ready k
      ≡ ok (switched (record k { ready = pop k.ready; interrupts = true; current_thread = t }))
unfolding run_ready dispatch_to
run_ready-next k a t xs q =
    let p = first_thread k.ready a t xs q in
    rw (ne→== k.ready.head 0 p.0, ensure_enabled-ok (record k { ready = pop k.ready }), p.1) refl

run_waiting-next :
    (y : Kernel → Run Control) (fuel : ℕ) (k : Kernel) (a t : ℕ) (xs : List (ℕ × ℕ))
    → k.queue_locked ≡ false
    → IsQueue k.waiting ((a, t) ∷ xs)
    → run_waiting y (suc fuel) k
      ≡ ok (
          switched (record k {
            waiting = pop k.waiting;
            queue_locked = false;
            interrupts = true;
            current_thread = t;
          }))
unfolding run_waiting dispatch_to continue
run_waiting-next y fuel k a t xs free q =
    let p = first_thread k.waiting a t xs q in
    let k1 = record k { queue_locked = true; interrupts = true; waiting = pop k.waiting } in
    rw
      (
        lock_queue-free y fuel k free,
        unlock_queue-ok k1,
        ensure_enabled-ok (record k1 { queue_locked = false }),
        p.1,
      )
      refl

skips_disk : (b : Bool) (q : Links) → (b ≡ true) ⊎ IsQueue q [] → (b || q.head == 0) ≡ true
skips_disk b q (inl e) = rw e refl
skips_disk b q (inr c) = ground (arith, no_thread q c)

run_ready-alone : (k : Kernel) → k.ready.head ≡ 0 → run_ready k ≡ ok (goes_on k)
unfolding run_ready
run_ready-alone k e = rw (eq→== k.ready.head 0 e) refl

module _ (fuel : ℕ) (busy : ℕ → Bool) (interrupt : Bool) (k : Kernel)
    (free : k.queue_locked ≡ false) (real : k.current_thread ≢ 0) where
  -- With the lock of the disk's queue free and a running thread, and with the disk busy or nobody
  -- waiting for it, `yield` enables the interrupts and switches to the first thread of the ready
  -- queue, which leaves that queue; the other threads keep their order, and the disk's queue
  -- stays.
  pub yield-ready :
      (a t : ℕ) (xs : List (ℕ × ℕ))
      → (device_busy interrupt (busy fuel) ≡ true) ⊎ IsQueue k.waiting []
      → IsQueue k.ready ((a, t) ∷ xs)
      → (yield (suc fuel) busy interrupt k
          ≡ ok (switched (record (settled k) { ready = pop k.ready; current_thread = t })))
        × IsQueue (pop k.ready) xs
  yield-ready a t xs skip q = (
    yield-run_ready fuel busy interrupt k free real
          (skips_disk (device_busy interrupt (busy fuel)) k.waiting skip)
        ∙ run_ready-next (settled k) a t xs q,
    (pop-IsQueue k.ready a t xs q).0,
  )

  -- With the lock of the disk's queue free and a running thread, and with the disk not busy,
  -- `yield` enables the interrupts and switches to the first thread that waits for the disk,
  -- which leaves the disk's queue; the ready queue stays.
  pub yield-waiting :
      (a t : ℕ) (xs : List (ℕ × ℕ))
      → device_busy interrupt (busy fuel) ≡ false
      → IsQueue k.waiting ((a, t) ∷ xs)
      → (yield (suc fuel) busy interrupt k
          ≡ ok (switched (record (settled k) { waiting = pop k.waiting; current_thread = t })))
        × IsQueue (pop k.waiting) xs
  yield-waiting a t xs idle q = (
    yield-choice fuel busy interrupt k free real
        ∙ rw (idle, ne→== k.waiting.head 0 (first_thread k.waiting a t xs q).0)
            (run_waiting-next (yield fuel busy false) fuel (settled k) a t xs refl q),
    (pop-IsQueue k.waiting a t xs q).0,
  )

  -- With the lock of the disk's queue free and a running thread, with the disk busy or nobody
  -- waiting for it, and with an empty ready queue, `yield` returns to the same thread.
  pub yield-alone :
      (device_busy interrupt (busy fuel) ≡ true) ⊎ IsQueue k.waiting []
      → IsQueue k.ready []
      → yield (suc fuel) busy interrupt k ≡ ok (goes_on (settled k))
  yield-alone skip q =
      yield-run_ready fuel busy interrupt k free real
        (skips_disk (device_busy interrupt (busy fuel)) k.waiting skip)
      ∙ run_ready-alone (settled k) (no_thread k.ready q)

-- At a fresh address that is not null, `resume` puts the thread at the end of the ready queue,
-- enables the interrupts, and changes nothing else.
pub resume-IsQueue :
    (k : Kernel) (at thread : ℕ) (xs : List (ℕ × ℕ))
    → at ≢ 0
    → Absent at xs
    → IsQueue k.ready xs
    → (resume at thread k ≡ ok (record k { ready = push at thread k.ready; interrupts = true }))
      × IsQueue (push at thread k.ready) (xs ++ (at, thread) ∷ [])
unfolding resume
resume-IsQueue k at thread xs real out q = (
  rw
      (
        ensure_disabled-ok k,
        ensure_enabled-ok (record k { ready = push at thread k.ready; interrupts = false }),
      )
      refl,
  push-IsQueue k.ready xs at thread real out q,
)
