-- ===== src/NonBlockingDisk.antt =====
-- nonblocking_disk.C and nonblocking_disk.H, over the scheduler's state and the simple disk: a request
-- puts its thread into the disk's queue and takes the lock of the drive.
pub mod Request
mod Examples
use demand_paged_virtual_mem.Common.{
  ℕ, zero, suc, ◌+◌, ◌-◌, ◌*◌, ◌/◌, ◌%◌, ◌≤◌, ◌<◌, ◌≡◌, ◌≢◌, refl, Bool, true, false, ◌==◌, ◌&&◌,
  ◌||◌, not, ◌∙◌, sym, subst, ◌⊎◌, inl, inr, if◌then◌else◌, List, [], ◌∷◌, ◌++◌, length, All, arith,
  ltb, leb, update, add32, sub32, mul32, Run, ok, assert_failed, out_of_fuel, faulted, ◌>>=◌, ◌>>◌,
  assert, dec_lt, dec_le, ap, word_mod, Option, none, some, lt→ltb, le→ltb, eq→==, ne→==, if_cases,
  Bool-cases, ==→eq, ==→ne, le→leb, lt→leb, bit_and, bit_or, ◌^◌,
}
use demand_paged_virtual_mem.Scheduler.{
  Links, push, Kernel, enable_interrupts, ensure_disabled, resume, Control, goes_on, switched,
  continue, lock_queue, unlock_queue, yield,
}
use demand_paged_virtual_mem.SimpleDisk.{Io}
use demand_paged_virtual_mem.SimpleDisk
use demand_paged_virtual_mem.Dispatch.{set_eoi}

-- How far a request has come: the processor switched to another thread before the transfer, or the
-- transfer is over, with its result, and then the thread went on or was switched from.
pub data Outcome (A : Type 0) : Type 0 where
  waits : Kernel → Outcome A
  transferred : A → Io → Control → Outcome A

-- `DiskLock::lock` on the drive's lock `locked`
unfoldable pub lock_drive : (Kernel → Run Control) → ℕ → Bool → Kernel → Run Control
lock_drive yield zero locked k = out_of_fuel
lock_drive yield (suc fuel) locked k = ensure_disabled k >>= λ k1.
    let again = enable_interrupts k1 >>= λ k2. continue (yield k2) (lock_drive yield fuel locked) in
    let taken = enable_interrupts k1 >>= λ k2. ok (goes_on k2) in
    if not locked then taken else again

-- `DiskLock::unlock` on the drive's lock, which leaves it free
unfoldable pub unlock_drive : Kernel → Run (Bool × Kernel)
unlock_drive k = ensure_disabled k >>= λ k1. enable_interrupts k1 >>= λ k2. ok (false, k2)

-- `wait_while_busy`, with the scheduler's `yield`
unfoldable pub wait_while_busy : (Kernel → Run Control) → ℕ → Io → Kernel → Run (Control × Io)
wait_while_busy yield zero io k = out_of_fuel
wait_while_busy yield (suc fuel) io k = SimpleDisk.is_busy io >>= λ (r : Bool × Io).
    let again = yield k >>= λ (c : Control). elim c [
      | switched k1 ↦ ok (switched k1, r.1)
      | goes_on k1 ↦ wait_while_busy yield fuel r.1 k1
    ] in
    if r.0 then again else ok (goes_on k, r.1)

-- The wait of a transfer, followed as long as it does not yield.
unfoldable pub wait_ready : Io → Run Io
wait_ready io = SimpleDisk.is_busy io >>= λ (r : Bool × Io). if r.0 then out_of_fuel else ok r.1

-- More of a request behind a call that may switch.
unfoldable pub go_on : {A : Type 0} → Control → (Kernel → Run (Outcome A)) → Run (Outcome A)
go_on (goes_on k) f = f k
go_on (switched k) f = ok (waits k)

-- `read` and `write` around their transfer; `at` is the address of the node for the disk's queue,
-- `at2` of the one for the ready queue, and `locked` the drive's lock.
unfoldable pub request :
    {A : Type 0}
    → (Io → Run (A × Io))
    → ℕ
    → (ℕ → Bool)
    → ℕ
    → ℕ
    → Bool
    → Io
    → Kernel
    → Run (Outcome A)
request transfer fuel busy at at2 locked io k =
    let again = yield fuel busy false in
    lock_queue again fuel k >>= λ c. go_on c λ k1.
      unlock_queue (record k1 { waiting = push at k.current_thread k1.waiting }) >>= λ k2.
      lock_drive again fuel locked k2 >>= λ c2. go_on c2 λ k3. transfer io >>= λ r.
      unlock_drive k3 >>= λ u. resume at2 u.1.current_thread u.1 >>= λ k4.
      yield fuel busy false k4 >>= λ c4. ok (transferred r.0 r.1 c4)

unfoldable pub read :
    ℕ → (ℕ → Bool) → ℕ → ℕ → Bool → ℕ → (ℕ → ℕ) → Io → Kernel → Run (Outcome (ℕ → ℕ))
read fuel busy at at2 locked block_no buf io k =
    request (SimpleDisk.read wait_ready block_no buf) fuel busy at at2 locked io k

unfoldable pub write :
    ℕ → (ℕ → Bool) → ℕ → ℕ → Bool → ℕ → (ℕ → ℕ) → Io → Kernel → Run (Outcome (Unit {0}))
write fuel busy at at2 locked block_no buf io k =
    request (λ io1. SimpleDisk.write wait_ready block_no buf io1 >>= λ io2. ok (tt, io2)) fuel busy
      at at2 locked io k

-- `handle_interrupt`: the bytes of `set_EOI`, each with its port, and what comes of the yield
unfoldable pub handle_interrupt : ℕ → (ℕ → Bool) → ℕ → ℕ → Kernel → Run (List (ℕ × ℕ) × Control)
handle_interrupt fuel busy vector at k =
    resume at k.current_thread k >>= λ k1. yield fuel busy true k1 >>= λ c. ok (set_eoi vector, c)
