-- ===== src/NonBlockingDisk/Request.antt =====
-- What a request and the disk's interrupt leave in the queues.
use demand_paged_virtual_mem.Common.{
  ℕ, suc, ◌≡◌, ◌≢◌, refl, Bool, true, false, subst, List, [], ◌∷◌, ◌++◌, Run, ok,
}
use demand_paged_virtual_mem.Scheduler.{
  push, pop, Kernel, enable_interrupts, Control, goes_on, switched, yield,
}
use demand_paged_virtual_mem.Scheduler.Queue.{IsQueue, Absent, push-IsQueue}
use demand_paged_virtual_mem.Scheduler.Yield.{
  ensure_disabled-ok, unlock_queue-ok, lock_queue-free, resume-IsQueue, yield-waiting, settled,
}
use demand_paged_virtual_mem.SimpleDisk.{Io}
use demand_paged_virtual_mem.NonBlockingDisk.{transferred, lock_drive, unlock_drive, go_on, request}

lock_drive-free :
    (y : Kernel → Run Control) (f : ℕ) (k : Kernel)
    → lock_drive y (suc f) false k ≡ ok (goes_on (record k { interrupts = true }))
unfolding lock_drive enable_interrupts
lock_drive-free y f k = rw (ensure_disabled-ok k) refl

unlock_drive-ok : (k : Kernel) → unlock_drive k ≡ ok (false, record k { interrupts = true })
unfolding unlock_drive enable_interrupts
unlock_drive-ok k = rw (ensure_disabled-ok k) refl

module _ {A : Type 0} (transfer : Io → Run (A × Io)) (fuel : ℕ) (busy : ℕ → Bool) (at at2 : ℕ)
    (io io1 : Io) (a : A) (k : Kernel) (rs ws : List (ℕ × ℕ)) where
  -- When both locks are free, the transfer succeeds, the disk is not busy at the end and both new
  -- nodes are fresh, a request of the running thread ends in a switch to the first thread of the
  -- disk's queue, the requesting thread included as its last. That first thread leaves the queue;
  -- the requesting thread, unless it is the one switched to, stays there though its data is
  -- transferred, and in any case it is also at the end of the ready queue.
  pub request_lem :
      (b t : ℕ) (xs : List (ℕ × ℕ))
      → k.queue_locked ≡ false
      → k.current_thread ≢ 0
      → at ≢ 0
      → at2 ≢ 0
      → Absent at ws
      → Absent at2 rs
      → IsQueue k.waiting ws
      → IsQueue k.ready rs
      → transfer io ≡ ok (a, io1)
      → busy fuel ≡ false
      → ws ++ (at, k.current_thread) ∷ [] ≡ (b, t) ∷ xs
      → (k' : Kernel) × (request transfer (suc fuel) busy at at2 false io k
          ≡ ok (transferred a io1 (switched k')))
        × (k'.current_thread ≡ t)
        × IsQueue k'.waiting xs
        × IsQueue k'.ready (rs ++ (at2, k.current_thread) ∷ [])
  unfolding request go_on
  request_lem b t xs free real fresh fresh2 out out2 qw qr done idle first =
      let again = yield (suc fuel) busy false in
      let k1 = record k { queue_locked = true; interrupts = true } in
      let k1' = record k1 { waiting = push at k.current_thread k.waiting } in
      let k2 = record k1' { queue_locked = false; interrupts = true } in
      let (resumed, ready) = resume-IsQueue k2 at2 k.current_thread rs fresh2 out2 qr in
      let k4 = record k2 { ready = push at2 k.current_thread k.ready; interrupts = true } in
      let waiting =
        subst (IsQueue (push at k.current_thread k.waiting)) first
          (push-IsQueue k.waiting ws at k.current_thread fresh out qw) in
      let (switching, left) = yield-waiting fuel busy false k4 refl real b t xs idle waiting in
      (
        record (settled k4) { waiting = pop k4.waiting; current_thread = t },
        rw
            (
              lock_queue-free again fuel k free,
              unlock_queue-ok k1',
              lock_drive-free again fuel k2,
              done,
              unlock_drive-ok k2,
              resumed,
              switching,
            )
            refl,
        refl,
        left,
        ready,
      )
