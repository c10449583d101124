-- ===== src/Thread/Shutdown.antt =====
-- How a thread ends, and how it starts.
use demand_paged_virtual_mem.Common.{
  ℕ, suc, ◌≡◌, ◌≢◌, refl, Bool, false, ◌==◌, inr, if◌then◌else◌, List, [], ◌∷◌, Run, ok, ◌>>=◌,
}
use demand_paged_virtual_mem.Scheduler.{
  Kernel, ensure_enabled, terminate, Control, switched, yield, pop,
}
use demand_paged_virtual_mem.Scheduler.Queue.{IsQueue}
use demand_paged_virtual_mem.Scheduler.Yield.{yield-ready, settled}

-- `thread_start`
unfoldable pub thread_start : Kernel → Run Kernel
thread_start k = ensure_enabled k

-- `thread_shutdown`: the threads that `terminate` deletes, and what comes of the yield
unfoldable pub thread_shutdown : ℕ → (ℕ → Bool) → Kernel → Run (List ℕ × Control)
thread_shutdown fuel busy k =
    let terminated = terminate k.current_thread k in
    yield fuel busy false terminated.1 >>= λ c. ok (terminated.0, c)

-- With nobody waiting for the disk, a thread that ends deletes the zombie before it, becomes the
-- zombie, and hands over to the first ready thread; it is in neither queue.
pub thread_shutdown_lem :
    (fuel : ℕ) (busy : ℕ → Bool) (k : Kernel) (a t : ℕ) (xs : List (ℕ × ℕ))
    → k.queue_locked ≡ false
    → k.current_thread ≢ 0
    → IsQueue k.waiting []
    → IsQueue k.ready ((a, t) ∷ xs)
    → (k' : Kernel) × (thread_shutdown (suc fuel) busy k
        ≡ ok (if k.zombie_thread == 0 then [] else k.zombie_thread ∷ [], switched k'))
      × (k'.zombie_thread ≡ k.current_thread)
      × (k'.current_thread ≡ t)
      × IsQueue k'.ready xs
      × IsQueue k'.waiting []
      × (k'.queue_locked ≡ false)
unfolding thread_shutdown terminate
thread_shutdown_lem fuel busy k a t xs free real qw qr =
    let k1 = record k { zombie_thread = k.current_thread } in
    let (switching, left) = yield-ready fuel busy false k1 free real a t xs (inr qw) qr in
    (
      record (settled k1) { ready = pop k1.ready; current_thread = t },
      rw switching refl,
      refl,
      refl,
      left,
      qw,
      refl,
    )
