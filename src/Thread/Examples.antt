-- ===== src/Thread/Examples.antt =====
-- The theorems on threads at concrete inputs.
use demand_paged_virtual_mem.Common.{ℕ, ◌≡◌, arith, add32}
use demand_paged_virtual_mem.Thread.{Thread, new_thread}
use demand_paged_virtual_mem.Thread.Stack.{Started, new_thread-Started}

new_thread-Started_example :
    (after : Thread) × (m' : ℕ → ℕ) × (new_thread 4096 8192 12288 65536 1024 ((λ q. 7), 3)
      ≡ ((after, m'), add32 3 1))
    × Started 4096 8192 12288 65536 1024 3 (λ q. 7) after m'
new_thread-Started_example =
    new_thread-Started 4096 8192 12288 65536 1024 3 (λ q. 7) (omega arith) (omega arith)
