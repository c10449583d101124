-- ===== src/Dispatch/Examples.antt =====
-- The theorems on dispatch at concrete tables, and tests by evaluation.
use demand_paged_virtual_mem.Common.{ℕ, ◌≡◌, refl, ◌==◌, if◌then◌else◌, List, [], ◌∷◌, Run, ok}
use demand_paged_virtual_mem.Dispatch.{HandlerTable, end_of_interrupt, set_eoi}

-- Handlers that note their address, the last one first.
abbrev note : ℕ → List ℕ → Run (List ℕ)
note handler seen = ok (handler ∷ seen)

abbrev no_handlers : HandlerTable
no_handlers i = 0

abbrev disk_table : HandlerTable
disk_table i = if i == 14 then 8192 else 0

test_set_eoi : (set_eoi 46 ≡ (160, 32) ∷ (32, 32) ∷ []) × (set_eoi 32 ≡ (32, 32) ∷ [])
unfolding set_eoi end_of_interrupt
test_set_eoi = (refl, refl)
