-- ===== src/Descriptors/Examples.antt =====
-- The theorems on descriptor tables at concrete inputs.
use demand_paged_virtual_mem.Common.{ℕ, ◌/◌, ◌%◌, ◌≡◌, ◌≢◌, arith, ◌^◌}
use demand_paged_virtual_mem.Descriptors.{GdtEntry, gdt_entry, set_gdt_gate}
use demand_paged_virtual_mem.Descriptors.Gates.{
  segment_base, segment_limit, segment_flags, set_gdt_gate_lem,
}

set_gdt_gate_lem_example :
    let gdt : ℕ → GdtEntry = λ k. gdt_entry 0 0 0 0 in
    let g = set_gdt_gate 1 1193046 4294967295 154 207 gdt 1 in
    (segment_base g ≡ 1193046)
    × (segment_limit g ≡ 4294967295 % 2 ^ 20)
    × (segment_flags g ≡ 207 / 16)
    × (g.access ≡ 154)
    × ((k : ℕ) → k ≢ 1 → set_gdt_gate 1 1193046 4294967295 154 207 gdt k ≡ gdt k)
set_gdt_gate_lem_example =
    set_gdt_gate_lem 1 1193046 4294967295 154 207 (λ k. gdt_entry 0 0 0 0) (omega arith)
      (omega arith)
