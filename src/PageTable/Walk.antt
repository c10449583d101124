-- ===== src/PageTable/Walk.antt =====
-- The processor's two-level walk as a function, at which the theorems on page tables are run.
use demand_paged_virtual_mem.Common.{
  ◌+◌, ◌%◌, refl, ◌==◌, if◌then◌else◌, arith, none, some, eq→==, ne→==,
}
use demand_paged_virtual_mem.PageTable.{Translation}
use demand_paged_virtual_mem.PageTable.Addresses.{offset}
use demand_paged_virtual_mem.PageTable.Mmu.{IsMmu, frame_of, pde, pte}

abbrev pub walk : Translation
walk m cr3 a =
    if pde m cr3 a % 2 == 1
    then (if pte m cr3 a % 2 == 1 then some (frame_of (pte m cr3 a) + offset a) else none)
    else none

pub walk-IsMmu : IsMmu walk
walk-IsMmu = record {
  present = λ m cr3 a aligned small p q.
      rw (eq→== (pde m cr3 a % 2) 1 p, eq→== (pte m cr3 a % 2) 1 q) refl;
  no_table = λ m cr3 a aligned small p. rw (ne→== (pde m cr3 a % 2) 1 (omega (arith, p))) refl;
  no_page = λ m cr3 a aligned small p q.
      rw (eq→== (pde m cr3 a % 2) 1 p, ne→== (pte m cr3 a % 2) 1 (omega (arith, q))) refl;
}
