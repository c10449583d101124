-- ===== src/DemandPaging/References.antt =====
-- The test of the page table by memory references.
use demand_paged_virtual_mem.Common.{
  ℕ, zero, suc, ◌+◌, ◌*◌, ◌≤◌, ◌<◌, ◌≡◌, refl, ◌∙◌, sym, arith, add32, mul32, ok, dec_lt, ap,
  word_mod, some, eq→==,
}
use demand_paged_virtual_mem.FramePool.{Pool}
use demand_paged_virtual_mem.PageTable.{Paging}
use demand_paged_virtual_mem.DemandPaging.{
  System, store, write_references, check_references, generate_references,
}
use demand_paged_virtual_mem.DemandPaging.Owned.{IsWord}
use demand_paged_virtual_mem.DemandPaging.Served.{IsSystem, IsReady}
use demand_paged_virtual_mem.DemandPaging.Access.{view}
use demand_paged_virtual_mem.DemandPaging.Memory.{store-IsStored, load-view}

-- The first `n` words behind `start` hold their numbers.
abbrev pub IsNumbered : System → Paging Pool → ℕ → ℕ → Type 0
IsNumbered sys st start n = (j : ℕ) → j < n → view sys st (start + 4 * j) ≡ some j

reference_address :
    (start i : ℕ) → start + 4 * i < word_mod → add32 start (mul32 4 i) ≡ start + 4 * i
reference_address start i small = omega arith

module _ {sys : System} {fuel : ℕ} (w : IsSystem sys fuel) (rounds start n : ℕ)
    (usable : (j : ℕ) → j < n → IsWord (start + 4 * j)) where
  write_references-IsNumbered :
      (k i : ℕ) (st : Paging Pool)
      → i + k ≡ n
      → IsReady sys fuel st
      → 2 * k ≤ st.frames.n_free_frames
      → IsNumbered sys st start i
      → (st1 : Paging Pool) × (write_references k (suc (suc rounds)) sys start i st ≡ ok st1)
        × IsReady sys fuel st1
        × IsNumbered sys st1 start n
  write_references-IsNumbered zero i st sum ready room done =
      (st, unfold write_references in refl, ready, λ j lt. done j (omega arith))
  write_references-IsNumbered (suc k) i st sum ready room done =
      let u = usable i (omega arith) in
      let (st1, run, s) = store-IsStored w st ready (start + 4 * i) u rounds i (omega arith) in
      let (st2, run2, ready2, numbered) =
        write_references-IsNumbered k (i + 1) st1 (omega arith) s.ready (omega (arith, s.cost))
          (λ j lt. elim (dec_lt j i) [
            | yes old ↦
                s.others (start + 4 * j) j (usable j (omega arith)) (λ e. absurd (omega arith))
                  (done j old)
            | no new ↦
                let here : j ≡ i = omega arith in
                ap (λ z. view sys st1 (start + 4 * z)) here ∙ s.stored ∙ ap (λ z. some z) (sym here)
          ]) in
      (st2, write-next k i st st1 (omega arith) run ∙ run2, ready2, numbered)
    where
      write-next :
          (k i : ℕ) (st st1 : Paging Pool)
          → start + 4 * i < word_mod
          → store (suc (suc rounds)) sys (start + 4 * i) i st ≡ ok st1
          → write_references (suc k) (suc (suc rounds)) sys start i st
            ≡ write_references k (suc (suc rounds)) sys start (i + 1) st1
      write-next k i st st1 small run =
          unfold write_references in rw (reference_address start i small, run) refl

  check_references-IsNumbered :
      (k i : ℕ) (st : Paging Pool)
      → i + k ≡ n
      → IsNumbered sys st start n
      → check_references k (suc (suc rounds)) sys start i st ≡ ok (some st)
  unfolding check_references
  check_references-IsNumbered zero i st sum numbered = refl
  check_references-IsNumbered (suc k) i st sum numbered =
      let u = usable i (omega arith) in
      rw
        (
          reference_address start i (omega arith),
          load-view (suc rounds) sys st (start + 4 * i) i (numbered i (omega arith)),
          eq→== i i refl,
        )
        (check_references-IsNumbered k (i + 1) st (omega arith) numbered)

  -- The test passes.
  pub generate_references-IsNumbered :
      (st : Paging Pool)
      → IsReady sys fuel st
      → 2 * n ≤ st.frames.n_free_frames
      → (st1 : Paging Pool) × (generate_references (suc (suc rounds)) sys start n st
          ≡ ok (some st1))
        × IsReady sys fuel st1
        × IsNumbered sys st1 start n
  unfolding generate_references
  generate_references-IsNumbered st ready room =
      let (st1, run, ready1, numbered) =
        write_references-IsNumbered n 0 st (omega arith) ready room
          (λ j lt. absurd (omega arith)) in
      (st1, rw run (check_references-IsNumbered n 0 st1 (omega arith) numbered), ready1, numbered)
