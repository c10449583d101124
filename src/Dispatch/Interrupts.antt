-- ===== src/Dispatch/Interrupts.antt =====
-- Which handler an interrupt reaches, and what the controllers are told.
use demand_paged_virtual_mem.Common.{
  ℕ, zero, suc, ◌+◌, ◌≤◌, ◌<◌, ◌≡◌, ◌≢◌, refl, ◌==◌, ◌∙◌, sym, ◌⊎◌, inl, inr, arith, update, sub32,
  Run, ok, assert_failed, ◌>>=◌, dec_lt, ap, word_mod, lt→ltb, le→ltb, eq→==, ne→==, Bool-cases,
  ==→eq, ==→ne,
}
use demand_paged_virtual_mem.Dispatch.{
  HandlerTable, irq_base, irq_table_size, register_handler, deregister_handler, end_of_interrupt,
  dispatch_interrupt, clear_table, init_interrupts,
}

pub dispatch_interrupt-handler :
    {S : Type 0} (handle : ℕ → S → Run S) (table : HandlerTable) (irq : ℕ) (s : S)
    → irq < irq_table_size
    → table irq ≢ 0
    → dispatch_interrupt handle table (irq_base + irq) s
      ≡ (handle (table irq) s >>= λ s'. ok (s', end_of_interrupt irq))
unfolding dispatch_interrupt
dispatch_interrupt-handler handle table irq s small some_handler =
    let number : sub32 (irq_base + irq) irq_base ≡ irq = omega arith in
    rw (number, lt→ltb irq irq_table_size small, ne→== (table irq) 0 some_handler) refl

pub dispatch_interrupt-none :
    {S : Type 0} (handle : ℕ → S → Run S) (table : HandlerTable) (irq : ℕ) (s : S)
    → irq < irq_table_size
    → table irq ≡ 0
    → dispatch_interrupt handle table (irq_base + irq) s ≡ ok (s, end_of_interrupt irq)
unfolding dispatch_interrupt
dispatch_interrupt-none handle table irq s small no_handler =
    let number : sub32 (irq_base + irq) irq_base ≡ irq = omega arith in
    rw (number, lt→ltb irq irq_table_size small, eq→== (table irq) 0 no_handler) refl

module _ {S : Type 0} (handle : ℕ → S → Run S) (table : HandlerTable) (irq handler : ℕ) (s : S)
    (small : irq < irq_table_size) where
  -- Once a handler that is not null is registered for one of the sixteen interrupts, this
  -- interrupt runs that handler and then ends at the controllers, and every other interrupt is
  -- dispatched as before.
  pub dispatch_interrupt-register_handler :
      handler ≢ 0
      → (table' : HandlerTable) × (register_handler irq_table_size table irq handler ≡ ok table')
        × (dispatch_interrupt handle table' (irq_base + irq) s
            ≡ (handle handler s >>= λ s'. ok (s', end_of_interrupt irq)))
        × ((other : ℕ)
            → other < irq_table_size
            → other ≢ irq
            → dispatch_interrupt handle table' (irq_base + other) s
              ≡ dispatch_interrupt handle table (irq_base + other) s)
  dispatch_interrupt-register_handler real = (
    update table irq handler,
    unfold register_handler in rw (lt→ltb irq irq_table_size small) refl,
    dispatch_interrupt-handler handle (update table irq handler) irq s small
          (λ e. real (sym (here irq handler) ∙ e))
        ∙ ap (λ h. handle h s >>= λ s'. ok (s', end_of_interrupt irq)) (here irq handler),
    λ other lt ne. elsewhere other lt ne,
  )
    where
      here : (i h : ℕ) → update table i h i ≡ h
      here i h = rw (eq→== i i refl) refl

      elsewhere :
          (other : ℕ)
          → other < irq_table_size
          → other ≢ irq
          → dispatch_interrupt handle (update table irq handler) (irq_base + other) s
            ≡ dispatch_interrupt handle table (irq_base + other) s
      elsewhere other lt ne =
          let same : update table irq handler other ≡ table other =
            rw (ne→== irq other (λ e. ne (sym e))) refl in
          elim (Bool-cases (table other == 0)) [
            | inl e ↦
                dispatch_interrupt-none handle (update table irq handler) other s lt
                  (same ∙ ==→eq (table other) 0 e)
                ∙ sym (dispatch_interrupt-none handle table other s lt (==→eq (table other) 0 e))
            | inr e ↦
                dispatch_interrupt-handler handle (update table irq handler) other s lt
                  (λ z. ==→ne (table other) 0 e (sym same ∙ z))
                ∙ ap (λ h. handle h s >>= λ s'. ok (s', end_of_interrupt other)) same
                ∙ sym (dispatch_interrupt-handler handle table other s lt (==→ne (table other) 0 e))
          ]

  -- Once the handler of one of the sixteen interrupts is deregistered, this interrupt changes
  -- nothing and is only ended at the controllers.
  pub dispatch_interrupt-deregister_handler :
      (table' : HandlerTable) × (deregister_handler irq_table_size table irq ≡ ok table')
      × (dispatch_interrupt handle table' (irq_base + irq) s ≡ ok (s, end_of_interrupt irq))
  dispatch_interrupt-deregister_handler = (
    update table irq 0,
    unfold deregister_handler in rw (lt→ltb irq irq_table_size small) refl,
    dispatch_interrupt-none handle (update table irq 0) irq s small (rw (eq→== irq irq refl) refl),
  )

-- A 32-bit vector below the interrupts' base or behind their sixteen vectors fails the assertion
-- of the dispatcher.
pub dispatch_interrupt-out_of_range :
    {S : Type 0} (handle : ℕ → S → Run S) (table : HandlerTable) (vector : ℕ) (s : S)
    → vector < word_mod
    → (vector < irq_base) ⊎ (irq_base + irq_table_size ≤ vector)
    → dispatch_interrupt handle table vector s ≡ assert_failed
unfolding dispatch_interrupt
dispatch_interrupt-out_of_range handle table vector s small out =
    let far : irq_table_size ≤ sub32 vector irq_base = ground (arith, out) in
    rw (le→ltb (sub32 vector irq_base) irq_table_size far) refl

clear_table-below :
    (k : ℕ) (table : HandlerTable) (i j : ℕ) → j < i → clear_table k table i j ≡ table j
unfolding clear_table
clear_table-below zero table i j h = refl
clear_table-below (suc k) table i j h =
    clear_table-below k (update table i 0) (i + 1) j (omega arith) ∙ ground arith

pub clear_table-inside :
    (k : ℕ) (table : HandlerTable) (i j : ℕ) → i ≤ j → j < i + k → clear_table k table i j ≡ 0
unfolding clear_table
clear_table-inside zero table i j lo hi = absurd (omega arith)
clear_table-inside (suc k) table i j lo hi = elim (dec_lt i j) [
  | yes lt ↦ clear_table-inside k (update table i 0) (i + 1) j (omega arith) (omega arith)
  | no ge ↦ clear_table-below k (update table i 0) (i + 1) j (omega arith) ∙ ground arith
]

-- After `init_dispatcher` each of the sixteen interrupts changes nothing and is only ended at the
-- controllers.
pub dispatch_interrupt-init_interrupts :
    {S : Type 0} (handle : ℕ → S → Run S) (table : HandlerTable) (irq : ℕ) (s : S)
    → irq < irq_table_size
    → dispatch_interrupt handle (init_interrupts table).1 (irq_base + irq) s
      ≡ ok (s, end_of_interrupt irq)
unfolding init_interrupts
dispatch_interrupt-init_interrupts handle table irq s small =
    dispatch_interrupt-none handle (clear_table irq_table_size table 0) irq s small
      (clear_table-inside irq_table_size table 0 irq (omega arith) (omega arith))
