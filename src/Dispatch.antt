-- ===== src/Dispatch.antt =====
-- interrupts.C and exceptions.C: the tables of handlers, and the messages to the two interrupt
-- controllers.
pub mod Interrupts
pub mod Exceptions
mod Examples
use demand_paged_virtual_mem.Common.{
  ℕ, zero, suc, ◌+◌, ◌-◌, ◌*◌, ◌/◌, ◌%◌, ◌≤◌, ◌<◌, ◌≡◌, ◌≢◌, refl, Bool, true, false, ◌==◌, ◌&&◌,
  ◌||◌, not, ◌∙◌, sym, subst, ◌⊎◌, inl, inr, if◌then◌else◌, List, [], ◌∷◌, ◌++◌, length, All, arith,
  ltb, leb, update, add32, sub32, mul32, Run, ok, assert_failed, out_of_fuel, ◌>>=◌, ◌>>◌, assert,
  dec_lt, ap, word_mod, Option, none, some, lt→ltb, le→ltb, eq→==, ne→==, Bool-cases, ==→eq, ==→ne,
  le→leb, lt→leb, bit_and,
}

-- `IRQ_BASE`, `IRQ_TABLE_SIZE` and `EXCEPTION_TABLE_SIZE`
abbrev pub irq_base : ℕ
irq_base = 32

abbrev pub irq_table_size : ℕ
irq_table_size = 16

abbrev pub exception_table_size : ℕ
exception_table_size = 32

-- A table of handlers, by their addresses; no handler is 0.
abbrev pub HandlerTable : Type 0
HandlerTable = ℕ → ℕ

-- The loop of `init_dispatcher` over `rounds` entries from `i` on.
unfoldable pub clear_table : ℕ → HandlerTable → ℕ → HandlerTable
clear_table zero table i = table
clear_table (suc rounds) table i = clear_table rounds (update table i 0) (i + 1)

-- The gates that `init_dispatcher` sets, as pairs of a position in the IDT and a number of a stub.
unfoldable pub set_gates : ℕ → ℕ → ℕ → List (ℕ × ℕ)
set_gates zero base i = []
set_gates (suc rounds) base i = (i + base, i) ∷ set_gates rounds base (i + 1)

-- `init_dispatcher`, of the interrupts and of the exceptions.
unfoldable pub init_interrupts : HandlerTable → List (ℕ × ℕ) × HandlerTable
init_interrupts table = (set_gates 16 irq_base 0, clear_table irq_table_size table 0)

unfoldable pub init_exceptions : HandlerTable → List (ℕ × ℕ) × HandlerTable
init_exceptions table = (set_gates 32 0 0, clear_table exception_table_size table 0)

-- `register_handler` and `deregister_handler`, of a table with `size` entries.
unfoldable pub register_handler : ℕ → HandlerTable → ℕ → ℕ → Run HandlerTable
register_handler size table code handler = do assert (ltb code size); ok (update table code handler)

unfoldable pub deregister_handler : ℕ → HandlerTable → ℕ → Run HandlerTable
deregister_handler size table code = do assert (ltb code size); ok (update table code 0)

abbrev pub generated_by_slave_pic : ℕ → Bool
generated_by_slave_pic int_no = ltb 7 int_no

-- The bytes that end an interrupt, each with its port.
unfoldable pub end_of_interrupt : ℕ → List (ℕ × ℕ)
end_of_interrupt int_no =
    if generated_by_slave_pic int_no then (160, 32) ∷ (32, 32) ∷ [] else (32, 32) ∷ []

-- `set_EOI` at the interrupt number of the processor's vector.
unfoldable pub set_eoi : ℕ → List (ℕ × ℕ)
set_eoi vector = end_of_interrupt (sub32 vector irq_base)

-- `dispatch_interrupt`; `handle h` is the handler at `h` on the state of the rest of the kernel. The
-- result has the bytes written behind the handler.
unfoldable pub dispatch_interrupt :
    {S : Type 0} → (ℕ → S → Run S) → HandlerTable → ℕ → S → Run (S × List (ℕ × ℕ))
dispatch_interrupt handle table vector s =
    let int_no = sub32 vector irq_base in
    let handler = table int_no in
    let called = handle handler s >>= λ s'. ok (s', end_of_interrupt int_no) in
    assert (ltb int_no irq_table_size)
    >> (if handler == 0 then ok (s, end_of_interrupt int_no) else called)

-- How the dispatch of an exception ends: its handler returned, or there was none and the machine
-- stopped.
pub data Exception (S : Type 0) : Type 0 where
  handled : S → Exception S
  aborted : Exception S

unfoldable pub dispatch_exception :
    {S : Type 0} → (ℕ → S → Run S) → HandlerTable → ℕ → S → Run (Exception S)
dispatch_exception handle table exc_no s =
    let handler = table exc_no in
    let called = handle handler s >>= λ s'. ok (handled s') in
    assert (ltb exc_no exception_table_size) >> (if handler == 0 then ok aborted else called)
