-- ===== src/Dispatch/Exceptions.antt =====
-- Which handler an exception reaches.
use demand_paged_virtual_mem.Common.{
  ℕ, ◌<◌, ◌≡◌, ◌≢◌, refl, sym, if◌then◌else◌, arith, ltb, update, Run, ok, assert_failed, ◌>>=◌,
  dec_lt, lt→ltb, le→ltb, eq→==, ne→==,
}
use demand_paged_virtual_mem.Dispatch.{
  HandlerTable, exception_table_size, register_handler, handled, aborted, dispatch_exception,
}

-- Once a handler that is not null is registered for one of the exceptions, this exception runs
-- that handler, and every other exception is dispatched as before.
pub dispatch_exception-register_handler :
    {S : Type 0} (handle : ℕ → S → Run S) (table : HandlerTable) (code handler : ℕ) (s : S)
    → code < exception_table_size
    → handler ≢ 0
    → (table' : HandlerTable) × (register_handler exception_table_size table code handler
        ≡ ok table')
      × (dispatch_exception handle table' code s ≡ (handle handler s >>= λ s'. ok (handled s')))
      × ((other : ℕ)
          → other ≢ code
          → dispatch_exception handle table' other s ≡ dispatch_exception handle table other s)
unfolding dispatch_exception
dispatch_exception-register_handler handle table code handler s small real = (
  update table code handler,
  unfold register_handler in rw (lt→ltb code exception_table_size small) refl,
  rw (lt→ltb code exception_table_size small, eq→== code code refl, ne→== handler 0 real) refl,
  λ other ne. rw (ne→== code other (λ e. ne (sym e))) refl,
)

-- An exception without a handler stops the machine if its number is in the table, and fails the
-- assertion if not.
pub dispatch_exception-none :
    {S : Type 0} (handle : ℕ → S → Run S) (table : HandlerTable) (exc_no : ℕ) (s : S)
    → table exc_no ≡ 0
    → dispatch_exception handle table exc_no s
      ≡ (if ltb exc_no exception_table_size then ok aborted else assert_failed)
unfolding dispatch_exception
dispatch_exception-none handle table exc_no s no_handler =
    elim (dec_lt exc_no exception_table_size) [
      | yes lt ↦ rw (lt→ltb exc_no exception_table_size lt, eq→== (table exc_no) 0 no_handler) refl
      | no ge ↦ rw (le→ltb exc_no exception_table_size (omega arith)) refl
    ]
