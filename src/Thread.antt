-- ===== src/Thread.antt =====
-- thread.C and thread.H: a thread and its initial stack. Memory is the words at the addresses that
-- differ from the stack's end by multiples of four.
pub mod Stack
pub mod Shutdown
mod Examples
use demand_paged_virtual_mem.Common.{
  ℕ, zero, suc, ◌+◌, ◌-◌, ◌*◌, ◌/◌, ◌%◌, ◌≤◌, ◌<◌, ◌≡◌, ◌≢◌, refl, Bool, true, false, ◌==◌, ◌&&◌,
  ◌||◌, not, ◌∙◌, sym, subst, ◌⊎◌, inl, inr, if◌then◌else◌, List, [], ◌∷◌, ◌++◌, length, All, arith,
  ltb, leb, update, add32, sub32, mul32, Run, ok, assert_failed, out_of_fuel, faulted, ◌>>=◌, ◌>>◌,
  assert, dec_lt, dec_le, ap, word_mod, Option, none, some, lt→ltb, le→ltb, eq→==, ne→==, if_cases,
  Bool-cases, ==→eq, ==→ne, le→leb, lt→leb, bit_and, bit_or, ◌^◌,
}

pub record Thread : Type 0 where
  pub esp : ℕ
  pub thread_id : ℕ
  pub stack : ℕ
  pub stack_size : ℕ

-- The selectors of the segments of the kernel
abbrev pub kernel_cs : ℕ
kernel_cs = 8

abbrev pub kernel_ds : ℕ
kernel_ds = 16

-- `push`, of a thread in memory
unfoldable pub push : ℕ → Thread × (ℕ → ℕ) → Thread × (ℕ → ℕ)
push val t = let esp = sub32 t.0.esp 4 in (record t.0 { esp = esp }, update t.1 esp val)

-- One `push` after the other
unfoldable pub push_all : List ℕ → Thread × (ℕ → ℕ) → Thread × (ℕ → ℕ)
push_all [] t = t
push_all (val ∷ vals) t = push_all vals (push val t)

-- What `setup_context` pushes, with the addresses of `thread_shutdown` and `thread_start`
unfoldable pub context : ℕ → ℕ → ℕ → List ℕ
context thread_shutdown thread_start tfunction =
    0 ∷ thread_shutdown ∷ tfunction ∷ 0 ∷ kernel_cs ∷ thread_start ∷ 0 ∷ 0 ∷ 0 ∷ 0 ∷ 0 ∷ 0 ∷ 0 ∷ 0
    ∷ 0 ∷ 0 ∷ kernel_ds ∷ kernel_ds ∷ 0 ∷ 0 ∷ []

unfoldable pub setup_context : ℕ → ℕ → ℕ → Thread × (ℕ → ℕ) → Thread × (ℕ → ℕ)
setup_context thread_shutdown thread_start tfunction t =
    push_all (context thread_shutdown thread_start tfunction) t

-- The constructor: the thread, the memory, and the next thread's id
unfoldable pub new_thread : ℕ → ℕ → ℕ → ℕ → ℕ → (ℕ → ℕ) × ℕ → (Thread × (ℕ → ℕ)) × ℕ
new_thread thread_shutdown thread_start tf stack stack_size state =
    let thread : Thread = record {
      esp = add32 stack stack_size;
      thread_id = state.1;
      stack = stack;
      stack_size = stack_size;
    } in
    (setup_context thread_shutdown thread_start tf (thread, state.0), add32 state.1 1)
