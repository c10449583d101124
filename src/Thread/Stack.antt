-- ===== src/Thread/Stack.antt =====
-- The stack of a new thread.
use demand_paged_virtual_mem.Common.{
  ℕ, zero, suc, ◌+◌, ◌-◌, ◌*◌, ◌≤◌, ◌<◌, ◌≡◌, refl, ◌∙◌, ◌⊎◌, inr, List, [], ◌∷◌, length, arith,
  update, add32, sub32, ap, word_mod, eq→==, ne→==,
}
use demand_paged_virtual_mem.Thread.{Thread, push, push_all, context, setup_context, new_thread}

-- The word at a place of a list
abbrev pub nth : List ℕ → ℕ → ℕ
nth [] i = 0
nth (x ∷ xs) zero = x
nth (x ∷ xs) (suc i) = nth xs i

-- The words pushed, from the end of the stack down.
pub record Pushed (vals : List ℕ) (esp : ℕ) (before : Thread) (m : ℕ → ℕ) (after : Thread)
    (m' : ℕ → ℕ) : Type 0 where
  pub moved : after.esp + 4 * length vals ≡ esp
  pub same_id : after.thread_id ≡ before.thread_id
  pub same_stack : after.stack ≡ before.stack
  pub same_size : after.stack_size ≡ before.stack_size
  pub words : (j : ℕ) → j < length vals → m' (esp - 4 * (j + 1)) ≡ nth vals j
  pub outside : (q : ℕ) → (q < after.esp) ⊎ (esp ≤ q) → m' q ≡ m q

push_all-next :
    (val : ℕ) (vals : List ℕ) (t : Thread) (m : ℕ → ℕ)
    → 4 ≤ t.esp
    → t.esp < word_mod
    → push_all (val ∷ vals) (t, m)
      ≡ push_all vals (record t { esp = t.esp - 4 }, update m (t.esp - 4) val)
unfolding push_all push
push_all-next val vals t m room small =
    let lower : sub32 t.esp 4 ≡ t.esp - 4 = omega arith in
    ap (λ z. push_all vals (record t { esp = z }, update m z val)) lower

pub push_all-Pushed :
    (vals : List ℕ) (t : Thread) (m : ℕ → ℕ)
    → 4 * length vals ≤ t.esp
    → t.esp < word_mod
    → (after : Thread) × (m' : ℕ → ℕ) × (push_all vals (t, m) ≡ (after, m'))
      × Pushed vals t.esp t m after m'
push_all-Pushed [] t m room small = (
  t,
  m,
  unfold push_all in refl,
  record {
    moved = omega arith;
    same_id = refl;
    same_stack = refl;
    same_size = refl;
    words = λ j lt. absurd (omega arith);
    outside = λ q out. refl;
  },
)
push_all-Pushed (val ∷ vals) t m room small =
    let esp = t.esp - 4 in
    let (after, m', run, p) =
      push_all-Pushed vals (record t { esp = esp }) (update m esp val) (omega arith)
        (omega arith) in
    (
      after,
      m',
      push_all-next val vals t m (omega arith) small ∙ run,
      record {
        moved = omega (arith, p.moved);
        same_id = p.same_id;
        same_stack = p.same_stack;
        same_size = p.same_size;
        words = λ j lt. word after m' p j lt;
        outside = λ q out.
            p.outside q (ground (arith, out, p.moved))
            ∙ rw (ne→== esp q (ground (arith, out, p.moved))) refl;
      },
    )
  where
    word :
        (after : Thread) (m' : ℕ → ℕ)
        → Pushed vals (t.esp - 4) (record t { esp = t.esp - 4 }) (update m (t.esp - 4) val) after m'
        → (j : ℕ) → j < suc (length vals)
        → m' (t.esp - 4 * (j + 1)) ≡ nth (val ∷ vals) j
    word after m' p zero lt =
        p.outside (t.esp - 4 * (0 + 1)) (inr (omega arith))
        ∙ rw (eq→== (t.esp - 4) (t.esp - 4 * (0 + 1)) (omega arith)) refl
    word after m' p (suc j) lt =
        let there : t.esp - 4 * (suc j + 1) ≡ t.esp - 4 - 4 * (j + 1) = omega arith in
        ap m' there ∙ p.words j (omega arith)

-- A new thread: its id, its stack pointer, and its stack, from the end down: the argument, the
-- address to which the thread's function returns, the function, the flags with interrupts disabled,
-- and where it starts; the rest of the context is below. All of it is in the stack's memory.
pub record Started (shutdown start tf stack size id : ℕ) (m : ℕ → ℕ) (after : Thread) (m' : ℕ → ℕ)
    : Type 0 where
  pub own_id : after.thread_id ≡ id
  pub pointer : after.esp + 80 ≡ stack + size
  pub argument : m' (stack + size - 4) ≡ 0
  pub return_to : m' (stack + size - 8) ≡ shutdown
  pub function : m' (stack + size - 12) ≡ tf
  pub flags : m' (stack + size - 16) ≡ 0
  pub code_segment : m' (stack + size - 20) ≡ 8
  pub starts_at : m' (stack + size - 24) ≡ start
  pub registers : (j : ℕ) → 6 ≤ j → j < 16 → m' (stack + size - 4 * (j + 1)) ≡ 0
  pub data_segments : (m' (stack + size - 68) ≡ 16) × (m' (stack + size - 72) ≡ 16)
  pub outside : (q : ℕ) → (q < stack) ⊎ (stack + size ≤ q) → m' q ≡ m q

zeros : (shutdown start tf j : ℕ) → 6 ≤ j → j < 16 → nth (context shutdown start tf) j ≡ 0
unfolding context
zeros shutdown start tf j lo hi = ground arith

-- A new thread on a stack of at least 80 bytes below 2^32 has the next id and a stack pointer 80
-- bytes below the stack's end. The stack holds, from its end down, no argument, the shutdown
-- function as return address, the thread's function, flags with interrupts disabled, the kernel's
-- code segment, the start function, ten zeros and the data segments. Memory outside the stack
-- stays.
pub new_thread-Started :
    (shutdown start tf stack size id : ℕ) (m : ℕ → ℕ)
    → 80 ≤ size
    → stack + size < word_mod
    → (after : Thread) × (m' : ℕ → ℕ) × (new_thread shutdown start tf stack size (m, id)
        ≡ ((after, m'), add32 id 1))
      × Started shutdown start tf stack size id m after m'
unfolding context
new_thread-Started shutdown start tf stack size id m room small =
    let thread : Thread = record {
      esp = stack + size;
      thread_id = id;
      stack = stack;
      stack_size = size;
    } in
    let (after, m', run, p) =
      push_all-Pushed (context shutdown start tf) thread m (omega arith) small in
    let top : add32 stack size ≡ stack + size = omega arith in
    (
      after,
      m',
      (unfold new_thread setup_context in rw top (ap (λ z. (z, add32 id 1)) run)),
      record {
        own_id = p.same_id;
        pointer = p.moved;
        argument = p.words 0 (omega arith);
        return_to = p.words 1 (omega arith);
        function = p.words 2 (omega arith);
        flags = p.words 3 (omega arith);
        code_segment = p.words 4 (omega arith);
        starts_at = p.words 5 (omega arith);
        registers = λ j lo hi. p.words j (omega arith) ∙ zeros shutdown start tf j lo hi;
        data_segments = (p.words 16 (omega arith), p.words 17 (omega arith));
        outside = λ q out. p.outside q (ground (arith, out, p.moved));
      },
    )
