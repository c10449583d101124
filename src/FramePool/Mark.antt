-- ===== src/FramePool/Mark.antt =====
-- `ContFramePool::mark_inaccessible`: it takes a given range out of the free frames.
use demand_paged_virtual_mem.Common.{
  ℕ, zero, suc, ◌+◌, ◌-◌, ◌≤◌, ◌<◌, ◌≡◌, ◌&&◌, refl, ◌∙◌, ◌==◌, if◌then◌else◌, arith, ltb, leb,
  add32, sub32, word_mod, add32_small,
}
use demand_paged_virtual_mem.FramePool.{
  FrameState, used, hos, Pool, get_state, set_state, mark_rest, mark_inaccessible,
}
use demand_paged_virtual_mem.FramePool.States.{Bytes, get_state-set_state, set_state-Bytes}
use demand_paged_virtual_mem.FramePool.Search.{FreeRun}
use demand_paged_virtual_mem.FramePool.Count.{IsValid, frame_limit, count_free-run, count_free-le}
use demand_paged_virtual_mem.FramePool.Allocate.{
  Allocated, section_state, get_state-counter, Allocated-IsValid,
}

-- One frame marked and no longer counted.
abbrev pub mark_one : Pool → ℕ → FrameState → Pool
mark_one p f s = let q = set_state p f s in record q { n_free_frames = sub32 q.n_free_frames 1 }

-- The frames from `f` up to `e` are used now and no longer counted.
record Marked (p : Pool) (f e : ℕ) (q : Pool) : Type 0 where
  states : (g : ℕ) → get_state q g ≡ (if leb f g && ltb g e then used else get_state p g)
  counter : q.n_free_frames + (e - f) ≡ p.n_free_frames
  base : q.base_frame_no ≡ p.base_frame_no
  frames : q.nframes ≡ p.nframes
  bytes : Bytes q

module _ (p : Pool) (f : ℕ) (b : Bytes p) (some_free : 0 < p.n_free_frames)
    (small : p.n_free_frames < word_mod) where
  get_state-mark_one :
      (s : FrameState) (g : ℕ)
      → get_state (mark_one p f s) g ≡ (if f == g then s else get_state p g)
  get_state-mark_one s g =
      get_state-counter (set_state p f s) (sub32 (set_state p f s).n_free_frames 1) g
      ∙ get_state-set_state p f g s b

  counter-mark_one : (s : FrameState) → (mark_one p f s).n_free_frames + 1 ≡ p.n_free_frames
  unfolding set_state
  counter-mark_one s = omega arith

  mark_one-Marked : Marked p f (f + 1) (mark_one p f used)
  mark_one-Marked = record {
    states = λ g. get_state-mark_one used g ∙ ground arith;
    counter = omega (arith, counter-mark_one used);
    base = unfold set_state in refl;
    frames = unfold set_state in refl;
    bytes = set_state-Bytes p f used b;
  }

Marked-trans :
    {p q r : Pool} {s m e : ℕ} → s ≤ m → m ≤ e → Marked p s m q → Marked q m e r → Marked p s e r
Marked-trans h k a b = record {
  states = λ g. ground (arith, a.states g, b.states g);
  counter = omega (arith, a.counter, b.counter);
  base = b.base ∙ a.base;
  frames = b.frames ∙ a.frames;
  bytes = b.bytes;
}

mark_rest-Marked :
    (k : ℕ) (p : Pool) (f : ℕ)
    → Bytes p
    → k ≤ p.n_free_frames
    → p.n_free_frames < word_mod
    → f + k < word_mod
    → Marked p f (f + k) (mark_rest k p f)
mark_rest-Marked zero p f b le small h = record {
  states = λ g. unfold mark_rest in ground arith;
  counter = unfold mark_rest in omega arith;
  base = unfold mark_rest in refl;
  frames = unfold mark_rest in refl;
  bytes = unfold mark_rest in b;
}
mark_rest-Marked (suc k) p f b le small h =
    let one = mark_one-Marked p f b (omega arith) small in
    let rest =
      mark_rest-Marked k (mark_one p f used) (f + 1) one.bytes (omega (arith, one.counter))
        (omega (arith, one.counter)) (omega arith) in
    let shift : f + 1 + k ≡ f + suc k = omega arith in
    rw mark_rest-suc (Marked-trans (omega arith) (omega arith) one (rw shift at rest))
  where
    mark_rest-suc : mark_rest (suc k) p f ≡ mark_rest k (mark_one p f used) (f + 1)
    mark_rest-suc = unfold mark_rest in rw (add32_small f 1 (omega arith))

pub mark_inaccessible-rest :
    (p : Pool) (s n : ℕ)
    → p.base_frame_no + p.nframes ≤ frame_limit
    → s + n ≤ p.nframes
    → 0 < n
    → mark_inaccessible p (p.base_frame_no + s) n ≡ mark_rest (n - 1) (mark_one p s hos) (s + 1)
unfolding mark_inaccessible
mark_inaccessible-rest p s n small fits pos =
    let here : sub32 (p.base_frame_no + s) p.base_frame_no ≡ s = omega arith in
    let next : sub32 (add32 (p.base_frame_no + s) 1) p.base_frame_no ≡ s + 1 = omega arith in
    let rounds : add32 (p.base_frame_no + s) n - add32 (p.base_frame_no + s) 1 ≡ n - 1 =
      omega arith in
    rw (here, next, rounds)

-- A head and the used frames behind it make a section.
Marked-Allocated :
    (p : Pool) (s n : ℕ) {q : Pool}
    → Bytes p
    → 0 < n
    → 0 < p.n_free_frames
    → p.n_free_frames < word_mod
    → Marked (mark_one p s hos) (s + 1) (s + 1 + (n - 1)) q
    → Allocated p n s q
Marked-Allocated p s n b pos some_free small m = record {
  states = λ g. m.states g ∙ rw (get_state-mark_one p s b some_free small hos g) (ground arith);
  counter = omega (arith, m.counter, counter-mark_one p s b some_free small hos);
  base = m.base ∙ unfold set_state in refl;
  frames = m.frames ∙ unfold set_state in refl;
}

-- On `n > 0` free frames of a valid pool, `mark_inaccessible` makes them one section, as an
-- allocation of exactly these frames does: the other states stay, the counter falls by `n`, and
-- the pool stays valid.
pub mark_inaccessible_lem :
    {p : Pool} {s n : ℕ}
    → IsValid p
    → 0 < n
    → s + n ≤ p.nframes
    → FreeRun p s n
    → let q = mark_inaccessible p (p.base_frame_no + s) n in
      ((g : ℕ) → get_state q g ≡ section_state s n (get_state p) g)
      × (q.n_free_frames + n ≡ p.n_free_frames)
      × IsValid q
mark_inaccessible_lem {p} {s} {n} v pos fits run =
    let few = count_free-le p p.nframes in
    let left = count_free-run p s n p.nframes run fits in
    let head = mark_one p s hos in
    let small : p.n_free_frames < word_mod = omega (arith, v.small, v.counted, few) in
    let counted = counter-mark_one p s v.bytes (omega (arith, v.counted, left, pos)) small hos in
    let rest =
      mark_rest-Marked (n - 1) head (s + 1) (set_state-Bytes p s hos v.bytes)
        (omega (arith, v.counted, left, counted)) (omega (arith, counted, small))
        (omega (arith, v.small)) in
    let a = Marked-Allocated p s n v.bytes pos (omega (arith, v.counted, left, pos)) small rest in
    rw (mark_inaccessible-rest p s n v.small fits pos)
      (a.states, a.counter, Allocated-IsValid v pos fits run a rest.bytes)

pub set_state-place :
    (p : Pool) (f : ℕ) (s : FrameState)
    → ((set_state p f s).base_frame_no ≡ p.base_frame_no) × ((set_state p f s).nframes ≡ p.nframes)
unfolding set_state
set_state-place p f s = (refl, refl)

mark_rest-place :
    (k : ℕ) (p : Pool) (f : ℕ)
    → ((mark_rest k p f).base_frame_no ≡ p.base_frame_no) × ((mark_rest k p f).nframes ≡ p.nframes)
unfolding mark_rest
mark_rest-place zero p f = (refl, refl)
mark_rest-place (suc k) p f =
    let q = set_state p f used in
    let e = set_state-place p f used in
    let rest =
      mark_rest-place k (record q { n_free_frames = sub32 q.n_free_frames 1 }) (add32 f 1) in
    (rest.0 ∙ e.0, rest.1 ∙ e.1)

-- The place and the size of the pool stay.
pub mark_inaccessible-place :
    (p : Pool) (base n : ℕ)
    → ((mark_inaccessible p base n).base_frame_no ≡ p.base_frame_no)
      × ((mark_inaccessible p base n).nframes ≡ p.nframes)
unfolding mark_inaccessible
mark_inaccessible-place p base n =
    let q = set_state p (sub32 base p.base_frame_no) hos in
    let e = set_state-place p (sub32 base p.base_frame_no) hos in
    let rest =
      mark_rest-place (add32 base n - add32 base 1)
        (record q { n_free_frames = sub32 q.n_free_frames 1 })
        (sub32 (add32 base 1) p.base_frame_no) in
    (rest.0 ∙ e.0, rest.1 ∙ e.1)
