-- ===== src/FramePool/Sections.antt =====
-- Sections of a pool, and the loop of `release_frames` that frees the rest of one.
use demand_paged_virtual_mem.Common.{
  ℕ, zero, suc, ◌+◌, ◌-◌, ◌≤◌, ◌<◌, ◌≡◌, ◌≢◌, ◌&&◌, ◌⊎◌, refl, inl, inr, ◌∙◌, if◌then◌else◌, arith,
  ltb, leb, add32, word_mod, dec_lt, ap, add32_small,
}
use demand_paged_virtual_mem.FramePool.{
  FrameState, free, used, hos, Pool, get_state, set_state, free_rest,
}
use demand_paged_virtual_mem.FramePool.States.{Bytes, get_state-set_state, set_state-Bytes}
use demand_paged_virtual_mem.FramePool.Allocate.{get_state-counter}

-- The frames `f`, ..., `e - 1` are used, and this goes no further in the pool.
pub record UsedUpTo (p : Pool) (f e : ℕ) : Type 0 where
  pub start : f ≤ e
  pub inside : e ≤ p.nframes
  pub used_in : (g : ℕ) → f ≤ g → g < e → get_state p g ≡ used
  pub ends : (e ≡ p.nframes) ⊎ (get_state p e ≢ used)

-- The section at frame `s` ends before frame `e`.
pub record Section (p : Pool) (s e : ℕ) : Type 0 where
  pub head : get_state p s ≡ hos
  pub tail : UsedUpTo p (s + 1) e

-- The frames from `s` up to `e` are free now, and all else is as before.
pub record Released (p : Pool) (s e : ℕ) (q : Pool) : Type 0 where
  pub states : (g : ℕ) → get_state q g ≡ (if leb s g && ltb g e then free else get_state p g)
  pub counter : q.n_free_frames ≡ p.n_free_frames + (e - s)
  pub base : q.base_frame_no ≡ p.base_frame_no
  pub frames : q.nframes ≡ p.nframes
  pub bytes : Bytes q

-- One frame freed and counted.
unfoldable pub freed : Pool → ℕ → Pool
freed p f = let q = set_state p f free in record q { n_free_frames = add32 q.n_free_frames 1 }

pub freed-Released :
    (p : Pool) (f : ℕ) → Bytes p → p.n_free_frames + 1 < word_mod → Released p f (f + 1) (freed p f)
unfolding freed
freed-Released p f b h = record {
  states = λ g.
      get_state-counter (set_state p f free) (add32 (set_state p f free).n_free_frames 1) g
      ∙ rw (get_state-set_state p f g free b) (ground arith);
  counter = counted;
  base = unfold set_state in refl;
  frames = unfold set_state in refl;
  bytes = set_state-Bytes p f free b;
}
  where
    counted : (freed p f).n_free_frames ≡ p.n_free_frames + (f + 1 - f)
    counted = unfold set_state in omega arith

Released-refl : (p : Pool) (f : ℕ) → Bytes p → Released p f f p
Released-refl p f b = record {
  states = λ g. ground arith;
  counter = omega arith;
  base = refl;
  frames = refl;
  bytes = b;
}

pub Released-trans :
    {p q r : Pool} {s m e : ℕ}
    → s ≤ m
    → m ≤ e
    → Released p s m q
    → Released q m e r
    → Released p s e r
Released-trans {p} {q} {r} h k a b = record {
  states = λ g. ground (arith, a.states g, b.states g);
  counter = omega (arith, a.counter, b.counter);
  base = b.base ∙ a.base;
  frames = b.frames ∙ a.frames;
  bytes = b.bytes;
}

free_rest-used :
    (k : ℕ) (p : Pool) (f : ℕ)
    → get_state p f ≡ used
    → f + 1 < word_mod
    → free_rest (suc k) p f ≡ free_rest k (freed p f) (f + 1)
unfolding free_rest freed
free_rest-used k p f e h = rw (e, add32_small f 1 h)

free_rest-stop : (k : ℕ) (p : Pool) (f : ℕ) → get_state p f ≢ used → free_rest k p f ≡ p
unfolding free_rest
free_rest-stop zero p f h = refl
free_rest-stop (suc k) p f h = ground arith

UsedUpTo-freed :
    {p : Pool} {f e : ℕ}
    → UsedUpTo p f e
    → f < e
    → Released p f (f + 1) (freed p f)
    → UsedUpTo (freed p f) (f + 1) e
UsedUpTo-freed {p} {f} {e} u lt one = record {
  start = omega arith;
  inside = omega (arith, u.inside, one.frames);
  used_in = λ g lo hi. ground (arith, one.states g, u.used_in g (omega arith) hi);
  ends = ground (arith, one.states e, one.frames, u.ends);
}

-- The loop frees the used frames ahead.
pub free_rest-Released :
    (k : ℕ) (p : Pool) (f e : ℕ)
    → Bytes p
    → UsedUpTo p f e
    → f + k ≡ p.nframes
    → p.nframes < word_mod
    → p.n_free_frames + k < word_mod
    → Released p f e (free_rest k p f)
free_rest-Released zero p f e b u len small room =
    let q : e ≡ f = omega (arith, u.start, u.inside) in
    rw (q, free_rest_none p f) (Released-refl p f b)
  where
    free_rest_none : (p : Pool) (f : ℕ) → free_rest 0 p f ≡ p
    free_rest_none p f = unfold free_rest in refl
free_rest-Released (suc k) p f e b u len small room = elim (dec_lt f e) [
  | yes lt ↦
      let one = freed-Released p f b (omega arith) in
      rw (free_rest-used k p f (u.used_in f (omega arith) lt) (omega arith)) (
        Released-trans (omega arith) (omega arith) one (
          free_rest-Released k (freed p f) (f + 1) e one.bytes (UsedUpTo-freed u lt one)
            (omega (arith, one.frames)) (omega (arith, one.frames)) (omega (arith, one.counter))))
  | no ge ↦
      let q : e ≡ f = omega (arith, u.start) in
      let stop : get_state p f ≢ used = ground (arith, u.ends, ap (get_state p) q) in
      rw (q, free_rest-stop (suc k) p f stop) (Released-refl p f b)
]

-- From any frame on, the used frames end somewhere.
pub used_end : (k : ℕ) (p : Pool) (f : ℕ) → f + k ≡ p.nframes → (e : ℕ) × UsedUpTo p f e
used_end zero p f len = (
  f,
  record {
    start = omega arith;
    inside = omega arith;
    used_in = λ g lo hi. absurd (omega arith);
    ends = inl (omega arith);
  },
)
used_end (suc k) p f len = elim (used_cases (get_state p f)) [
  | inl is ↦
      let (e, u) = used_end k p (f + 1) (omega arith) in
      (
        e,
        record {
          start = omega (arith, u.start);
          inside = u.inside;
          used_in = λ g lo hi. elim (dec_lt f g) [
            | yes after ↦ u.used_in g (omega arith) hi
            | no at ↦ let q : g ≡ f = omega arith in rw q is
          ];
          ends = u.ends;
        },
      )
  | inr isnt ↦ (
    f,
    record {
      start = omega arith;
      inside = omega arith;
      used_in = λ g lo hi. absurd (omega arith);
      ends = inr isnt;
    },
  )
]
  where
    used_cases : (s : FrameState) → (s ≡ used) ⊎ (s ≢ used)
    used_cases s = ground arith
