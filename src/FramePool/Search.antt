-- ===== src/FramePool/Search.antt =====
-- `ContFramePool::get_frames`: its two search loops find the first fit, with fuel to spare.
use demand_paged_virtual_mem.Common.{
  ℕ, zero, suc, ◌+◌, ◌≤◌, ◌<◌, ◌≡◌, ◌≢◌, ◌||◌, refl, Bool, true, ◌⊎◌, inl, inr, ◌==◌, ◌∙◌,
  if◌then◌else◌, arith, lt→ltb, ==→eq, ==→ne, Bool-cases, add32_small, ok, word_mod, dec_lt, ap,
  ap₂, subst,
}
use demand_paged_virtual_mem.FramePool.{
  FrameState, free, used, hos, same, Pool, get_state, skip, advance, search_frames,
}

-- The frames `s`, ..., `s + n - 1` are free.
abbrev pub FreeRun : Pool → ℕ → ℕ → Type 0
FreeRun p s n = (i : ℕ) → s ≤ i → i < s + n → get_state p i ≡ free

-- `s` is the first place in the pool at which `n` frames in a row are free.
pub record FirstFit (p : Pool) (n s : ℕ) : Type 0 where
  pub fits : s + n ≤ p.nframes
  pub run : FreeRun p s n
  pub least : (t : ℕ) → t < s → ¬ FreeRun p t n

abbrev pub taken : FrameState → Bool
taken s = same s used || same s hos

pub state_cases : (s : FrameState) → (s ≡ free) ⊎ (taken s ≡ true)
state_cases free = inl refl
state_cases used = inr refl
state_cases hos = inr refl

pub skip-free :
    (fuel : ℕ) (p : Pool) (f c : ℕ) → get_state p f ≡ free → skip (suc fuel) p f c ≡ ok (f, c)
unfolding skip
skip-free fuel p f c e = rw e

pub skip-taken :
    (fuel : ℕ) (p : Pool) (f c : ℕ)
    → taken (get_state p f) ≡ true
    → f + 1 < word_mod
    → skip (suc fuel) p f c ≡ skip fuel p (f + 1) 0
unfolding skip
skip-taken fuel p f c e h = rw (e, add32_small f 1 h)

-- With a free frame ahead and fuel for the way there, `skip` stops at a free frame.
pub skip_stops :
    (fuel : ℕ) (p : Pool) (f c s : ℕ)
    → f ≤ s
    → s < f + fuel
    → s < word_mod
    → get_state p s ≡ free
    → (g : ℕ) × (d : ℕ) × (skip fuel p f c ≡ ok (g, d))
      × (f ≤ g)
      × (g ≤ s)
      × (get_state p g ≡ free)
      × (((g ≡ f) × (d ≡ c)) ⊎ (d ≡ 0))
skip_stops zero p f c s le lt bound e = absurd (omega arith)
skip_stops (suc fuel) p f c s le lt bound e = elim (state_cases (get_state p f)) [
  | inl here ↦ (f, c, skip-free fuel p f c here, omega arith, le, here, inl (refl, refl))
  | inr away ↦
      let ne : f ≢ s = λ q. ground (arith, ap (get_state p) q) in
      let (g, d, r, lo, hi, at, moved) =
        skip_stops fuel p (f + 1) 0 s (omega arith) (omega arith) bound e in
      (g, d, skip-taken fuel p f c away (omega arith) ∙ r, omega arith, hi, at, inr (ground arith))
]

pub skip_here :
    (k : ℕ) (p : Pool) (f c : ℕ) → 0 < k → get_state p f ≡ free → skip k p f c ≡ ok (f, c)
skip_here zero p f c h e = absurd (omega arith)
skip_here (suc k) p f c h e = skip-free k p f c e

-- A skip that was needed has reset the counter.
pub reset_of :
    (p : Pool) {f g c d : ℕ}
    → ((g ≡ f) × (d ≡ c)) ⊎ (d ≡ 0)
    → get_state p g ≡ free
    → taken (get_state p f) ≡ true
    → d ≡ 0
reset_of p (inl (q, _)) e t = absurd (ground (arith, ap (get_state p) q))
reset_of p (inr q) e t = q

-- One round of the outer loop at a free frame.
pub search_frames_step :
    (fuel inner : ℕ) (p : Pool) (n f c g d : ℕ)
    → f < p.nframes
    → skip inner p f c ≡ ok (g, d)
    → get_state p g ≡ free
    → g + 1 < word_mod
    → d + 1 < word_mod
    → search_frames (suc fuel) inner p n (f, c)
      ≡ (if d + 1 == n then ok (g + 1, d + 1) else search_frames fuel inner p n (g + 1, d + 1))
unfolding search_frames advance
search_frames_step fuel inner p n f c g d lt e at hg hd =
    rw (lt→ltb f p.nframes lt, e, at, add32_small g 1 hg, add32_small d 1 hd)

pub FreeRun-suc :
    (p : Pool) (st c : ℕ) → FreeRun p st c → get_state p (st + c) ≡ free → FreeRun p st (c + 1)
FreeRun-suc p st c run e i lo hi = elim (dec_lt i (st + c)) [
  | yes h ↦ run i lo h
  | no h ↦ let q : i ≡ st + c = omega arith in rw q e
]

module _ (p : Pool) (n s : ℕ) (bound : p.nframes < word_mod) (fit : FirstFit p n s) where
  -- The first fit is the only place up to itself with `n` free frames.
  fit_unique : (t : ℕ) → t ≤ s → FreeRun p t n → t ≡ s
  fit_unique t le run = elim (dec_lt t s) [
    | yes h ↦ absurd (fit.least t h run)
    | no h ↦ omega arith
  ]

  -- The end of a round that has counted one more free frame.
  round_end :
      (fuel inner st c : ℕ)
      → st ≤ s
      → c < n
      → FreeRun p st (c + 1)
      → (c + 1 < n → search_frames fuel inner p n (st + (c + 1), c + 1) ≡ ok (s + n, n))
      → (if c + 1 == n
          then ok (st + c + 1, c + 1)
          else search_frames fuel inner p n (st + c + 1, c + 1))
        ≡ ok (s + n, n)
  round_end fuel inner st c le lt run ih = elim (Bool-cases (c + 1 == n)) [
    | inl e ↦
        let q : c + 1 ≡ n = ==→eq (c + 1) n e in
        let u : st ≡ s = fit_unique st le (subst (FreeRun p st) q run) in
        rw e (ap₂ (λ a b. ok (a, b)) (omega arith) q)
    | inr e ↦
        let lt' : c + 1 < n = omega (arith, ==→ne (c + 1) n e) in
        let shift : st + c + 1 ≡ st + (c + 1) = omega arith in rw (e, shift) (ih lt')
  ]

  -- From a counter `c` of free frames that end before `st + c`, the search ends at the first fit.
  pub search_frames_fit :
      (fuel inner st c : ℕ)
      → s < inner
      → s + n < st + c + fuel
      → c < n
      → st ≤ s
      → FreeRun p st c
      → search_frames fuel inner p n (st + c, c) ≡ ok (s + n, n)
  search_frames_fit zero inner st c hi hf hc le run = absurd (omega arith)
  search_frames_fit (suc fuel) inner st c hi hf hc le run =
      elim (state_cases (get_state p (st + c))) [
        | inl here ↦
            let run' = FreeRun-suc p st c run here in
            search_frames_step fuel inner p n (st + c) c (st + c) c (omega (arith, fit.fits))
              (skip_here inner p (st + c) c (omega arith) here) here (omega (arith, fit.fits))
              (omega (arith, fit.fits))
            ∙ round_end fuel inner st c le hc run'
                (λ lt. search_frames_fit fuel inner st (c + 1) hi (omega arith) lt le run')
        | inr away ↦
            let before : st + c < s = not_in_fit (st + c) away (omega arith) in
            let (g, d, r, lo, up, at, moved) =
              skip_stops inner p (st + c) c s (omega arith) (omega arith) (omega (arith, fit.fits))
                (fit.run s (omega arith) (omega arith)) in
            let reset : d ≡ 0 = reset_of p moved at away in
            let run' : FreeRun p g 1 = λ i a b. let q : i ≡ g = omega arith in rw q at in
            let here : g + 0 ≡ g = omega arith in
            search_frames_step fuel inner p n (st + c) c g 0 (omega (arith, fit.fits))
              (rw reset at r) at (omega (arith, fit.fits)) (omega arith)
            ∙ rw here at (
                round_end fuel inner g 0 up (omega arith) run'
                  (λ lt. search_frames_fit fuel inner g 1 hi (omega arith) lt up run'))
      ]
    where
      not_in_fit : (f : ℕ) → taken (get_state p f) ≡ true → f < s + n → f < s
      not_in_fit f t lt = elim (dec_lt f s) [
        | yes h ↦ h
        | no h ↦ absurd (let e = fit.run f (omega arith) lt in ground (arith, e, t))
      ]
