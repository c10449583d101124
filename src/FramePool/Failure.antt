-- ===== src/FramePool/Failure.antt =====
-- `ContFramePool::get_frames` when no place fits: the assertion, the result 0, and the walk past
-- the end of the pool.
use demand_paged_virtual_mem.Common.{
  ℕ, zero, suc, ◌+◌, ◌-◌, ◌≤◌, ◌<◌, ◌≡◌, ◌≢◌, refl, inl, inr, ◌⊎◌, ◌∙◌, arith, lt→ltb, le→ltb,
  le→leb, lt→leb, ne→==, ok, assert_failed, out_of_fuel, word_mod, dec_lt, ap₂, subst,
}
use demand_paged_virtual_mem.FramePool.{free, Pool, get_state, skip, search_frames, get_frames}
use demand_paged_virtual_mem.FramePool.Search.{
  FreeRun, state_cases, skip-taken, skip_stops, skip_here, reset_of, search_frames_step,
  FreeRun-suc,
}
use demand_paged_virtual_mem.FramePool.Count.{IsValid, frame_limit}

-- A request for more frames than are free fails the assertion.
pub get_frames-too_many :
    (fuel : ℕ) (p : Pool) (n : ℕ) → p.n_free_frames < n → get_frames fuel p n ≡ assert_failed
unfolding get_frames
get_frames-too_many fuel p n h = rw (lt→leb n p.n_free_frames h)

-- No `n` frames in a row are free in the pool.
abbrev pub NoFit : Pool → ℕ → Type 0
NoFit p n = (t : ℕ) → t + n ≤ p.nframes → ¬ FreeRun p t n

module _ (p : Pool) (n : ℕ) (bound : p.nframes ≤ frame_limit) (no_fit : NoFit p n) where
  -- Inside the pool the counter stays below `n`.
  count_below : (st c : ℕ) → FreeRun p st (c + 1) → c < n → st + c < p.nframes → c + 1 < n
  count_below st c run lt h = elim (dec_lt (c + 1) n) [
    | yes less ↦ less
    | no ge ↦
        let q : c + 1 ≡ n = omega arith in
        absurd (no_fit st (omega arith) (subst (FreeRun p st) q run))
  ]

  -- A round that counts one more frame goes on to the next round.
  round_on :
      (fuel inner f c st d : ℕ)
      → f < p.nframes
      → skip inner p f c ≡ ok (st + d, d)
      → get_state p (st + d) ≡ free
      → st + d < p.nframes
      → d < n
      → FreeRun p st d
      → (d + 1 < n)
        × (search_frames (suc fuel) inner p n (f, c)
            ≡ search_frames fuel inner p n (st + (d + 1), d + 1))
  round_on fuel inner f c st d lt e at inside less run =
      let more = count_below st d (FreeRun-suc p st d run at) less inside in
      let shift : st + d + 1 ≡ st + (d + 1) = omega arith in
      (
        more,
        search_frames_step fuel inner p n f c (st + d) d lt e at (omega arith) (omega arith)
            ∙ rw (ne→== (d + 1) n (omega arith), shift),
      )

  search_frames_end :
      (fuel inner st c : ℕ)
      → get_state p (p.nframes - 1) ≡ free
      → p.nframes < inner
      → p.nframes < st + c + fuel
      → st + c ≤ p.nframes
      → c < n
      → FreeRun p st c
      → (f : ℕ) × (d : ℕ) × (search_frames fuel inner p n (st + c, c) ≡ ok (f, d)) × (d < n)
  search_frames_end zero inner st c last hi hf inside less run = absurd (omega arith)
  search_frames_end (suc fuel) inner st c last hi hf inside less run =
      elim (dec_lt (st + c) p.nframes) [
        | no ge ↦
            (st + c, c, unfold search_frames in rw (le→ltb (st + c) p.nframes (omega arith)), less)
        | yes lt ↦ elim (state_cases (get_state p (st + c))) [
          | inl here ↦
              let (more, e) =
                round_on fuel inner (st + c) c st c lt
                  (skip_here inner p (st + c) c (omega arith) here) here lt less run in
              let (f, d, r, small) =
                search_frames_end fuel inner st (c + 1) last hi (omega arith) (omega arith) more
                  (FreeRun-suc p st c run here) in
              (f, d, e ∙ r, small)
          | inr away ↦
              let (g, d, r, lo, up, at, moved) =
                skip_stops inner p (st + c) c (p.nframes - 1) (omega arith) (omega arith)
                  (omega arith) last in
              let reset : d ≡ 0 = reset_of p moved at away in
              let here : g + 0 ≡ g = omega arith in
              let (more, e) =
                round_on fuel inner (st + c) c g 0 lt (rw (here, ← reset) r) (rw here at)
                  (omega arith) (omega arith) (λ i a b. absurd (omega arith)) in
              let (f, d', r', small) =
                search_frames_end fuel inner g 1 last hi (omega arith) (omega arith) more
                  (λ i a b. let q : i ≡ g = omega arith in rw q at) in
              (f, d', e ∙ r', small)
        ]
      ]

-- In a valid pool with at least `n > 0` free frames but no `n` of them in a row, and whose last
-- frame is free, `get_frames` returns 0 and changes nothing. Fuel above the pool's size is
-- enough.
pub get_frames-NoFit :
    {p : Pool} {n : ℕ} (fuel : ℕ)
    → IsValid p
    → 0 < n
    → n ≤ p.n_free_frames
    → NoFit p n
    → get_state p (p.nframes - 1) ≡ free
    → p.nframes < fuel
    → get_frames fuel p n ≡ ok (0, p)
unfolding get_frames
get_frames-NoFit {p} {n} fuel v pos enough no_fit last h =
    let (f, d, r, small) =
      search_frames_end p n (omega (arith, v.small)) no_fit fuel fuel 0 0 last h (omega arith)
        (omega arith) pos (λ i a b. absurd (omega arith)) in
    rw (le→leb n p.n_free_frames enough, r, ne→== d n (omega arith))

-- Whatever the states, `skip` stops at a free frame within its fuel or needs more.
skip_result :
    (fuel : ℕ) (p : Pool) (f c : ℕ)
    → f + fuel < word_mod
    → (skip fuel p f c ≡ out_of_fuel)
      ⊎ ((g : ℕ) × (d : ℕ) × (skip fuel p f c ≡ ok (g, d))
          × (f ≤ g)
          × (g < f + fuel)
          × (get_state p g ≡ free)
          × (((g ≡ f) × (d ≡ c)) ⊎ (d ≡ 0)))
skip_result zero p f c h = inl (unfold skip in refl)
skip_result (suc fuel) p f c h = elim (state_cases (get_state p f)) [
  | inl here ↦ inr (
    f,
    c,
    skip_here (suc fuel) p f c (omega arith) here,
    omega arith,
    omega arith,
    here,
    inl (refl, refl),
  )
  | inr t ↦ elim (skip_result fuel p (f + 1) 0 (omega arith)) [
    | inl more ↦ inl (skip-taken fuel p f c t (omega arith) ∙ more)
    | inr (g, d, r, lo, hi, at, moved) ↦ inr (
      g,
      d,
      skip-taken fuel p f c t (omega arith) ∙ r,
      omega arith,
      omega arith,
      at,
      inr (ground arith),
    )
  ]
]

module _ (p : Pool) (n inner : ℕ) (bound : p.nframes ≤ frame_limit) (no_fit : NoFit p n)
    (away : (g : ℕ) → p.nframes ≤ g + 1 → g < p.nframes + inner → get_state p g ≢ free)
    (room : p.nframes + inner < word_mod) where
  -- A free frame within reach is not the pool's last one, nor behind it.
  before_last : (g : ℕ) → g < p.nframes + inner → get_state p g ≡ free → g + 1 < p.nframes
  before_last g h e = elim (dec_lt (g + 1) p.nframes) [
    | yes lt ↦ lt
    | no ge ↦ absurd (away g (omega arith) h e)
  ]

  search_frames_overruns :
      (fuel st c : ℕ)
      → st + c < p.nframes
      → c < n
      → FreeRun p st c
      → search_frames fuel inner p n (st + c, c) ≡ out_of_fuel
  search_frames_overruns zero st c h less run = unfold search_frames in refl
  search_frames_overruns (suc fuel) st c h less run =
      elim (skip_result inner p (st + c) c (omega arith)) [
        | inl more ↦ unfold search_frames in rw (lt→ltb (st + c) p.nframes h, more)
        | inr (g, d, r, lo, hi, at, inl (eg, ed)) ↦
            let at' : get_state p (st + c) ≡ free = rw (← eg) at in
            let inside = before_last (st + c) (omega arith) at' in
            let (more, e) =
              round_on p n bound no_fit fuel inner (st + c) c st c h
                (r ∙ ap₂ (λ a b. ok (a, b)) eg ed) at' h less run in
            e
            ∙ search_frames_overruns fuel st (c + 1) (omega arith) more (FreeRun-suc p st c run at')
        | inr (g, d, r, lo, hi, at, inr ed) ↦
            let here : g + 0 ≡ g = omega arith in
            let inside = before_last g (omega arith) at in
            let (more, e) =
              round_on p n bound no_fit fuel inner (st + c) c g 0 h (rw (here, ← ed) r) (rw here at)
                (omega arith) (omega arith) (λ i a b. absurd (omega arith)) in
            e
            ∙ search_frames_overruns fuel g 1 (omega arith) more
                (λ i a b. let q : i ≡ g = omega arith in rw q at)
      ]

-- In a valid, non-empty pool with at least `n > 0` free frames but no `n` of them in a row, and
-- whose last frame is not free, `get_frames` does not stop at the end of the pool: on any fuel
-- that keeps the frame numbers below 2^32, it has not returned while the states that it reads
-- behind the pool are not free.
pub get_frames_overruns :
    {p : Pool} {n : ℕ} (fuel : ℕ)
    → IsValid p
    → 0 < n
    → n ≤ p.n_free_frames
    → 0 < p.nframes
    → NoFit p n
    → ((g : ℕ) → p.nframes ≤ g + 1 → g < p.nframes + fuel → get_state p g ≢ free)
    → p.nframes + fuel < word_mod
    → get_frames fuel p n ≡ out_of_fuel
unfolding get_frames
get_frames_overruns {p} {n} fuel v pos enough some_frame no_fit away room = rw (
  le→leb n p.n_free_frames enough,
  search_frames_overruns p n fuel (omega (arith, v.small)) no_fit away room fuel 0 0 some_frame pos
      (λ i a b. absurd (omega arith)),
)
