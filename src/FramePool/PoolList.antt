-- ===== src/FramePool/PoolList.antt =====
-- `ContFramePool::release_frames` on the list of all pools.
use demand_paged_virtual_mem.Common.{
  ℕ, ◌≡◌, refl, true, false, List, [], ◌∷◌, ◌++◌, Run, ok, assert_failed, out_of_fuel, faulted, All,
  ◌>>=◌, ◌+◌, ◌<◌, ◌≤◌, ◌≢◌, ◌⊎◌, inl, inr, arith, word_mod,
}
use demand_paged_virtual_mem.FramePool.{
  FrameState, free, used, hos, Pool, get_state, release_in, release_frames, owns,
}
use demand_paged_virtual_mem.FramePool.Count.{IsValid}
use demand_paged_virtual_mem.FramePool.Sections.{Section, Released}
use demand_paged_virtual_mem.FramePool.Release.{release_in_lem, release_in-not_head}

-- If no pool of the list before `p` owns the frame and `p` does, `release_frames` releases it in
-- `p` and leaves the other pools as they are.
pub release_frames-owner :
    (before after : List Pool) (p : Pool) (first : ℕ)
    → All (λ o. owns o first ≡ false) before
    → owns p first ≡ true
    → release_frames (before ++ p ∷ after) first
      ≡ (release_in p first >>= λ q. ok (before ++ q ∷ after))
unfolding release_frames
release_frames-owner [] after p first none_before is = rw is refl
release_frames-owner (o ∷ before) after p first none_before is =
    rw (none_before.0, release_frames-owner before after p first none_before.1 is)
      (bind_assoc (release_in p first))
  where
    bind_assoc :
        (m : Run Pool)
        → (m >>= (λ q. ok (before ++ q ∷ after)) >>= λ qs. ok (o ∷ qs))
          ≡ (m >>= λ q. ok (o ∷ before ++ q ∷ after))
    bind_assoc (ok q) = refl
    bind_assoc assert_failed = refl
    bind_assoc out_of_fuel = refl
    bind_assoc (faulted a) = refl

-- If no pool of the list owns the frame, `release_frames` fails its assertion.
pub release_frames-no_owner :
    (pools : List Pool) (first : ℕ)
    → All (λ o. owns o first ≡ false) pools
    → release_frames pools first ≡ assert_failed
unfolding release_frames
release_frames-no_owner [] first h = refl
release_frames-no_owner (o ∷ pools) first h = rw (h.0, release_frames-no_owner pools first h.1)

-- The frame is in no frame of the pool, whose frames' numbers are below 2^32.
abbrev pub Elsewhere : ℕ → Pool → Type 0
Elsewhere first o =
    (o.base_frame_no + o.nframes < word_mod)
    × ((first < o.base_frame_no) ⊎ (o.base_frame_no + o.nframes ≤ first))

owns-Elsewhere : (o : Pool) (first : ℕ) → Elsewhere first o → owns o first ≡ false
owns-Elsewhere o first out = ground (arith, out)

none_owns :
    (before : List Pool) (first : ℕ)
    → All (Elsewhere first) before
    → All (λ o. owns o first ≡ false) before
none_owns [] first out = tt
none_owns (o ∷ before) first out = (owns-Elsewhere o first out.0, none_owns before first out.1)

hos_or_not : (state : FrameState) → (state ≡ hos) ⊎ (state ≢ hos)
hos_or_not free = inr (λ e. ground arith)
hos_or_not used = inr (λ e. ground arith)
hos_or_not hos = inl refl

module _ (before after : List Pool) (p : Pool) (v : IsValid p) (s : ℕ) (inside : s < p.nframes)
    (out : All (Elsewhere (p.base_frame_no + s)) before) where
  owned : owns p (p.base_frame_no + s) ≡ true
  owned = ground (arith, v.small)

  -- In a list of pools, for a frame of a valid pool that lies in none of the pools before it,
  -- whose frames have numbers below 2^32: at a head of section, `release_frames` frees exactly
  -- that section, raises this pool's counter by its length, leaves it valid, and leaves the other
  -- pools as they are; at any other frame it fails its assertion.
  pub release_frames_lem :
      ((get_state p s ≡ hos)
        × ((e : ℕ) × (q : Pool) × Section p s e
            × (release_frames (before ++ p ∷ after) (p.base_frame_no + s)
                ≡ ok (before ++ q ∷ after))
            × Released p s e q
            × IsValid q))
      ⊎ ((get_state p s ≢ hos)
          × (release_frames (before ++ p ∷ after) (p.base_frame_no + s) ≡ assert_failed))
  release_frames_lem =
      let found =
        release_frames-owner before after p (p.base_frame_no + s)
          (none_owns before (p.base_frame_no + s) out) owned in
      elim (hos_or_not (get_state p s)) [
        | inl head ↦
            let (e, q, c, run, released, valid) = release_in_lem v s inside head in
            inl (head, (e, q, c, rw (found, run) refl, released, valid))
        | inr other ↦ inr (other, rw (found, release_in-not_head v s inside other) refl)
      ]
