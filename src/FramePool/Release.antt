-- ===== src/FramePool/Release.antt =====
-- `ContFramePool::release_frames` in the pool that owns the frame: it frees exactly one section, and undoes `get_frames`.
use demand_paged_virtual_mem.Common.{
  ℕ, ◌+◌, ◌-◌, ◌≤◌, ◌<◌, ◌≡◌, ◌≢◌, inl, inr, arith, add32, sub32, ok, assert_failed, dec_lt, ap,
}
use demand_paged_virtual_mem.FramePool.{
  free, used, hos, Pool, get_state, free_rest, release_in, get_frames,
}
use demand_paged_virtual_mem.FramePool.Search.{FirstFit}
use demand_paged_virtual_mem.FramePool.Count.{
  IsValid, Taken, count_free, count_free-Taken, count_free-le,
}
use demand_paged_virtual_mem.FramePool.Allocate.{Allocated, get_frames_first_fit}
use demand_paged_virtual_mem.FramePool.Sections.{
  UsedUpTo, Section, Released, freed, freed-Released, Released-trans, free_rest-Released, used_end,
}

module _ {p : Pool} (v : IsValid p) where
  -- A freed section in a valid pool leaves a valid pool.
  Released-IsValid : {s e : ℕ} {q : Pool} → Section p s e → Released p s e q → IsValid q
  Released-IsValid {s} {e} {q} c r = record {
    bytes = r.bytes;
    counted = omega (
      arith,
      r.counter,
      v.counted,
      r.frames,
      c.tail.start,
      c.tail.inside,
      count_free-Taken p.nframes back,
      ap (count_free q) r.frames,
    );
    headed = λ g lt h h'. ground (
      arith,
      r.states g,
      r.states (g + 1),
      r.frames,
      c.tail.ends,
      λ (q : g + 1 ≡ e). ap (get_state p) q,
      v.headed g (omega (arith, r.frames)),
    );
    first = λ h. ground (arith, r.states 0, v.first);
    small = omega (arith, v.small, r.base, r.frames);
  }
    where
      occupied : (g : ℕ) → s ≤ g → g < s + (e - s) → get_state p g ≢ free
      occupied g lo hi = elim (dec_lt s g) [
        | yes after ↦ λ h. ground (arith, c.tail.used_in g (omega arith) (omega arith))
        | no at ↦ let q : g ≡ s = omega arith in rw q (λ h. ground (arith, c.head))
      ]

      back : Taken q p s (e - s)
      back = record {
        was = λ g lo hi. ground (arith, r.states g);
        now = occupied;
        below = λ g lo. ground (arith, r.states g);
        above = λ g hi. ground (arith, r.states g, c.tail.start);
      }

  release_in-hos :
      (s : ℕ)
      → s < p.nframes
      → get_state p s ≡ hos
      → release_in p (p.base_frame_no + s)
        ≡ ok (free_rest (p.nframes - (s + 1)) (freed p s) (s + 1))
  unfolding release_in freed
  release_in-hos s lt e =
      let here : sub32 (p.base_frame_no + s) p.base_frame_no ≡ s = omega (arith, v.small) in
      let next : sub32 (add32 (p.base_frame_no + s) 1) p.base_frame_no ≡ s + 1 =
        omega (arith, v.small) in
      let rounds : add32 p.base_frame_no p.nframes - add32 (p.base_frame_no + s) 1
          ≡ p.nframes - (s + 1) =
        omega (arith, v.small) in
      rw (here, next, rounds, e)

  -- Releasing a section frees its frames, counts them and leaves all other frames as they are.
  pub release_in-Section :
      (s e : ℕ)
      → s < p.nframes
      → Section p s e
      → (q : Pool) × (release_in p (p.base_frame_no + s) ≡ ok q) × Released p s e q × IsValid q
  release_in-Section s e lt c =
      let few = count_free-le p p.nframes in
      let one = freed-Released p s v.bytes (omega (arith, few, v.counted, v.small)) in
      let rest =
        free_rest-Released (p.nframes - (s + 1)) (freed p s) (s + 1) e one.bytes (tail-freed one)
          (omega (arith, one.frames)) (omega (arith, one.frames, v.small))
          (omega (arith, one.counter, few, v.counted, v.small)) in
      let all = Released-trans (omega arith) c.tail.start one rest in
      (
        free_rest (p.nframes - (s + 1)) (freed p s) (s + 1),
        release_in-hos s lt c.head,
        all,
        Released-IsValid c all,
      )
    where
      tail-freed : Released p s (s + 1) (freed p s) → UsedUpTo (freed p s) (s + 1) e
      tail-freed one = record {
        start = c.tail.start;
        inside = omega (arith, c.tail.inside, one.frames);
        used_in = λ g lo hi. ground (arith, one.states g, c.tail.used_in g lo hi);
        ends = ground (arith, one.states e, one.frames, c.tail.ends, c.tail.start);
      }

  -- At a head of section of a valid pool, `release_in` frees exactly that section, raises the
  -- counter by its length, and leaves a valid pool.
  pub release_in_lem :
      (s : ℕ)
      → s < p.nframes
      → get_state p s ≡ hos
      → (e : ℕ) × (q : Pool) × Section p s e
        × (release_in p (p.base_frame_no + s) ≡ ok q)
        × Released p s e q
        × IsValid q
  release_in_lem s lt h =
      let (e, u) = used_end (p.nframes - (s + 1)) p (s + 1) (omega arith) in
      let c : Section p s e = record { head = h; tail = u } in
      let (q, r, freed, valid) = release_in-Section s e lt c in (e, q, c, r, freed, valid)

  -- At a frame of a valid pool that is not a head of section, `release_in` fails its
  -- assertion.
  pub release_in-not_head :
      (s : ℕ)
      → s < p.nframes
      → get_state p s ≢ hos
      → release_in p (p.base_frame_no + s) ≡ assert_failed
  unfolding release_in
  release_in-not_head s lt h =
      let here : sub32 (p.base_frame_no + s) p.base_frame_no ≡ s = omega (arith, v.small) in
      rw here (ground (arith, h))

module _ {p : Pool} {n s : ℕ} (v : IsValid p) (pos : 0 < n) (fit : FirstFit p n s) where
  Allocated-Section : {q : Pool} → Allocated p n s q → Section q s (s + n)
  Allocated-Section {q} a = record {
    head = ground (arith, a.states s);
    tail = record {
      start = omega arith;
      inside = omega (arith, fit.fits, a.frames);
      used_in = λ g lo hi. ground (arith, a.states g);
      ends = elim (dec_lt (s + n) p.nframes) [
        | yes lt ↦ inr (λ h. next_used lt (ground (arith, a.states (s + n))))
        | no ge ↦ inl (omega (arith, fit.fits, a.frames))
      ];
    };
  }
    where
      next_used : s + n < p.nframes → get_state p (s + n) ≢ used
      next_used lt h =
          let last : s + n - 1 + 1 ≡ s + n = omega arith in
          v.headed (s + n - 1) (omega arith) (rw last h)
            (fit.run (s + n - 1) (omega arith) (omega arith))

  -- Under the conditions of a first fit in a valid pool, releasing what `get_frames` has returned
  -- restores every frame's state and the counter.
  pub release_in-get_frames :
      (fuel : ℕ)
      → p.nframes < fuel
      → (q : Pool) × (r : Pool) × (get_frames fuel p n ≡ ok (p.base_frame_no + s, q))
        × (release_in q (p.base_frame_no + s) ≡ ok r)
        × ((g : ℕ) → get_state r g ≡ get_state p g)
        × (r.n_free_frames ≡ p.n_free_frames)
  release_in-get_frames fuel h =
      let (q, got, a, valid) = get_frames_first_fit v pos fit fuel h in
      let (r, done, rel, _) =
        release_in-Section valid s (s + n) (omega (arith, fit.fits, a.frames))
          (Allocated-Section a) in
      (
        q,
        r,
        got,
        rw (← a.base) done,
        λ g.
            ground
              (arith, rel.states g, a.states g, λ (lo : s ≤ g) (hi : g < s + n). fit.run g lo hi),
        omega (arith, rel.counter, a.counter),
      )
