-- ===== src/FramePool/OneFrame.antt =====
-- `ContFramePool::get_frames` for a single frame, as the page table calls it.
use demand_paged_virtual_mem.Common.{
  ℕ, zero, suc, ◌+◌, ◌<◌, ◌≡◌, ◌≢◌, refl, ◌∙◌, sym, ◌⊎◌, inl, inr, arith, ok, assert_failed, dec_lt,
  ap,
}
use demand_paged_virtual_mem.FramePool.{free, Pool, get_state, get_frames}
use demand_paged_virtual_mem.FramePool.Search.{FirstFit}
use demand_paged_virtual_mem.FramePool.Count.{IsValid, weight, count_free}
use demand_paged_virtual_mem.FramePool.Allocate.{Allocated, get_frames_first_fit}

is_free : (p : Pool) (k : ℕ) → 0 < weight (get_state p k) → get_state p k ≡ free
is_free p k pos = ground arith

count_free-suc : (p : Pool) (k : ℕ) → count_free p (suc k) ≡ count_free p k + weight (get_state p k)
unfolding count_free
count_free-suc p k = refl

none_free : (p : Pool) (j : ℕ) → count_free p j ≡ 0 → (t : ℕ) → t < j → get_state p t ≢ free
none_free p zero e t lt is = absurd (omega arith)
none_free p (suc j) e t lt is = elim (dec_lt t j) [
  | yes below ↦ none_free p j (omega (arith, count_free-suc p j)) t below is
  | no last ↦
      let here : t ≡ j = omega arith in
      let one : weight (get_state p j) ≡ 1 =
        ap (λ z. weight (get_state p z)) (sym here) ∙ ap weight is in
      absurd (omega (arith, count_free-suc p j))
]

-- A pool with a free frame has a first one.
first_free :
    (p : Pool) (k : ℕ)
    → 0 < count_free p k
    → (s : ℕ) × (s < k) × (get_state p s ≡ free) × ((t : ℕ) → t < s → get_state p t ≢ free)
first_free p zero pos = absurd (unfold count_free in omega arith)
first_free p (suc k) pos = elim (dec_lt 0 (count_free p k)) [
  | yes more ↦ let (s, lt, is, least) = first_free p k more in (s, omega arith, is, least)
  | no none_below ↦
      (k, omega arith, is_free p k (omega (arith, count_free-suc p k)), none_free p k (omega arith))
]

module _ {p : Pool} (v : IsValid p) (fuel : ℕ) (enough : p.nframes < fuel) where
  pub first_free-FirstFit : 0 < p.n_free_frames → (s : ℕ) × FirstFit p 1 s
  first_free-FirstFit pos =
      let (s, lt, is, least) = first_free p p.nframes (omega (arith, v.counted)) in
      (
        s,
        record {
          fits = omega arith;
          run = λ i lo hi. ap (get_state p) (omega arith) ∙ is;
          least = λ t below run. least t below (run t (omega arith) (omega arith));
        },
      )

  -- In a valid pool, with more fuel than the pool has frames, `get_frames` of one frame always
  -- ends: with the first free frame taken and a valid pool left, or, if the counter is 0, in the
  -- failed assertion.
  pub get_frames_one :
      ((p.n_free_frames ≡ 0) × (get_frames fuel p 1 ≡ assert_failed))
      ⊎ ((s : ℕ) × (q : Pool) × FirstFit p 1 s
          × (get_frames fuel p 1 ≡ ok (p.base_frame_no + s, q))
          × Allocated p 1 s q
          × IsValid q)
  get_frames_one = elim (dec_lt 0 p.n_free_frames) [
    | yes pos ↦
        let (s, fit) = first_free-FirstFit pos in
        let (q, got, a, valid) = get_frames_first_fit v (omega arith) fit fuel enough in
        inr (s, q, fit, got, a, valid)
    | no empty ↦
        let none_left : p.n_free_frames ≡ 0 = omega arith in
        inl (none_left, unfold get_frames in rw none_left refl)
  ]
