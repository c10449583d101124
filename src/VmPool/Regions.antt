-- ===== src/VmPool/Regions.antt =====
-- What the pool promises, on lists of regions: which addresses they cover, and first fit.
use demand_paged_virtual_mem.Common.{ltb→le}
use demand_paged_virtual_mem.Common.{inr, ltb→lt}
use demand_paged_virtual_mem.Common.{inl, ◌⊎◌}
use demand_paged_virtual_mem.Common.{
  ℕ, ◌+◌, ◌-◌, ◌≤◌, ◌<◌, ◌≡◌, refl, ◌&&◌, if◌then◌else◌, List, [], ◌∷◌, ◌++◌, length, All, arith,
  ltb, leb, Option, none, some, dec_lt, ap, Bool-cases,
}

-- 1 if the region of `l` bytes at `s` holds the address, and 0 if not.
abbrev pub holds : ℕ → ℕ → ℕ → ℕ
holds x s l = if leb s x && ltb x (s + l) then 1 else 0

-- How many of the regions hold the address.
abbrev pub cover : ℕ → List (ℕ × ℕ) → ℕ
cover x [] = 0
cover x ((s, l) ∷ rs) = holds x s l + cover x rs

pub cover-append : (x : ℕ) (rs ts : List (ℕ × ℕ)) → cover x (rs ++ ts) ≡ cover x rs + cover x ts
cover-append x [] ts = omega arith
cover-append x ((s, l) ∷ rs) ts = omega (arith, cover-append x rs ts)

-- A region kept in front of what a search behind it leaves.
abbrev keep : ℕ × ℕ → Option (ℕ × List (ℕ × ℕ)) → Option (ℕ × List (ℕ × ℕ))
keep r none = none
keep r (some (t, left)) = some (t, r ∷ left)

-- First fit: the start of the first region of at least `size` bytes, and the regions left when
-- `size` bytes are cut from its front.
unfoldable pub take_region : ℕ → List (ℕ × ℕ) → Option (ℕ × List (ℕ × ℕ))
take_region size [] = none
take_region size ((s, l) ∷ rs) =
    if ltb l size
    then keep (s, l) (take_region size rs)
    else some (s, if ltb size l then (s + size, l - size) ∷ rs else rs)

keep_inv :
    (r : ℕ × ℕ) (o : Option (ℕ × List (ℕ × ℕ))) (t : ℕ) (left : List (ℕ × ℕ))
    → keep r o ≡ some (t, left)
    → (left' : List (ℕ × ℕ)) × (o ≡ some (t, left')) × (left ≡ r ∷ left')
keep_inv r none t left e = absurd (ground arith)
keep_inv r (some (t', left')) t left e = (left', ground arith, ground arith)

-- The first region is too small, or it is the one that is cut.
pub take_region_cases :
    (size s l : ℕ) (rs : List (ℕ × ℕ)) (t : ℕ) (left : List (ℕ × ℕ))
    → take_region size ((s, l) ∷ rs) ≡ some (t, left)
    → ((l < size)
        × (left' : List (ℕ × ℕ)) × (take_region size rs ≡ some (t, left'))
        × (left ≡ (s, l) ∷ left'))
      ⊎ ((size ≤ l) × (t ≡ s) × (left ≡ (if ltb size l then (s + size, l - size) ∷ rs else rs)))
unfolding take_region
take_region_cases size s l rs t left e = elim (Bool-cases (ltb l size)) [
  | inl small ↦
      let (left', q, r) = keep_inv (s, l) (take_region size rs) t left (ground (arith, e, small)) in
      inl (ltb→lt l size small, left', q, r)
  | inr big ↦ inr (ltb→le l size big, ground (arith, e, big), ground (arith, e, big))
]

keep-none : (r : ℕ × ℕ) (o : Option (ℕ × List (ℕ × ℕ))) → keep r o ≡ none → o ≡ none
keep-none r none e = refl
keep-none r (some o) e = absurd (ground arith)

pub take_region-none :
    (size s l : ℕ) (rs : List (ℕ × ℕ))
    → take_region size ((s, l) ∷ rs) ≡ none
    → take_region size rs ≡ none
unfolding take_region
take_region-none size s l rs e = keep-none (s, l) (take_region size rs) (ground arith)

-- The cut region and the regions left cover what the regions covered.
pub cover-take_region :
    (size : ℕ) (rs : List (ℕ × ℕ)) (t : ℕ) (left : List (ℕ × ℕ)) (x : ℕ)
    → take_region size rs ≡ some (t, left)
    → cover x rs ≡ holds x t size + cover x left
cover-take_region size [] t left x e = absurd (unfold take_region in ground arith)
cover-take_region size ((s, l) ∷ rs) t left x e = elim (take_region_cases size s l rs t left e) [
  | inl (small, left', q, r) ↦ omega (arith, cover-take_region size rs t left' x q, ap (cover x) r)
  | inr (big, q, r) ↦ ground (arith, ap (cover x) r)
]

-- Regions with at least one byte.
abbrev pub Positive : List (ℕ × ℕ) → Type 0
Positive rs = All (λ r. 0 < r.1) rs

-- Regions that cover nothing from `limit` on end there.
pub ends_of_cover :
    (limit : ℕ) (rs : List (ℕ × ℕ))
    → Positive rs
    → ((x : ℕ) → limit ≤ x → cover x rs ≡ 0)
    → All (λ r. r.0 + r.1 ≤ limit) rs
ends_of_cover limit [] pos h = tt
ends_of_cover limit ((s, l) ∷ rs) pos h = (
  elim (dec_lt limit (s + l)) [
    | yes over ↦ absurd (last over (h (s + l - 1) (omega (arith, pos.0))))
    | no fine ↦ omega arith
  ],
  ends_of_cover limit rs pos.1 (λ x le. omega (arith, h x le)),
)
  where
    last : limit < s + l → ¬ (cover (s + l - 1) ((s, l) ∷ rs) ≡ 0)
    last over e = ground (arith, pos.0)

-- No cut makes a longer list.
pub length-take_region :
    (size : ℕ) (rs : List (ℕ × ℕ)) (t : ℕ) (left : List (ℕ × ℕ))
    → take_region size rs ≡ some (t, left)
    → length left ≤ length rs
length-take_region size [] t left e = absurd (unfold take_region in ground arith)
length-take_region size ((s, l) ∷ rs) t left e = elim (take_region_cases size s l rs t left e) [
  | inl (small, left', q, r) ↦ omega (arith, length-take_region size rs t left' q, ap length r)
  | inr (big, q, r) ↦ ground (arith, ap length r)
]
