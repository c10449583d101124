-- ===== src/VmPool/Chunks.antt =====
-- The searches and the cut of `allocate` and `release`, on the list of a table's regions.
use demand_paged_virtual_mem.Common.{sym}
use demand_paged_virtual_mem.Common.{
  ℕ, zero, suc, ◌+◌, ◌-◌, ◌*◌, ◌≤◌, ◌<◌, ◌≡◌, ◌∙◌, inl, inr, if◌then◌else◌, List, [], ◌∷◌, length,
  All, arith, ltb, add32, sub32, ok, assert_failed, dec_lt, lt→ltb, le→ltb, word_mod, none, some,
}
use demand_paged_virtual_mem.VmPool.{find_chunk, cut_chunk, rounds_from}
use demand_paged_virtual_mem.VmPool.Tables.{
  Table, rest_of, Table-rest, Table-cons, Table-words, Table-ext, shift_up-Table, shift_up-below,
}
use demand_paged_virtual_mem.VmPool.Regions.{take_region, take_region_cases, take_region-none}

find_chunk-stop :
    (k : ℕ) (a : ℕ → ℕ) (size i : ℕ) → size ≤ a (i + 1) → find_chunk (suc k) a size i ≡ ok i
unfolding find_chunk
find_chunk-stop k a size i h = rw (le→ltb (a (i + 1)) size h)

find_chunk-next :
    (k : ℕ) (a : ℕ → ℕ) (size i : ℕ)
    → a (i + 1) < size
    → i + 2 < 1023
    → find_chunk (suc k) a size i ≡ find_chunk k a size (i + 2)
unfolding find_chunk
find_chunk-next k a size i h lt = rw (lt→ltb (a (i + 1)) size h, lt→ltb (i + 2) 1023 lt)

find_chunk-fail :
    (k : ℕ) (a : ℕ → ℕ) (size i : ℕ)
    → a (i + 1) < size
    → 1023 ≤ i + 2
    → find_chunk (suc k) a size i ≡ assert_failed
unfolding find_chunk
find_chunk-fail k a size i h le = rw (lt→ltb (a (i + 1)) size h, le→ltb (i + 2) 1023 le)

-- The cut leaves the entries before its own alone.
cut_chunk-below : (a : ℕ → ℕ) (iter size j : ℕ) → j < iter → cut_chunk a iter size j ≡ a j
unfolding cut_chunk
cut_chunk-below a iter size j h = ground (arith, shift_up-below (rounds_from (iter + 2)) a iter j h)

-- A cut at the first entry of a table.
cut_chunk-Table :
    (n : ℕ) (a : ℕ → ℕ) (i size s l : ℕ) (rs : List (ℕ × ℕ))
    → i + 2 + 2 * n ≡ 1024
    → length rs < n
    → 0 < size
    → size ≤ l
    → s + l < word_mod
    → Table a i (suc n) ((s, l) ∷ rs)
    → Table (cut_chunk a i size) i (suc n) (if ltb size l then (s + size, l - size) ∷ rs else rs)
cut_chunk-Table n a i size s l rs e few pos le small t = elim (dec_lt size l) [
  | yes part ↦ rw (lt→ltb size l part) (shortened part)
  | no whole ↦ rw (le→ltb size l (omega arith)) (dropped (omega arith))
]
  where
    words : (a i ≡ s) × (a (i + 1) ≡ l) × (0 < l) × Table a (i + 2) n rs
    words = unfold Table in t

    shortened : size < l → Table (cut_chunk a i size) i (suc n) ((s + size, l - size) ∷ rs)
    shortened part =
        let sum : add32 s size ≡ s + size = omega arith in
        let difference : sub32 l size ≡ l - size = omega arith in
        unfold cut_chunk Table in
        rw (words.0, words.1, lt→ltb size l part, sum, difference)
          (
            ground arith,
            ground arith,
            omega arith,
            Table-ext (i + 2) n rs (λ j h. ground arith) words.3,
          )

    dropped : l ≤ size → Table (cut_chunk a i size) i (suc n) rs
    dropped whole =
        let rounds : rounds_from (i + 2) ≡ n = omega arith in
        unfold cut_chunk in
        rw (words.1, le→ltb size l whole, rounds) (shift_up-Table n a i rs e few words.3)

-- `allocate`'s search and cut are first fit on the list of free regions.
pub find_chunk-Table :
    (k n : ℕ) (a : ℕ → ℕ) (i size : ℕ) (rs : List (ℕ × ℕ)) (t : ℕ) (left : List (ℕ × ℕ))
    → i + 2 * n ≡ 1024
    → length rs < n
    → n ≤ k
    → 0 < size
    → All (λ r. r.0 + r.1 < word_mod) rs
    → Table a i n rs
    → take_region size rs ≡ some (t, left)
    → (iter : ℕ) × (find_chunk k a size i ≡ ok iter)
      × (i ≤ iter)
      × (a iter ≡ t)
      × Table (cut_chunk a iter size) i n left
find_chunk-Table k zero a i size rs t left e few fuel pos small tab took = absurd (omega arith)
find_chunk-Table zero (suc n) a i size rs t left e few fuel pos small tab took =
    absurd (omega arith)
find_chunk-Table (suc k) (suc n) a i size [] t left e few fuel pos small tab took =
    absurd (unfold take_region in ground arith)
find_chunk-Table (suc k) (suc n) a i size ((s, l) ∷ rs) t left e few fuel pos small tab took =
    elim (take_region_cases size s l rs t left took) [
      | inl (short, left', q, shape) ↦
          let (iter, found, le, start, cut) =
            find_chunk-Table k n a (i + 2) size rs t left' (omega arith) (omega arith) (omega arith)
              pos small.1 words.3 q in
          (
            iter,
            find_chunk-next k a size i (omega (arith, words.1)) (omega arith) ∙ found,
            omega arith,
            start,
            rw shape (
                Table-cons (cut_chunk a iter size) i n s l left'
                  (cut_chunk-below a iter size i (omega arith) ∙ words.0)
                  (cut_chunk-below a iter size (i + 1) (omega arith) ∙ words.1) words.2 cut),
          )
      | inr (fits, q, shape) ↦ (
        i,
        find_chunk-stop k a size i (omega (arith, words.1)),
        omega arith,
        words.0 ∙ sym q,
        rw shape
            (cut_chunk-Table n a i size s l rs (omega arith) (omega arith) pos fits small.0 tab),
      )
    ]
  where
    words : (a i ≡ s) × (a (i + 1) ≡ l) × (0 < l) × Table a (i + 2) n rs
    words = Table-words a i n s l rs tab

short_head :
    (a : ℕ → ℕ) (i n size : ℕ) (rs : List (ℕ × ℕ))
    → 0 < size
    → Table a i (suc n) rs
    → take_region size rs ≡ none
    → a (i + 1) < size
unfolding Table take_region
short_head a i n size [] pos t e = omega (arith, t.1)
short_head a i n size ((s, l) ∷ rs) pos t e = ground (arith, t.1, e)

rest_none :
    (size : ℕ) (rs : List (ℕ × ℕ))
    → take_region size rs ≡ none
    → take_region size (rest_of rs) ≡ none
unfolding take_region
rest_none size [] e = e
rest_none size ((s, l) ∷ rs) e = take_region-none size s l rs e

rest_few : (n : ℕ) (rs : List (ℕ × ℕ)) → length rs ≤ suc (suc n) → length (rest_of rs) ≤ suc n
rest_few n [] h = omega arith
rest_few n (r ∷ rs) h = omega arith

-- Where no region is large enough, the search ends in its assertion.
pub find_chunk-none :
    (k n : ℕ) (a : ℕ → ℕ) (i size : ℕ) (rs : List (ℕ × ℕ))
    → i + 2 * suc n ≡ 1024
    → length rs ≤ suc n
    → suc n ≤ k
    → 0 < size
    → Table a i (suc n) rs
    → take_region size rs ≡ none
    → find_chunk k a size i ≡ assert_failed
find_chunk-none zero n a i size rs e few fuel pos tab took = absurd (omega arith)
find_chunk-none (suc k) zero a i size rs e few fuel pos tab took =
    find_chunk-fail k a size i (short_head a i zero size rs pos tab took) (omega arith)
find_chunk-none (suc k) (suc n) a i size rs e few fuel pos tab took =
    find_chunk-next k a size i (short_head a i (suc n) size rs pos tab took) (omega arith)
    ∙ find_chunk-none k n a (i + 2) size (rest_of rs) (omega arith) (rest_few n rs few)
        (omega arith) pos (Table-rest a i (suc n) rs tab) (rest_none size rs took)
