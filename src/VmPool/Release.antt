-- ===== src/VmPool/Release.antt =====
-- `VMPool::release`: one allocated region becomes free, its pages given back one by one.
use demand_paged_virtual_mem.Common.{
  ℕ, zero, suc, ◌+◌, ◌-◌, ◌*◌, ◌/◌, ◌%◌, ◌≤◌, ◌<◌, ◌≡◌, ◌≢◌, refl, ◌∙◌, sym, List, [], ◌∷◌, ◌++◌,
  length, All, arith, Run, ok, word_mod, ap, length-append, add32, eq→==, ne→==, lt→ltb,
}
use demand_paged_virtual_mem.VmPool.{
  VmPool, page_size, find_start, put_entry, shift_up, rounds_from, release, free_pages,
}
use demand_paged_virtual_mem.VmPool.Tables.{
  Table, Table-Positive, Table-ext, Table-cons, Table-words, find_end-Table, put_entry-Table,
  shift_up-Table, shift_up-below,
}
use demand_paged_virtual_mem.VmPool.Regions.{cover-append}
use demand_paged_virtual_mem.VmPool.Allocate.{IsValid, alloc_ends}

find_start-stop :
    (k : ℕ) (a : ℕ → ℕ) (start i : ℕ) → a i ≡ start → find_start (suc k) a start i ≡ ok i
unfolding find_start
find_start-stop k a start i e = rw (eq→== (a i) start e)

find_start-next :
    (k : ℕ) (a : ℕ → ℕ) (start i : ℕ)
    → a i ≢ start
    → i + 2 < 1023
    → find_start (suc k) a start i ≡ find_start k a start (i + 2)
unfolding find_start
find_start-next k a start i ne h = rw (ne→== (a i) start ne, lt→ltb (i + 2) 1023 h)

module _ (start l : ℕ) (after : List (ℕ × ℕ)) where
  -- The search finds the first region with the start.
  find_start-Table :
      (k n : ℕ) (a : ℕ → ℕ) (i : ℕ) (before : List (ℕ × ℕ))
      → i + 2 * n ≡ 1024
      → n ≤ k
      → length before < n
      → All (λ r. r.0 ≢ start) before
      → Table a i n (before ++ (start, l) ∷ after)
      → (find_start k a start i ≡ ok (i + 2 * length before))
        × (a (i + 2 * length before) ≡ start)
        × (a (i + 2 * length before + 1) ≡ l)
  find_start-Table zero n a i before e fuel few other t = absurd (omega arith)
  find_start-Table (suc k) zero a i before e fuel few other t = absurd (omega arith)
  find_start-Table (suc k) (suc n) a i [] e fuel few other t =
      let w = Table-words a i n start l after t in
      let here : i + 2 * 0 ≡ i = omega arith in rw here (find_start-stop k a start i w.0, w.0, w.1)
  find_start-Table (suc k) (suc n) a i ((s', l') ∷ before) e fuel few other t =
      let w = Table-words a i n s' l' (before ++ (start, l) ∷ after) t in
      let there : i + 2 * suc (length before) ≡ i + 2 + 2 * length before = omega arith in
      let (found, p, q) =
        find_start-Table k n a (i + 2) before (omega arith) (omega arith) (omega arith) other.1
          w.3 in
      rw there
        (find_start-next k a start i (λ e. other.0 (sym w.0 ∙ e)) (omega arith) ∙ found, p, q)

  -- Its entry is dropped and the entries behind it move up.
  drop-Table :
      (n : ℕ) (a : ℕ → ℕ) (i iter : ℕ) (before : List (ℕ × ℕ))
      → iter ≡ i + 2 * length before
      → i + 2 * n ≡ 1024
      → length (before ++ (start, l) ∷ after) < n
      → Table a i n (before ++ (start, l) ∷ after)
      → Table
          (shift_up (rounds_from (iter + 2)) (put_entry a iter 0 0) (iter + 2))
          i
          n
          (before ++ after)
  drop-Table zero a i iter before at e few t = absurd (omega arith)
  drop-Table (suc n) a i iter [] at e few t =
      let w = Table-words a i n start l after t in
      let here : iter ≡ i = omega arith in
      let rounds : rounds_from (i + 2) ≡ n = omega arith in
      rw (here, rounds)
        (shift_up-Table n (put_entry a i 0 0) i after (omega arith) (omega arith)
          (Table-ext (i + 2) n after (λ j h. ground arith) w.3))
  drop-Table (suc n) a i iter ((s', l') ∷ before) at e few t =
      let w = Table-words a i n s' l' (before ++ (start, l) ∷ after) t in
      let k = rounds_from (iter + 2) in
      Table-cons (shift_up k (put_entry a iter 0 0) (iter + 2)) i n s' l' (before ++ after)
        (shift_up-below k (put_entry a iter 0 0) iter i (omega arith) ∙ ground (arith, w.0))
        (shift_up-below k (put_entry a iter 0 0) iter (i + 1) (omega arith) ∙ ground (arith, w.1))
        w.2 (drop-Table n a (i + 2) iter before (omega arith) (omega arith) (omega arith) w.3)

All-middle {ℓ κ} :
    {A : Type ℓ} (P : A → Type κ) (xs ys : List A) (x : A) → All P (xs ++ x ∷ ys) → P x
All-middle P [] ys x h = h.0
All-middle P (y ∷ xs) ys x h = All-middle P xs ys x h.1

module _ {p : VmPool} (before after : List (ℕ × ℕ)) {fs : List (ℕ × ℕ)} (start l : ℕ)
    (v : IsValid p (before ++ (start, l) ∷ after) fs) (first : All (λ r. r.0 ≢ start) before)
    (aligned : (start % page_size ≡ 0) × (l % page_size ≡ 0)) (room : length fs ≤ 510) where
  -- In a valid pool with at most 510 free regions, `release` of the first allocated region with
  -- the given start, start and length in whole pages, gives its pages back in order; if the page
  -- table takes them all, the region becomes the last free one, the other regions stay, and the
  -- pool stays valid.
  pub release_lem :
      {S : Type 0} (free_page : ℕ → S → Run S) (s s' : S)
      → free_pages free_page (l / page_size) start s ≡ ok s'
      → (q : VmPool) × (release free_page p start s ≡ ok (s', q))
        × IsValid q (before ++ after) (fs ++ (start, l) ∷ [])
  release_lem free_page s s' pages =
      let few = v.alloc_few in
      let sum = length-append before ((start, l) ∷ after) in
      let sum' = length-append before after in
      let ends = All-middle (λ r. r.0 + r.1 < word_mod) before after (start, l) (alloc_ends v) in
      let (found, p0, p1) =
        find_start-Table start l after 513 512 p.alloc_list 0 before refl (omega arith)
          (omega arith) first v.alloc in
      let last =
        find_end-Table 513 512 p.free_list 0 fs v.free (omega arith) (omega arith) (omega arith) in
      let positive =
        All-middle (λ r. 0 < r.1) before after (start, l)
          (Table-Positive p.alloc_list 0 512 (before ++ (start, l) ∷ after) v.alloc) in
      let iter = 0 + 2 * length before in
      let rounds : (add32 start l - start) / page_size ≡ l / page_size =
        ap (λ k. k / page_size) (omega arith) in
      (
        record p {
          alloc_list =
              shift_up (rounds_from (iter + 2)) (put_entry p.alloc_list iter 0 0) (iter + 2);
          free_list = put_entry p.free_list (0 + 2 * length fs) start l;
        },
        unfold release in
            rw (
              found,
              p0,
              p1,
              eq→== (start % page_size) 0 aligned.0,
              eq→== (l % page_size) 0 aligned.1,
              rounds,
              pages,
              last,
            ),
        record {
          alloc =
              drop-Table start l after 512 p.alloc_list 0 iter before refl refl (omega arith)
                v.alloc;
          free =
              put_entry-Table p.free_list 0 512 fs start l (0 + 2 * length fs) refl (omega arith)
                positive v.free;
          alloc_few = omega arith;
          free_few = omega (arith, length-append fs ((start, l) ∷ []));
          exact = λ x. omega (
            arith,
            v.exact x,
            cover-append x fs ((start, l) ∷ []),
            cover-append x before ((start, l) ∷ after),
            cover-append x before after,
          );
          small = v.small;
        },
      )
