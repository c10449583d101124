-- ===== src/VmPool/Construct.antt =====
-- The constructor of `VMPool`, and `is_legitimate` as a question about the allocated regions.
use demand_paged_virtual_mem.Common.{
  ℕ, zero, suc, ◌+◌, ◌-◌, ◌*◌, ◌≤◌, ◌<◌, ◌≡◌, refl, ◌∙◌, ◌&&◌, ◌||◌, List, [], ◌∷◌, All, arith, ltb,
  leb, word_mod, add32, sub32, update,
}
use demand_paged_virtual_mem.VmPool.{
  VmPool, page_size, round_up, clear_from, new_vm_pool, in_entries, is_legitimate,
}
use demand_paged_virtual_mem.VmPool.Tables.{Table, Table-cons, Table-blank, Table-end}
use demand_paged_virtual_mem.VmPool.Regions.{cover}
use demand_paged_virtual_mem.VmPool.Allocate.{IsValid, alloc_ends, round_up_lem}

clear_from-below : (k : ℕ) (a : ℕ → ℕ) (i j : ℕ) → j < i → clear_from k a i j ≡ a j
unfolding clear_from
clear_from-below zero a i j h = refl
clear_from-below (suc k) a i j h =
    clear_from-below k (update (update a i 0) (i + 1) 0) (i + 2) j (omega arith) ∙ ground arith

clear_from-zero : (a : ℕ → ℕ) (i : ℕ) → clear_from 0 a i ≡ a
unfolding clear_from
clear_from-zero a i = refl

clear_from-suc :
    (k : ℕ) (a : ℕ → ℕ) (i : ℕ)
    → clear_from (suc k) a i ≡ clear_from k (update (update a i 0) (i + 1) 0) (i + 2)
unfolding clear_from
clear_from-suc k a i = refl

clear_from-Table : (k : ℕ) (a : ℕ → ℕ) (i : ℕ) → Table (clear_from k a i) i k []
clear_from-Table zero a i = Table-end (clear_from zero a i) i
clear_from-Table (suc k) a i =
    let b = update (update a i 0) (i + 1) 0 in
    rw (clear_from-suc k a i) (
      Table-blank (clear_from k b (i + 2)) i k
        (clear_from-below k b (i + 2) i (omega arith) ∙ ground arith)
        (clear_from-below k b (i + 2) (i + 1) (omega arith) ∙ ground arith)
        (clear_from-Table k b (i + 2)))

-- The words of the two tables that the constructor writes first.
abbrev first_alloc : (ℕ → ℕ) → ℕ → ℕ → ℕ
first_alloc alloc base =
    update (update (update (update alloc 0 base) 1 page_size) 2 (add32 base page_size)) 3 page_size

abbrev first_free : (ℕ → ℕ) → ℕ → ℕ → ℕ → ℕ
first_free free base size =
    update (update free 0 (add32 base (2 * page_size))) 1 (sub32 size (2 * page_size))

-- A new pool's tables in terms of `clear_from`.
new_vm_pool-tables :
    (alloc free : ℕ → ℕ) (base wanted : ℕ)
    → ((new_vm_pool alloc free base wanted).alloc_list ≡ clear_from 510 (first_alloc alloc base) 4)
      × ((new_vm_pool alloc free base wanted).free_list
          ≡ clear_from 511 (first_free free base (round_up wanted)) 2)
unfolding new_vm_pool
new_vm_pool-tables alloc free base wanted = (refl, refl)

clear_from-one :
    (k : ℕ) (a : ℕ → ℕ) (s l : ℕ)
    → a 0 ≡ s
    → a 1 ≡ l
    → 0 < l
    → Table (clear_from k a 2) 0 (suc k) ((s, l) ∷ [])
clear_from-one k a s l p q pos =
    Table-cons (clear_from k a 2) 0 k s l [] (clear_from-below k a 2 0 (omega arith) ∙ p)
      (clear_from-below k a 2 1 (omega arith) ∙ q) pos (clear_from-Table k a 2)

clear_from-two :
    (k : ℕ) (a : ℕ → ℕ) (s l s' l' : ℕ)
    → (a 0 ≡ s) × (a 1 ≡ l) × (0 < l)
    → (a 2 ≡ s') × (a 3 ≡ l') × (0 < l')
    → Table (clear_from k a 4) 0 (suc (suc k)) ((s, l) ∷ (s', l') ∷ [])
clear_from-two k a s l s' l' e e' =
    Table-cons (clear_from k a 4) 0 (suc k) s l ((s', l') ∷ [])
      (clear_from-below k a 4 0 (omega arith) ∙ e.0) (clear_from-below k a 4 1 (omega arith) ∙ e.1)
      e.2
      (Table-cons (clear_from k a 4) 2 k s' l' [] (clear_from-below k a 4 2 (omega arith) ∙ e'.0)
        (clear_from-below k a 4 3 (omega arith) ∙ e'.1) e'.2 (clear_from-Table k a 4))

-- A new pool of more than two pages that ends a page before 2^32 is valid: its two table pages
-- are allocated, and the rest, in whole pages, is one free region.
pub new_vm_pool-IsValid :
    (alloc free : ℕ → ℕ) (base wanted : ℕ)
    → 2 * page_size < wanted
    → base + wanted + page_size < word_mod
    → IsValid
        (new_vm_pool alloc free base wanted)
        ((base, page_size) ∷ (base + page_size, page_size) ∷ [])
        ((base + 2 * page_size, round_up wanted - 2 * page_size) ∷ [])
new_vm_pool-IsValid alloc free base wanted big small =
    let rounded = round_up_lem wanted (omega arith) in
    let tables = new_vm_pool-tables alloc free base wanted in
    let second : add32 base page_size ≡ base + page_size = omega arith in
    let third : add32 base (2 * page_size) ≡ base + 2 * page_size = omega arith in
    let left : sub32 (round_up wanted) (2 * page_size) ≡ round_up wanted - 2 * page_size =
      omega (arith, rounded) in
    record {
      alloc = rw (tables.0) (
          clear_from-two 510 (first_alloc alloc base) base page_size (base + page_size) page_size
            (refl, refl, omega arith) (second, refl, omega arith));
      free = rw (tables.1) (
          clear_from-one 511 (first_free free base (round_up wanted)) (base + 2 * page_size)
            (round_up wanted - 2 * page_size) third left (omega (arith, rounded)));
      alloc_few = omega arith;
      free_few = omega arith;
      exact = λ x. unfold new_vm_pool in ground (arith, rounded);
      small = unfold new_vm_pool in omega (arith, rounded);
    }

-- The loop over the entries looks for a region that holds the address.
in_entries-Table :
    (n : ℕ) (a : ℕ → ℕ) (x i : ℕ) (rs : List (ℕ × ℕ))
    → Table a i n rs
    → All (λ r. r.0 + r.1 < word_mod) rs
    → in_entries n a x i ≡ ltb 0 (cover x rs)
unfolding in_entries Table
in_entries-Table zero a x i [] t h = ground arith
in_entries-Table zero a x i (r ∷ rs) t h = absurd (ground arith)
in_entries-Table (suc n) a x i [] t h =
    rw (t.0, t.1, in_entries-Table n a x (i + 2) [] t.2 tt) (ground arith)
in_entries-Table (suc n) a x i ((s, l) ∷ rs) t h =
    let sum : add32 s l ≡ s + l = omega (arith, h.0) in
    rw (t.0, t.1, sum, in_entries-Table n a x (i + 2) rs t.3 h.1) (ground arith)

-- In a valid pool of at least two pages, an address is legitimate exactly if it lies in one of
-- the two table pages or in an allocated region.
pub is_legitimate_lem :
    {p : VmPool} {taken fs : List (ℕ × ℕ)}
    → IsValid p taken fs
    → 2 * page_size ≤ p.size
    → (x : ℕ)
    → is_legitimate p x
      ≡ ((leb p.base_address x && ltb x (p.base_address + 2 * page_size)) || ltb 0 (cover x taken))
unfolding is_legitimate
is_legitimate_lem {p} {taken} v pages x =
    let one : add32 p.base_address page_size ≡ p.base_address + page_size =
      omega (arith, v.small) in
    let two : add32 (p.base_address + page_size) page_size ≡ p.base_address + 2 * page_size =
      omega (arith, v.small) in
    rw (one, two, in_entries-Table 512 p.alloc_list x 0 taken v.alloc (alloc_ends v)) (ground arith)
