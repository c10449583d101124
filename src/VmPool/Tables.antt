-- ===== src/VmPool/Tables.antt =====
-- A table of entries as the list of its regions.
use demand_paged_virtual_mem.Common.{All}
use demand_paged_virtual_mem.Common.{
  ℕ, zero, suc, ◌+◌, ◌-◌, ◌*◌, ◌≤◌, ◌<◌, ◌≡◌, refl, ◌∙◌, List, [], ◌∷◌, ◌++◌, length, arith, update,
  ok, dec_lt, lt→ltb, lt→leb, le→leb, ne→==, ap,
}
use demand_paged_virtual_mem.VmPool.{find_end, shift_up, put_entry}

-- The `n` entries from word `i` on are the regions of the list, and then zeros.
unfoldable pub Table : (ℕ → ℕ) → ℕ → ℕ → List (ℕ × ℕ) → Type 0
Table a i zero rs = rs ≡ []
Table a i (suc n) [] = (a i ≡ 0) × (a (i + 1) ≡ 0) × Table a (i + 2) n []
Table a i (suc n) ((s, l) ∷ rs) = (a i ≡ s) × (a (i + 1) ≡ l) × (0 < l) × Table a (i + 2) n rs

-- A table is no more than its words.
pub Table-ext :
    {a b : ℕ → ℕ} (i n : ℕ) (rs : List (ℕ × ℕ))
    → ((j : ℕ) → i ≤ j → b j ≡ a j)
    → Table a i n rs
    → Table b i n rs
unfolding Table
Table-ext i zero rs same t = t
Table-ext i (suc n) [] same t = (
  same i (omega arith) ∙ t.0,
  same (i + 1) (omega arith) ∙ t.1,
  Table-ext (i + 2) n [] (λ j h. same j (omega arith)) t.2,
)
Table-ext i (suc n) ((s, l) ∷ rs) same t = (
  same i (omega arith) ∙ t.0,
  same (i + 1) (omega arith) ∙ t.1,
  t.2,
  Table-ext (i + 2) n rs (λ j h. same j (omega arith)) t.3,
)

-- The entry at `i` overwritten by the next one.
abbrev moved : (ℕ → ℕ) → ℕ → ℕ → ℕ
moved a i = update (update a i (a (i + 2))) (i + 1) (a (i + 3))

abbrev cleared : (ℕ → ℕ) → ℕ → ℕ → ℕ
cleared a i = update (update (moved a i) (i + 2) 0) (i + 3) 0

shift_up-more :
    (k : ℕ) (a : ℕ → ℕ) (i : ℕ)
    → i + 4 < 1023
    → shift_up (suc k) a (i + 2) ≡ shift_up k (moved a i) (i + 2 + 2)
unfolding shift_up
shift_up-more k a i h =
    let one : i + 2 - 2 ≡ i = omega arith in
    let two : i + 2 - 1 ≡ i + 1 = omega arith in
    let three : i + 2 + 1 ≡ i + 3 = omega arith in
    rw (lt→leb 1023 (i + 2 + 2) (omega arith), one, two, three)

shift_up-last :
    (k : ℕ) (a : ℕ → ℕ) (i : ℕ)
    → 1023 ≤ i + 4
    → shift_up (suc k) a (i + 2) ≡ shift_up k (cleared a i) (i + 2 + 2)
unfolding shift_up
shift_up-last k a i h =
    let one : i + 2 - 2 ≡ i = omega arith in
    let two : i + 2 - 1 ≡ i + 1 = omega arith in
    let three : i + 2 + 1 ≡ i + 3 = omega arith in
    rw (le→leb 1023 (i + 2 + 2) (omega arith), one, two, three)

shift_up-zero : (a : ℕ → ℕ) (i : ℕ) → shift_up 0 a i ≡ a
unfolding shift_up
shift_up-zero a i = refl

-- `shift_up` leaves all words before the entry that it overwrites first.
pub shift_up-below : (k : ℕ) (a : ℕ → ℕ) (i j : ℕ) → j < i → shift_up k a (i + 2) j ≡ a j
shift_up-below zero a i j h = ap (λ (b : ℕ → ℕ). b j) (shift_up-zero a (i + 2))
shift_up-below (suc k) a i j h = elim (dec_lt (i + 4) 1023) [
  | yes more ↦
      ap (λ (b : ℕ → ℕ). b j) (shift_up-more k a i more)
      ∙ shift_up-below k (moved a i) (i + 2) j (omega arith)
      ∙ ground arith
  | no last ↦
      ap (λ (b : ℕ → ℕ). b j) (shift_up-last k a i (omega arith))
      ∙ shift_up-below k (cleared a i) (i + 2) j (omega arith)
      ∙ ground arith
]

abbrev pub rest_of : List (ℕ × ℕ) → List (ℕ × ℕ)
rest_of [] = []
rest_of (r ∷ rs) = rs

-- The first entry's words, and a table behind them, make a table.
pub Table-rest :
    (a : ℕ → ℕ) (i n : ℕ) (rs : List (ℕ × ℕ))
    → Table a i (suc n) rs
    → Table a (i + 2) n (rest_of rs)
unfolding Table
Table-rest a i n [] t = t.2
Table-rest a i n (r ∷ rs) t = t.3

pub Table-front :
    (a b : ℕ → ℕ) (i j m n : ℕ) (rs : List (ℕ × ℕ))
    → Table a i (suc m) rs
    → b j ≡ a i
    → b (j + 1) ≡ a (i + 1)
    → Table b (j + 2) n (rest_of rs)
    → Table b j (suc n) rs
unfolding Table
Table-front a b i j m n [] t p q u = (p ∙ t.0, q ∙ t.1, u)
Table-front a b i j m n ((s, l) ∷ rs) t p q u = (p ∙ t.0, q ∙ t.1, t.2, u)

pub Table-end : (a : ℕ → ℕ) (i : ℕ) → Table a i 0 []
unfolding Table
Table-end a i = refl

pub Table-blank :
    (a : ℕ → ℕ) (i n : ℕ) → a i ≡ 0 → a (i + 1) ≡ 0 → Table a (i + 2) n [] → Table a i (suc n) []
unfolding Table
Table-blank a i n p q t = (p, q, t)

length-rest_of-lt :
    (k : ℕ) (rs : List (ℕ × ℕ)) → length rs < suc (suc k) → length (rest_of rs) < suc k
length-rest_of-lt k [] h = omega arith
length-rest_of-lt k (r ∷ rs) h = omega arith

pub Table-cons :
    (a : ℕ → ℕ) (i n s l : ℕ) (rs : List (ℕ × ℕ))
    → a i ≡ s
    → a (i + 1) ≡ l
    → 0 < l
    → Table a (i + 2) n rs
    → Table a i (suc n) ((s, l) ∷ rs)
unfolding Table
Table-cons a i n s l rs p q pos t = (p, q, pos, t)

pub Table-words :
    (a : ℕ → ℕ) (i n s l : ℕ) (rs : List (ℕ × ℕ))
    → Table a i (suc n) ((s, l) ∷ rs)
    → (a i ≡ s) × (a (i + 1) ≡ l) × (0 < l) × Table a (i + 2) n rs
unfolding Table
Table-words a i n s l rs t = t

-- With the last entry unused, `shift_up` drops the entry before the table's rest.
pub shift_up-Table :
    (k : ℕ) (a : ℕ → ℕ) (i : ℕ) (rs : List (ℕ × ℕ))
    → i + 2 + 2 * k ≡ 1024
    → length rs < k
    → Table a (i + 2) k rs
    → Table (shift_up k a (i + 2)) i (suc k) rs
shift_up-Table zero a i rs e few t = absurd (omega arith)
shift_up-Table (suc zero) a i [] e few t =
    rw (shift_up-last 0 a i (omega arith), shift_up-zero (cleared a i) (i + 2 + 2))
      (Table-blank (cleared a i) i 1 (ground (arith, blank.0)) (ground (arith, blank.1, three)) (
        Table-blank (cleared a i) (i + 2) 0 (ground arith) (ground arith)
          (Table-end (cleared a i) (i + 2 + 2))))
  where
    blank : (a (i + 2) ≡ 0) × (a (i + 2 + 1) ≡ 0)
    blank = unfold Table in (t.0, t.1)

    three : a (i + 3) ≡ a (i + 2 + 1)
    three = ap a (omega arith)
shift_up-Table (suc zero) a i (r ∷ rs) e few t = absurd (omega arith)
shift_up-Table (suc (suc k)) a i rs e few t =
    let three : i + 3 ≡ i + 2 + 1 = omega arith in
    let after : Table (moved a i) (i + 2 + 2) (suc k) (rest_of rs) =
      Table-ext (i + 2 + 2) (suc k) (rest_of rs) (λ j h. ground arith)
        (Table-rest a (i + 2) (suc k) rs t) in
    let tail =
      shift_up-Table (suc k) (moved a i) (i + 2) (rest_of rs) (omega arith)
        (length-rest_of-lt k rs few) after in
    let b = shift_up (suc k) (moved a i) (i + 2 + 2) in
    rw (shift_up-more (suc k) a i (omega arith)) (
      Table-front a b (i + 2) i (suc k) (suc (suc k)) rs t
        (shift_up-below (suc k) (moved a i) (i + 2) i (omega arith) ∙ ground arith)
        (shift_up-below (suc k) (moved a i) (i + 2) (i + 1) (omega arith)
          ∙ ground (arith, ap a three))
        tail)

-- An entry written at `e`, behind the last region.
pub put_entry-Table :
    (a : ℕ → ℕ) (i n : ℕ) (rs : List (ℕ × ℕ)) (s l e : ℕ)
    → e ≡ i + 2 * length rs
    → length rs < n
    → 0 < l
    → Table a i n rs
    → Table (put_entry a e s l) i n (rs ++ (s, l) ∷ [])
unfolding Table
put_entry-Table a i zero rs s l e q few pos t = absurd (omega arith)
put_entry-Table a i (suc n) [] s l e q few pos t =
    (ground arith, ground arith, pos, Table-ext (i + 2) n [] (λ j h. ground arith) t.2)
put_entry-Table a i (suc n) ((s', l') ∷ rs) s l e q few pos t = (
  ground arith,
  ground arith,
  t.2,
  put_entry-Table a (i + 2) n rs s l e (omega arith) (omega arith) pos t.3,
)

find_end-stop : (k : ℕ) (a : ℕ → ℕ) (i : ℕ) → a (i + 1) ≡ 0 → find_end (suc k) a i ≡ ok i
unfolding find_end
find_end-stop k a i e = rw e

find_end-next :
    (k : ℕ) (a : ℕ → ℕ) (i : ℕ)
    → 0 < a (i + 1)
    → i + 2 < 1021
    → find_end (suc k) a i ≡ find_end k a (i + 2)
unfolding find_end
find_end-next k a i e h = rw (ne→== (a (i + 1)) 0 (omega arith), lt→ltb (i + 2) 1021 h)

-- The search for the end stops at the first unused entry, if that is not among the last two.
pub find_end-Table :
    (k n : ℕ) (a : ℕ → ℕ) (i : ℕ) (rs : List (ℕ × ℕ))
    → Table a i n rs
    → length rs < k
    → length rs < n
    → i + 2 * length rs < 1021
    → find_end k a i ≡ ok (i + 2 * length rs)
unfolding Table
find_end-Table zero n a i rs t hk hn h = absurd (omega arith)
find_end-Table (suc k) zero a i rs t hk hn h = absurd (omega arith)
find_end-Table (suc k) (suc n) a i [] t hk hn h =
    find_end-stop k a i t.1 ∙ ap (λ j. ok j) (omega arith)
find_end-Table (suc k) (suc n) a i ((s, l) ∷ rs) t hk hn h =
    find_end-next k a i (omega (arith, t.1, t.2)) (omega arith)
    ∙ find_end-Table k n a (i + 2) rs t.3 (omega arith) (omega arith) (omega arith)
    ∙ ap (λ j. ok j) (omega arith)

pub Table-Positive :
    (a : ℕ → ℕ) (i n : ℕ) (rs : List (ℕ × ℕ)) → Table a i n rs → All (λ r. 0 < r.1) rs
unfolding Table
Table-Positive a i n [] t = tt
Table-Positive a i zero (r ∷ rs) t = absurd (ground arith)
Table-Positive a i (suc n) ((s, l) ∷ rs) t = (t.2, Table-Positive a (i + 2) n rs t.3)
