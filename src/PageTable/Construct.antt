-- ===== src/PageTable/Construct.antt =====
-- The constructor of `PageTable`: the first 4 MB map to themselves, and the directory maps itself.
use demand_paged_virtual_mem.Common.{
  ℕ, zero, suc, ◌+◌, ◌*◌, ◌%◌, ◌≤◌, ◌<◌, ◌≡◌, ◌≢◌, refl, ◌==◌, ◌∙◌, sym, ◌⊎◌, inl, inr,
  if◌then◌else◌, arith, update, mul32, ok, dec_lt, ap, none, some, ne→==, Bool-cases, bit_or, ◌^◌,
}
use demand_paged_virtual_mem.PageTable.{
  FrameSource, Paging, Translation, entry_of, map_identity, fill_directory, new_page_table,
}
use demand_paged_virtual_mem.PageTable.Addresses.{directory_index, table_index, offset}
use demand_paged_virtual_mem.PageTable.Mmu.{IsMmu, frame_of, pde, pte, entry_of_lem}
use demand_paged_virtual_mem.PageTable.Fill.{update-other, update-same}
use demand_paged_virtual_mem.PageTable.Fault.{IsPaging}

map_identity-outside :
    (k table pno : ℕ) (m : ℕ → ℕ) (q : ℕ)
    → (q < table + 4 * pno) ⊎ (table + 4 * (pno + k) ≤ q)
    → map_identity k table pno m q ≡ m q
unfolding map_identity
map_identity-outside zero table pno m q out = refl
map_identity-outside (suc k) table pno m q out =
    map_identity-outside k table (pno + 1) (update m (table + 4 * pno) (entry_of pno 3)) q
      (ground (arith, out))
    ∙ update-other m (table + 4 * pno) (entry_of pno 3) q (ground (arith, out))

map_identity-inside :
    (k table pno : ℕ) (m : ℕ → ℕ) (j : ℕ)
    → pno ≤ j
    → j < pno + k
    → map_identity k table pno m (table + 4 * j) ≡ entry_of j 3
unfolding map_identity
map_identity-inside zero table pno m j lo hi = absurd (omega arith)
map_identity-inside (suc k) table pno m j lo hi = elim (dec_lt pno j) [
  | yes far ↦
      map_identity-inside k table (pno + 1) (update m (table + 4 * pno) (entry_of pno 3)) j
        (omega arith) (omega arith)
  | no near ↦
      let here : j ≡ pno = omega arith in
      map_identity-outside k table (pno + 1) (update m (table + 4 * pno) (entry_of pno 3))
        (table + 4 * j) (inl (omega arith))
      ∙ ap (λ z. update m (table + 4 * pno) (entry_of pno 3) (table + 4 * z)) here
      ∙ update-same m (table + 4 * pno) (entry_of pno 3)
      ∙ ap (λ z. entry_of z 3) (sym here)
]

-- What a round of `fill_directory` leaves in its entry.
abbrev directory_word : ℕ → ℕ → ℕ
directory_word frame pdno = if pdno == 1023 then entry_of frame 3 else 2

fill_directory-suc :
    (k frame directory pdno : ℕ) (m : ℕ → ℕ)
    → (m' : ℕ → ℕ) × (fill_directory (suc k) frame directory pdno m
        ≡ fill_directory k frame directory (pdno + 1) m')
      × (m' (directory + 4 * pdno) ≡ directory_word frame pdno)
      × ((q : ℕ) → directory + 4 * pdno ≢ q → m' q ≡ m q)
unfolding fill_directory
fill_directory-suc k frame directory pdno m =
    let p = directory + 4 * pdno in
    elim (Bool-cases (pdno == 1023)) [
      | inl e ↦ (
        update (update m p 2) p (entry_of frame 3),
        rw e refl,
        rw e (update-same (update m p 2) p (entry_of frame 3)),
        λ q ne. update-other (update m p 2) p (entry_of frame 3) q ne ∙ update-other m p 2 q ne,
      )
      | inr e ↦ (update m p 2, rw e refl, rw e (update-same m p 2), λ q ne. update-other m p 2 q ne)
    ]

fill_directory-outside :
    (k frame directory pdno : ℕ) (m : ℕ → ℕ) (q : ℕ)
    → (q < directory + 4 * pdno) ⊎ (directory + 4 * (pdno + k) ≤ q)
    → fill_directory k frame directory pdno m q ≡ m q
fill_directory-outside zero frame directory pdno m q out = unfold fill_directory in refl
fill_directory-outside (suc k) frame directory pdno m q out =
    let (m', step, here, same) = fill_directory-suc k frame directory pdno m in
    ap (λ (f : ℕ → ℕ). f q) step
    ∙ fill_directory-outside k frame directory (pdno + 1) m' q (ground (arith, out))
    ∙ same q (ground (arith, out))

fill_directory-inside :
    (k frame directory pdno : ℕ) (m : ℕ → ℕ) (j : ℕ)
    → pdno ≤ j
    → j < pdno + k
    → fill_directory k frame directory pdno m (directory + 4 * j) ≡ directory_word frame j
fill_directory-inside zero frame directory pdno m j lo hi = absurd (omega arith)
fill_directory-inside (suc k) frame directory pdno m j lo hi =
    let (m', step, here, same) = fill_directory-suc k frame directory pdno m in
    ap (λ (f : ℕ → ℕ). f (directory + 4 * j)) step ∙ elim (dec_lt pdno j) [
      | yes far ↦
          fill_directory-inside k frame directory (pdno + 1) m' j (omega arith) (omega arith)
      | no near ↦
          let at : j ≡ pdno = omega arith in
          fill_directory-outside k frame directory (pdno + 1) m' (directory + 4 * j)
            (inl (omega arith))
          ∙ ap (λ z. m' (directory + 4 * z)) at
          ∙ here
          ∙ ap (directory_word frame) (sym at)
    ]

-- The words that the constructor leaves.
pub record Built (d t : ℕ) (m : ℕ → ℕ) : Type 0 where
  pub first : m (d * 4096 + 0 * 4) ≡ t * 4096 + 3
  pub middle : (i : ℕ) → 0 < i → i < 1023 → m (d * 4096 + i * 4) ≡ 2
  pub last : m (d * 4096 + 4092) ≡ d * 4096 + 3
  pub identity : (j : ℕ) → j < 1024 → m (t * 4096 + j * 4) ≡ j * 4096 + 3

built : ℕ → ℕ → (ℕ → ℕ) → ℕ → ℕ
built d t m =
    fill_directory 1023 d (d * 4096) 1
      (map_identity 1024 (t * 4096) 0 (update m (d * 4096) (t * 4096 + 3)))

built-Built : (d t : ℕ) (m : ℕ → ℕ) → d < 2 ^ 20 → t < 2 ^ 20 → d ≢ t → Built d t (built d t m)
unfolding built
built-Built d t m small small' ne =
    let m1 = update m (d * 4096) (t * 4096 + 3) in
    let m2 = map_identity 1024 (t * 4096) 0 m1 in
    record {
      first =
          fill_directory-outside 1023 d (d * 4096) 1 m2 (d * 4096 + 0 * 4) (inl (omega arith))
          ∙ map_identity-outside 1024 (t * 4096) 0 m1 (d * 4096 + 0 * 4) (ground arith)
          ∙ ap m1 (omega arith)
          ∙ update-same m (d * 4096) (t * 4096 + 3);
      middle = λ i pos lt.
          ap (fill_directory 1023 d (d * 4096) 1 m2) (omega arith)
          ∙ fill_directory-inside 1023 d (d * 4096) 1 m2 i (omega arith) (omega arith)
          ∙ rw (ne→== i 1023 (omega arith)) refl;
      last =
          ap (fill_directory 1023 d (d * 4096) 1 m2) (omega arith)
          ∙ fill_directory-inside 1023 d (d * 4096) 1 m2 1023 (omega arith) (omega arith)
          ∙ entry_of_lem d 3 small (omega arith);
      identity = λ j lt.
          fill_directory-outside 1023 d (d * 4096) 1 m2 (t * 4096 + j * 4) (ground (arith, ne))
          ∙ ap m2 (omega arith)
          ∙ map_identity-inside 1024 (t * 4096) 0 m1 j (omega arith) (omega arith)
          ∙ entry_of_lem j 3 (omega arith) (omega arith);
    }

module _ {translate : Translation} (mmu : IsMmu translate) (d t : ℕ) (m : ℕ → ℕ)
    (small : d < 2 ^ 20) (small' : t < 2 ^ 20) (ne : d ≢ t) (b : Built d t m) where
  pub word_cases :
      (i : ℕ)
      → i < 1023
      → m (d * 4096 + i * 4) % 2 ≡ 1
      → (i ≡ 0) × (frame_of (m (d * 4096 + i * 4)) ≡ t * 4096)
  word_cases zero lt odd = (refl, ap frame_of b.first ∙ omega arith)
  word_cases (suc i) lt odd = absurd (omega (arith, b.middle (suc i) (omega arith) lt))

  pub Built-IsPaging : IsPaging m (d * 4096)
  Built-IsPaging = record {
    self_mapped = record {
      aligned = omega arith;
      self = ap frame_of b.last ∙ omega arith;
      self_present = ap (λ z. z % 2) b.last ∙ omega arith;
    };
    apart = λ i lt odd e. ne (omega (arith, word_cases i lt odd));
    distinct = λ i j lt lt' odd odd' e. (word_cases i lt odd).0 ∙ sym (word_cases j lt' odd').0;
  }

  Built-identity : (a : ℕ) → a < 4194304 → translate m (d * 4096) a ≡ some a
  Built-identity a low =
      let low_table : directory_index a ≡ 0 = omega arith in
      let word : pde m (d * 4096) a ≡ t * 4096 + 3 =
        ap (λ z. m (d * 4096 + z * 4)) low_table ∙ b.first in
      let entry : pte m (d * 4096) a ≡ table_index a * 4096 + 3 =
        ap m (omega (arith, word)) ∙ b.identity (table_index a) (omega arith) in
      let back : frame_of (pte m (d * 4096) a) + offset a ≡ a = omega (arith, entry) in
      mmu.present m (d * 4096) a (omega arith) (omega arith) (ap (λ z. z % 2) word ∙ omega arith)
        (ap (λ z. z % 2) entry ∙ omega arith)
      ∙ ap (λ z. some z) back

  pub Built-absent : (a : ℕ) → 4194304 ≤ a → a < 4290772992 → translate m (d * 4096) a ≡ none
  Built-absent a lo hi =
      mmu.no_table m (d * 4096) a (omega arith) (omega arith)
        (ap (λ z. z % 2) (b.middle (directory_index a) (omega arith) (omega arith)))

-- The constructor's words, where the pool returns two frames.
pub new_page_table-Built :
    {S : Type 0} (source : FrameSource S) (st : Paging S) (d t : ℕ) (s s' : S)
    → source.get_frame st.frames ≡ ok (d, s)
    → source.get_frame s ≡ ok (t, s')
    → d ≢ 0
    → t ≢ 0
    → d ≢ t
    → d < 2 ^ 20
    → t < 2 ^ 20
    → (m' : ℕ → ℕ) × (new_page_table source st
        ≡ ok (d * 4096, record st { memory = m'; frames = s' }))
      × Built d t m'
unfolding new_page_table
new_page_table-Built source st d t s s' got got' real real' ne small small' =
    let whole : mul32 d 4096 ≡ d * 4096 = omega arith in
    let word : bit_or (mul32 t 4096) 3 ≡ t * 4096 + 3 = entry_of_lem t 3 small' (omega arith) in
    let whole' : mul32 t 4096 ≡ t * 4096 = omega arith in
    (
      built d t st.memory,
      (unfold built in rw (got, ne→== d 0 real, got', ne→== t 0 real', word, whole, whole') refl),
      built-Built d t st.memory small small' ne,
    )

module _ {S : Type 0} (source : FrameSource S) {translate : Translation} (mmu : IsMmu translate)
    (st : Paging S) (d t : ℕ) (s s' : S) where
  -- When the pool returns two different frames below 2^20 other than 0, the constructor leaves a
  -- directory that satisfies the invariant of the paging structures once it is loaded: each
  -- address of the first 4 MB translates to itself, and each address from there up to the last 4
  -- MB is not present. The processor's walk is a parameter with the documented behaviour of two-
  -- level paging.
  pub new_page_table-IsPaging :
      source.get_frame st.frames ≡ ok (d, s)
      → source.get_frame s ≡ ok (t, s')
      → d ≢ 0
      → t ≢ 0
      → d ≢ t
      → d < 2 ^ 20
      → t < 2 ^ 20
      → (m' : ℕ → ℕ) × (new_page_table source st
          ≡ ok (d * 4096, record st { memory = m'; frames = s' }))
        × IsPaging m' (d * 4096)
        × ((a : ℕ) → a < 4194304 → translate m' (d * 4096) a ≡ some a)
        × ((a : ℕ) → 4194304 ≤ a → a < 4290772992 → translate m' (d * 4096) a ≡ none)
  new_page_table-IsPaging got got' real real' ne small small' =
      let (m', run, b) =
        new_page_table-Built source st d t s s' got got' real real' ne small small' in
      (
        m',
        run,
        Built-IsPaging mmu d t m' small small' ne b,
        Built-identity mmu d t m' small small' ne b,
        Built-absent mmu d t m' small small' ne b,
      )
