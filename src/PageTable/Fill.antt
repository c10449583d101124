-- ===== src/PageTable/Fill.antt =====
-- The loop of `handle_fault` over a new page table, seen in physical memory.
use demand_paged_virtual_mem.Common.{
  ℕ, zero, suc, ◌+◌, ◌*◌, ◌%◌, ◌≤◌, ◌<◌, ◌≡◌, ◌≢◌, refl, ◌∙◌, sym, subst, ◌⊎◌, inl, arith, update,
  add32, ok, dec_lt, ap, some, eq→==, ne→==, bit_or, ◌^◌,
}
use demand_paged_virtual_mem.PageTable.{Paging, Translation, entry_of, write_word, fill_table}
use demand_paged_virtual_mem.PageTable.Mmu.{IsMmu, SelfMapped, frame_of, entry_of_lem, view_table}

-- The table of frame `n` filled from entry `i` on: the entries are absent, but for the last one,
-- which maps the table itself. All else is as before.
pub record Filled (n i : ℕ) (m m' : ℕ → ℕ) : Type 0 where
  pub outside : (q : ℕ) → (q < n * 4096 + 4 * i) ⊎ (n * 4096 + 4096 ≤ q) → m' q ≡ m q
  pub inside : (j : ℕ) → i ≤ j → j < 1023 → m' (n * 4096 + 4 * j) ≡ 6
  pub last : i ≤ 1023 → m' (n * 4096 + 4092) ≡ n * 4096 + 7

pub write_word-some :
    {S : Type 0} (translate : Translation) (address word physical : ℕ) (st : Paging S)
    → translate st.memory st.cr3 address ≡ some physical
    → write_word translate address word st
      ≡ ok (record st { memory = update st.memory physical word })
unfolding write_word
write_word-some translate address word physical st e = rw (e, write_word) refl

pub SelfMapped-ext :
    (m m' : ℕ → ℕ) (cr3 : ℕ)
    → m' (cr3 + 4092) ≡ m (cr3 + 4092)
    → SelfMapped m cr3
    → SelfMapped m' cr3
SelfMapped-ext m m' cr3 same s = record {
  aligned = s.aligned;
  self = ap frame_of same ∙ s.self;
  self_present = ap (λ z. z % 2) same ∙ s.self_present;
}

pub update-other : (m : ℕ → ℕ) (p w q : ℕ) → p ≢ q → update m p w q ≡ m q
update-other m p w q ne = rw (ne→== p q ne) refl

pub update-same : (m : ℕ → ℕ) (p w : ℕ) → update m p w p ≡ w
update-same m p w = rw (eq→== p p refl) refl

Filled-next :
    (n i : ℕ) (m m' : ℕ → ℕ)
    → i < 1023
    → Filled n (i + 1) (update m (n * 4096 + 4 * i) 6) m'
    → Filled n i m m'
Filled-next n i m m' lt f =
    let p = n * 4096 + 4 * i in
    record {
      outside =
          λ q out. f.outside q (ground (arith, out)) ∙ update-other m p 6 q (ground (arith, out));
      inside = λ j lo hi. elim (dec_lt i j) [
        | yes far ↦ f.inside j (omega arith) hi
        | no near ↦
            ap (λ z. m' (n * 4096 + 4 * z)) (omega arith)
            ∙ f.outside p (inl (omega arith))
            ∙ update-same m p 6
      ];
      last = λ lo. f.last (omega arith);
    }

Filled-final :
    (n : ℕ) (m m' : ℕ → ℕ)
    → Filled n 1024 (update (update m (n * 4096 + 4092) 6) (n * 4096 + 4092) (n * 4096 + 7)) m'
    → Filled n 1023 m m'
Filled-final n m m' f =
    let p = n * 4096 + 4092 in
    record {
      outside = λ q out.
          f.outside q (ground (arith, out))
          ∙ update-other (update m p 6) p (n * 4096 + 7) q (ground (arith, out))
          ∙ update-other m p 6 q (ground (arith, out));
      inside = λ j lo hi. absurd (omega arith);
      last = λ lo. f.outside p (inl (omega arith)) ∙ update-same (update m p 6) p (n * 4096 + 7);
    }

module _ {S : Type 0} {translate : Translation} (mmu : IsMmu translate) (n x cr3 : ℕ)
    (frame : n < 2 ^ 20) (small : x < 1023) (apart : n * 4096 ≢ cr3) where
  -- One entry of the table, written through the recursive mapping.
  write_entry :
      (st : Paging S) (address i word : ℕ)
      → st.cr3 ≡ cr3
      → SelfMapped st.memory cr3
      → st.memory (cr3 + x * 4) ≡ n * 4096 + 7
      → address ≡ 4290772992 + x * 4096 + 4 * i
      → i < 1024
      → (write_word translate address word st
          ≡ ok (record st { memory = update st.memory (n * 4096 + 4 * i) word }))
        × SelfMapped (update st.memory (n * 4096 + 4 * i) word) cr3
        × (update st.memory (n * 4096 + 4 * i) word (cr3 + x * 4) ≡ n * 4096 + 7)
  write_entry st address i word here s entry at lt =
      let aligned = s.aligned in
      let seen =
        view_table mmu st.memory cr3 s address x (4 * i) at (omega arith) (omega arith)
          (ap (λ z. z % 2) entry ∙ omega arith) in
      let base : frame_of (st.memory (cr3 + x * 4)) ≡ n * 4096 = ap frame_of entry ∙ omega arith in
      (
        write_word-some translate address word (n * 4096 + 4 * i) st
            (ap (λ c. translate st.memory c address) here ∙ seen ∙ ap (λ z. some (z + 4 * i)) base),
        SelfMapped-ext st.memory (update st.memory (n * 4096 + 4 * i) word) cr3
            (update-other st.memory (n * 4096 + 4 * i) word (cr3 + 4092) (omega arith)) s,
        update-other st.memory (n * 4096 + 4 * i) word (cr3 + x * 4) (omega arith) ∙ entry,
      )

  fill_table-next :
      (k i address : ℕ) (st st1 : Paging S)
      → i ≢ 1023
      → write_word translate address (bit_or 2 4) st ≡ ok st1
      → fill_table translate n (suc k) i address st
        ≡ fill_table translate n k (i + 1) (add32 address 4) st1
  unfolding fill_table
  fill_table-next k i address st st1 more one = rw (one, ne→== i 1023 more) refl

  fill_table-final :
      (k i address : ℕ) (st st1 st2 : Paging S)
      → i ≡ 1023
      → write_word translate address (bit_or 2 4) st ≡ ok st1
      → write_word translate address (entry_of n 7) st1 ≡ ok st2
      → fill_table translate n (suc k) i address st
        ≡ fill_table translate n k (i + 1) (add32 address 4) st2
  unfolding fill_table
  fill_table-final k i address st st1 st2 final one two = rw (one, eq→== i 1023 final, two) refl

  pub fill_table_lem :
      (k i address : ℕ) (st : Paging S)
      → i + k ≡ 1024
      → st.cr3 ≡ cr3
      → SelfMapped st.memory cr3
      → st.memory (cr3 + x * 4) ≡ n * 4096 + 7
      → address ≡ 4290772992 + x * 4096 + 4 * i
      → (m' : ℕ → ℕ) × (fill_table translate n k i address st ≡ ok (record st { memory = m' }))
        × Filled n i st.memory m'
  fill_table_lem zero i address st sum here s entry at = (
    st.memory,
    unfold fill_table in refl,
    record {
      outside = λ q out. refl;
      inside = λ j lo hi. absurd (omega arith);
      last = λ lo. absurd (omega arith);
    },
  )
  fill_table_lem (suc k) i address st sum here s entry at =
      let p = n * 4096 + 4 * i in
      let (one, s1, e1) = write_entry st address i 6 here s entry at (omega arith) in
      let st1 = record st { memory = update st.memory p 6 } in
      let flags : bit_or 2 4 ≡ 6 = refl in
      elim (dec_lt i 1023) [
        | no final ↦
            let w = n * 4096 + 7 in
            let (two, s2, e2) = write_entry st1 address i w here s1 e1 at (omega arith) in
            let st2 = record st { memory = update (update st.memory p 6) p w } in
            let (m', run, f) =
              fill_table_lem k (i + 1) (add32 address 4) st2 (omega arith) here s2 e2
                (omega arith) in
            let last : i ≡ 1023 = omega arith in
            (
              m',
              fill_table-final k i address st st1 st2 last one (
                    ap (λ z. write_word translate address z st1)
                      (entry_of_lem n 7 frame (omega arith))
                    ∙ two)
                  ∙ run,
              subst (λ z. Filled n z st.memory m') (sym last)
                  (Filled-final n st.memory m' (
                    subst
                      (λ z.
                        Filled n (z + 1)
                          (update (update st.memory (n * 4096 + 4 * z) 6) (n * 4096 + 4 * z) w) m')
                      last f)),
            )
        | yes more ↦
            let (m', run, f) =
              fill_table_lem k (i + 1) (add32 address 4) st1 (omega arith) here s1 e1
                (omega arith) in
            (
              m',
              fill_table-next k i address st st1 (omega arith) one ∙ run,
              Filled-next n i st.memory m' more f,
            )
      ]
