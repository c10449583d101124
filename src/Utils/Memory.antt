-- ===== src/Utils/Memory.antt =====
-- What the memory functions leave in every word.
use demand_paged_virtual_mem.Common.{
  ℕ, zero, suc, ◌+◌, ◌≤◌, ◌<◌, ◌≡◌, ◌≢◌, refl, ◌∙◌, sym, ◌⊎◌, inl, arith, update, ok, dec_lt, ap,
  eq→==, ne→==,
}
use demand_paged_virtual_mem.Utils.{memcpy, memsetw, strlen_from, strlen, strcpy}

memcpy-suc :
    (dest src k : ℕ) (m : ℕ → ℕ)
    → memcpy dest src (suc k) m ≡ memcpy (dest + 1) (src + 1) k (update m dest (m src))
unfolding memcpy
memcpy-suc dest src k m = refl

-- Words outside the destination stay.
pub memcpy-outside :
    (k dest src : ℕ) (m : ℕ → ℕ) (q : ℕ) → (q < dest) ⊎ (dest + k ≤ q) → memcpy dest src k m q ≡ m q
unfolding memcpy
memcpy-outside zero dest src m q out = refl
memcpy-outside (suc k) dest src m q out =
    memcpy-outside k (dest + 1) (src + 1) (update m dest (m src)) q (ground (arith, out))
    ∙ rw (ne→== dest q (ground (arith, out))) refl

pub memcpy-inside :
    (k dest src : ℕ) (m : ℕ → ℕ) (j : ℕ)
    → (dest ≤ src) ⊎ (src + k ≤ dest)
    → j < k
    → memcpy dest src k m (dest + j) ≡ m (src + j)
memcpy-inside zero dest src m j apart lt = absurd (omega arith)
memcpy-inside (suc k) dest src m zero apart lt =
    let here : dest + 0 ≡ dest = omega arith in
    let there : src + 0 ≡ src = omega arith in
    ap (λ (f : ℕ → ℕ). f (dest + 0)) (memcpy-suc dest src k m)
    ∙ memcpy-outside k (dest + 1) (src + 1) (update m dest (m src)) (dest + 0) (inl (omega arith))
    ∙ rw (eq→== dest (dest + 0) (sym here)) (ap m (sym there))
memcpy-inside (suc k) dest src m (suc j) apart lt =
    let here : dest + suc j ≡ dest + 1 + j = omega arith in
    let there : src + 1 + j ≡ src + suc j = omega arith in
    ap (λ (f : ℕ → ℕ). f (dest + suc j)) (memcpy-suc dest src k m)
    ∙ ap (memcpy (dest + 1) (src + 1) k (update m dest (m src))) here
    ∙ memcpy-inside k (dest + 1) (src + 1) (update m dest (m src)) j (ground (arith, apart))
        (omega arith)
    ∙ rw (ne→== dest (src + 1 + j) (ground (arith, apart))) (ap m there)

pub memsetw-outside :
    (k dest val : ℕ) (m : ℕ → ℕ) (q : ℕ)
    → (q < dest) ⊎ (dest + k ≤ q)
    → memsetw dest val k m q ≡ m q
unfolding memsetw
memsetw-outside zero dest val m q out = refl
memsetw-outside (suc k) dest val m q out =
    memsetw-outside k (dest + 1) val (update m dest val) q (ground (arith, out))
    ∙ rw (ne→== dest q (ground (arith, out))) refl

pub memsetw-inside :
    (k dest val : ℕ) (m : ℕ → ℕ) (q : ℕ) → dest ≤ q → q < dest + k → memsetw dest val k m q ≡ val
unfolding memsetw
memsetw-inside zero dest val m q lo hi = absurd (omega arith)
memsetw-inside (suc k) dest val m q lo hi = elim (dec_lt dest q) [
  | yes far ↦ memsetw-inside k (dest + 1) val (update m dest val) q (omega arith) (omega arith)
  | no near ↦
      memsetw-outside k (dest + 1) val (update m dest val) q (inl (omega arith))
      ∙ rw (eq→== dest q (omega arith)) refl
]

-- A string of `n` characters at an address.
pub record IsString (m : ℕ → ℕ) (str n : ℕ) : Type 0 where
  pub chars : (j : ℕ) → j < n → m (str + j) ≢ 0
  pub terminated : m (str + n) ≡ 0

strlen_from_lem :
    (n fuel : ℕ) (m : ℕ → ℕ) (str len : ℕ)
    → n < fuel
    → IsString m str n
    → strlen_from fuel m str len ≡ ok (len + n)
strlen_from_lem n zero m str len enough s = absurd (omega arith)
strlen_from_lem zero (suc fuel) m str len enough s =
    let here : m str ≡ 0 = ap m (omega arith) ∙ s.terminated in
    let sum : len + 0 ≡ len = omega arith in
    unfold strlen_from in rw (eq→== (m str) 0 here, sum) refl
strlen_from_lem (suc n) (suc fuel) m str len enough s =
    let here : m str ≢ 0 = λ e. s.chars 0 (omega arith) (ap m (omega arith) ∙ e) in
    strlen_from-next fuel m str len here
    ∙ strlen_from_lem n fuel m (str + 1) (len + 1) (omega arith) (record {
      chars = λ j lt e. s.chars (suc j) (omega arith) (ap m (omega arith) ∙ e);
      terminated = ap m (omega arith) ∙ s.terminated;
    })
    ∙ ap (λ z. ok z) (omega arith)
  where
    strlen_from-next :
        (fuel : ℕ) (m : ℕ → ℕ) (str len : ℕ)
        → m str ≢ 0
        → strlen_from (suc fuel) m str len ≡ strlen_from fuel m (str + 1) (len + 1)
    strlen_from-next fuel m str len ne = unfold strlen_from in rw (ne→== (m str) 0 ne) refl

pub strlen_lem :
    (n fuel : ℕ) (m : ℕ → ℕ) (str : ℕ) → n < fuel → IsString m str n → strlen fuel m str ≡ ok n
unfolding strlen
strlen_lem n fuel m str enough s =
    strlen_from_lem n fuel m str 0 enough s ∙ ap (λ z. ok z) (omega arith)

strcpy-next :
    (fuel dst src : ℕ) (m : ℕ → ℕ)
    → m src ≢ 0
    → strcpy (suc fuel) dst src m ≡ strcpy fuel (dst + 1) (src + 1) (update m dst (m src))
unfolding strcpy
strcpy-next fuel dst src m ne = rw (ne→== (m src) 0 ne) refl

strcpy-last :
    (fuel dst src : ℕ) (m : ℕ → ℕ) → m src ≡ 0 → strcpy (suc fuel) dst src m ≡ ok (update m dst 0)
unfolding strcpy
strcpy-last fuel dst src m e = rw (eq→== (m src) 0 e) refl

-- `strcpy` of a string to a place that does not overlap it ends, with more fuel than the string
-- has characters, and does what `memcpy` of the characters and the terminator does.
pub strcpy-memcpy :
    (n fuel dst src : ℕ) (m : ℕ → ℕ)
    → n < fuel
    → (dst + n < src) ⊎ (src + n < dst)
    → IsString m src n
    → strcpy fuel dst src m ≡ ok (memcpy dst src (n + 1) m)
strcpy-memcpy n zero dst src m enough apart s = absurd (omega arith)
strcpy-memcpy zero (suc fuel) dst src m enough apart s =
    let here : m src ≡ 0 = ap m (omega arith) ∙ s.terminated in
    strcpy-last fuel dst src m here
    ∙ ap (λ z. ok (update m dst z)) (sym here)
    ∙ unfold memcpy in refl
strcpy-memcpy (suc n) (suc fuel) dst src m enough apart s =
    let m1 = update m dst (m src) in
    let other : (q : ℕ) → src ≤ q → q ≤ src + suc n → m1 q ≡ m q =
      λ q lo hi. rw (ne→== dst q (ground (arith, apart))) refl in
    strcpy-next fuel dst src m (λ e. s.chars 0 (omega arith) (ap m (omega arith) ∙ e))
    ∙ strcpy-memcpy n fuel (dst + 1) (src + 1) m1 (omega arith) (ground (arith, apart)) (record {
      chars = λ j lt e.
          s.chars (suc j) (omega arith)
            (ap m (omega arith) ∙ sym (other (src + 1 + j) (omega arith) (omega arith)) ∙ e);
      terminated =
          other (src + 1 + n) (omega arith) (omega arith) ∙ ap m (omega arith) ∙ s.terminated;
    })
    ∙ ap (λ z. ok z)
        (sym (memcpy-suc dst src (n + 1) m) ∙ ap (λ z. memcpy dst src z m) (omega arith))
