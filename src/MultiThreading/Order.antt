-- ===== src/MultiThreading/Order.antt =====
-- The order of the threads' turns: the one that runs first goes to the end.
use demand_paged_virtual_mem.Common.{
  ℕ, zero, suc, ◌+◌, ◌*◌, ◌≡◌, ◌∙◌, sym, List, [], ◌∷◌, ◌++◌, length, arith, ap, append_assoc,
  append_nil,
}

module _ {ℓ} {A : Type ℓ} where
  abbrev pub rotate : List A → List A
  rotate [] = []
  rotate (x ∷ xs) = xs ++ x ∷ []

  abbrev pub rotate_times : ℕ → List A → List A
  rotate_times zero xs = xs
  rotate_times (suc k) xs = rotate_times k (rotate xs)

  -- After as many turns as there are threads in front, the others are first.
  pub rotate_times-append : (xs ys : List A) → rotate_times (length xs) (xs ++ ys) ≡ ys ++ xs
  rotate_times-append [] ys = sym (append_nil ys)
  rotate_times-append (x ∷ xs) ys =
      ap (λ z. rotate_times (length xs) z) (append_assoc xs ys (x ∷ []))
      ∙ rotate_times-append xs (ys ++ x ∷ [])
      ∙ append_assoc ys (x ∷ []) xs

  pub rotate_times-length : (xs : List A) → rotate_times (length xs) xs ≡ xs
  rotate_times-length xs =
      ap (λ z. rotate_times (length xs) z) (sym (append_nil xs)) ∙ rotate_times-append xs []

  pub rotate_times-add :
      (k j : ℕ) (xs : List A) → rotate_times (k + j) xs ≡ rotate_times j (rotate_times k xs)
  rotate_times-add zero j xs =
      let none_first : zero + j ≡ j = omega arith in ap (λ z. rotate_times z xs) none_first
  rotate_times-add (suc k) j xs =
      let next : suc k + j ≡ suc (k + j) = omega arith in
      ap (λ z. rotate_times z xs) next ∙ rotate_times-add k j (rotate xs)

  pub rotate_times-rounds : (q : ℕ) (xs : List A) → rotate_times (q * length xs) xs ≡ xs
  rotate_times-rounds zero xs =
      let no_turn : zero * length xs ≡ 0 = omega arith in ap (λ z. rotate_times z xs) no_turn
  rotate_times-rounds (suc q) xs =
      let one_more : suc q * length xs ≡ length xs + q * length xs = omega arith in
      ap (λ z. rotate_times z xs) one_more
      ∙ rotate_times-add (length xs) (q * length xs) xs
      ∙ ap (λ z. rotate_times (q * length xs) z) (rotate_times-length xs)
      ∙ rotate_times-rounds q xs

  -- Whoever stands behind `xs` is first after as many turns, in any round.
  pub rotate_times-turn :
      (q : ℕ) (xs ys : List A)
      → rotate_times (q * length (xs ++ ys) + length xs) (xs ++ ys) ≡ ys ++ xs
  rotate_times-turn q xs ys =
      rotate_times-add (q * length (xs ++ ys)) (length xs) (xs ++ ys)
      ∙ ap (λ z. rotate_times (length xs) z) (rotate_times-rounds q (xs ++ ys))
      ∙ rotate_times-append xs ys
