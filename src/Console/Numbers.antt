-- ===== src/Console/Numbers.antt =====
-- What `putui` writes on the screen.
use demand_paged_virtual_mem.Common.{
  ℕ, zero, suc, ◌+◌, ◌<◌, ◌≡◌, ◌≢◌, refl, ◌∙◌, sym, List, [], ◌∷◌, ◌++◌, length, All, arith, ok,
  ◌>>=◌, ap, ◌^◌,
}
use demand_paged_virtual_mem.Utils.{uint2str}
use demand_paged_virtual_mem.Utils.Memory.{IsString}
use demand_paged_virtual_mem.Utils.Decimal.{IsDigit, IsNumeral, Printed, uint2str_lem}
use demand_paged_virtual_mem.Console.{Console, putch, puts, putui, buffer_of}
use demand_paged_virtual_mem.Console.Text.{put_all, characters, puts_lem}

buffer_char :
    (ds : List ℕ) (j : ℕ) → All IsDigit ds → j < length ds → buffer_of (ds ++ 0 ∷ []) j ≢ 0
unfolding buffer_of
buffer_char [] j digits lt = absurd (omega arith)
buffer_char (d ∷ ds) zero (first, others) lt = λ e. absurd (omega arith)
buffer_char (d ∷ ds) (suc j) (first, others) lt = buffer_char ds j others (omega arith)

buffer_end : (ds : List ℕ) → buffer_of (ds ++ 0 ∷ []) (length ds) ≡ 0
unfolding buffer_of
buffer_end [] = refl
buffer_end (d ∷ ds) = buffer_end ds

-- The buffer of a terminated list of characters, none of them 0, is a string.
buffer_of-IsString :
    (ds : List ℕ) → All IsDigit ds → IsString (buffer_of (ds ++ 0 ∷ [])) 0 (length ds)
buffer_of-IsString ds digits = record {
  chars = λ j lt e.
      let here : j ≡ 0 + j = omega arith in
      buffer_char ds j digits lt (ap (buffer_of (ds ++ 0 ∷ [])) here ∙ e);
  terminated =
      let here : 0 + length ds ≡ length ds = omega arith in
      ap (buffer_of (ds ++ 0 ∷ [])) here ∙ buffer_end ds;
}

characters-shift :
    (n : ℕ) (m k : ℕ → ℕ) (s t : ℕ)
    → ((j : ℕ) → m (s + j) ≡ k (t + j))
    → characters n m s ≡ characters n k t
unfolding characters
characters-shift zero m k s t same = refl
characters-shift (suc n) m k s t same =
    let first : m s ≡ k t = ap m (omega arith) ∙ same 0 ∙ ap k (omega arith) in
    let others =
      characters-shift n m k (s + 1) (t + 1)
        (λ j. ap m (omega arith) ∙ same (j + 1) ∙ ap k (omega arith)) in
    rw (first, others) refl

characters-buffer_of : (ds : List ℕ) → characters (length ds) (buffer_of (ds ++ 0 ∷ [])) 0 ≡ ds
unfolding characters buffer_of
characters-buffer_of [] = refl
characters-buffer_of (d ∷ ds) =
    ap (λ z. d ∷ z)
      (characters-shift (length ds) (buffer_of (d ∷ ds ++ 0 ∷ [])) (buffer_of (ds ++ 0 ∷ []))
          (0 + 1) 0 (λ j. shifted j)
        ∙ characters-buffer_of ds)
  where
    shifted : (j : ℕ) → buffer_of (d ∷ ds ++ 0 ∷ []) (0 + 1 + j) ≡ buffer_of (ds ++ 0 ∷ []) (0 + j)
    shifted j =
        let here : 0 + 1 + j ≡ suc (0 + j) = omega arith in ap (buffer_of (d ∷ ds ++ 0 ∷ [])) here

put_all-append :
    (cs ds : List ℕ) (console : Console)
    → put_all (cs ++ ds) console ≡ put_all ds (put_all cs console)
unfolding put_all
put_all-append [] ds console = refl
put_all-append (c ∷ cs) ds console = put_all-append cs ds (putch c console)

put_all_between :
    (ds : List ℕ) (console : Console)
    → put_all (60 ∷ ds ++ 62 ∷ []) console ≡ putch 62 (put_all ds (putch 60 console))
unfolding put_all
put_all_between ds console = put_all-append ds (62 ∷ []) (putch 60 console)

numeral-All : (ds : List ℕ) → IsNumeral ds → All IsDigit ds
numeral-All [] none_ = absurd none_
numeral-All (d ∷ ds) n = n.0

-- For a 32-bit number, and more than 10 rounds of fuel, `putui` ends and does what putting each
-- character does, in order, of '<', the number's decimal digits and '>'.
pub putui_lem :
    (n fuel : ℕ) (console : Console)
    → n < 2 ^ 32
    → 10 < fuel
    → (p : Printed n (uint2str n)) × (putui fuel n console
        ≡ ok (put_all (60 ∷ p.digits ++ 62 ∷ []) console))
unfolding putui
putui_lem n fuel console small enough =
    let p = uint2str_lem n small in
    let all = numeral-All p.digits p.numeral in
    let text = buffer_of (p.digits ++ 0 ∷ []) in
    let shown : puts fuel text 0 (putch 60 console) ≡ ok (put_all p.digits (putch 60 console)) =
      puts_lem (length p.digits) fuel text 0 (putch 60 console) (omega (arith, p.at_most_10))
        (buffer_of-IsString p.digits all)
      ∙ ap (λ z. ok (put_all z (putch 60 console))) (characters-buffer_of p.digits) in
    (
      p,
      ap (λ z. puts fuel (buffer_of z) 0 (putch 60 console) >>= λ shown. ok (putch 62 shown))
            p.terminated
          ∙ ap (λ z. z >>= λ shown. ok (putch 62 shown)) shown
          ∙ ap (λ z. ok z) (sym (put_all_between p.digits console)),
    )
