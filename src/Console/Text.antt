-- ===== src/Console/Text.antt =====
-- What `puts` writes on the screen.
use demand_paged_virtual_mem.Common.{
  ℕ, zero, suc, ◌+◌, ◌*◌, ◌%◌, ◌≤◌, ◌<◌, ◌≡◌, refl, ◌∙◌, sym, ◌⊎◌, inl, List, [], ◌∷◌, length, All,
  arith, leb, update, ok, ap, lt→ltb, le→ltb, eq→==, ne→==, if_cases, le→leb, bit_or, ◌^◌,
}
use demand_paged_virtual_mem.Utils.Memory.{IsString, strlen_lem}
use demand_paged_virtual_mem.Console.Scroll.{scroll-inside}
use demand_paged_virtual_mem.Console.Cursor.{IsConsole, Kept, Kept-refl, Kept-trans, putch-Kept}
use demand_paged_virtual_mem.Console.{
  Console, outportb, scroll, move_cursor, echo, place, wrap, putch, puts, puts_from, buffer_of,
  cell,
}

-- `putch` of one character after the other
unfoldable pub put_all : List ℕ → Console → Console
put_all [] console = console
put_all (c ∷ cs) console = put_all cs (putch c console)

-- The `n` characters at an address
unfoldable pub characters : ℕ → (ℕ → ℕ) → ℕ → List ℕ
characters zero memory s = []
characters (suc n) memory s = memory s ∷ characters n memory (s + 1)

pub put_all-Kept :
    (cs : List ℕ) (console : Console) → IsConsole console → Kept console (put_all cs console)
unfolding put_all
put_all-Kept [] console valid = Kept-refl console valid
put_all-Kept (c ∷ cs) console valid =
    let k = putch-Kept c console valid in
    Kept-trans console (putch c console) (put_all cs (putch c console)) k
      (put_all-Kept cs (putch c console) k.cursor)

puts_from_lem :
    (k rounds fuel : ℕ) (memory : ℕ → ℕ) (s n i : ℕ) (console : Console)
    → k < rounds
    → n < fuel
    → i + k ≡ n
    → IsString memory s n
    → puts_from rounds fuel memory s i console ≡ ok (put_all (characters k memory (s + i)) console)
unfolding puts_from put_all characters
puts_from_lem k zero fuel memory s n i console more enough sum str = absurd (omega arith)
puts_from_lem zero (suc rounds) fuel memory s n i console more enough sum str =
    rw (strlen_lem n fuel memory s enough str, le→ltb i n (omega arith)) refl
puts_from_lem (suc k) (suc rounds) fuel memory s n i console more enough sum str =
    let next : s + (i + 1) ≡ s + i + 1 = omega arith in
    let rest =
      puts_from_lem k rounds fuel memory s n (i + 1) (putch (memory (s + i)) console) (omega arith)
        enough (omega arith) str in
    rw (strlen_lem n fuel memory s enough str, lt→ltb i n (omega arith))
      (rest ∙ ap (λ z. ok (put_all (characters k memory z) (putch (memory (s + i)) console))) next)

-- `puts` ends, and shows the characters of its string.
pub puts_lem :
    (n fuel : ℕ) (memory : ℕ → ℕ) (s : ℕ) (console : Console)
    → n < fuel
    → IsString memory s n
    → puts fuel memory s console ≡ ok (put_all (characters n memory s) console)
unfolding puts
puts_lem n fuel memory s console enough str =
    puts_from_lem n fuel fuel memory s n 0 console enough enough (omega arith) str
    ∙ ap (λ z. ok (put_all (characters n memory z) console)) (omega arith)

abbrev pub IsPrintable : ℕ → Type 0
IsPrintable c = (32 ≤ c) × (c < 128)

-- The cursor's index in text memory
abbrev pub index : Console → ℕ
index console = console.csr_y * 80 + console.csr_x

-- Two consoles that show the same with the cursor at the same index
record Alike (a b : Console) : Type 0 where
  same_index : index a ≡ index b
  same_text : (q : ℕ) → a.text q ≡ b.text q

abbrev shown : ℕ → Console → Console
shown c console = record console {
  text = update console.text (console.csr_y * 80 + console.csr_x) (cell console c);
  csr_x = console.csr_x + 1;
}

place-printable :
    (c : ℕ) (console : Console) → IsPrintable c → place c console ≡ echo c (shown c console)
unfolding place
place-printable c console (lo, hi) =
    rw
      (
        ne→== c 8 (omega arith),
        ne→== c 9 (omega arith),
        ne→== c 13 (omega arith),
        ne→== c 10 (omega arith),
        le→leb 32 c lo,
        lt→ltb c 128 hi,
      )
      refl

cell_same : (a b : Console) (c : ℕ) → a.attrib ≡ b.attrib → cell a c ≡ cell b c
unfolding cell
cell_same a b c e = ap (λ z. bit_or c (z * 2 ^ 8) % 2 ^ 16) e

-- The screen with the characters.
pub record Written (cs : List ℕ) (console result : Console) : Type 0 where
  pub moved : index result ≡ index console + length cs
  pub written :
      (j : ℕ) → j < length cs → result.text (index console + j) ≡ cell console (buffer_of cs j)
  pub elsewhere :
      (q : ℕ)
      → (q < index console) ⊎ (index console + length cs ≤ q)
      → result.text q ≡ console.text q

echo-Alike : (c : ℕ) (console : Console) → Alike (echo c console) console
unfolding echo outportb
echo-Alike c console =
    if_cases (λ r. Alike r console) console.output_redirected
      (λ on. record { same_index = refl; same_text = λ q. refl })
      (λ off. record { same_index = refl; same_text = λ q. refl })

echo-column : (c : ℕ) (console : Console) → (echo c console).csr_x ≡ console.csr_x
unfolding echo outportb
echo-column c console =
    if_cases (λ (r : Console). r.csr_x ≡ console.csr_x) console.output_redirected (λ on. refl)
      (λ off. refl)

wrap-Alike : (console : Console) → console.csr_x ≤ 80 → Alike (wrap console) console
unfolding wrap
wrap-Alike console le =
    if_cases (λ r. Alike r console) (leb 80 console.csr_x)
      (λ edge. record { same_index = ground arith; same_text = λ q. refl })
      (λ inside. record { same_index = refl; same_text = λ q. refl })

move_cursor-Alike : (console : Console) → Alike (move_cursor console) console
unfolding move_cursor outportb
move_cursor-Alike console = record { same_index = refl; same_text = λ q. refl }

putch-Alike :
    (c : ℕ) (console : Console)
    → IsConsole console
    → IsPrintable c
    → index console + 1 < 2000
    → Alike (putch c console) (shown c console)
unfolding putch
putch-Alike c console valid printable room =
    let k = echo c (shown c console) in
    let e = echo-Alike c (shown c console) in
    let w = wrap-Alike k (omega (arith, echo-column c (shown c console), valid.column)) in
    let m = move_cursor-Alike (wrap k) in
    let still : scroll (wrap k) ≡ wrap k =
      scroll-inside (wrap k) (omega (arith, w.same_index, e.same_index)) in
    let same : move_cursor (scroll (wrap (place c console))) ≡ move_cursor (wrap k) =
      ap (λ z. move_cursor (scroll (wrap z))) (place-printable c console printable)
      ∙ ap move_cursor still in
    record {
      same_index = ap index same ∙ m.same_index ∙ w.same_index ∙ e.same_index;
      same_text =
          λ q. ap (λ (z : Console). z.text q) same ∙ m.same_text q ∙ w.same_text q ∙ e.same_text q;
    }

-- Characters that fit on the screen without scrolling stand from the cursor on, in the console's
-- colours, and the cursor behind them.
pub put_all-Written :
    (cs : List ℕ) (console : Console)
    → IsConsole console
    → All IsPrintable cs
    → index console + length cs < 2000
    → Written cs console (put_all cs console)
unfolding put_all buffer_of
put_all-Written [] console valid printable room = record {
  moved = omega arith;
  written = λ j lt. absurd (omega arith);
  elsewhere = λ q out. refl;
}
put_all-Written (c ∷ cs) console valid (first, others) room =
    let k = putch-Kept c console valid in
    let a = putch-Alike c console valid first (omega arith) in
    let next = putch c console in
    let at : index next ≡ index console + 1 = omega (arith, a.same_index) in
    let w = put_all-Written cs next k.cursor others (omega arith) in
    record {
      moved = omega (arith, w.moved, at);
      written = λ j lt. each next a at k.colours w j lt;
      elsewhere = λ q out.
          w.elsewhere q (ground (arith, at, out))
          ∙ a.same_text q
          ∙ rw (ne→== (console.csr_y * 80 + console.csr_x) q (ground (arith, out))) refl;
    }
  where
    each :
        (next : Console)
        → Alike next (shown c console)
        → index next ≡ index console + 1
        → next.attrib ≡ console.attrib
        → Written cs next (put_all cs next)
        → (j : ℕ) → j < suc (length cs)
        → (put_all cs next).text (index console + j) ≡ cell console (buffer_of (c ∷ cs) j)
    each next a at colours w zero lt =
        let here : index console + 0 ≡ index console = omega arith in
        w.elsewhere (index console + 0) (inl (omega arith))
        ∙ a.same_text (index console + 0)
        ∙ rw (eq→== (console.csr_y * 80 + console.csr_x) (index console + 0) (sym here)) refl
    each next a at colours w (suc j) lt =
        let there : index console + suc j ≡ index next + j = omega arith in
        ap (put_all cs next).text there
        ∙ w.written j (omega arith)
        ∙ cell_same next console (buffer_of cs j) colours

module _ (n fuel : ℕ) (memory : ℕ → ℕ) (s : ℕ) (console : Console) (enough : n < fuel)
    (str : IsString memory s n) (valid : IsConsole console) where
  -- From a console whose cursor is on the screen, in a column below 80 and a row below 25, `puts`
  -- of any string ends, with more fuel than the string has characters. It leaves the cursor on
  -- the screen, and every word of text memory behind the screen, the colours and the redirection
  -- unchanged.
  pub puts-Kept : (r : Console) × (puts fuel memory s console ≡ ok r) × Kept console r
  puts-Kept =
      let cs = characters n memory s in
      (
        put_all cs console,
        puts_lem n fuel memory s console enough str,
        put_all-Kept cs console valid,
      )

  -- From a console whose cursor is on the screen, with more fuel than the string has characters,
  -- `puts` of a string of printable characters that fits on the screen from the cursor on ends
  -- with its characters standing there in the console's colours, with every other word of text
  -- memory unchanged, and with the cursor's index behind the string.
  pub puts-Written :
      All IsPrintable (characters n memory s)
      → index console + length (characters n memory s) < 2000
      → (r : Console) × (puts fuel memory s console ≡ ok r)
        × Written (characters n memory s) console r
  puts-Written printable room =
      let cs = characters n memory s in
      (
        put_all cs console,
        puts_lem n fuel memory s console enough str,
        put_all-Written cs console valid printable room,
      )
