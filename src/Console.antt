-- ===== src/Console.antt =====
-- console.C and console.H: text on the screen. The console's members, the words of text memory from
-- `textmemptr` on, and the bytes written to ports, each with its port, the last one first.
pub mod Scroll
pub mod Cursor
pub mod Text
pub mod Numbers
mod Examples
use demand_paged_virtual_mem.Common.{
  ℕ, zero, suc, ◌+◌, ◌-◌, ◌*◌, ◌/◌, ◌%◌, ◌≤◌, ◌<◌, ◌≡◌, ◌≢◌, refl, Bool, true, false, ◌==◌, ◌&&◌,
  ◌||◌, not, ◌∙◌, sym, subst, ◌⊎◌, inl, inr, if◌then◌else◌, List, [], ◌∷◌, ◌++◌, length, All, arith,
  ltb, leb, update, add32, sub32, mul32, Run, ok, assert_failed, out_of_fuel, faulted, ◌>>=◌, ◌>>◌,
  assert, dec_lt, dec_le, ap, word_mod, Option, none, some, lt→ltb, le→ltb, eq→==, ne→==,
  Bool-cases, ==→eq, ==→ne, le→leb, lt→leb, bit_and, bit_or, ◌^◌,
}
use demand_paged_virtual_mem.Utils.{memcpy, memsetw, strlen, int2str, uint2str}

pub record Console : Type 0 where
  pub attrib : ℕ
  pub csr_x : ℕ
  pub csr_y : ℕ
  pub output_redirected : Bool
  pub text : ℕ → ℕ
  pub ports : List (ℕ × ℕ)

-- `Machine::outportb`
unfoldable pub outportb : ℕ → ℕ → Console → Console
outportb port value console = record console { ports = (port, value) ∷ console.ports }

-- A character with the colours, as `memsetw` and `putch` store it in 16 bits
unfoldable pub cell : Console → ℕ → ℕ
cell console c = bit_or c (console.attrib * 2 ^ 8) % 2 ^ 16

unfoldable pub redirect_output : Bool → Console → Console
redirect_output on_off console = record console { output_redirected = on_off }

-- The bytes that `memcpy` moves are whole words, the lower ones first, and are counted as words here.
unfoldable pub scroll : Console → Console
scroll console =
    let blank = cell console 32 in
    let temp = add32 (sub32 console.csr_y 25) 1 in
    let kept = sub32 25 temp * 80 in
    let moved = memcpy 0 (temp * 80) kept console.text in
    if leb 25 console.csr_y
    then record console { text = memsetw kept blank 80 moved; csr_y = 24 }
    else console

unfoldable pub move_cursor : Console → Console
move_cursor console = outportb 980 15 (outportb 980 14 console)

-- The loop of `cls` over the rows from `i` on
unfoldable pub clear_rows : ℕ → ℕ → ℕ → (ℕ → ℕ) → ℕ → ℕ
clear_rows zero i blank text = text
clear_rows (suc rows) i blank text = clear_rows rows (i + 1) blank (memsetw (i * 80) blank 80 text)

unfoldable pub cls : Console → Console
cls console =
    move_cursor (record console {
      text = clear_rows 25 0 (cell console 32) console.text;
      csr_x = 0;
      csr_y = 0;
    })

unfoldable pub set_text_color : ℕ → ℕ → Console → Console
set_text_color forecolor backcolor console = record console {
  attrib = bit_or (backcolor * 2 ^ 4) (bit_and forecolor 15);
}

unfoldable pub init : ℕ → ℕ → Console → Console
init fore_color back_color console =
    cls (record (set_text_color fore_color back_color console) { csr_x = 0; csr_y = 0 })

-- `Machine::outportb(0x3F8, _c)` under `output_redirected`
unfoldable pub echo : ℕ → Console → Console
echo c console = if console.output_redirected then outportb 1016 c console else console

-- `putch` up to the test for the edge of the screen, for the byte `c` of a signed char. The test
-- under a carriage return names the function `redirect_output`, whose address is not 0.
unfoldable pub place : ℕ → Console → Console
place c console =
    if c == 8
    then (if console.csr_x == 0 then console else record console { csr_x = console.csr_x - 1 })
    else if c == 9
    then record console { csr_x = bit_and (console.csr_x + 8) 4294967288 }
    else if c == 13
    then outportb 1016 c (record console { csr_x = 0 })
    else if c == 10
    then echo c (record console { csr_x = 0; csr_y = console.csr_y + 1 })
    else if leb 32 c && ltb c 128
    then echo c (record console {
      text = update console.text (console.csr_y * 80 + console.csr_x) (cell console c);
      csr_x = console.csr_x + 1;
    })
    else console

unfoldable pub wrap : Console → Console
wrap console =
    if leb 80 console.csr_x
    then record console { csr_x = 0; csr_y = console.csr_y + 1 }
    else console

unfoldable pub putch : ℕ → Console → Console
putch c console = move_cursor (scroll (wrap (place c console)))

-- `puts` from the character `i` on, with the length computed again before each one
unfoldable pub puts_from : ℕ → ℕ → (ℕ → ℕ) → ℕ → ℕ → Console → Run Console
puts_from zero fuel memory s i console = out_of_fuel
puts_from (suc rounds) fuel memory s i console =
    let rest = puts_from rounds fuel memory s (i + 1) (putch (memory (s + i)) console) in
    strlen fuel memory s >>= λ len. if ltb i len then rest else ok console

unfoldable pub puts : ℕ → (ℕ → ℕ) → ℕ → Console → Run Console
puts fuel memory s console = puts_from fuel fuel memory s 0 console

-- A buffer that holds the characters
unfoldable pub buffer_of : List ℕ → ℕ → ℕ
buffer_of [] i = 0
buffer_of (c ∷ cs) zero = c
buffer_of (c ∷ cs) (suc i) = buffer_of cs i

unfoldable pub puti : ℕ → Bool → ℕ → Console → Run Console
puti fuel negative n console = puts fuel (buffer_of (int2str negative n)) 0 console

unfoldable pub putui : ℕ → ℕ → Console → Run Console
putui fuel n console =
    puts fuel (buffer_of (uint2str n)) 0 (putch 60 console) >>= λ shown. ok (putch 62 shown)
