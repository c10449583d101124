-- ===== src/Console/Scroll.antt =====
-- How `scroll` moves the screen up by one row.
use demand_paged_virtual_mem.Common.{
  ℕ, ◌+◌, ◌≤◌, ◌<◌, ◌≡◌, refl, ◌∙◌, inl, inr, arith, add32, sub32, ap, le→leb, lt→leb,
}
use demand_paged_virtual_mem.Utils.{memcpy}
use demand_paged_virtual_mem.Utils.Memory.{
  memcpy-outside, memcpy-inside, memsetw-outside, memsetw-inside,
}
use demand_paged_virtual_mem.Console.{Console, scroll, cell}

-- What `scroll` leaves below the last row: the last row itself is blank.
pub record Scrolled (console result : Console) : Type 0 where
  pub at_last_row : result.csr_y ≡ 24
  pub at_column : result.csr_x ≡ console.csr_x
  pub same_ports : result.ports ≡ console.ports
  pub colours : result.attrib ≡ console.attrib
  pub redirection : result.output_redirected ≡ console.output_redirected
  pub moved_up : (q : ℕ) → q < 1920 → result.text q ≡ console.text (q + 80)
  pub blank_row : (q : ℕ) → 1920 ≤ q → q < 2000 → result.text q ≡ cell console 32
  pub off_screen : (q : ℕ) → 2000 ≤ q → result.text q ≡ console.text q

-- With the cursor one row below the screen, `scroll` moves every row up by one, fills the last
-- row with blanks in the console's colours, and moves the cursor to the last row. The cursor's
-- column, the ports, the colours, the redirection and the text memory behind the screen stay.
pub scroll-Scrolled : (console : Console) → console.csr_y ≡ 25 → Scrolled console (scroll console)
unfolding scroll
scroll-Scrolled console full =
    let temp : add32 (sub32 console.csr_y 25) 1 ≡ 1 = omega arith in
    let moved : (q : ℕ) → q < 1920 → memcpy 0 80 1920 console.text q ≡ console.text (80 + q) =
      λ q lt.
        let here : q ≡ 0 + q = omega arith in
        ap (memcpy 0 80 1920 console.text) here
        ∙ memcpy-inside 1920 0 80 console.text q (inl (omega arith)) lt in
    rw (temp, le→leb 25 console.csr_y (omega arith))
      (record {
        at_last_row = refl;
        at_column = refl;
        same_ports = refl;
        colours = refl;
        redirection = refl;
        moved_up = λ q lt.
            memsetw-outside 80 1920 (cell console 32) (memcpy 0 80 1920 console.text) q (inl lt)
            ∙ moved q lt
            ∙ ap console.text (omega arith);
        blank_row = λ q lo hi.
            memsetw-inside 80 1920 (cell console 32) (memcpy 0 80 1920 console.text) q lo
              (omega arith);
        off_screen = λ q far.
            memsetw-outside 80 1920 (cell console 32) (memcpy 0 80 1920 console.text) q
              (inr (omega arith))
            ∙ memcpy-outside 1920 0 80 console.text q (inr (omega arith));
      })

pub scroll-inside : (console : Console) → console.csr_y < 25 → scroll console ≡ console
unfolding scroll
scroll-inside console inside = rw (lt→leb 25 console.csr_y inside) refl
