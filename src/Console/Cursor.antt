-- ===== src/Console/Cursor.antt =====
-- The cursor stays on the screen, and text memory off the screen stays as it is.
use demand_paged_virtual_mem.Common.{
  ℕ, ◌+◌, ◌-◌, ◌*◌, ◌≤◌, ◌<◌, ◌≡◌, refl, Bool, true, ◌==◌, ◌&&◌, ◌∙◌, sym, subst, if◌then◌else◌,
  arith, ltb, leb, update, dec_lt, ne→==, if_cases, bit_and,
}
use demand_paged_virtual_mem.Common.Bits.{all_below, all_below_sound}
use demand_paged_virtual_mem.Console.Scroll.{scroll-Scrolled, scroll-inside}
use demand_paged_virtual_mem.Console.{
  Console, outportb, scroll, move_cursor, echo, place, wrap, putch, cell,
}

pub record IsConsole (console : Console) : Type 0 where
  pub column : console.csr_x < 80
  pub row : console.csr_y < 25

-- What a step may do: the cursor within one column and one row of the screen, the colours, the
-- redirection and the memory off the screen unchanged.
pub record Steps (console result : Console) : Type 0 where
  pub column : result.csr_x ≤ 80
  pub row : result.csr_y ≤ 25
  pub corner : (result.csr_x ≡ 80) → result.csr_y < 25
  pub colours : result.attrib ≡ console.attrib
  pub redirection : result.output_redirected ≡ console.output_redirected
  pub off_screen : (q : ℕ) → 2000 ≤ q → result.text q ≡ console.text q

tab_stop : (x : ℕ) → x < 80 → leb (bit_and (x + 8) 4294967288) 80 ≡ true
tab_stop x lt =
    all_below_sound 80 (λ x. leb (bit_and (x + 8) 4294967288) 80) x (unfold all_below in refl) lt

Steps-refl : (console : Console) → IsConsole console → Steps console console
Steps-refl console ok_console = record {
  column = omega (arith, ok_console.column);
  row = omega (arith, ok_console.row);
  corner = λ e. ok_console.row;
  colours = refl;
  redirection = refl;
  off_screen = λ q far. refl;
}

outportb-Steps :
    (port value : ℕ) (console result : Console)
    → Steps console result
    → Steps console (outportb port value result)
unfolding outportb
outportb-Steps port value console result s = record {
  column = s.column;
  row = s.row;
  corner = s.corner;
  colours = s.colours;
  redirection = s.redirection;
  off_screen = s.off_screen;
}

echo-Steps :
    (c : ℕ) (console result : Console) → Steps console result → Steps console (echo c result)
unfolding echo
echo-Steps c console result s =
    if_cases (Steps console) result.output_redirected (λ on. outportb-Steps 1016 c console result s)
      (λ off. s)

place-Steps : (c : ℕ) (console : Console) → IsConsole console → Steps console (place c console)
unfolding place
place-Steps c console valid =
    if_cases (Steps console) (c == 8) (λ backspace. back (console.csr_x == 0))
      (λ h8.
        if_cases (Steps console) (c == 9) (λ tab. forward)
          (λ h9.
            if_cases (Steps console) (c == 13)
              (λ cr. outportb-Steps 1016 c console (record console { csr_x = 0 }) returned)
              (λ h13.
                if_cases (Steps console) (c == 10)
                  (λ lf.
                    echo-Steps c console (record console { csr_x = 0; csr_y = console.csr_y + 1 })
                      line)
                  (λ h10.
                    if_cases (Steps console) (leb 32 c && ltb c 128)
                      (λ printable.
                        echo-Steps c console
                          (record console {
                            text =
                                update console.text (console.csr_y * 80 + console.csr_x)
                                  (cell console c);
                            csr_x = console.csr_x + 1;
                          })
                          shown)
                      (λ other. Steps-refl console valid)))))
  where
    back :
        (b : Bool)
        → Steps console (if b then console else record console { csr_x = console.csr_x - 1 })
    back b =
        if_cases (Steps console) b (λ zero_. Steps-refl console valid)
          (λ positive. record {
            column = omega (arith, valid.column);
            row = omega (arith, valid.row);
            corner = λ e. valid.row;
            colours = refl;
            redirection = refl;
            off_screen = λ q far. refl;
          })

    forward : Steps console (record console { csr_x = bit_and (console.csr_x + 8) 4294967288 })
    forward = record {
      column = ground (arith, tab_stop console.csr_x valid.column);
      row = omega (arith, valid.row);
      corner = λ e. valid.row;
      colours = refl;
      redirection = refl;
      off_screen = λ q far. refl;
    }

    returned : Steps console (record console { csr_x = 0 })
    returned = record {
      column = omega arith;
      row = omega (arith, valid.row);
      corner = λ e. valid.row;
      colours = refl;
      redirection = refl;
      off_screen = λ q far. refl;
    }

    line : Steps console (record console { csr_x = 0; csr_y = console.csr_y + 1 })
    line = record {
      column = omega arith;
      row = omega (arith, valid.row);
      corner = λ e. absurd (omega arith);
      colours = refl;
      redirection = refl;
      off_screen = λ q far. refl;
    }

    shown : Steps console (record console {
      text = update console.text (console.csr_y * 80 + console.csr_x) (cell console c);
      csr_x = console.csr_x + 1;
    })
    shown = record {
      column = omega (arith, valid.column);
      row = omega (arith, valid.row);
      corner = λ e. valid.row;
      colours = refl;
      redirection = refl;
      off_screen = λ q far.
          rw (ne→== (console.csr_y * 80 + console.csr_x) q (omega (arith, valid.column, valid.row)))
            refl;
    }

wrap-Steps :
    (console result : Console)
    → Steps console result
    → (Steps console (wrap result)) × ((wrap result).csr_x < 80)
unfolding wrap
wrap-Steps console result s =
    if_cases (λ r. Steps console r × (r.csr_x < 80)) (leb 80 result.csr_x)
      (λ edge.
        let full : result.csr_x ≡ 80 = ground (arith, s.column) in
        (
          record {
            column = omega arith;
            row = omega (arith, s.corner full);
            corner = λ e. absurd (omega arith);
            colours = s.colours;
            redirection = s.redirection;
            off_screen = s.off_screen;
          },
          omega arith,
        ))
      (λ inside. (s, ground arith))

-- Where the cursor is after `putch`, and what has changed of the rest.
pub record Kept (console result : Console) : Type 0 where
  pub cursor : IsConsole result
  pub colours : result.attrib ≡ console.attrib
  pub redirection : result.output_redirected ≡ console.output_redirected
  pub off_screen : (q : ℕ) → 2000 ≤ q → result.text q ≡ console.text q

pub Kept-refl : (console : Console) → IsConsole console → Kept console console
Kept-refl console valid = record {
  cursor = valid;
  colours = refl;
  redirection = refl;
  off_screen = λ q far. refl;
}

pub Kept-trans : (a b c : Console) → Kept a b → Kept b c → Kept a c
Kept-trans a b c first second = record {
  cursor = second.cursor;
  colours = second.colours ∙ first.colours;
  redirection = second.redirection ∙ first.redirection;
  off_screen = λ q far. second.off_screen q far ∙ first.off_screen q far;
}

scroll-Kept :
    (console result : Console)
    → Steps console result
    → result.csr_x < 80
    → Kept console (scroll result)
scroll-Kept console result s inside = elim (dec_lt result.csr_y 25) [
  | yes above ↦ subst (Kept console) (sym (scroll-inside result above)) (record {
    cursor = record { column = inside; row = above };
    colours = s.colours;
    redirection = s.redirection;
    off_screen = s.off_screen;
  })
  | no below ↦
      let r = scroll-Scrolled result (omega (arith, s.row)) in
      record {
        cursor = record { column = omega (arith, r.at_column); row = omega (arith, r.at_last_row) };
        colours = r.colours ∙ s.colours;
        redirection = r.redirection ∙ s.redirection;
        off_screen = λ q far. r.off_screen q far ∙ s.off_screen q far;
      }
]

move_cursor-Kept :
    (console result : Console) → Kept console result → Kept console (move_cursor result)
unfolding move_cursor outportb
move_cursor-Kept console result k = record {
  cursor = record { column = k.cursor.column; row = k.cursor.row };
  colours = k.colours;
  redirection = k.redirection;
  off_screen = k.off_screen;
}

-- `putch` leaves the cursor on the screen and text memory off the screen as it was.
pub putch-Kept : (c : ℕ) (console : Console) → IsConsole console → Kept console (putch c console)
unfolding putch
putch-Kept c console valid =
    let (steps, inside) = wrap-Steps console (place c console) (place-Steps c console valid) in
    move_cursor-Kept console (scroll (wrap (place c console)))
      (scroll-Kept console (wrap (place c console)) steps inside)
