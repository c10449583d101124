-- ===== src/Console/Examples.antt =====
-- The console's theorems at concrete inputs.
use demand_paged_virtual_mem.Common.{ℕ, ◌≡◌, refl, false, [], ◌∷◌, ◌++◌, arith, update, ok}
use demand_paged_virtual_mem.Utils.{uint2str}
use demand_paged_virtual_mem.Utils.Memory.{IsString}
use demand_paged_virtual_mem.Utils.Decimal.{Printed}
use demand_paged_virtual_mem.Console.{Console, cell, puts, putui, outportb, place}
use demand_paged_virtual_mem.Console.Cursor.{IsConsole, Kept}
use demand_paged_virtual_mem.Console.Text.{put_all, characters, puts-Kept, puts-Written, Written}
use demand_paged_virtual_mem.Console.Numbers.{putui_lem}

abbrev console : Console
console = record {
  attrib = 7;
  csr_x = 78;
  csr_y = 3;
  output_redirected = false;
  text = λ q. 0;
  ports = [];
}

console-IsConsole : IsConsole console
console-IsConsole = record { column = omega arith; row = omega arith }

-- "hi!" at address 5
abbrev hello : ℕ → ℕ
hello = update (update (update (λ q. 0) 5 104) 6 105) 7 33

hello-IsString : IsString hello 5 3
hello-IsString = record { chars = λ j lt. ground arith; terminated = refl }

test_shown : (cell console 104) ≡ 1896
unfolding cell
test_shown = refl

-- A carriage return goes to the serial port although the output is not redirected.
test_place : (place 13 console).ports ≡ (1016, 13) ∷ []
unfolding place outportb
test_place = refl

puts-Kept_example : (r : Console) × (puts 4 hello 5 console ≡ ok r) × Kept console r
puts-Kept_example = puts-Kept 3 4 hello 5 console (omega arith) hello-IsString console-IsConsole

puts-Written_example :
    (r : Console) × (puts 4 hello 5 console ≡ ok r) × Written (characters 3 hello 5) console r
puts-Written_example =
    puts-Written 3 4 hello 5 console (omega arith) hello-IsString console-IsConsole
      (unfold characters in omega arith) (unfold characters in omega arith)

putui_lem_example :
    (p : Printed 1024 (uint2str 1024)) × (putui 11 1024 console
      ≡ ok (put_all (60 ∷ p.digits ++ 62 ∷ []) console))
putui_lem_example = putui_lem 1024 11 console (omega arith) (omega arith)
