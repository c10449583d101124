-- ===== src/SimpleDisk/Examples.antt =====
-- The theorems on the disk at a concrete block.
use demand_paged_virtual_mem.Common.{ℕ, ◌%◌, ◌≡◌, refl, List, [], ◌∷◌, ◌++◌, All, arith, ok, some}
use demand_paged_virtual_mem.Common.{map}
use demand_paged_virtual_mem.SimpleDisk.{
  Access, inport, outport, wait_while_busy, read, write, ide_read_register, read_port,
}
use demand_paged_virtual_mem.SimpleDisk.Transfer.{IsInport, Waited, wait_while_busy-Waited, words}
use demand_paged_virtual_mem.SimpleDisk.Block.{IsBytes, IsCopied, Sent, write_lem, read-write}

abbrev block : ℕ → ℕ
block j = j % 256

block-IsBytes : IsBytes block
block-IsBytes j = omega arith

-- The drive is busy once, then ready.
abbrev statuses : List ℕ
statuses = 208 ∷ 80 ∷ []

-- The register of the alternate status is read at the first serial port's.
test_alternate :
    ide_read_register 12 (record { inputs = 80 ∷ []; log = [] })
    ≡ ok (some 80, record { inputs = []; log = inport 1016 ∷ [] })
unfolding ide_read_register read_port
test_alternate = refl

abbrev waits : Waited (wait_while_busy 2) statuses
waits = wait_while_busy-Waited 2 (208 ∷ []) 80 (omega arith) ((λ e. absurd (omega arith)), tt) refl

write_lem_example :
    (log1 : List Access) × (more : List Access) × Sent 300 48 [] log1
    × (write (wait_while_busy 2) 300 block (record {
      inputs = 208 ∷ 80 ∷ 1 ∷ 2 ∷ 3 ∷ 4 ∷ 208 ∷ 80 ∷ 5 ∷ 6 ∷ 7 ∷ 8 ∷ 208 ∷ 80 ∷ [];
      log = [];
    })
        ≡ ok (record {
          inputs = [];
          log = ((log1 ++ map (outport 496) (words 256 0 block)) ++ outport 503 231 ∷ []) ++ more;
        }))
    × All IsInport more
write_lem_example =
    write_lem (wait_while_busy 2) 300 block block-IsBytes statuses statuses statuses waits waits
      waits 1 2 3 4 5 6 7 8 [] []

read-write_example :
    (out' : ℕ → ℕ) × (log' : List Access) × (read
        (wait_while_busy 2)
        300
        (λ j. 0)
        (record {
          inputs = 208 ∷ 80 ∷ 1 ∷ 2 ∷ 3 ∷ 4 ∷ 208 ∷ 80 ∷ 88 ∷ (words 256 0 block ++ []);
          log = [];
        })
      ≡ ok (out', record { inputs = []; log = log' }))
    × IsCopied 0 512 block (λ j. 0) out'
read-write_example =
    read-write (wait_while_busy 2) 300 block block-IsBytes statuses statuses waits waits 1 2 3 4 88
      [] [] (λ j. 0) refl

-- Status 1 is an error.
