-- ===== src/SimpleDisk.antt =====
-- simple_disk.C and simple_disk.H: blocks of 512 bytes through the ports of an ATA controller. `Io` is
-- what the controller answers to the reads from ports to come, and the accesses so far.
pub mod Address
pub mod Transfer
pub mod Block
mod Examples
use demand_paged_virtual_mem.Common.{
  ℕ, zero, suc, ◌+◌, ◌-◌, ◌*◌, ◌/◌, ◌%◌, ◌≤◌, ◌<◌, ◌≡◌, ◌≢◌, refl, Bool, true, false, ◌==◌, ◌&&◌,
  ◌||◌, not, ◌∙◌, sym, subst, ◌⊎◌, inl, inr, if◌then◌else◌, List, [], ◌∷◌, ◌++◌, length, All, arith,
  ltb, leb, update, add32, sub32, mul32, Run, ok, assert_failed, out_of_fuel, faulted, ◌>>=◌, ◌>>◌,
  assert, dec_lt, dec_le, ap, word_mod, Option, none, some, lt→ltb, le→ltb, eq→==, ne→==, if_cases,
  Bool-cases, ==→eq, ==→ne, le→leb, lt→leb, bit_and, bit_or, ◌^◌,
}

pub data Access : Type 0 where
  inport : ℕ → Access
  outport : ℕ → ℕ → Access

pub record Io : Type 0 where
  pub inputs : List ℕ
  pub log : List Access

-- `Machine::inportb` and `Machine::inportw`
unfoldable pub read_port : ℕ → Io → Run (ℕ × Io)
read_port port io = elim io.inputs [
  | [] ↦ out_of_fuel
  | value ∷ rest ↦ ok (value, record { inputs = rest; log = io.log ++ inport port ∷ [] })
]

-- `Machine::outportb` and `Machine::outportw`
unfoldable pub write_port : ℕ → ℕ → Io → Io
write_port port value io = record io { log = io.log ++ outport port value ∷ [] }

unfoldable pub get_status : Io → Run (ℕ × Io)
get_status io = read_port 503 io

unfoldable pub is_busy : Io → Run (Bool × Io)
is_busy io = get_status io >>= λ (r : ℕ × Io). ok (not (bit_and r.0 128 == 0), r.1)

unfoldable pub wait_while_busy : ℕ → Io → Run Io
wait_while_busy zero io = out_of_fuel
wait_while_busy (suc fuel) io = is_busy io >>= λ (r : Bool × Io).
    let again = wait_while_busy fuel r.1 in if r.0 then again else ok r.1

-- The result is not set for registers from 0x16 on.
unfoldable pub ide_read_register : ℕ → Io → Run (Option ℕ × Io)
ide_read_register reg io =
    let found = λ (r : ℕ × Io). ok (some r.0, r.1) in
    if ltb reg 8
    then (read_port (496 + reg) io >>= found)
    else if ltb reg 12
    then (read_port (496 + reg - 6) io >>= found)
    else if ltb reg 14
    then (read_port (1014 + reg - 10) io >>= found)
    else if ltb reg 22
    then (read_port (reg - 14) io >>= found)
    else ok (none, io)

unfoldable pub ide_write_register : ℕ → ℕ → Io → Io
ide_write_register reg value io =
    if ltb reg 8
    then write_port (496 + reg) value io
    else if ltb reg 12
    then write_port (496 + reg - 6) value io
    else if ltb reg 14
    then write_port (1014 + reg - 10) value io
    else if ltb reg 22
    then write_port (reg - 14) value io
    else io

-- The delay of `ide_polling`
unfoldable pub read_alternate_status : ℕ → Io → Run Io
read_alternate_status zero io = ok io
read_alternate_status (suc rounds) io =
    ide_read_register 12 io >>= λ (r : Option ℕ × Io). read_alternate_status rounds r.1

-- `ide_polling`; the virtual method `wait_while_busy` is an argument.
unfoldable pub ide_polling : (Io → Run Io) → Bool → Io → Run (ℕ × Io)
ide_polling wait advanced_check io = read_alternate_status 4 io >>= λ io1. wait io1 >>= λ io2.
    let checked = get_status io2 >>= λ (r : ℕ × Io). ok (
      if not (bit_and r.0 1 == 0)
          then 2
          else if not (bit_and r.0 32 == 0)
          then 1
          else if bit_and r.0 8 == 0
          then 3
          else 0,
      r.1,
    ) in
    if advanced_check then checked else ok (0, io2)

pub data DiskOperation : Type 0 where
  read_operation write_operation : DiskOperation

unfoldable pub command_of : DiskOperation → ℕ
command_of read_operation = 32
command_of write_operation = 48

unfoldable pub ide_ata_issue_command : (Io → Run Io) → DiskOperation → ℕ → Io → Run Io
ide_ata_issue_command wait operation block_no io = wait io >>= λ io1.
    let io2 = write_port 498 1 io1 in
    let io3 = write_port 499 (block_no % 256) io2 in
    let io4 = write_port 500 (block_no / 2 ^ 8 % 256) io3 in
    let io5 = write_port 501 (block_no / 2 ^ 16 % 256) io4 in
    let io6 = write_port 502 (bit_or (bit_and (block_no / 2 ^ 24 % 256) 15) 224) io5 in
    ok (write_port 503 (command_of operation) io6)

-- The loop of `read` from word `i` on
unfoldable pub read_words : ℕ → ℕ → (ℕ → ℕ) → Io → Run ((ℕ → ℕ) × Io)
read_words zero i buf io = ok (buf, io)
read_words (suc rounds) i buf io = read_port 496 io >>= λ (r : ℕ × Io).
    read_words rounds (i + 1)
      (update (update buf (i * 2) (r.0 % 256)) (i * 2 + 1) (r.0 / 2 ^ 8 % 256)) r.1

-- The loop of `write` from word `i` on
unfoldable pub write_words : ℕ → ℕ → (ℕ → ℕ) → Io → Io
write_words zero i buf io = io
write_words (suc rounds) i buf io =
    write_words rounds (i + 1) buf
      (write_port 496 (bit_or (buf (2 * i)) (buf (2 * i + 1) * 2 ^ 8)) io)

unfoldable pub read : (Io → Run Io) → ℕ → (ℕ → ℕ) → Io → Run ((ℕ → ℕ) × Io)
read wait block_no buf io = ide_ata_issue_command wait read_operation block_no io >>= λ io1.
    ide_polling wait true io1 >>= λ (r : ℕ × Io). assert (r.0 == 0) >> read_words 256 0 buf r.1

unfoldable pub write : (Io → Run Io) → ℕ → (ℕ → ℕ) → Io → Run Io
write wait block_no buf io = ide_ata_issue_command wait write_operation block_no io >>= λ io1.
    ide_polling wait false io1 >>= λ (r : ℕ × Io).
    assert (r.0 == 0)
    >> (ide_polling wait false (ide_write_register 7 231 (write_words 256 0 buf r.1))
        >>= λ (t : ℕ × Io). assert (t.0 == 0) >> ok t.1)
