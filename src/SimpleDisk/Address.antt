-- ===== src/SimpleDisk/Address.antt =====
-- The command that a block number becomes.
use demand_paged_virtual_mem.Common.{
  ℕ, ◌+◌, ◌*◌, ◌/◌, ◌%◌, ◌<◌, ◌≡◌, refl, ◌==◌, ◌∙◌, List, [], ◌∷◌, ◌++◌, arith, Run, ok, ap, ==→eq,
  bit_and, bit_or, ◌^◌,
}
use demand_paged_virtual_mem.Common.Bits.{all_below, all_below_sound}
use demand_paged_virtual_mem.SimpleDisk.{
  Access, outport, Io, DiskOperation, command_of, write_port, ide_ata_issue_command,
}

-- The accesses of a command with four bytes of address.
abbrev pub command_log : ℕ → ℕ → ℕ → ℕ → ℕ → List Access
command_log command b0 b1 b2 b3 =
    outport 498 1
    ∷ outport 499 b0
    ∷ outport 500 b1
    ∷ outport 501 b2
    ∷ outport 502 b3
    ∷ outport 503 command
    ∷ []

device_byte : (x : ℕ) → bit_or (bit_and (x % 256) 15) 224 ≡ 224 + x % 16
device_byte x = ==→eq (bit_or (bit_and (x % 256) 15) 224) (224 + x % 16) (
    ap (λ z. bit_or (bit_and (x % 256) 15) 224 == 224 + z) (omega arith)
    ∙ all_below_sound 256 (λ y. bit_or (bit_and y 15) 224 == 224 + y % 16) (x % 256)
        (unfold all_below in refl) (omega arith))

pub append_assoc : (xs ys zs : List Access) → (xs ++ ys) ++ zs ≡ xs ++ (ys ++ zs)
append_assoc [] ys zs = refl
append_assoc (x ∷ xs) ys zs = ap (λ z. x ∷ z) (append_assoc xs ys zs)

-- Behind the wait for the drive, a command is one sector at the block number in 28 bits: its bytes are
-- the digits of the number, and the highest one also selects the drive and the mode of addressing.
pub ide_ata_issue_command_lem :
    (wait : Io → Run Io) (operation : DiskOperation) (block_no : ℕ) (io io1 : Io)
    → wait io ≡ ok io1
    → (b0 b1 b2 b3 : ℕ) × (ide_ata_issue_command wait operation block_no io
        ≡ ok (record io1 { log = io1.log ++ command_log (command_of operation) b0 b1 b2 b3 }))
      × (b0 < 256)
      × (b1 < 256)
      × (b2 < 256)
      × (b3 / 16 ≡ 14)
      × (b0 + 2 ^ 8 * b1 + 2 ^ 16 * b2 + 2 ^ 24 * (b3 % 16) ≡ block_no % 2 ^ 28)
unfolding ide_ata_issue_command write_port
ide_ata_issue_command_lem wait operation block_no io io1 waited =
    let high = device_byte (block_no / 2 ^ 24) in
    (
      block_no % 256,
      block_no / 2 ^ 8 % 256,
      block_no / 2 ^ 16 % 256,
      224 + block_no / 2 ^ 24 % 16,
      rw (waited, high)
          (ap (λ z. ok (record io1 { log = z }))
            (appended (outport 498 1) (outport 499 (block_no % 256))
              (outport 500 (block_no / 2 ^ 8 % 256)) (outport 501 (block_no / 2 ^ 16 % 256))
              (outport 502 (224 + block_no / 2 ^ 24 % 16)) (outport 503 (command_of operation)))),
      omega arith,
      omega arith,
      omega arith,
      omega arith,
      omega arith,
    )
  where
    appended :
        (a b c d e f : Access)
        → (((((io1.log ++ a ∷ []) ++ b ∷ []) ++ c ∷ []) ++ d ∷ []) ++ e ∷ []) ++ f ∷ []
          ≡ io1.log ++ a ∷ b ∷ c ∷ d ∷ e ∷ f ∷ []
    appended a b c d e f =
        let l = io1.log in
        append_assoc ((((l ++ a ∷ []) ++ b ∷ []) ++ c ∷ []) ++ d ∷ []) (e ∷ []) (f ∷ [])
        ∙ append_assoc (((l ++ a ∷ []) ++ b ∷ []) ++ c ∷ []) (d ∷ []) (e ∷ f ∷ [])
        ∙ append_assoc ((l ++ a ∷ []) ++ b ∷ []) (c ∷ []) (d ∷ e ∷ f ∷ [])
        ∙ append_assoc (l ++ a ∷ []) (b ∷ []) (c ∷ d ∷ e ∷ f ∷ [])
        ∙ append_assoc l (a ∷ []) (b ∷ c ∷ d ∷ e ∷ f ∷ [])
