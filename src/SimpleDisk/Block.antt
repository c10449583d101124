-- ===== src/SimpleDisk/Block.antt =====
-- Blocks written to the disk and read back.
use demand_paged_virtual_mem.Common.{
  ℕ, zero, suc, ◌+◌, ◌*◌, ◌/◌, ◌%◌, ◌≤◌, ◌<◌, ◌≡◌, ◌≢◌, refl, ◌∙◌, sym, ◌⊎◌, inl, inr, List, [],
  ◌∷◌, ◌++◌, All, arith, update, Run, ok, assert_failed, dec_le, ap, eq→==, ne→==, bit_or, ◌^◌,
}
use demand_paged_virtual_mem.Common.{map}
use demand_paged_virtual_mem.SimpleDisk.{
  Access, inport, outport, Io, read_operation, write_operation, command_of, read_port, write_port,
  ide_write_register, read_words, write_words, read, write,
}
use demand_paged_virtual_mem.SimpleDisk.Address.{
  command_log, append_assoc, ide_ata_issue_command_lem,
}
use demand_paged_virtual_mem.SimpleDisk.Transfer.{
  IsInport, Waited, verdict, polling-plain, polling-checked, words, word_of,
}

abbrev pub IsBytes : (ℕ → ℕ) → Type 0
IsBytes buf = (j : ℕ) → buf j < 256

write_words_lem :
    (k i : ℕ) (buf : ℕ → ℕ) (io : Io)
    → IsBytes buf
    → write_words k i buf io ≡ record io { log = io.log ++ map (outport 496) (words k i buf) }
unfolding write_words words write_port
write_words_lem zero i buf io bytes = ap (λ z. record io { log = z }) (append_nil io.log)
  where
    append_nil : (xs : List Access) → xs ≡ xs ++ []
    append_nil [] = refl
    append_nil (x ∷ xs) = ap (λ z. x ∷ z) (append_nil xs)
write_words_lem (suc k) i buf io bytes =
    let w = bit_or (buf (2 * i)) (buf (2 * i + 1) * 2 ^ 8) in
    let same = word_of (buf (2 * i)) (buf (2 * i + 1)) (bytes (2 * i)) in
    write_words_lem k (i + 1) buf (record io { log = io.log ++ outport 496 w ∷ [] }) bytes
    ∙ ap (λ z. record io { log = z })
        (append_assoc io.log (outport 496 w ∷ []) (map (outport 496) (words k (i + 1) buf))
          ∙ ap (λ z. io.log ++ (outport 496 z ∷ map (outport 496) (words k (i + 1) buf))) same)

-- The bytes from `from` up to `to` come from one buffer and the others from another one.
pub record IsCopied (from to : ℕ) (source target result : ℕ → ℕ) : Type 0 where
  pub inside : (j : ℕ) → from ≤ j → j < to → result j ≡ source j
  pub outside : (j : ℕ) → (j < from) ⊎ (to ≤ j) → result j ≡ target j

read_words-next :
    (k i v : ℕ) (out : ℕ → ℕ) (rest : List ℕ) (log : List Access)
    → read_words (suc k) i out (record { inputs = v ∷ rest; log = log })
      ≡ read_words k
          (i + 1)
          (update (update out (i * 2) (v % 256)) (i * 2 + 1) (v / 2 ^ 8 % 256))
          (record { inputs = rest; log = log ++ inport 496 ∷ [] })
unfolding read_words read_port
read_words-next k i v out rest log = refl

two_bytes :
    (i k v : ℕ) (buf out out' : ℕ → ℕ)
    → IsBytes buf
    → v ≡ buf (2 * i) + buf (2 * i + 1) * 256
    → IsCopied
        (2 * (i + 1))
        (2 * (i + 1 + k))
        buf
        (update (update out (i * 2) (v % 256)) (i * 2 + 1) (v / 2 ^ 8 % 256))
        out'
    → IsCopied (2 * i) (2 * (i + suc k)) buf out out'
two_bytes i k v buf out out' bytes e c =
    let low : v % 256 ≡ buf (2 * i) = omega (arith, bytes (2 * i)) in
    let high : v / 2 ^ 8 % 256 ≡ buf (2 * i + 1) =
      omega (arith, bytes (2 * i), bytes (2 * i + 1)) in
    record {
      inside = λ j lo hi. elim (dec_le (2 * (i + 1)) j) [
        | yes later ↦ c.inside j later (omega arith)
        | no early ↦ c.outside j (inl (omega arith)) ∙ at j low high (omega arith)
      ];
      outside = λ j out_.
          c.outside j (ground (arith, out_))
          ∙ rw (ne→== (i * 2 + 1) j (ground (arith, out_)), ne→== (i * 2) j (ground (arith, out_)))
              refl;
    }
  where
    at :
        (j : ℕ)
        → v % 256 ≡ buf (2 * i)
        → v / 2 ^ 8 % 256 ≡ buf (2 * i + 1)
        → (j ≡ 2 * i) ⊎ (j ≡ 2 * i + 1)
        → update (update out (i * 2) (v % 256)) (i * 2 + 1) (v / 2 ^ 8 % 256) j ≡ buf j
    at j low high (inl first) =
        rw (ne→== (i * 2 + 1) j (omega arith), eq→== (i * 2) j (omega arith))
          (low ∙ ap buf (sym first))
    at j low high (inr second) = rw (eq→== (i * 2 + 1) j (omega arith)) (high ∙ ap buf (sym second))

read_words_lem :
    (k i : ℕ) (buf out : ℕ → ℕ) (rest : List ℕ) (log : List Access)
    → IsBytes buf
    → (out' : ℕ → ℕ) × (log' : List Access) × (read_words k i out
          (record { inputs = words k i buf ++ rest; log = log })
        ≡ ok (out', record { inputs = rest; log = log' }))
      × IsCopied (2 * i) (2 * (i + k)) buf out out'
read_words_lem zero i buf out rest log bytes = (
  out,
  log,
  unfold read_words words in refl,
  record { inside = λ j lo hi. absurd (omega arith); outside = λ j out_. refl },
)
read_words_lem (suc k) i buf out rest log bytes =
    let v = buf (2 * i) + buf (2 * i + 1) * 256 in
    let (out', log', run, copied) =
      read_words_lem k (i + 1) buf
        (update (update out (i * 2) (v % 256)) (i * 2 + 1) (v / 2 ^ 8 % 256)) rest
        (log ++ inport 496 ∷ []) bytes in
    (
      out',
      log',
      ap (λ z. read_words (suc k) i out (record { inputs = z ++ rest; log = log })) words-next
          ∙ read_words-next k i v out (words k (i + 1) buf ++ rest) log
          ∙ run,
      two_bytes i k v buf out out' bytes refl copied,
    )
  where
    words-next : words (suc k) i buf ≡ (buf (2 * i) + buf (2 * i + 1) * 256) ∷ words k (i + 1) buf
    words-next = unfold words in refl

-- The accesses of a command up to its data: the command's own ones write the block number and the
-- rest are reads.
pub record Sent (block_no command : ℕ) (log log1 : List Access) : Type 0 where
  pub waited : List Access
  pub polled : List Access
  pub b0 : ℕ
  pub b1 : ℕ
  pub b2 : ℕ
  pub b3 : ℕ
  pub wait_reads : All IsInport waited
  pub poll_reads : All IsInport polled
  pub sent : log1 ≡ ((log ++ waited) ++ command_log command b0 b1 b2 b3) ++ polled
  pub bytes : (b0 < 256) × (b1 < 256) × (b2 < 256) × (b3 / 16 ≡ 14)
  pub address : b0 + 2 ^ 8 * b1 + 2 ^ 16 * b2 + 2 ^ 24 * (b3 % 16) ≡ block_no % 2 ^ 28

module _ (wait : Io → Run Io) (block_no : ℕ) (buf : ℕ → ℕ) (bytes : IsBytes buf) where
  module _ (w1 w2 w3 : List ℕ) (ready1 : Waited wait w1) (ready2 : Waited wait w2)
      (ready3 : Waited wait w3) (a b c d e f g h : ℕ) (rest : List ℕ) (log : List Access) where
    -- What the controller answers during a write.
    abbrev pub write_inputs : List ℕ
    write_inputs = w1 ++ (a ∷ b ∷ c ∷ d ∷ (w2 ++ (e ∷ f ∷ g ∷ h ∷ (w3 ++ rest))))

    -- A write of a buffer of bytes, each of whose waits for the drive ends at the end of its
    -- statuses, accesses the ports in this order: reads of the wait, a write command whose
    -- address bytes spell the block number in 28 bits, reads of the poll, the 256 words of the
    -- buffer's first 512 bytes, the flush command, and reads.
    pub write_lem :
        (log1 : List Access) × (more : List Access) × Sent block_no 48 log log1
        × (write wait block_no buf (record { inputs = write_inputs; log = log })
            ≡ ok (record {
              inputs = rest;
              log = ((log1 ++ map (outport 496) (words 256 0 buf)) ++ outport 503 231 ∷ []) ++ more;
            }))
        × All IsInport more
    unfolding write command_of
    write_lem =
        let tail3 = e ∷ f ∷ g ∷ h ∷ (w3 ++ rest) in
        let tail1 = a ∷ b ∷ c ∷ d ∷ (w2 ++ tail3) in
        let (m1, run1, reads1) = ready1 tail1 log in
        let (b0, b1, b2, b3, issued, l0, l1, l2, drive, address) =
          ide_ata_issue_command_lem wait write_operation block_no
            (record { inputs = write_inputs; log = log })
            (record { inputs = tail1; log = log ++ m1 }) run1 in
        let sent = (log ++ m1) ++ command_log 48 b0 b1 b2 b3 in
        let (m2, polled, reads2) = polling-plain wait w2 ready2 a b c d tail3 sent in
        let filled =
          write_words_lem 256 0 buf (record { inputs = tail3; log = sent ++ m2 }) bytes in
        let (m3, flushed, reads3) =
          polling-plain wait w3 ready3 e f g h rest
            (((sent ++ m2) ++ map (outport 496) (words 256 0 buf)) ++ outport 503 231 ∷ []) in
        (
          sent ++ m2,
          m3,
          record {
            waited = m1;
            polled = m2;
            b0 = b0;
            b1 = b1;
            b2 = b2;
            b3 = b3;
            wait_reads = reads1;
            poll_reads = reads2;
            sent = refl;
            bytes = (l0, l1, l2, drive);
            address = address;
          },
          (unfold command_of ide_write_register write_port in
              rw (issued, polled, filled, flushed) refl),
          reads3,
        )

  module _ (w1 w2 : List ℕ) (ready1 : Waited wait w1) (ready2 : Waited wait w2) (a b c d status : ℕ)
      (rest : List ℕ) (log : List Access) (out : ℕ → ℕ) where
    -- What the controller answers during a read of the words that the write has sent.
    abbrev pub read_inputs : List ℕ
    read_inputs = w1 ++ (a ∷ b ∷ c ∷ d ∷ (w2 ++ status ∷ (words 256 0 buf ++ rest)))

    -- A read whose data words are those that a write sends for a buffer of bytes, and whose waits
    -- and status answer with no error, ends with the first 512 bytes of its buffer equal to the
    -- written ones and the rest of its buffer unchanged. Every wait for the drive ends at the end
    -- of its statuses.
    pub read-write :
        verdict status ≡ 0
        → (out' : ℕ → ℕ) × (log' : List Access) × (read wait block_no out
              (record { inputs = read_inputs; log = log })
            ≡ ok (out', record { inputs = rest; log = log' }))
          × IsCopied 0 512 buf out out'
    unfolding read
    read-write good =
        let tail2 = words 256 0 buf ++ rest in
        let tail1 = a ∷ b ∷ c ∷ d ∷ (w2 ++ status ∷ tail2) in
        let (m1, run1, reads1) = ready1 tail1 log in
        let (b0, b1, b2, b3, issued, l0, l1, l2, drive, address) =
          ide_ata_issue_command_lem wait read_operation block_no
            (record { inputs = read_inputs; log = log })
            (record { inputs = tail1; log = log ++ m1 }) run1 in
        let (m2, polled) =
          polling-checked wait w2 ready2 a b c d status tail2
            ((log ++ m1) ++ command_log (command_of read_operation) b0 b1 b2 b3) in
        let (out', log', run, copied) = read_words_lem 256 0 buf out rest m2 bytes in
        (out', log', rw (issued, polled, good, run) refl, copied)

    pub read_failed :
        verdict status ≢ 0
        → read wait block_no out (record { inputs = read_inputs; log = log }) ≡ assert_failed
    unfolding read
    read_failed bad =
        let tail2 = words 256 0 buf ++ rest in
        let tail1 = a ∷ b ∷ c ∷ d ∷ (w2 ++ status ∷ tail2) in
        let (m1, run1, reads1) = ready1 tail1 log in
        let (b0, b1, b2, b3, issued, l0, l1, l2, drive, address) =
          ide_ata_issue_command_lem wait read_operation block_no
            (record { inputs = read_inputs; log = log })
            (record { inputs = tail1; log = log ++ m1 }) run1 in
        let (m2, polled) =
          polling-checked wait w2 ready2 a b c d status tail2
            ((log ++ m1) ++ command_log (command_of read_operation) b0 b1 b2 b3) in
        rw (issued, polled, ne→== (verdict status) 0 bad) refl
