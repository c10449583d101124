-- ===== src/SimpleDisk/Transfer.antt =====
-- What reaches the disk and comes back: polling, and the words of a block.
use demand_paged_virtual_mem.Common.{
  ℕ, zero, suc, ◌+◌, ◌*◌, ◌<◌, ◌≡◌, ◌≢◌, refl, true, false, ◌==◌, not, ◌∙◌, sym, if◌then◌else◌,
  List, [], ◌∷◌, ◌++◌, length, All, arith, Run, ok, ap, eq→==, ne→==, bit_and, bit_or, ◌^◌,
}
use demand_paged_virtual_mem.Common.Digits.{shift, bit_or-shift}
use demand_paged_virtual_mem.SimpleDisk.{
  Access, inport, outport, Io, read_port, get_status, is_busy, wait_while_busy, ide_read_register,
  read_alternate_status, ide_polling,
}
use demand_paged_virtual_mem.SimpleDisk.Address.{append_assoc}

abbrev pub IsInport : Access → Type 0
IsInport (inport port) = Unit
IsInport (outport port value) = ⊥

-- The wait for the drive ends at the end of these statuses, and has only read from ports.
abbrev pub Waited : (Io → Run Io) → List ℕ → Type 0
Waited wait statuses =
    (rest : List ℕ) (log : List Access)
    → (more : List Access) × (wait (record { inputs = statuses ++ rest; log = log })
        ≡ ok (record { inputs = rest; log = log ++ more }))
      × All IsInport more

wait-step :
    (fuel status : ℕ) (rest : List ℕ) (log : List Access)
    → wait_while_busy (suc fuel) (record { inputs = status ∷ rest; log = log }) ≡ (
        if not (bit_and status 128 == 0)
        then wait_while_busy fuel (record { inputs = rest; log = log ++ inport 503 ∷ [] })
        else ok (record { inputs = rest; log = log ++ inport 503 ∷ [] }))
unfolding wait_while_busy is_busy get_status read_port
wait-step fuel status rest log = refl

-- The wait of a simple disk ends, with more fuel than the drive is busy for.
pub wait_while_busy-Waited :
    (fuel : ℕ) (busy : List ℕ) (ready : ℕ)
    → length busy < fuel
    → All (λ status. bit_and status 128 ≢ 0) busy
    → bit_and ready 128 ≡ 0
    → Waited (wait_while_busy fuel) (busy ++ ready ∷ [])
wait_while_busy-Waited zero busy ready enough set clear rest log = absurd (omega arith)
wait_while_busy-Waited (suc fuel) [] ready enough set clear rest log = (
  inport 503 ∷ [],
  wait-step fuel ready rest log ∙ rw (eq→== (bit_and ready 128) 0 clear) refl,
  (tt, tt),
)
wait_while_busy-Waited (suc fuel) (b ∷ busy) ready enough (first, others) clear rest log =
    let (more, run, reads) =
      wait_while_busy-Waited fuel busy ready (omega arith) others clear rest
        (log ++ inport 503 ∷ []) in
    (
      inport 503 ∷ more,
      wait-step fuel b ((busy ++ ready ∷ []) ++ rest) log
          ∙ rw (ne→== (bit_and b 128) 0 first) (
              run
              ∙ ap (λ z. ok (record { inputs = rest; log = z }))
                  (append_assoc log (inport 503 ∷ []) more)),
      (tt, reads),
    )

-- The four reads that pass the time
abbrev alternate : List Access
alternate = inport 1016 ∷ inport 1016 ∷ inport 1016 ∷ inport 1016 ∷ []

read_alternate_status_lem :
    (a b c d : ℕ) (rest : List ℕ) (log : List Access)
    → read_alternate_status 4 (record { inputs = a ∷ b ∷ c ∷ d ∷ rest; log = log })
      ≡ ok (record { inputs = rest; log = log ++ alternate })
unfolding read_alternate_status ide_read_register read_port
read_alternate_status_lem a b c d rest log =
    let i = inport 1016 in
    ap (λ z. ok (record { inputs = rest; log = z }))
      (append_assoc (((log ++ i ∷ []) ++ i ∷ [])) (i ∷ []) (i ∷ [])
        ∙ append_assoc (log ++ i ∷ []) (i ∷ []) (i ∷ i ∷ [])
        ∙ append_assoc log (i ∷ []) (i ∷ i ∷ i ∷ []))

-- The number that `ide_polling` returns for a status
abbrev pub verdict : ℕ → ℕ
verdict status =
    if not (bit_and status 1 == 0)
    then 2
    else if not (bit_and status 32 == 0)
    then 1
    else if bit_and status 8 == 0
    then 3
    else 0

module _ (wait : Io → Run Io) (statuses : List ℕ) (w : Waited wait statuses) (a b c d : ℕ) where
  pub polling-plain :
      (rest : List ℕ) (log : List Access)
      → (more : List Access) × (ide_polling wait false
            (record { inputs = a ∷ b ∷ c ∷ d ∷ (statuses ++ rest); log = log })
          ≡ ok (0, record { inputs = rest; log = log ++ more }))
        × All IsInport more
  unfolding ide_polling
  polling-plain rest log =
      let (more, run, reads) = w rest (log ++ alternate) in
      (
        alternate ++ more,
        rw (read_alternate_status_lem a b c d (statuses ++ rest) log, run)
            (ap (λ z. ok (0, record { inputs = rest; log = z })) (append_assoc log alternate more)),
        (tt, (tt, (tt, (tt, reads)))),
      )

  pub polling-checked :
      (status : ℕ) (rest : List ℕ) (log : List Access)
      → (log' : List Access) × (ide_polling wait true
            (record { inputs = a ∷ b ∷ c ∷ d ∷ (statuses ++ status ∷ rest); log = log })
          ≡ ok (verdict status, record { inputs = rest; log = log' }))
  unfolding ide_polling get_status read_port
  polling-checked status rest log =
      let (more, run, reads) = w (status ∷ rest) (log ++ alternate) in
      (
        ((log ++ alternate) ++ more) ++ inport 503 ∷ [],
        rw (read_alternate_status_lem a b c d (statuses ++ status ∷ rest) log, run) refl,
      )

-- The words of a block from word `i` on
unfoldable pub words : ℕ → ℕ → (ℕ → ℕ) → List ℕ
words zero i buf = []
words (suc k) i buf = (buf (2 * i) + buf (2 * i + 1) * 256) ∷ words k (i + 1) buf

pub word_of : (low high : ℕ) → low < 256 → bit_or low (high * 2 ^ 8) ≡ low + high * 256
word_of low high lt =
    let shifted : shift 8 high ≡ high * 2 ^ 8 = omega arith in
    let sum : low + shift 8 high ≡ low + high * 256 = omega arith in
    ap (bit_or low) (sym shifted) ∙ bit_or-shift 8 low high (omega arith) ∙ sum
