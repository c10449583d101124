-- ===== src/FramePool.antt =====
-- cont_frame_pool.H and cont_frame_pool.C: frames in contiguous sections, two bits a frame.
mod States
pub mod Search
pub mod Count
pub mod Allocate
mod Sections
pub mod Release
pub mod PoolList
pub mod OneFrame
mod Failure
mod InfoFrames
pub mod Mark
pub mod Construct
mod Examples
use demand_paged_virtual_mem.Common.{
  ℕ, zero, suc, ◌||◌, ◌+◌, ◌-◌, ◌*◌, ◌/◌, ◌%◌, ◌^◌, bit_and, bit_or, bit_xor, Bool, true, false,
  ◌&&◌, not, List, [], ◌∷◌, ltb, leb, ◌==◌, if◌then◌else◌, update, add32, sub32, mul32, Run, ok,
  assert_failed, out_of_fuel, ◌>>=◌, ◌>>◌, assert,
}

-- `FRAME_SIZE`
abbrev pub frame_size : ℕ
frame_size = 4096

-- `enum class FrameState`
pub data FrameState : Type 0 where
  free used hos : FrameState

-- `==` on frame states
abbrev pub same : FrameState → FrameState → Bool
same free free = true
same used used = true
same hos hos = true
same _ _ = false

-- The members of a pool. `bitmap_at` is the pointer and `bitmap` the memory behind it: byte `i` is
-- `bitmap i`, also past the end of the pool's own map.
pub record Pool : Type 0 where
  pub bitmap_at : ℕ
  pub bitmap : ℕ → ℕ
  pub n_free_frames : ℕ
  pub base_frame_no : ℕ
  pub nframes : ℕ
  pub info_frame_no : ℕ
  pub info_frame_total : ℕ

-- `bits << (slot * 2)`, kept in an `unsigned char`
abbrev slot_mask : ℕ → ℕ → ℕ
slot_mask bits slot = (bits * 2 ^ (slot * 2)) % 256

-- The state in the two bits at `slot` of a byte.
pub slot_state : ℕ → ℕ → FrameState
slot_state byte slot =
    let state = bit_and byte (slot_mask 3 slot) / 2 ^ (slot * 2) in
    if state == 0 then used else if state == 1 then free else hos

-- The byte with the two bits at `slot` cleared and set anew.
pub set_slot : ℕ → ℕ → FrameState → ℕ
set_slot byte slot used = bit_and byte (bit_xor (slot_mask 3 slot) 255)
set_slot byte slot free = bit_or (bit_and byte (bit_xor (slot_mask 3 slot) 255)) (slot_mask 1 slot)
set_slot byte slot hos = bit_or (bit_and byte (bit_xor (slot_mask 3 slot) 255)) (slot_mask 2 slot)

unfoldable pub get_state : Pool → ℕ → FrameState
unfolding slot_state
get_state p frame_no = slot_state (p.bitmap (frame_no / 4)) (frame_no % 4)

unfoldable pub set_state : Pool → ℕ → FrameState → Pool
unfolding set_slot
set_state p frame_no state = record p {
  bitmap = update p.bitmap (frame_no / 4) (set_slot (p.bitmap (frame_no / 4)) (frame_no % 4) state);
}

-- The inner loop of `get_frames`: it skips frames that are not free and resets the counter. It has
-- no bound but the first free state in memory, hence the fuel.
unfoldable pub skip : ℕ → Pool → ℕ → ℕ → Run (ℕ × ℕ)
skip zero p frame_no count = out_of_fuel
skip (suc fuel) p frame_no count =
    let rest = skip fuel p (add32 frame_no 1) 0 in
    if same (get_state p frame_no) used || same (get_state p frame_no) hos
    then rest
    else ok (frame_no, count)

-- `if (get_state(frame_no) == Free) { count++; frame_no++; }`
unfoldable pub advance : Pool → ℕ × ℕ → ℕ × ℕ
advance p (frame_no, count) =
    if same (get_state p frame_no) free
    then (add32 frame_no 1, add32 count 1)
    else (frame_no, count)

-- The outer loop of `get_frames` for `n` frames.
unfoldable pub search_frames : ℕ → ℕ → Pool → ℕ → ℕ × ℕ → Run (ℕ × ℕ)
search_frames zero inner p n s = out_of_fuel
search_frames (suc fuel) inner p n (frame_no, count) =
    let body = skip inner p frame_no count >>= λ s.
    let t = advance p s in
    let rest = search_frames fuel inner p n t in if t.1 == n then ok t else rest in
    if ltb frame_no p.nframes then body else ok (frame_no, count)

-- `for (fno = last; fno > last - rounds; fno--) set_state(fno, Used)`
unfoldable pub mark_used : ℕ → Pool → ℕ → Pool
mark_used zero p fno = p
mark_used (suc rounds) p fno = mark_used rounds (set_state p fno used) (sub32 fno 1)

-- The part of `get_frames` behind its loop, for the `n` frames that end before `frame_no`.
unfoldable pub take_frames : Pool → ℕ → ℕ → ℕ × Pool
take_frames p n frame_no =
    let last = sub32 frame_no 1 in
    let first = sub32 frame_no n in
    let q = set_state (mark_used (last - first) p last) first hos in
    (add32 first p.base_frame_no, record q { n_free_frames = sub32 p.n_free_frames n })

-- `get_frames`: the first frame's number, or 0, and the pool after the call.
unfoldable pub get_frames : ℕ → Pool → ℕ → Run (ℕ × Pool)
get_frames fuel p n =
    assert (leb n p.n_free_frames)
    >> (search_frames fuel fuel p n (0, 0) >>= λ s.
        ok (if s.1 == n then take_frames p n s.0 else (0, p)))

-- `for (fno = fno; fno < fno + rounds; fno++) { set_state(fno, Used); nFreeFrames--; }`
unfoldable pub mark_rest : ℕ → Pool → ℕ → Pool
mark_rest zero p fno = p
mark_rest (suc rounds) p fno =
    let q = set_state p fno used in
    mark_rest rounds (record q { n_free_frames = sub32 q.n_free_frames 1 }) (add32 fno 1)

-- A head of section at `fno`, and `n - 1` used frames behind it. The head is marked even if `n` is 0.
unfoldable pub mark_inaccessible : Pool → ℕ → ℕ → Pool
mark_inaccessible p base n =
    let q = set_state p (sub32 base p.base_frame_no) hos in
    mark_rest (add32 base n - add32 base 1) (record q { n_free_frames = sub32 q.n_free_frames 1 })
      (sub32 (add32 base 1) p.base_frame_no)

-- The loop of `release_frames` behind the head: at most `rounds` frames, up to the first one that
-- is not used. `fno` is relative to the pool.
unfoldable pub free_rest : ℕ → Pool → ℕ → Pool
free_rest zero p fno = p
free_rest (suc rounds) p fno =
    let q = set_state p fno free in
    let rest =
      free_rest rounds (record q { n_free_frames = add32 q.n_free_frames 1 }) (add32 fno 1) in
    if same (get_state p fno) used then rest else p

-- `release_frames` in the pool that owns the frame `first`.
unfoldable pub release_in : Pool → ℕ → Run Pool
release_in p first =
    let fno = sub32 first p.base_frame_no in
    if same (get_state p fno) hos
    then (let q = set_state p fno free in
        ok (
          free_rest (add32 p.base_frame_no p.nframes - add32 first 1)
            (record q { n_free_frames = add32 q.n_free_frames 1 })
            (sub32 (add32 first 1) p.base_frame_no)))
    else assert_failed

-- `pool->base_frame_no <= frame && frame < pool->base_frame_no + pool->nframes`
abbrev pub owns : Pool → ℕ → Bool
owns p frame_no = leb p.base_frame_no frame_no && ltb frame_no (add32 p.base_frame_no p.nframes)

-- `release_frames` on the linked list of pools, its head first; no owner fails the assertion.
unfoldable pub release_frames : List Pool → ℕ → Run (List Pool)
release_frames [] first = assert_failed
release_frames (p ∷ ps) first =
    let here = release_in p first >>= λ q. ok (q ∷ ps) in
    let later = release_frames ps first >>= λ qs. ok (p ∷ qs) in
    if owns p first then here else later

-- The frames that hold the bitmap of a pool of `n` frames.
unfoldable pub needed_info_frames : ℕ → ℕ
needed_info_frames n = sub32 (add32 n (frame_size * 4)) 1 / (frame_size * 4)

-- `for (fno = fno; ...; fno++) set_state(fno, Free)`
unfoldable pub mark_free : ℕ → Pool → ℕ → Pool
mark_free zero p fno = p
mark_free (suc rounds) p fno = mark_free rounds (set_state p fno free) (add32 fno 1)

-- The loop that marks the info frames, from its round `i` on.
unfoldable pub mark_info : ℕ → Pool → ℕ → ℕ → Pool
mark_info zero p start i = p
mark_info (suc rounds) p start i =
    let fno = add32 (sub32 start p.base_frame_no) i in
    let q = set_state p fno (if i == 0 then hos else used) in
    mark_info rounds (record q { n_free_frames = sub32 q.n_free_frames 1 }) start (add32 i 1)

-- The constructor, over the memory that it finds where the bitmap is to be.
unfoldable pub new_pool : (ℕ → ℕ) → ℕ → ℕ → ℕ → Pool
new_pool memory base n info =
    let start = if info == 0 then base else info in
    let total = needed_info_frames n in
    let p =
      mark_free n
        (record {
          bitmap_at = mul32 start frame_size;
          bitmap = memory;
          n_free_frames = n;
          base_frame_no = base;
          nframes = n;
          info_frame_no = info;
          info_frame_total = total;
        })
        0 in
    if leb base start && leb (add32 start total) (add32 base n)
    then mark_info total p start 0
    else p
