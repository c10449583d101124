-- ===== src/FramePool/States.antt =====
-- The two-bit map behaves as an array of frame states.
use demand_paged_virtual_mem.Common.{
  ℕ, ◌/◌, ◌%◌, ◌<◌, ◌≡◌, ◌≢◌, refl, Bool, true, ◌&&◌, inl, inr, ◌==◌, if◌then◌else◌, arith, ltb,
  ==→eq, Bool-cases, ne→==, ==→ne, ap, sym,
}
use demand_paged_virtual_mem.Common.Bits.{all_below, all_below_sound}
use demand_paged_virtual_mem.FramePool.{
  FrameState, free, used, hos, same, Pool, slot_state, set_slot, get_state, set_state,
}

-- The map's memory holds bytes.
abbrev pub Bytes : Pool → Type 0
Bytes p = (i : ℕ) → p.bitmap i < 256

same→eq : (s t : FrameState) → same s t ≡ true → s ≡ t
same→eq s t h = ground arith

-- What `set_slot` does, as a test on one byte, one slot, and one state.
abbrev slot_test : FrameState → ℕ → ℕ → Bool
slot_test s slot b =
    ltb (set_slot b slot s) 256
    && same (slot_state (set_slot b slot s) slot) s
    && all_below 4 (λ other.
      if other == slot
      then true
      else same (slot_state (set_slot b slot s) other) (slot_state b other))

slot_table_free : all_below 256 (λ b. all_below 4 (λ slot. slot_test free slot b)) ≡ true
unfolding all_below slot_state set_slot
slot_table_free = refl

slot_table_used : all_below 256 (λ b. all_below 4 (λ slot. slot_test used slot b)) ≡ true
unfolding all_below slot_state set_slot
slot_table_used = refl

slot_table_hos : all_below 256 (λ b. all_below 4 (λ slot. slot_test hos slot b)) ≡ true
unfolding all_below slot_state set_slot
slot_table_hos = refl

slot_holds : (s : FrameState) (slot b : ℕ) → slot < 4 → b < 256 → slot_test s slot b ≡ true
slot_holds free slot b hs hb =
    all_below_sound 4 (λ slot. slot_test free slot b) slot
      (all_below_sound 256 (λ b. all_below 4 (λ slot. slot_test free slot b)) b slot_table_free hb)
      hs
slot_holds used slot b hs hb =
    all_below_sound 4 (λ slot. slot_test used slot b) slot
      (all_below_sound 256 (λ b. all_below 4 (λ slot. slot_test used slot b)) b slot_table_used hb)
      hs
slot_holds hos slot b hs hb =
    all_below_sound 4 (λ slot. slot_test hos slot b) slot
      (all_below_sound 256 (λ b. all_below 4 (λ slot. slot_test hos slot b)) b slot_table_hos hb) hs

set_slot-lt : (s : FrameState) (slot b : ℕ) → slot < 4 → b < 256 → set_slot b slot s < 256
set_slot-lt s slot b hs hb = ground (arith, slot_holds s slot b hs hb)

slot_state-set_slot_self :
    (s : FrameState) (slot b : ℕ) → slot < 4 → b < 256 → slot_state (set_slot b slot s) slot ≡ s
slot_state-set_slot_self s slot b hs hb =
    same→eq (slot_state (set_slot b slot s) slot) s (ground (arith, slot_holds s slot b hs hb))

slot_state-set_slot_ne :
    (s : FrameState) (slot other b : ℕ)
    → slot < 4
    → b < 256
    → other < 4
    → other ≢ slot
    → slot_state (set_slot b slot s) other ≡ slot_state b other
slot_state-set_slot_ne s slot other b hs hb ho ne =
    same→eq _ _ (ground (arith, tested, ne→== other slot ne))
  where
    each :
        all_below 4 (λ other.
          if other == slot
          then true
          else same (slot_state (set_slot b slot s) other) (slot_state b other))
        ≡ true
    each = ground (arith, slot_holds s slot b hs hb)

    tested :
        (if other == slot
          then true
          else same (slot_state (set_slot b slot s) other) (slot_state b other))
        ≡ true
    tested =
        all_below_sound 4
          (λ other.
            if other == slot
            then true
            else same (slot_state (set_slot b slot s) other) (slot_state b other))
          other each ho

pub set_state-Bytes : (p : Pool) (f : ℕ) (s : FrameState) → Bytes p → Bytes (set_state p f s)
unfolding set_state
set_state-Bytes p f s h i =
    ground (arith, h i, set_slot-lt s (f % 4) (p.bitmap (f / 4)) (omega arith) (h (f / 4)))

-- In a bitmap of bytes, writing the state of frame `f` changes the state of `f`, and of no other
-- frame.
pub get_state-set_state :
    (p : Pool) (f g : ℕ) (s : FrameState)
    → Bytes p
    → get_state (set_state p f s) g ≡ (if f == g then s else get_state p g)
unfolding get_state set_state
get_state-set_state p f g s h = elim (Bool-cases (f / 4 == g / 4)) [
  | inr apart ↦ rw (apart, ne→== f g (λ e. ==→ne (f / 4) (g / 4) apart (ap (λ x. x / 4) e))) refl
  | inl near ↦ elim (Bool-cases (f == g)) [
    | inl e ↦
        rw (near, e, ap (λ x. x % 4) (sym (==→eq f g e)))
          (slot_state-set_slot_self s (f % 4) (p.bitmap (f / 4)) (omega arith) (h (f / 4)))
    | inr e ↦
        rw (near, e, ← ==→eq (f / 4) (g / 4) near)
          (slot_state-set_slot_ne s (f % 4) (g % 4) (p.bitmap (f / 4)) (omega arith) (h (f / 4))
            (omega arith) (omega (arith, ==→eq (f / 4) (g / 4) near, ==→ne f g e)))
  ]
]
