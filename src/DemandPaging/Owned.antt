-- ===== src/DemandPaging/Owned.antt =====
-- Each frame has one owner: the pool, the paging structures or one page of the demand-paged memory.
use demand_paged_virtual_mem.Common.{
  ℕ, ◌+◌, ◌*◌, ◌/◌, ◌%◌, ◌≤◌, ◌<◌, ◌≡◌, ◌≢◌, refl, ◌∙◌, sym, arith, ok, dec_lt, some, lt→ltb,
  le→ltb, eq→==, ne→==,
}
use demand_paged_virtual_mem.Common.{ℕ_discrete}
use demand_paged_virtual_mem.FramePool.{free, hos, Pool, get_state, get_frames}
use demand_paged_virtual_mem.FramePool.Count.{IsValid}
use demand_paged_virtual_mem.FramePool.Allocate.{section_state, get_frames_first_fit}
use demand_paged_virtual_mem.FramePool.OneFrame.{first_free-FirstFit}
use demand_paged_virtual_mem.PageTable.{Translation}
use demand_paged_virtual_mem.PageTable.Addresses.{table_index}
use demand_paged_virtual_mem.PageTable.Mmu.{frame_of}
use demand_paged_virtual_mem.PageTable.Fault.{IsPaging, IsFresh}

-- The addresses whose pages a fault maps: above the first 4 MB and below the last 4 MB, but for the
-- last page of each 4 MB region.
abbrev pub IsUsable : ℕ → Type 0
IsUsable a = (4194304 ≤ a) × (a < 4290772992) × (table_index a < 1023)

-- The addresses of the words of these pages: memory is words at addresses divisible by four, so that
-- two of them overlap only where they are the same.
abbrev pub IsWord : ℕ → Type 0
IsWord a = IsUsable a × (a % 4 ≡ 0)

pub record IsOwned (translate : Translation) (m : ℕ → ℕ) (cr3 : ℕ) (p : Pool) : Type 0 where
  pub paging : IsPaging m cr3
  pub valid : IsValid p
  pub real : 0 < p.base_frame_no
  pub fresh : (g : ℕ) → g < p.nframes → get_state p g ≡ free → IsFresh m cr3 (p.base_frame_no + g)
  pub unmapped :
      (g b x : ℕ)
      → g < p.nframes
      → get_state p g ≡ free
      → IsUsable b
      → translate m cr3 b ≡ some x
      → x / 4096 ≢ p.base_frame_no + g
  pub injective :
      (a b x y : ℕ)
      → IsUsable a
      → IsUsable b
      → translate m cr3 a ≡ some x
      → translate m cr3 b ≡ some y
      → x / 4096 ≡ y / 4096
      → a / 4096 ≡ b / 4096
  pub off_directory : (b x : ℕ) → IsUsable b → translate m cr3 b ≡ some x → frame_of x ≢ cr3
  pub off_tables :
      (b x i : ℕ)
      → IsUsable b
      → translate m cr3 b ≡ some x
      → i < 1023
      → m (cr3 + i * 4) % 2 ≡ 1
      → frame_of x ≢ frame_of (m (cr3 + i * 4))

-- One frame taken from the pool.
pub record OneTaken (p : Pool) (s : ℕ) (q : Pool) : Type 0 where
  pub inside : s < p.nframes
  pub was : get_state p s ≡ free
  pub left : (g : ℕ) → get_state q g ≡ free → (g ≢ s) × (get_state p g ≡ free)
  pub base : q.base_frame_no ≡ p.base_frame_no
  pub size : q.nframes ≡ p.nframes
  pub counter : q.n_free_frames + 1 ≡ p.n_free_frames
  pub valid : IsValid q

hos-not_free : hos ≢ free
hos-not_free e = ground arith

taken_here : (p : Pool) (s g : ℕ) → g ≡ s → section_state s 1 (get_state p) g ≡ hos
taken_here p s g e = rw (eq→== g s e) refl

taken_elsewhere : (p : Pool) (s g : ℕ) → g ≢ s → section_state s 1 (get_state p) g ≡ get_state p g
taken_elsewhere p s g ne = elim (dec_lt s g) [
  | yes above ↦ rw (ne→== g s ne, lt→ltb s g above, le→ltb g (s + 1) (omega arith)) refl
  | no below ↦ rw (ne→== g s ne, le→ltb s g (omega arith)) refl
]

pub get_frames-OneTaken :
    (p : Pool) (fuel : ℕ)
    → IsValid p
    → p.nframes < fuel
    → 0 < p.n_free_frames
    → (s : ℕ) × (q : Pool) × (get_frames fuel p 1 ≡ ok (p.base_frame_no + s, q)) × OneTaken p s q
get_frames-OneTaken p fuel v enough pos =
    let (s, fit) = first_free-FirstFit v fuel enough pos in
    let (q, got, a, valid) = get_frames_first_fit v (omega arith) fit fuel enough in
    (
      s,
      q,
      got,
      record {
        inside = omega (arith, fit.fits);
        was = fit.run s (omega arith) (omega arith);
        left = λ g is. elim (ℕ_discrete g s) [
          | yes e ↦ absurd (hos-not_free (sym (taken_here p s g e) ∙ sym (a.states g) ∙ is))
          | no ne ↦ (ne, sym (taken_elsewhere p s g ne) ∙ sym (a.states g) ∙ is)
        ];
        base = a.base;
        size = a.frames;
        counter = a.counter;
        valid = valid;
      },
    )
