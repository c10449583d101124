-- ===== src/DemandPaging/Memory.antt =====
-- `store` and `load` on demand-paged memory.
use demand_paged_virtual_mem.Common.{word_mod}
use demand_paged_virtual_mem.Common.{
  ℕ, suc, ◌+◌, ◌%◌, ◌≤◌, ◌<◌, ◌≡◌, ◌≢◌, refl, ◌∙◌, sym, inl, inr, arith, update, ok, ap, none, some,
}
use demand_paged_virtual_mem.Common.{Option-cases}
use demand_paged_virtual_mem.FramePool.{Pool}
use demand_paged_virtual_mem.Dispatch.{handled, dispatch_exception}
use demand_paged_virtual_mem.PageTable.{Paging}
use demand_paged_virtual_mem.PageTable.Fill.{update-same}
use demand_paged_virtual_mem.DemandPaging.{System, handle_exception, resolve, store, load}
use demand_paged_virtual_mem.DemandPaging.Owned.{IsWord}
use demand_paged_virtual_mem.DemandPaging.Served.{
  IsSystem, IsReady, IsKept, none-not_some, dispatch_exception-IsServed,
}
use demand_paged_virtual_mem.DemandPaging.Access.{view, write-translate, write-IsOwned, write-other}

view-some :
    (sys : System) (st : Paging Pool) (a y : ℕ)
    → sys.translate st.memory st.cr3 a ≡ some y
    → view sys st a ≡ some (st.memory y)
unfolding view
view-some sys st a y at = rw (at, view) refl

view-none :
    (sys : System) (st : Paging Pool) (a : ℕ)
    → sys.translate st.memory st.cr3 a ≡ none
    → view sys st a ≡ none
unfolding view
view-none sys st a at = rw (at, view) refl

view-present :
    (sys : System) (st : Paging Pool) (a w : ℕ)
    → view sys st a ≡ some w
    → (y : ℕ) × (sys.translate st.memory st.cr3 a ≡ some y) × (st.memory y ≡ w)
view-present sys st a w seen = elim (Option-cases (sys.translate st.memory st.cr3 a)) [
  | inl absent ↦ absurd (none-not_some w (sym (view-none sys st a absent) ∙ seen))
  | inr (y, at) ↦
      let same : some (st.memory y) ≡ some w = sym (view-some sys st a y at) ∙ seen in (y, at, cc)
]

-- The reference at `a` found its word at `y`, in the state `st1`.
record IsResolved (sys : System) (fuel : ℕ) (st : Paging Pool) (a y : ℕ) (st1 : Paging Pool)
    : Type 0 where
  ready : IsReady sys fuel st1
  there : sys.translate st1.memory st1.cr3 a ≡ some y
  kept : IsKept sys st st1

resolve-hit :
    (rounds : ℕ) (sys : System) (err_code a y : ℕ) (st : Paging Pool)
    → sys.translate st.memory st.cr3 a ≡ some y
    → resolve (suc rounds) sys err_code a st ≡ ok (y, st)
unfolding resolve
resolve-hit rounds sys err_code a y st at = rw (at, resolve) refl

resolve-miss :
    (rounds : ℕ) (sys : System) (err_code a : ℕ) (st st1 : Paging Pool)
    → sys.translate st.memory st.cr3 a ≡ none
    → dispatch_exception (handle_exception sys err_code a) sys.handlers 14 st ≡ ok (handled st1)
    → resolve (suc rounds) sys err_code a st ≡ resolve rounds sys err_code a st1
unfolding resolve
resolve-miss rounds sys err_code a st st1 absent run = rw (absent, resolve, run) refl

-- The state behind a store.
pub record IsStored (sys : System) (fuel : ℕ) (st : Paging Pool) (a word : ℕ) (st1 : Paging Pool)
    : Type 0 where
  pub ready : IsReady sys fuel st1
  pub stored : view sys st1 a ≡ some word
  pub others : (b w : ℕ) → IsWord b → b ≢ a → view sys st b ≡ some w → view sys st1 b ≡ some w
  pub cost : st.frames.n_free_frames ≤ st1.frames.n_free_frames + 2

module _ {sys : System} {fuel : ℕ} (w : IsSystem sys fuel) (st : Paging Pool)
    (r : IsReady sys fuel st) (a : ℕ) (u : IsWord a) where
  resolve-IsResolved :
      (rounds err_code : ℕ)
      → err_code % 2 ≡ 0
      → 1 < st.frames.n_free_frames
      → (y : ℕ) × (st1 : Paging Pool) × (resolve (suc (suc rounds)) sys err_code a st ≡ ok (y, st1))
        × IsResolved sys fuel st a y st1
  resolve-IsResolved rounds err_code even pos =
      elim (Option-cases (sys.translate st.memory st.cr3 a)) [
        | inr (y, at) ↦ (
          y,
          st,
          resolve-hit (suc rounds) sys err_code a y st at,
          record {
            ready = r;
            there = at;
            kept = record { same_cr3 = refl; pages = λ b x ub bt. (bt, refl); cost = omega arith };
          },
        )
        | inl absent ↦
            let (st1, run, s) = dispatch_exception-IsServed w st r a u.0 absent err_code even pos in
            (
              s.physical,
              st1,
              resolve-miss (suc rounds) sys err_code a st st1 absent run
                  ∙ resolve-hit rounds sys err_code a s.physical st1 s.there,
              record { ready = s.ready; there = s.there; kept = s.kept },
            )
      ]

  -- A store ends, with the page there, the word stored, and all other words as before.
  pub store-IsStored :
      (rounds word : ℕ)
      → 1 < st.frames.n_free_frames
      → (st1 : Paging Pool) × (store (suc (suc rounds)) sys a word st ≡ ok st1)
        × IsStored sys fuel st a word st1
  store-IsStored rounds word pos =
      let (y, st1, run, s) = resolve-IsResolved rounds 2 (omega arith) pos in
      let o = s.ready.owned in
      let st2 : Paging Pool = record st1 { memory = update st1.memory y word } in
      let here : sys.translate st2.memory st2.cr3 a ≡ some y =
        write-translate w.mmu o a y word u.0 s.there a u.0 ∙ s.there in
      (
        st2,
        (unfold store in rw run refl),
        record {
          ready = record {
            owned = write-IsOwned w.mmu o a y word u.0 s.there;
            enough = s.ready.enough;
          };
          stored = view-some sys st2 a y here ∙ ap (λ z. some z) (update-same st1.memory y word);
          others = λ b v ub ne seen.
              let (x, bt, value) = view-present sys st b v seen in
              let (bt1, same) = s.kept.pages b x ub.0 bt in
              view-some sys st2 b x (write-translate w.mmu o a y word u.0 s.there b ub.0 ∙ bt1)
              ∙ ap (λ z. some z)
                  (write-other w.mmu o a y word u.0 s.there b x ub.0 ne bt1 ∙ same ∙ value);
          cost = s.kept.cost;
        },
      )

-- A load of a word that is there returns it, and changes nothing.
pub load-view :
    (rounds : ℕ) (sys : System) (st : Paging Pool) (a word : ℕ)
    → view sys st a ≡ some word
    → load (suc rounds) sys a st ≡ ok (word, st)
unfolding load
load-view rounds sys st a word seen =
    let (y, at, value) = view-present sys st a word seen in
    rw (resolve-hit rounds sys 0 a y st at) (ap (λ z. ok (z, st)) value)

module _ {sys : System} {fuel : ℕ} (w : IsSystem sys fuel) (st : Paging Pool)
    (r : IsReady sys fuel st) (a : ℕ) (u : IsWord a) where
  -- Demand-paged memory is an array of words. The processor's walk is a parameter with the
  -- documented behaviour of two-level paging, the frames come from the process pool, and the page
  -- fault handler is registered for exception 14. The memory is ready: each frame belongs to the
  -- pool, to the paging structures or to one page, and there is more fuel than the pool has
  -- frames. A usable address is one from 4 MB up to the last 4 MB and not on the last page of a 4
  -- MB region. With two frames free, a store of a 32-bit word at a usable address that is
  -- divisible by four ends; a load behind it returns the word stored, a load at any other usable
  -- address that is divisible by four and was present returns what was there before, the memory
  -- is ready again, and at most two frames are taken.
  pub load-store :
      (rounds word : ℕ)
      → word < word_mod
      → 1 < st.frames.n_free_frames
      → (st1 : Paging Pool) × (store (suc (suc rounds)) sys a word st ≡ ok st1)
        × (load (suc (suc rounds)) sys a st1 ≡ ok (word, st1))
        × ((b v : ℕ)
            → IsWord b
            → b ≢ a
            → view sys st b ≡ some v
            → load (suc (suc rounds)) sys b st1 ≡ ok (v, st1))
        × IsReady sys fuel st1
        × (st.frames.n_free_frames ≤ st1.frames.n_free_frames + 2)
  load-store rounds word small pos =
      let (st1, run, s) = store-IsStored w st r a u rounds word pos in
      (
        st1,
        run,
        load-view (suc rounds) sys st1 a word s.stored,
        (λ b v ub ne seen. load-view (suc rounds) sys st1 b v (s.others b v ub ne seen)),
        s.ready,
        s.cost,
      )
