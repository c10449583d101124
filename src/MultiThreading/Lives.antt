-- ===== src/MultiThreading/Lives.antt =====
-- Threads that pass the processor on and threads that end, in any order.
use demand_paged_virtual_mem.Common.{length-append}
use demand_paged_virtual_mem.Common.{
  ℕ, suc, ◌+◌, ◌*◌, ◌≤◌, ◌<◌, ◌≡◌, refl, Bool, ◌==◌, ◌∙◌, sym, subst, if◌then◌else◌, List, [], ◌∷◌,
  ◌++◌, length, arith, ok, ap, word_mod, eq→==, ne→==,
}
use demand_paged_virtual_mem.Scheduler.Queue.{IsQueue}
use demand_paged_virtual_mem.MultiThreading.{World, Sizes, pass_on_cpu}
use demand_paged_virtual_mem.Common.{append_nil, append_assoc}
use demand_paged_virtual_mem.MultiThreading.Order.{rotate}
use demand_paged_virtual_mem.Thread.Shutdown.{thread_shutdown_lem}
use demand_paged_virtual_mem.MultiThreading.{finish}
use demand_paged_virtual_mem.MultiThreading.Turns.{
  Below, threads_of, IsTurn, run_on-Onward, pass_on_cpu-IsTurn,
}

-- How often `x` is in a list.
abbrev pub count : ℕ → List ℕ → ℕ
count x [] = 0
count x (y ∷ ys) = (if x == y then 1 else 0) + count x ys

count-append : (x : ℕ) (ys zs : List ℕ) → count x (ys ++ zs) ≡ count x ys + count x zs
count-append x [] zs = omega arith
count-append x (y ∷ ys) zs = omega (arith, count-append x ys zs)

count-rotate : (x : ℕ) (ys : List ℕ) → count x (rotate ys) ≡ count x ys
count-rotate x [] = refl
count-rotate x (y ∷ ys) = omega (arith, count-append x ys (y ∷ []))

length-rotate : (ys : List ℕ) → length (rotate ys) ≡ length ys
length-rotate [] = refl
length-rotate (y ∷ ys) = omega (arith, length-append ys (y ∷ []))

-- The zombie, if there is one
abbrev pub zombies : World → List ℕ
zombies w = if w.kernel.zombie_thread == 0 then [] else w.kernel.zombie_thread ∷ []

-- What the threads do, with the number of passes, the threads that ended and those that were deleted,
-- both in their order.
pub data Steps (sizes : Sizes) (fuel : ℕ) (busy : ℕ → Bool)
    : World → ℕ → List ℕ → List ℕ → World → Type 0 where
  nothing : {w : World} → Steps sizes fuel busy w 0 [] [] w
  passed :
      {w w1 w2 : World} {n : ℕ} {es ds : List ℕ}
      → pass_on_cpu sizes fuel busy w ≡ ok w1
      → Steps sizes fuel busy w1 n es ds w2
      → Steps sizes fuel busy w (suc n) es ds w2
  ended :
      {w w1 w2 : World} {n : ℕ} {es ds deleted : List ℕ}
      → finish fuel busy w ≡ ok (deleted, w1)
      → Steps sizes fuel busy w1 n es ds w2
      → Steps sizes fuel busy w n (w.kernel.current_thread ∷ es) (deleted ++ ds) w2

nodes_cases :
    (xs : List (ℕ × ℕ)) (u : ℕ) (ts : List ℕ)
    → threads_of xs ≡ u ∷ ts
    → (a : ℕ) × (rest : List (ℕ × ℕ)) × (xs ≡ (a, u) ∷ rest) × (threads_of rest ≡ ts)
nodes_cases [] u ts e = absurd cc
nodes_cases (x ∷ xs) u ts e =
    let first : x.1 ≡ u = cc in (x.0, xs, ap (λ z. (x.0, z) ∷ xs) first, cc)

-- A thread that ends hands over to the next one in the order, and becomes the zombie.
pub finish-IsTurn :
    (fuel : ℕ) (busy : ℕ → Bool) (w : World) (t u : ℕ) (ts : List ℕ)
    → IsTurn w (t ∷ u ∷ ts)
    → (w' : World) × (finish (suc fuel) busy w ≡ ok (zombies w, w'))
      × IsTurn w' (u ∷ ts)
      × (w'.kernel.zombie_thread ≡ t)
      × (w'.start_address ≡ w.start_address)
unfolding finish
finish-IsTurn fuel busy w t u ts i =
    let k = w.kernel in
    let running : k.current_thread ≡ t = let e = i.order in cc in
    let others : threads_of i.nodes ≡ u ∷ ts = let e = i.order in cc in
    let (a, rest, split, left) = nodes_cases i.nodes u ts others in
    let (k1, run, zombie, current, ready, idle, free) =
      thread_shutdown_lem fuel busy k a u rest i.free (λ e. i.reals.0 (sym running ∙ e)) i.idle
        (subst (IsQueue k.ready) split i.ready) in
    let (w1, run1, o) = run_on-Onward (record w { kernel = k1 }) in
    let below : Below w.start_address ((a, u) ∷ rest) =
      subst (Below w.start_address) split i.below in
    (
      w1,
      rw (run, run1) refl,
      record {
        nodes = rest;
        order = ap (λ z. z ∷ threads_of rest) (o.same_thread ∙ current) ∙ ap (λ z. u ∷ z) left;
        ready = subst (λ z. IsQueue z rest) (sym o.same_ready) ready;
        below = subst (λ z. Below z rest) (sym o.same_pool) below.1;
        pool = λ e. i.pool (sym o.same_pool ∙ e);
        reals = i.reals.1;
        free = o.same_lock ∙ free;
        idle = subst (λ z. IsQueue z []) (sym o.same_waiting) idle;
      },
      o.same_zombie ∙ zombie ∙ running,
      o.same_pool,
    )

same_result : {A : Type 0} {a b : A} → ok a ≡ ok b → a ≡ b
same_result e = cc

module _ (sizes : Sizes) (fuel : ℕ) (busy : ℕ → Bool) (sized : 0 < sizes.ready_thread) where
  abbrev Passed : World → List ℕ → World → Type 0
  Passed w ts w' =
      IsTurn w' (rotate ts)
      × (w'.kernel.zombie_thread ≡ w.kernel.zombie_thread)
      × (w'.start_address ≡ w.start_address + sizes.ready_thread)

  abbrev Finished : World → ℕ → ℕ → List ℕ → World → Type 0
  Finished w t u ts w' =
      IsTurn w' (u ∷ ts) × (w'.kernel.zombie_thread ≡ t) × (w'.start_address ≡ w.start_address)

  -- No thread is lost: it is in the order of turns or has ended.
  pub Steps-IsTurn :
      {w w' : World} {n : ℕ} {es ds : List ℕ} (ts : List ℕ)
      → Steps sizes (suc fuel) busy w n es ds w'
      → IsTurn w ts
      → length es < length ts
      → w.start_address + n * sizes.ready_thread < word_mod
      → (ts' : List ℕ) × IsTurn w' ts'
        × ((x : ℕ) → count x ts ≡ count x ts' + count x es)
        × (zombies w ++ es ≡ ds ++ zombies w')
        × (w'.start_address ≡ w.start_address + n * sizes.ready_thread)
  Steps-IsTurn ts nothing i few small = (ts, i, (λ x. omega arith), append_nil _, omega arith)
  Steps-IsTurn ts (passed {w} {w1} {w2} {n} {es} {ds} run steps) i few small =
      let one_more : suc n * sizes.ready_thread ≡ sizes.ready_thread + n * sizes.ready_thread =
        omega arith in
      let (there, run', next_turn, next_zombie, next_pool) =
        pass_on_cpu-IsTurn sizes fuel busy sized w ts i (omega (arith, one_more)) in
      let (i1, zombie, grown) =
        subst (Passed w ts) (same_result (sym run' ∙ run)) (next_turn, next_zombie, next_pool) in
      let (ts', i', counts, deaths, pool) =
        Steps-IsTurn (rotate ts) steps i1 (omega (arith, few, length-rotate ts))
          (omega (arith, grown, one_more, small)) in
      (
        ts',
        i',
        (λ x. omega (arith, counts x, count-rotate x ts)),
        ap (λ z. (if z == 0 then [] else z ∷ []) ++ es) (sym zombie) ∙ deaths,
        omega (arith, pool, grown, one_more),
      )
  Steps-IsTurn [] (ended run steps) i few small = absurd (omega (arith, few))
  Steps-IsTurn (t ∷ []) (ended run steps) i few small = absurd (omega (arith, few))
  Steps-IsTurn (t ∷ u ∷ ts) (ended {w} {w1} {w2} {n} {es} {ds} {deleted} run steps) i few small =
      let running : w.kernel.current_thread ≡ t = let e = i.order in cc in
      let (there, run', next_turn, next_zombie, next_pool) = finish-IsTurn fuel busy w t u ts i in
      let result : (zombies w, there) ≡ (deleted, w1) = same_result (sym run' ∙ run) in
      let (i1, zombie, pool1) =
        subst (Finished w t u ts) (ap (λ z. z.1) result) (next_turn, next_zombie, next_pool) in
      let (ts', i', counts, deaths, pool) =
        Steps-IsTurn (u ∷ ts) steps i1 (omega (arith, few)) (omega (arith, pool1, small)) in
      let dead : zombies w1 ≡ t ∷ [] = rw (zombie, ne→== t 0 i.reals.0) refl in
      (
        ts',
        i',
        (λ x.
            ap (λ z. (if x == z then 1 else 0) + count x (u ∷ ts)) (sym running)
            ∙ omega (arith, counts x)),
        ap (λ z. z ++ (w.kernel.current_thread ∷ es)) (ap (λ z. z.0) result)
            ∙ ap (λ z. deleted ++ (z ∷ es)) running
            ∙ ap (λ z. deleted ++ (z ++ es)) (sym dead)
            ∙ ap (λ z. deleted ++ z) deaths
            ∙ sym (append_assoc deleted ds (zombies w2)),
        omega (arith, pool, pool1),
      )

  count-first : (x : ℕ) (xs ys : List ℕ) → x ∷ xs ≡ ys → 0 < count x ys
  count-first x xs ys e =
      subst (λ z. 0 < count x z) e (let here = eq→== x x refl in ground (arith, here))

  -- With nobody waiting for the disk, with no zombie at first and nodes at addresses below 2^32,
  -- after any sequence in which threads of distinct addresses pass the processor on or end, and
  -- not all of them end, each thread either has ended or is exactly once in the order of turns,
  -- as the running thread or in the ready queue; the threads that are deleted are those that
  -- ended, in their order, but for the last one, which is the zombie; and the running thread has
  -- neither ended nor been deleted.
  pub Steps-live :
      {w w' : World} {n : ℕ} {es ds : List ℕ} (ts : List ℕ)
      → Steps sizes (suc fuel) busy w n es ds w'
      → IsTurn w ts
      → ((x : ℕ) → count x ts ≤ 1)
      → w.kernel.zombie_thread ≡ 0
      → length es < length ts
      → w.start_address + n * sizes.ready_thread < word_mod
      → (ts' : List ℕ) × IsTurn w' ts'
        × ((x : ℕ) → count x ts ≡ count x ts' + count x es)
        × (es ≡ ds ++ zombies w')
        × (count w'.kernel.current_thread es ≡ 0)
        × (count w'.kernel.current_thread ds ≡ 0)
  Steps-live {w} {w'} {n} {es} {ds} ts steps i once none_dead few small =
      let (ts', i', counts, deaths, pool) = Steps-IsTurn ts steps i few small in
      let cur = w'.kernel.current_thread in
      let first = count-first cur (threads_of i'.nodes) ts' i'.order in
      let deleted : es ≡ ds ++ zombies w' =
        ap (λ z. (if z == 0 then [] else z ∷ []) ++ es) (sym none_dead) ∙ deaths in
      let alive : count cur es ≡ 0 = omega (arith, counts cur, once cur, first) in
      (
        ts',
        i',
        counts,
        deleted,
        alive,
        omega (arith, ap (count cur) deleted, count-append cur ds (zombies w'), alive),
      )
