-- ===== src/Scheduler/Queue.antt =====
-- The doubly linked lists of `Scheduler` and `NonBlockingDisk` as first-in first-out lists.
use demand_paged_virtual_mem.Common.{
  ℕ, ◌≡◌, ◌≢◌, refl, ◌∙◌, sym, subst, List, [], ◌∷◌, ◌++◌, All, update, ap, eq→==, ne→==,
}
use demand_paged_virtual_mem.Scheduler.{Node, Links, push, pop}

-- The address `a` is not among the nodes.
abbrev pub Absent : ℕ → List (ℕ × ℕ) → Type 0
Absent a xs = All (λ x. x.0 ≢ a) xs

-- From `p` the nodes of the list follow one another, each with its thread; `before` is the node in
-- front, and `last` the last one.
unfoldable pub Chain : (ℕ → Node) → ℕ → ℕ → ℕ → List (ℕ × ℕ) → Type 0
Chain m before p last [] = (p ≡ 0) × (last ≡ before)
Chain m before p last ((a, t) ∷ xs) =
    (p ≡ a)
    × (a ≢ 0)
    × ((m a).thread ≡ t)
    × ((m a).prev ≡ before)
    × Absent a xs
    × Chain m a (m a).next last xs

-- The nodes' addresses and threads in their order in the queue.
abbrev pub IsQueue : Links → List (ℕ × ℕ) → Type 0
IsQueue q xs = Chain q.nodes 0 q.head q.tail xs

-- A chain is no more than its nodes.
Chain-ext :
    (m m' : ℕ → Node) (before p last : ℕ) (xs : List (ℕ × ℕ))
    → All (λ x. m' x.0 ≡ m x.0) xs
    → Chain m before p last xs
    → Chain m' before p last xs
unfolding Chain
Chain-ext m m' before p last [] same c = c
Chain-ext m m' before p last ((a, t) ∷ xs) same c = (
  c.0,
  c.1,
  ap (λ (n : Node). n.thread) same.0 ∙ c.2,
  ap (λ (n : Node). n.prev) same.0 ∙ c.3,
  c.4,
  subst (λ z. Chain m' a z last xs) (ap (λ (n : Node). n.next) (sym same.0))
      (Chain-ext m m' a (m a).next last xs same.1 c.5),
)

-- The last node is one of the chain.
last_ne :
    (m : ℕ → Node) (b before p last : ℕ) (x : ℕ × ℕ) (xs : List (ℕ × ℕ))
    → Chain m before p last (x ∷ xs)
    → Absent b (x ∷ xs)
    → last ≢ b
unfolding Chain
last_ne m b before p last (a, t) [] c out = λ e. out.0 (sym c.5.1 ∙ e)
last_ne m b before p last (a, t) (y ∷ ys) c out = last_ne m b a (m a).next last y ys c.5 out.1

Absent-append :
    (a at t : ℕ) (xs : List (ℕ × ℕ)) → Absent a xs → at ≢ a → Absent a (xs ++ (at, t) ∷ [])
Absent-append a at t [] out ne = (ne, tt)
Absent-append a at t (x ∷ xs) out ne = (out.0, Absent-append a at t xs out.1 ne)

module _ {m m' : ℕ → Node} (at t : ℕ) (real : at ≢ 0) where
  -- A chain that is not empty grows by a node whose links to and from its last node are set.
  Chain-append :
      (before p last : ℕ) (x : ℕ × ℕ) (xs : List (ℕ × ℕ))
      → m' at ≡ record { thread = t; next = 0; prev = last }
      → m' last ≡ record (m last) { next = at }
      → ((b : ℕ) → b ≢ at → b ≢ last → m' b ≡ m b)
      → Absent at (x ∷ xs)
      → Chain m before p last (x ∷ xs)
      → Chain m' before p at ((x ∷ xs) ++ (at, t) ∷ [])
  unfolding Chain
  Chain-append before p last (a, u) [] new link other out c =
      let here : m' a ≡ record (m a) { next = at } =
        subst (λ z. m' z ≡ record (m z) { next = at }) c.5.1 link in
      (
        c.0,
        c.1,
        ap (λ (n : Node). n.thread) here ∙ c.2,
        ap (λ (n : Node). n.prev) here ∙ c.3,
        ((λ e. out.0 (sym e)), tt),
        (
          ap (λ (n : Node). n.next) here,
          real,
          ap (λ (n : Node). n.thread) new,
          ap (λ (n : Node). n.prev) new ∙ c.5.1,
          tt,
          (ap (λ (n : Node). n.next) new, refl),
        ),
      )
  Chain-append before p last (a, u) (y ∷ ys) new link other out c =
      let here : m' a ≡ m a =
        other a out.0 (λ e. last_ne m a a (m a).next last y ys c.5 c.4 (sym e)) in
      (
        c.0,
        c.1,
        ap (λ (n : Node). n.thread) here ∙ c.2,
        ap (λ (n : Node). n.prev) here ∙ c.3,
        Absent-append a at t (y ∷ ys) c.4 (λ e. out.0 (sym e)),
        subst (λ z. Chain m' a z at ((y ∷ ys) ++ (at, t) ∷ []))
            (ap (λ (n : Node). n.next) (sym here))
            (Chain-append a (m a).next last y ys new link other out.1 c.5),
      )

Chain-Real :
    (m : ℕ → Node) (before p last : ℕ) (xs : List (ℕ × ℕ)) → Chain m before p last xs → Absent 0 xs
unfolding Chain
Chain-Real m before p last [] c = tt
Chain-Real m before p last ((a, t) ∷ xs) c = (c.1, Chain-Real m a (m a).next last xs c.5)

untouched :
    (m m' : ℕ → Node) (a : ℕ) (xs : List (ℕ × ℕ))
    → ((b : ℕ) → b ≢ a → m' b ≡ m b)
    → Absent a xs
    → All (λ x. m' x.0 ≡ m x.0) xs
untouched m m' a [] same out = tt
untouched m m' a (x ∷ xs) same out = (same x.0 out.0, untouched m m' a xs same out.1)

-- At a fresh address that is not null, `push` puts the thread at the end of the queue and keeps
-- the links in both directions.
pub push-IsQueue :
    (q : Links) (xs : List (ℕ × ℕ)) (at t : ℕ)
    → at ≢ 0
    → Absent at xs
    → IsQueue q xs
    → IsQueue (push at t q) (xs ++ (at, t) ∷ [])
push-IsQueue q [] at t real out c =
    unfold push Chain in rw (c.1, eq→== at at refl) (refl, real, refl, refl, tt, (refl, refl))
push-IsQueue q (x ∷ xs) at t real out c =
    let full : q.tail ≢ 0 =
      last_ne q.nodes 0 0 q.head q.tail x xs c (Chain-Real q.nodes 0 q.head q.tail (x ∷ xs) c) in
    let apart : q.tail ≢ at = last_ne q.nodes at 0 q.head q.tail x xs c out in
    unfold push in
    rw (ne→== q.tail 0 full) (
      Chain-append at t real 0 q.head q.tail x xs
        (rw (eq→== at at refl, ne→== q.tail at apart) refl)
        (rw (eq→== q.tail q.tail refl, ne→== at q.tail (λ e. apart (sym e))) refl)
        (λ b ne ne'. rw (ne→== at b (λ e. ne (sym e)), ne→== q.tail b (λ e. ne' (sym e))) refl) out
        c)

-- The list that `pop` leaves when a second node `b` follows.
popped : Links → ℕ → Links
popped q b = record {
  nodes = update q.nodes b (record (q.nodes b) { prev = 0 });
  head = b;
  tail = q.tail;
}

pop-next :
    (q : Links) (a b : ℕ) → q.head ≡ a → q.tail ≢ a → (q.nodes a).next ≡ b → pop q ≡ popped q b
unfolding pop popped
pop-next q a b p apart next = rw (p, ne→== a q.tail (λ e. apart (sym e)), next) refl

popped-nodes : (q : Links) (b z : ℕ) → b ≢ z → (popped q b).nodes z ≡ q.nodes z
unfolding popped
popped-nodes q b z ne = rw (ne→== b z ne) refl

popped-first : (q : Links) (b : ℕ) → (popped q b).nodes b ≡ record (q.nodes b) { prev = 0 }
unfolding popped
popped-first q b = rw (eq→== b b refl) refl

popped-ends : (q : Links) (b : ℕ) → ((popped q b).head ≡ b) × ((popped q b).tail ≡ q.tail)
unfolding popped
popped-ends q b = (refl, refl)

popped-Chain :
    (q : Links) (a b u : ℕ) (xs : List (ℕ × ℕ))
    → Chain q.nodes a b q.tail ((b, u) ∷ xs)
    → IsQueue (popped q b) ((b, u) ∷ xs)
unfolding Chain
popped-Chain q a b u xs d =
    let first = popped-first q b in
    (
      (popped-ends q b).0,
      d.1,
      ap (λ (n : Node). n.thread) first ∙ d.2,
      ap (λ (n : Node). n.prev) first,
      d.4,
      subst (λ z. Chain (popped q b).nodes b z (popped q b).tail xs)
          (sym (ap (λ (n : Node). n.next) first))
          (subst (λ z. Chain (popped q b).nodes b (q.nodes b).next z xs) (sym (popped-ends q b).1)
            (Chain-ext q.nodes (popped q b).nodes b (q.nodes b).next q.tail xs
              (untouched q.nodes (popped q b).nodes b xs
                (λ z ne. popped-nodes q b z (λ e. ne (sym e))) d.4)
              d.5)),
    )

-- `pop` takes the first node off a queue that has one and keeps the others with their links; the
-- node that it takes is the head and keeps its thread.
pub pop-IsQueue :
    (q : Links) (a t : ℕ) (xs : List (ℕ × ℕ))
    → IsQueue q ((a, t) ∷ xs)
    → IsQueue (pop q) xs × (q.head ≡ a) × (((pop q).nodes a).thread ≡ t)
unfolding Chain
pop-IsQueue q a t [] c =
    unfold pop in rw (eq→== q.head q.tail (c.0 ∙ sym c.5.1)) ((refl, refl), c.0, c.2)
pop-IsQueue q a t ((b, u) ∷ xs) c =
    let apart : q.tail ≢ a = last_ne q.nodes a a (q.nodes a).next q.tail (b, u) xs c.5 c.4 in
    let out : b ≢ a = c.4.0 in
    let after = pop-next q a b c.0 apart c.5.0 in
    (
      subst (λ l. IsQueue l ((b, u) ∷ xs)) (sym after)
          (popped-Chain q a b u xs (subst (λ z. Chain q.nodes a z q.tail ((b, u) ∷ xs)) c.5.0 c.5)),
      c.0,
      ap (λ (l : Links). (l.nodes a).thread) after
          ∙ ap (λ (n : Node). n.thread) (popped-nodes q b a out)
          ∙ c.2,
    )
