-- ===== src/Containers/Queue/Chain.antt =====
-- What a queue of threadsafe_queue.hpp stands for: the chain of nodes from head to tail.
use playground_cpp.Common.{
  ℕ, ◌≡◌, ◌≢◌, refl, ◌⊎◌, inl, inr, Option, none, some, List, [], ◌∷◌, ◌++◌, map, arith, update,
  update-ne, In, sym, ◌∙◌, subst, ap,
}
use playground_cpp.Containers.Queue.{Node, Heap, Queue, dummy, push, pop_head, popped}

-- Each cell is the address of a node and its value.
module _ {ℓ} {T : Type ℓ} where
  abbrev pub addresses : List (ℕ × T) → List ℕ
  addresses = map λ c. c.0

  abbrev pub values : List (ℕ × T) → List T
  values = map λ c. c.1

  abbrev pub cell_node : T → ℕ → Option (Node T)
  cell_node v q = some (record { data_ = some v; next = some q })

  -- From `p` the `next` pointers lead through the cells to `stop`, which is none of them, and no
  -- node comes twice.
  pub data Chain (h : Heap T) (stop : ℕ) : ℕ → List (ℕ × T) → Type ℓ where
    stops : Chain h stop stop []
    links :
        {p q : ℕ} {v : T} {cs : List (ℕ × T)}
        → h p ≡ cell_node v q
        → p ≢ stop
        → ¬ In p (addresses cs)
        → Chain h stop q cs
        → Chain h stop p ((p, v) ∷ cs)

  -- The invariant of the class.
  pub record Represents (q : Queue T) (cs : List (ℕ × T)) : Type ℓ where
    pub chain : Chain q.heap q.tail q.head cs
    pub last : q.heap q.tail ≡ some dummy

  -- A chain does not see changes away from its cells.
  pub frame :
      {h g : Heap T} {stop p : ℕ} {cs : List (ℕ × T)}
      → Chain h stop p cs
      → ((a : ℕ) → In a (addresses cs) → g a ≡ h a)
      → Chain g stop p cs
  frame stops same = stops
  frame (links {p = p} e ne out c) same =
      links (same p (inl refl) ∙ e) ne out (frame c (λ a m. same a (inr m)))

  -- All cells are allocated.
  pub allocated :
      {h : Heap T} {stop p : ℕ} {cs : List (ℕ × T)} (a : ℕ)
      → Chain h stop p cs
      → In a (addresses cs)
      → h a ≢ none
  allocated a stops m = absurd m
  allocated a (links {p = p} e ne out c) (inl q) = λ n. cc
  allocated a (links e ne out c) (inr m) = allocated a c m

  addresses-snoc :
      (a b : ℕ) (v : T) (cs : List (ℕ × T))
      → In a (addresses (cs ++ (b, v) ∷ []))
      → In a (addresses cs) ⊎ (b ≡ a)
  addresses-snoc a b v [] m = ground arith
  addresses-snoc a b v ((c, w) ∷ cs) m = ground (arith, addresses-snoc a b v cs)

  -- The dummy becomes a cell, and `fresh` the end.
  pub extend :
      {h : Heap T} {stop p : ℕ} {cs : List (ℕ × T)} (fresh : ℕ) (v : T)
      → Chain h stop p cs
      → h stop ≡ cell_node v fresh
      → stop ≢ fresh
      → ¬ In fresh (addresses cs)
      → Chain h fresh p (cs ++ (stop, v) ∷ [])
  extend fresh v stops e ne out = links e ne (λ m. m) stops
  extend {stop} fresh v (links {p = p} {cs = cs} e' ne' out' c) e ne out =
      links e' (λ q. out (inl q))
        (λ m. elim (addresses-snoc p stop v cs m) [ inl k ↦ out' k | inr q ↦ ne' (sym q) ])
        (extend fresh v c e ne (λ m. out (inr m)))

  pub values-snoc :
      (cs : List (ℕ × T)) (a : ℕ) (v : T) → values (cs ++ (a, v) ∷ []) ≡ values cs ++ v ∷ []
  values-snoc [] a v = refl
  values-snoc (c ∷ cs) a v = ap (◌∷◌ c.1) (values-snoc cs a v)

  -- The end is none of the cells.
  apart :
      {h : Heap T} {stop p : ℕ} {cs : List (ℕ × T)} (a : ℕ)
      → Chain h stop p cs
      → In a (addresses cs)
      → a ≢ stop
  apart a stops m = absurd m
  apart {stop} a (links _ ne _ _) (inl q) = subst (λ x. x ≢ stop) q ne
  apart a (links _ _ _ c) (inr m) = apart a c m

  pub ends : {h : Heap T} {stop p : ℕ} → Chain h stop p [] → p ≡ stop
  ends stops = refl

  -- The parts of a chain that is not empty.
  pub uncons :
      {h : Heap T} {stop p' p : ℕ} {v : T} {cs : List (ℕ × T)}
      → Chain h stop p' ((p, v) ∷ cs)
      → (q : ℕ) × (p' ≡ p)
        × (h p ≡ cell_node v q)
        × (p ≢ stop)
        × (¬ In p (addresses cs))
        × Chain h stop q cs
  uncons (links {q = q} e ne out c) = (q, refl, e, ne, out, c)

  -- A push appends its value, at any address that is not in use.
  pub Represents-push :
      (q : Queue T) (cs : List (ℕ × T)) (fresh : ℕ) (v : T)
      → Represents q cs
      → q.heap fresh ≡ none
      → Represents (push fresh v q) (cs ++ (q.tail, v) ∷ [])
  unfolding push
  Represents-push q cs fresh v r free = record {
    chain = extend fresh v (frame r.chain same) (ground arith) distinct unused;
    last = ground arith;
  }
    where
      distinct : q.tail ≢ fresh
      distinct e = cc (r.last, ap q.heap e)

      unused : ¬ In fresh (addresses cs)
      unused m = allocated fresh r.chain m free

      same : (a : ℕ) → In a (addresses cs) → (push fresh v q).heap a ≡ q.heap a
      same a m = ground (arith, apart a r.chain m, allocated a r.chain m)

  -- What `pop_head` does when the queue is not empty.
  pub Represents-pop :
      (q : Queue T) (p : ℕ) (v : T) (cs : List (ℕ × T))
      → Represents q ((p, v) ∷ cs)
      → (q' : Queue T) × (pop_head q ≡ popped v q')
        × Represents q' cs
        × (q'.tail ≡ q.tail)
        × (q'.heap p ≡ none)
  unfolding pop_head
  Represents-pop q p v cs r =
      let (n, e, holds, ne, out, c) = uncons r.chain in
      (
        record q { heap = update q.heap p none; head = n },
        rw (e, holds) refl,
        record {
          chain = frame c (λ a m.
              update-ne q.heap p none a (λ i. out (subst (λ x. In x (addresses cs)) (sym i) m)));
          last = update-ne q.heap p none q.tail ne ∙ r.last;
        },
        refl,
        ground arith,
      )
