-- ===== src/Containers/Queue/Interleave.antt =====
-- Producers and consumers of threadsafe_queue.hpp. A push is one block under `tail_mtx_`. A pop
-- holds `head_mtx_`, but reads the tail first and unlinks the head later, and pushes may come in
-- between. `pushed` and `taken` are ghosts: the values so far, in order.
use playground_cpp.Common.{
  ℕ, ◌≡◌, ◌≢◌, ◌↔◌, refl, inl, inr, Bool, true, false, none, List, [], ◌∷◌, ◌++◌, arith,
  append_assoc, ap, sym, subst, snoc-ne-nil, ◌∙◌,
}
use playground_cpp.Containers.Queue.{Queue, popped, init, push, pop_head, is_empty}
use playground_cpp.Containers.Queue.Chain.{
  Represents, stops, uncons, values, values-snoc, Represents-push, Represents-pop,
}
use playground_cpp.Containers.Queue.Refine.{is_empty-values}

pub record System {ℓ} (T : Type ℓ) : Type ℓ where
  pub queue : Queue T
  -- A consumer is between its test and `pop_head`.
  pub popping : Bool
  pub pushed : List T
  pub taken : List T

module _ {ℓ} {T : Type ℓ} where
  abbrev pub start : ℕ → System T
  start fresh = record { queue = init fresh; popping = false; pushed = []; taken = [] }

  pub data Step (s : System T) : System T → Type ℓ where
    pushes :
        (fresh : ℕ) (v : T)
        → s.queue.heap fresh ≡ none
        → Step s (record s { queue = push fresh v s.queue; pushed = s.pushed ++ v ∷ [] })
    sees_empty : s.popping ≡ false → is_empty s.queue ≡ true → Step s s
    sees_data : s.popping ≡ false → is_empty s.queue ≡ false → Step s (record s { popping = true })
    pops :
        {v : T} {q : Queue T}
        → s.popping ≡ true
        → pop_head s.queue ≡ popped v q
        → Step s (record s { queue = q; popping = false; taken = s.taken ++ v ∷ [] })

  pub data Reach : System T → Type ℓ where
    here : (fresh : ℕ) → Reach (start fresh)
    next : {s t : System T} → Reach s → Step s t → Reach t

  record Inv (s : System T) (cs : List (ℕ × T)) : Type ℓ where
    represents : Represents s.queue cs
    balance : s.pushed ≡ s.taken ++ values cs
    ready : s.popping ≡ true → cs ≢ []

  start-Inv : (fresh : ℕ) → Inv (start fresh) []
  unfolding init
  start-Inv fresh = record {
    represents = record { chain = stops; last = ground arith };
    balance = refl;
    ready = λ e. cc;
  }

  pops-Inv :
      {s : System T} (cs : List (ℕ × T)) {v : T} {q : Queue T}
      → s.popping ≡ true
      → pop_head s.queue ≡ popped v q
      → Inv s cs
      → (ds : List (ℕ × T)) × Inv
          (record s { queue = q; popping = false; taken = s.taken ++ v ∷ [] })
          ds
  pops-Inv [] p e inv = absurd (inv.ready p refl)
  pops-Inv {s} ((a, w) ∷ cs) {v} {q} p e inv =
      let (q', e', r', _, _) = Represents-pop s.queue a w cs inv.represents in
      let same : popped w q' ≡ popped v q = sym e' ∙ e in
      (
        cs,
        record {
          represents = subst (λ x. Represents x cs) (cc same) r';
          balance =
              inv.balance
              ∙ (ap (λ x. s.taken ++ x ∷ values cs) (cc same)
                  ∙ sym (append_assoc s.taken (v ∷ []) (values cs)));
          ready = λ e. cc;
        },
      )

  not_empty : (q : Queue T) (cs : List (ℕ × T)) → Represents q cs → is_empty q ≡ false → cs ≢ []
  not_empty q cs r e = elim (is_empty-values q cs r) [ inl h ↦ cc (h.0) | inr h ↦ h.1 ]

  empty_iff :
      (q : Queue T) (cs : List (ℕ × T)) → Represents q cs → (is_empty q ≡ true) ↔ (values cs ≡ [])
  empty_iff q [] r = elim (is_empty-values q [] r) [
    | inl h ↦ (λ _. refl, λ _. h.0)
    | inr h ↦ absurd (h.1 refl)
  ]
  empty_iff q (c ∷ cs) r = elim (is_empty-values q (c ∷ cs) r) [
    | inl h ↦ cc (h.1)
    | inr h ↦ (λ e. cc (h.0), λ e. cc)
  ]

  safe :
      {q : Queue T} (cs : List (ℕ × T))
      → Represents q cs
      → cs ≢ []
      → (v : T) × (q' : Queue T) × (pop_head q ≡ popped v q')
        × (q.head ≢ q.tail)
        × (q'.tail ≡ q.tail)
  safe [] r ne = absurd (ne refl)
  safe {q} ((p, v) ∷ cs) r ne =
      let (q', e, _, same, _) = Represents-pop q p v cs r in
      let (_, at, _, apart, _, _) = uncons r.chain in (v, q', e, λ x. apart (sym at ∙ x), same)

  Step-Inv :
      {s t : System T} (cs : List (ℕ × T)) → Step s t → Inv s cs → (ds : List (ℕ × T)) × Inv t ds
  Step-Inv {s} cs (pushes fresh v free) inv = (
    cs ++ (s.queue.tail, v) ∷ [],
    record {
      represents = Represents-push s.queue cs fresh v inv.represents free;
      balance =
          rw values-snoc
            (ap (λ l. l ++ v ∷ []) inv.balance ∙ append_assoc s.taken (values cs) (v ∷ []));
      ready = λ e. snoc-ne-nil cs (s.queue.tail, v);
    },
  )
  Step-Inv cs (sees_empty p e) inv = (cs, inv)
  Step-Inv {s} cs (sees_data p e) inv = (
    cs,
    record {
      represents = inv.represents;
      balance = inv.balance;
      ready = λ _. not_empty s.queue cs inv.represents e;
    },
  )
  Step-Inv cs (pops p e) inv = pops-Inv cs p e inv

  Reach-Inv : {s : System T} → Reach s → (cs : List (ℕ × T)) × Inv s cs
  Reach-Inv (here fresh) = ([], start-Inv fresh)
  Reach-Inv (next r st) = let (cs, inv) = Reach-Inv r in Step-Inv cs st inv

  -- In every interleaving, what consumers have taken is what producers have pushed, in order, less
  -- what is still in the queue; and the queue says that it is empty exactly when nothing is left.
  pub first_in_first_out :
      {s : System T}
      → Reach s
      → (rest : List T) × (s.pushed ≡ s.taken ++ rest) × ((is_empty s.queue ≡ true) ↔ (rest ≡ []))
  first_in_first_out {s} r =
      let (cs, inv) = Reach-Inv r in (values cs, inv.balance, empty_iff s.queue cs inv.represents)

  -- A consumer that has seen the queue not empty finds a node with a value, whatever was pushed
  -- since; and the node that it unlinks is not the one that a push writes to, so the two may run
  -- at once under their two mutexes.
  pop_is_safe :
      {s : System T}
      → Reach s
      → s.popping ≡ true
      → (v : T) × (q : Queue T) × (pop_head s.queue ≡ popped v q)
        × (s.queue.head ≢ s.queue.tail)
        × (q.tail ≡ s.queue.tail)
  pop_is_safe {s} r p = let (cs, inv) = Reach-Inv r in safe cs inv.represents (inv.ready p)
