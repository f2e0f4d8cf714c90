-- ===== src/Containers/Queue/Refine.antt =====
-- One thread at a time: the methods of threadsafe_queue.hpp are those of a list, first in
-- first out.
use playground_cpp.Common.{
  ℕ, ◌≡◌, ◌≢◌, refl, ◌⊎◌, inr, true, false, none, List, [], ◌∷◌, ◌++◌, arith, ap, ◌∙◌,
}
use playground_cpp.Containers.Queue.{Queue, empty_queue, popped, init, push, is_empty, try_pop}
use playground_cpp.Containers.Queue.Chain.{
  Represents, values, stops, uncons, ends, values-snoc, Represents-push, Represents-pop,
}

module _ {ℓ} {T : Type ℓ} where
  -- A chain is empty exactly when it begins at its end.
  pub is_empty-values :
      (q : Queue T) (cs : List (ℕ × T))
      → Represents q cs
      → ((is_empty q ≡ true) × (cs ≡ [])) ⊎ ((is_empty q ≡ false) × (cs ≢ []))
  unfolding is_empty
  is_empty-values q [] r = ground (arith, ends r.chain)
  is_empty-values q ((p, v) ∷ cs) r =
      let (n, e, _, ne, _, _) = uncons r.chain in inr (ground arith, λ e. cc)

  -- A queue of some values: its nodes are in order, and hold them.
  abbrev pub Holds : Queue T → List T → Type ℓ
  Holds q vs = (cs : List (ℕ × T)) × Represents q cs × (values cs ≡ vs)

  empty_case :
      (q : Queue T) (cs : List (ℕ × T)) → Represents q cs → values cs ≡ [] → try_pop q ≡ empty_queue
  unfolding try_pop
  empty_case q [] r e = ground (arith, is_empty-values q [] r)
  empty_case q (c ∷ cs) r e = cc

  front :
      (q : Queue T) (v : T) (vs : List T) (cs : List (ℕ × T))
      → Represents q cs
      → values cs ≡ v ∷ vs
      → (q' : Queue T) × (try_pop q ≡ popped v q') × Holds q' vs
  unfolding try_pop
  front q v vs [] r e = cc
  front q v vs ((p, w) ∷ cs) r e =
      let (q', popped', r', _, _) = Represents-pop q p w cs r in
      (q', ground (arith, is_empty-values q ((p, w) ∷ cs) r), (cs, r', cc))

  -- A new queue holds nothing. `push` adds its value behind the others, at whatever free address
  -- the new node has. `try_pop` never follows a null pointer: on a queue that holds nothing it
  -- reports that and changes nothing, and else it returns the oldest value and keeps the others.
  pub queue_refines_list :
      ((fresh : ℕ) → Holds (init fresh) [])
      × ((q : Queue T) (vs : List T) (fresh : ℕ) (v : T)
          → Holds q vs
          → q.heap fresh ≡ none
          → Holds (push fresh v q) (vs ++ v ∷ []))
      × ((q : Queue T) → Holds q [] → try_pop q ≡ empty_queue)
      × ((q : Queue T) (v : T) (vs : List T)
          → Holds q (v ∷ vs)
          → (q' : Queue T) × (try_pop q ≡ popped v q') × Holds q' vs)
  unfolding init try_pop
  queue_refines_list = (
    λ fresh. ([], record { chain = stops; last = ground arith }, refl),
    λ q vs fresh v (cs, r, e) free. (
      cs ++ (q.tail, v) ∷ [],
      Represents-push q cs fresh v r free,
      values-snoc cs q.tail v ∙ ap (λ l. l ++ v ∷ []) e,
    ),
    λ q h. empty_case q h.0 h.1 h.2,
    λ q v vs h. front q v vs h.0 h.1 h.2,
  )
