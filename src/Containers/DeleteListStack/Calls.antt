-- ===== src/Containers/DeleteListStack/Calls.antt =====
-- The calls of lockfree_statck_delete_list.hpp up to the removal of a node.
use playground_cpp.Common.{
  ℕ, length, ◌^◌, ◌<◌, ◌≡◌, refl, sym, ◌∙◌, ap, subst, inl, inr, ◌⊎◌, Bool, true, not, ◌&&◌, Option,
  none, some, List, [], ◌∷◌, In, Distinct, arith, Bool-cases,
}
use playground_cpp.Containers.SharedStack.{stacked, same_pointer}
use playground_cpp.Containers.SharedStack.Chain.{same_pointer_lem}
use playground_cpp.Containers.DeleteListStack.{
  Pc, idle, loading, pushing, following, exchanging, checking, State, fetch_add, at, push_exchange,
  enter_loop, with_old_head, pop_exchange,
}
use playground_cpp.Containers.DeleteListStack.Invariant.{
  Shape-at, with_own, Uses, counted, own, hand, Shape, Knows, Inv,
}
use playground_cpp.Containers.HazardStack.{Call, push, pop, is_free}
use playground_cpp.Containers.HazardStack.Calls.{is_free_lem}
use playground_cpp.Containers.DeleteListStack.{start_call}
use playground_cpp.Containers.DeleteListStack.Quiet.{
  Cleared-hand, tally_stays, fetch_add-tally, quiet-Inv, rest-Inv,
}
use playground_cpp.Containers.DeleteListStack.Moves.{
  make_node-Inv, load_next_of_new-Inv, publish-Inv,
}
use playground_cpp.Containers.DeleteListStack.Removal.{unlink-Inv}

module _ {ℓ} {T : Type ℓ} where
  head-stacked :
      (threads a : ℕ) (s : State T) (xs : List T)
      → Inv threads s xs
      → s.head_ ≡ some a
      → (k : ℕ) × (s.status a ≡ stacked k)
  head-stacked threads a s [] inv e = absurd (cc (sym e ∙ inv.represents.0))
  head-stacked threads a s (x ∷ xs) inv e =
      let (b, (e', (_, (st, _)))) = inv.represents in
      let same : a ≡ b = cc (sym e ∙ e') in (length xs, ap s.status same ∙ st)

  -- A move that leaves a thread without a removed node, and in the loop if it was.
  pub at_rest-Inv :
      (threads t : ℕ) (pc : Pc T) (s : State T) (xs : List T)
      → Inv threads s xs
      → t < threads
      → counted pc ≡ counted (s.pcs t)
      → Knows t s.status s.nodes pc
      → s.chains t ≡ []
      → own pc ≡ none
      → Shape s.nodes pc []
      → ((a : ℕ) → Uses a pc → ⊥)
      → Inv threads (at pc t s) xs
  at_rest-Inv threads t pc s xs inv lt count =
      rest-Inv threads t s.thread_in_loop_ pc s xs inv lt
        (inv.counter ∙ tally_stays threads t lt s.pcs pc count)

  -- A thread that goes to use a node, which is the head or which it used before.
  Uses-Inv :
      (threads t a : ℕ) (pc : Pc T) (s : State T) (xs : List T)
      → Inv threads s xs
      → t < threads
      → counted pc ≡ counted (s.pcs t)
      → Knows t s.status s.nodes pc
      → s.chains t ≡ []
      → own pc ≡ none
      → Shape s.nodes pc []
      → ((b : ℕ) → Uses b pc → a ≡ b)
      → ((k : ℕ) × (s.status a ≡ stacked k)) ⊎ Uses a (s.pcs t)
      → Inv threads (at pc t s) xs
  Uses-Inv threads t a pc s xs inv lt count knows empty nothing shape only source =
      let no_hand : hand pc (s.chains t) ≡ [] = ap (λ o. with_own o (s.chains t)) nothing ∙ empty in
      quiet-Inv threads t s.thread_in_loop_ pc s xs inv lt
        (inv.counter ∙ tally_stays threads t lt s.pcs pc count) knows
        (λ b i. absurd (subst (In b) no_hand i)) (subst Distinct (sym no_hand) tt)
        (subst (Shape s.nodes pc) (sym empty) shape)
        (λ u b ne cl. absurd (subst (In b) no_hand (Cleared-hand b pc (s.chains t) cl)))
        (λ v b ne us cl. elim source [
          | inl (k, st) ↦
              let (r, _) = inv.held v b (Cleared-hand b (s.pcs v) (s.chains v) cl) in
              cc (sym st ∙ ap s.status (only b us) ∙ r)
          | inr used ↦
              inv.unused v t b (λ e. ne (sym e)) cl (subst (λ c. Uses c (s.pcs t)) (only b us) used)
        ])

  pub with_old_head-Inv :
      (threads : ℕ) (h : Option ℕ) (t : ℕ) (s : State T) (xs : List T)
      → Inv threads s xs
      → t < threads
      → counted (s.pcs t) ≡ true
      → s.chains t ≡ []
      → s.head_ ≡ h
      → Inv threads (at (with_old_head h) t s) xs
  unfolding with_old_head
  with_old_head-Inv threads none t s xs inv lt count empty e =
      at_rest-Inv threads t (checking none none) s xs inv lt (sym count) tt empty refl refl
        (λ a us. us)
  with_old_head-Inv threads (some a) t s xs inv lt count empty e =
      let (k, top) = head-stacked threads a s xs inv e in
      Uses-Inv threads t a (following a) s xs inv lt (sym count) (inr (k, top), tt) empty refl refl
        (λ b us. us) (inl (k, top))

  pub start_call-Inv :
      (threads : ℕ) (c : Call T) (t : ℕ) (s : State T) (xs : List T)
      → threads < 2 ^ 32
      → Inv threads s xs
      → t < threads
      → s.pcs t ≡ idle
      → Inv threads (start_call c t s) xs
  unfolding start_call enter_loop
  start_call-Inv threads (push v p) t s xs few inv lt e = elim (Bool-cases (is_free (s.status p))) [
    | inl free ↦
        rw (free) (make_node-Inv threads v p t s xs inv lt e (is_free_lem (s.status p) free))
    | inr busy ↦ rw (busy) inv
  ]
  start_call-Inv threads pop t s xs few inv lt e =
      rest-Inv threads t (fetch_add s.thread_in_loop_) loading s xs inv lt
        (fetch_add-tally threads t lt s.pcs loading s.thread_in_loop_ few inv.counter (ap counted e)
          refl)
        tt (Shape-at inv e) refl refl (λ a us. us)

  pub push_exchange-Inv :
      (threads : ℕ) (fails : Bool) (v : T) (p t : ℕ) (s : State T) (xs : List T)
      → Inv threads s xs
      → t < threads
      → s.pcs t ≡ pushing v p
      → (ys : List T) × Inv threads (push_exchange fails v p t s) ys
  unfolding push_exchange
  push_exchange-Inv threads fails v p t s xs inv lt e =
      let (o, d) = subst (Knows t s.status s.nodes) e (inv.knows t) in
      let empty = Shape-at inv e in
      elim (Bool-cases (same_pointer s.head_ (s.nodes p).next_ && not fails)) [
        | inl wins ↦ rw (wins) (
          v ∷ xs,
          publish-Inv threads v p t s xs inv lt (ap counted e) empty o d
              (sym (same_pointer_lem s.head_ (s.nodes p).next_ (ground arith))),
        )
        | inr loses ↦
            rw (loses) (xs, load_next_of_new-Inv threads v p t s xs inv lt (ap counted e) empty o d)
      ]

  pub follow-Inv :
      (threads a t : ℕ) (s : State T) (xs : List T)
      → Inv threads s xs
      → t < threads
      → s.pcs t ≡ following a
      → Inv threads (at (exchanging a (s.nodes a).next_) t s) xs
  follow-Inv threads a t s xs inv lt e =
      let (st, _) = subst (Knows t s.status s.nodes) e (inv.knows t) in
      let empty = Shape-at inv e in
      Uses-Inv threads t a (exchanging a (s.nodes a).next_) s xs inv lt (sym (ap counted e))
        (elim st [ inl r ↦ inl r | inr (k, r) ↦ inr (k, (r, refl)) ], tt) empty refl refl
        (λ b us. us) (inr (subst (Uses a) (sym e) refl))

  pub pop_exchange-Inv :
      (threads : ℕ) (fails : Bool) (a : ℕ) (n : Option ℕ) (t : ℕ) (s : State T) (xs : List T)
      → Inv threads s xs
      → t < threads
      → s.pcs t ≡ exchanging a n
      → (ys : List T) × Inv threads (pop_exchange fails a n t s) ys
  unfolding pop_exchange
  pop_exchange-Inv threads fails a n t s xs inv lt e =
      let empty = Shape-at inv e in
      elim (Bool-cases (same_pointer s.head_ (some a) && not fails)) [
        | inl wins ↦ rw (wins) (
            unlink-Inv threads a n t s xs inv lt e
              (same_pointer_lem s.head_ (some a) (ground arith)))
        | inr loses ↦
            rw (loses)
              (xs, with_old_head-Inv threads s.head_ t s xs inv lt (ap counted e) empty refl)
      ]
