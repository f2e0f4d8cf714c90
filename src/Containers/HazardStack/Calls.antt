-- ===== src/Containers/HazardStack/Calls.antt =====
-- The calls of lockfree_stack_hazard_pointer.hpp up to the removal of a node.
use playground_cpp.Common.{
  Distinct, ℕ, length, ◌<◌, ◌≡◌, ◌≢◌, refl, sym, ◌∙◌, ap, subst, inl, inr, Bool, true, not, ◌&&◌,
  Option, none, some, List, [], ◌∷◌, In, ltb, arith, Bool-cases,
}
use playground_cpp.Containers.SharedStack.{
  Node, Status, unborn, owned, stacked, removed, same_pointer,
}
use playground_cpp.Containers.SharedStack.Chain.{same_pointer_lem}
use playground_cpp.Containers.HazardStack.{
  max_hazard_pointers, Pc, idle, threw, made, pushing, announcing, reloading, following, exchanging,
  dropping, taking, scanning, collecting, sweeping, returned, State, Call, push, pop, is_free, at,
  push_exchange, start_call, reload, confirmed, pop_exchange,
}
use playground_cpp.Containers.HazardStack.Invariant.{Uses, hand, Knows, Scans, Inv}
use playground_cpp.Containers.HazardStack.Moves.{
  at-Inv, make_node-Inv, load_next_of_new-Inv, publish-Inv,
}
use playground_cpp.Containers.HazardStack.Removal.{unlink-Inv}

pub is_free_lem : (st : Status) → is_free st ≡ true → st ≡ unborn
unfolding is_free
is_free_lem unborn e = refl
is_free_lem (owned t) e = absurd (cc e)
is_free_lem (stacked k) e = absurd (cc e)
is_free_lem removed e = absurd (cc e)

module _ {ℓ} {T : Type ℓ} where
  Scans-hand : (a u : ℕ) (pc : Pc T) → Scans a u pc → In a (hand pc)
  Scans-hand a u (scanning b j rest own res) (e, lt) = inl e
  Scans-hand a u idle h = absurd h
  Scans-hand a u threw h = absurd h
  Scans-hand a u (made v p) h = absurd h
  Scans-hand a u (pushing v p) h = absurd h
  Scans-hand a u (announcing o) h = absurd h
  Scans-hand a u (reloading o) h = absurd h
  Scans-hand a u (following b) h = absurd h
  Scans-hand a u (exchanging b n) h = absurd h
  Scans-hand a u (dropping o) h = absurd h
  Scans-hand a u (taking b) h = absurd h
  Scans-hand a u (collecting res) h = absurd h
  Scans-hand a u (sweeping xs res) h = absurd h
  Scans-hand a u (returned res) h = absurd h

  -- A node that is in use is guarded, and in the stack or removed from it.
  pub Uses-Knows :
      (a u : ℕ) (status : ℕ → Status) (nodes : ℕ → Node T) (hz : Option ℕ) (pc : Pc T)
      → Uses a pc
      → Knows u status nodes hz pc
      → (u < max_hazard_pointers) × ((hz ≡ some a) × (status a ≢ unborn))
  Uses-Knows a u status nodes hz (following b) e ((lt, (g, st)), _) = (
    lt,
    (
      g ∙ ap some e,
      λ free. elim st [
        | inl r ↦ cc (sym free ∙ ap status (sym e) ∙ r)
        | inr (k, r) ↦ cc (sym free ∙ ap status (sym e) ∙ r)
      ],
    ),
  )
  Uses-Knows a u status nodes hz (exchanging b n) e ((lt, (g, st)), _) = (
    lt,
    (
      g ∙ ap some e,
      λ free. elim st [
        | inl r ↦ cc (sym free ∙ ap status (sym e) ∙ r)
        | inr (k, (r, _)) ↦ cc (sym free ∙ ap status (sym e) ∙ r)
      ],
    ),
  )
  Uses-Knows a u status nodes hz idle e h = absurd e
  Uses-Knows a u status nodes hz threw e h = absurd e
  Uses-Knows a u status nodes hz (made v p) e h = absurd e
  Uses-Knows a u status nodes hz (pushing v p) e h = absurd e
  Uses-Knows a u status nodes hz (announcing o) e h = absurd e
  Uses-Knows a u status nodes hz (reloading o) e h = absurd e
  Uses-Knows a u status nodes hz (dropping o) e h = absurd e
  Uses-Knows a u status nodes hz (taking b) e h = absurd e
  Uses-Knows a u status nodes hz (scanning b i rest own res) e h = absurd e
  Uses-Knows a u status nodes hz (collecting res) e h = absurd e
  Uses-Knows a u status nodes hz (sweeping xs res) e h = absurd e
  Uses-Knows a u status nodes hz (returned res) e h = absurd e

  head_stacked :
      (a : ℕ) (s : State T) (xs : List T)
      → Inv s xs
      → s.head_ ≡ some a
      → (k : ℕ) × (s.status a ≡ stacked k)
  head_stacked a s [] inv e = absurd (cc (sym e ∙ inv.represents.0))
  head_stacked a s (x ∷ xs) inv e =
      let (b, (e', (_, (st, _)))) = inv.represents in
      let same : a ≡ b = cc (sym e ∙ e') in (length xs, ap s.status same ∙ st)

  -- A thread that goes to a place where it has no removed node and uses none.
  pub rests-Inv :
      (t : ℕ) (pc : Pc T) (s : State T) (xs : List T)
      → Inv s xs
      → hand pc ≡ []
      → Knows t s.status s.nodes (s.hazards t) pc
      → ((a : ℕ) → Uses a pc → ⊥)
      → Inv (at pc t s) xs
  rests-Inv t pc s xs inv e knows uses =
      at-Inv t pc s xs inv (λ a i. absurd (subst (In a) e i)) (subst Distinct (sym e) tt) knows
        (λ u a ne sc. absurd (subst (In a) e (Scans-hand a u pc sc)))
        (λ v a ne us. absurd (uses a us))

  pub start_call-Inv :
      (c : Call T) (t : ℕ) (s : State T) (xs : List T) → Inv s xs → Inv (start_call c t s) xs
  unfolding start_call
  start_call-Inv (push v p) t s xs inv = elim (Bool-cases (is_free (s.status p))) [
    | inl free ↦ rw (free) (make_node-Inv v p t s xs inv (is_free_lem (s.status p) free))
    | inr busy ↦ rw (busy) inv
  ]
  start_call-Inv pop t s xs inv = elim (Bool-cases (ltb t max_hazard_pointers)) [
    | inl lt ↦
        rw (lt) (rests-Inv t (announcing s.head_) s xs inv refl (ground arith, tt) (λ a us. us))
    | inr ge ↦ rw (ge) (rests-Inv t threw s xs inv refl tt (λ a us. us))
  ]

  pub push_exchange-Inv :
      (fails : Bool) (v : T) (p t : ℕ) (s : State T) (xs : List T)
      → s.pcs t ≡ pushing v p
      → Inv s xs
      → (ys : List T) × Inv (push_exchange fails v p t s) ys
  unfolding push_exchange
  push_exchange-Inv fails v p t s xs e inv =
      let (o, d) = subst (Knows t s.status s.nodes (s.hazards t)) e (inv.knows t) in
      elim (Bool-cases (same_pointer s.head_ (s.nodes p).next_ && not fails)) [
        | inl wins ↦ rw (wins) (
          v ∷ xs,
          publish-Inv v p t s xs inv o d
              (sym (same_pointer_lem s.head_ (s.nodes p).next_ (ground arith))),
        )
        | inr loses ↦ rw (loses) (xs, load_next_of_new-Inv v p t s xs inv o d)
      ]

  confirmed-Inv :
      (o : Option ℕ) (t : ℕ) (s : State T) (xs : List T)
      → s.pcs t ≡ reloading o
      → s.head_ ≡ o
      → Inv s xs
      → Inv (at (confirmed o) t s) xs
  unfolding confirmed
  confirmed-Inv none t s xs e h inv = rests-Inv t (dropping none) s xs inv refl tt (λ a us. us)
  confirmed-Inv (some a) t s xs e h inv =
      let (k, top) = head_stacked a s xs inv h in
      let ((lt, g), _) = subst (Knows t s.status s.nodes (s.hazards t)) e (inv.knows t) in
      at-Inv t (following a) s xs inv (λ b i. absurd i) tt ((lt, (g, inr (k, top))), tt)
        (λ u b ne sc. absurd sc)
        (λ v b ne us sc.
          let (r, _) = inv.held v b (Scans-hand b t (s.pcs v) sc) in
          cc (sym top ∙ ap s.status us ∙ r))

  pub reload-Inv :
      (o : Option ℕ) (t : ℕ) (s : State T) (xs : List T)
      → s.pcs t ≡ reloading o
      → Inv s xs
      → Inv (reload o t s) xs
  unfolding reload
  reload-Inv o t s xs e inv =
      let ((lt, _), _) = subst (Knows t s.status s.nodes (s.hazards t)) e (inv.knows t) in
      elim (Bool-cases (same_pointer s.head_ o)) [
        | inl same ↦ rw (same) (confirmed-Inv o t s xs e (same_pointer_lem s.head_ o same) inv)
        | inr changed ↦
            rw (changed) (rests-Inv t (announcing s.head_) s xs inv refl (lt, tt) (λ a us. us))
      ]

  pub follow-Inv :
      (a t : ℕ) (s : State T) (xs : List T)
      → s.pcs t ≡ following a
      → Inv s xs
      → Inv (at (exchanging a (s.nodes a).next_) t s) xs
  follow-Inv a t s xs e inv =
      let ((lt, (g, st)), _) = subst (Knows t s.status s.nodes (s.hazards t)) e (inv.knows t) in
      at-Inv t (exchanging a (s.nodes a).next_) s xs inv (λ b i. absurd i) tt
        ((lt, (g, elim st [ inl r ↦ inl r | inr (k, r) ↦ inr (k, (r, refl)) ])), tt)
        (λ u b ne sc. absurd sc) (λ v b ne us sc. inv.unseen v t b sc (subst (Uses b) (sym e) us))

  pub pop_exchange-Inv :
      (a : ℕ) (n : Option ℕ) (t : ℕ) (s : State T) (xs : List T)
      → s.pcs t ≡ exchanging a n
      → Inv s xs
      → (ys : List T) × Inv (pop_exchange a n t s) ys
  unfolding pop_exchange
  pop_exchange-Inv a n t s xs e inv =
      let ((lt, (g, st)), _) = subst (Knows t s.status s.nodes (s.hazards t)) e (inv.knows t) in
      elim (Bool-cases (same_pointer s.head_ (some a))) [
        | inl wins ↦
            rw (wins) (unlink-Inv a n t s xs inv (same_pointer_lem s.head_ (some a) wins) st)
        | inr loses ↦
            rw (loses) (xs, rests-Inv t (announcing s.head_) s xs inv refl (lt, tt) (λ a us. us))
      ]
