-- ===== src/Containers/DeleteListStack/Moves.antt =====
-- Push in lockfree_statck_delete_list.hpp keeps what the threads rely on.
use playground_cpp.Common.{
  ℕ, length, ◌+◌, ◌<◌, ◌≡◌, ◌≢◌, refl, sym, ◌∙◌, ap, subst, false, Option, none, some, List, [],
  ◌∷◌, update, update_self, update-ne, In, Distinct, arith,
}
use playground_cpp.Containers.SharedStack.{Node, Status, unborn, owned, stacked, removed}
use playground_cpp.Containers.SharedStack.Chain.{Represents, Represents-update}
use playground_cpp.Containers.HazardStack.Invariant.{Later}
use playground_cpp.Containers.HazardStack.Moves.{Later-at}
use playground_cpp.Containers.DeleteListStack.{
  Pc, idle, made, pushing, State, make_node, load_next_of_new, publish,
}
use playground_cpp.Containers.DeleteListStack.Segments.{Segment-same}
use playground_cpp.Containers.DeleteListStack.Invariant.{
  Shape-at, with_own, Uses, counted, own, hand, Shape, Knows, Inv,
}
use playground_cpp.Containers.DeleteListStack.Kept.{Moves-Inv}
use playground_cpp.Containers.DeleteListStack.Quiet.{Cleared-hand, tally_stays}

module _ {ℓ} {T : Type ℓ} where
  -- A move that changes one address, which is not in anyone's hands, or the stack above it.
  pub push-Inv :
      (threads t p : ℕ) (pc : Pc T) (status' : ℕ → Status) (nodes' : ℕ → Node T) (head : Option ℕ)
      (depth : ℕ) (s : State T) (xs ys : List T)
      → Inv threads s xs
      → t < threads
      → s.status p ≢ removed
      → ((a : ℕ) → p ≢ a → (status' a ≡ s.status a) × (nodes' a ≡ s.nodes a))
      → ((unused : Type 0) → Later t unused (s.status p) (s.nodes p) (status' p) (nodes' p))
      → Represents status' nodes' head ys
      → depth ≡ length ys
      → counted pc ≡ counted (s.pcs t)
      → s.chains t ≡ []
      → own pc ≡ none
      → Knows t status' nodes' pc
      → Shape nodes' pc []
      → ((a : ℕ) → Uses a pc → ⊥)
      → Inv threads
          (record s {
            head_ = head;
            nodes = nodes';
            pcs = update s.pcs t pc;
            depth = depth;
            status = status';
          })
          ys
  push-Inv threads t p pc status' nodes' head depth s xs ys inv lt live same later represents deep
        count empty nothing knows shape uses =
      let s' : State T = record s {
        head_ = head;
        nodes = nodes';
        depth = depth;
        status = status';
      } in
      let ne_of : (a : ℕ) → s.status a ≡ removed → p ≢ a = λ a r e. live (ap s.status e ∙ r) in
      let others : (a : ℕ) → s.status a ≡ removed → status' a ≡ removed =
        λ a r. (same a (ne_of a r)).0 ∙ r in
      let next_of : (a : ℕ) → s.status a ≡ removed → (nodes' a).next_ ≡ (s.nodes a).next_ =
        λ a r. ap (λ n. n.next_) (same a (ne_of a r)).1 in
      let no_hand : hand pc (s.chains t) ≡ [] = ap (λ o. with_own o (s.chains t)) nothing ∙ empty in
      Moves-Inv threads t pc s s' xs ys inv (record {
        represents = represents;
        depth = deep;
        counter = inv.counter ∙ tally_stays threads t lt s.pcs pc count;
        below = lt;
        chains = λ u ne. refl;
        later = λ u a ne.
            Later-at t p (λ a. Uses a (s.pcs u) → ⊥) s.status status' s.nodes nodes'
              (later (Uses p (s.pcs u) → ⊥)) same a;
        next_kept = λ u a ne r o. next_of a r;
        kept = λ u a ne r o. (others a r, o);
        knows = knows;
        held = λ a i. absurd (subst (In a) no_hand i);
        once = subst Distinct (sym no_hand) tt;
        shape = subst (Shape nodes' pc) (sym empty) shape;
        listed = λ a i. let (r, o) = inv.listed a i in (others a r, o);
        listed_once = inv.listed_once;
        linked =
            Segment-same s.nodes nodes' s.to_delete_list_ none s.pending
              (λ a i. next_of a (inv.listed a i).0) inv.linked;
        clears = λ u a ne cl. absurd (subst (In a) no_hand (Cleared-hand a pc (s.chains t) cl));
        uses = λ v a ne us. absurd (uses a us);
      })

  pub make_node-Inv :
      (threads : ℕ) (v : T) (p t : ℕ) (s : State T) (xs : List T)
      → Inv threads s xs
      → t < threads
      → s.pcs t ≡ idle
      → s.status p ≡ unborn
      → Inv threads (make_node v p t s) xs
  unfolding make_node
  make_node-Inv threads v p t s xs inv lt e free =
      let nd : Node T = record { data_ = some v; next_ = none } in
      push-Inv threads t p (made v p) (update s.status p (owned t)) (update s.nodes p nd) s.head_
        s.depth s xs xs inv lt (λ r. cc)
        (λ a ne. (update-ne s.status p (owned t) a ne, update-ne s.nodes p nd a ne))
        (λ unused. rw (free) tt)
        (Represents-update p s.status s.nodes (owned t) nd s.head_ xs (λ k le e. cc)
          inv.represents).0
        inv.depth (sym (ap counted e)) (Shape-at inv e) refl
        (update_self s.status p (owned t), ap (λ m. m.data_) (update_self s.nodes p nd)) refl
        (λ a us. us)

  pub load_next_of_new-Inv :
      (threads : ℕ) (v : T) (p t : ℕ) (s : State T) (xs : List T)
      → Inv threads s xs
      → t < threads
      → counted (s.pcs t) ≡ false
      → s.chains t ≡ []
      → s.status p ≡ owned t
      → (s.nodes p).data_ ≡ some v
      → Inv threads (load_next_of_new v p t s) xs
  unfolding load_next_of_new
  load_next_of_new-Inv threads v p t s xs inv lt out empty o d =
      let nd : Node T = record (s.nodes p) { next_ = s.head_ } in
      push-Inv threads t p (pushing v p) s.status (update s.nodes p nd) s.head_ s.depth s xs xs inv
        lt (λ r. cc) (λ a ne. (refl, update-ne s.nodes p nd a ne))
        (λ unused. rw (o) (λ n. absurd (n refl)))
        (Represents-update p s.status s.nodes (owned t) nd s.head_ xs (λ k le e. cc)
          inv.represents).1.1
        inv.depth (sym out) empty refl (o, ap (λ m. m.data_) (update_self s.nodes p nd) ∙ d) refl
        (λ a us. us)

  pub publish-Inv :
      (threads : ℕ) (v : T) (p t : ℕ) (s : State T) (xs : List T)
      → Inv threads s xs
      → t < threads
      → counted (s.pcs t) ≡ false
      → s.chains t ≡ []
      → s.status p ≡ owned t
      → (s.nodes p).data_ ≡ some v
      → (s.nodes p).next_ ≡ s.head_
      → Inv threads (publish p t s) (v ∷ xs)
  unfolding publish
  publish-Inv threads v p t s xs inv lt out empty o d n =
      let st : Status = stacked s.depth in
      let below =
        (Represents-update p s.status s.nodes st (s.nodes p) s.head_ xs (λ k le e. cc)
          inv.represents).1.0 in
      let depth = inv.depth in
      push-Inv threads t p idle (update s.status p st) s.nodes (some p) (s.depth + 1) s xs (v ∷ xs)
        inv lt (λ r. cc) (λ a ne. (update-ne s.status p st a ne, refl))
        (λ unused. rw (o) (λ n. absurd (n refl)))
        (
          p,
          (
            refl,
            (
              d,
              (
                update_self s.status p st ∙ ap stacked depth,
                subst (λ h. Represents (update s.status p st) s.nodes h xs) (sym n) below,
              ),
            ),
          ),
        )
        (ground arith) (sym out) empty refl tt refl (λ a us. us)
