-- ===== src/Containers/DeleteListStack/HandOn.antt =====
-- The exchange of the list of removed nodes in lockfree_statck_delete_list.hpp.
use playground_cpp.Common.{
  ℕ, ◌<◌, ◌≡◌, ◌≢◌, refl, sym, ◌∙◌, ap, subst, inl, inr, Option, none, some, List, [], update_self,
  update-ne, In, append-In, Distinct, Distinct-append, member, member-In, In-member, Bool-cases,
  if◌then◌else◌,
}
use playground_cpp.Containers.SharedStack.{Node, Status, removed}
use playground_cpp.Containers.HazardStack.Invariant.{Later-refl}
use playground_cpp.Containers.DeleteListStack.{
  After, then_free, then_subtract, adding, State, after_adding, hand_on,
}
use playground_cpp.Containers.DeleteListStack.Segments.{Segment, Segment-append, Segment-after}
use playground_cpp.Containers.DeleteListStack.Invariant.{
  Shape-at, held_at, own_after, Uses, counted, counted_after, own, hand, Cleared, Shape, Knows, Inv,
}
use playground_cpp.Containers.DeleteListStack.Kept.{Moves-Inv, chain-hand}
use playground_cpp.Containers.DeleteListStack.Quiet.{own-hand, tally_stays}
use playground_cpp.Containers.DeleteListStack.Hands.{own-or-chain, Distinct-own, own-Distinct}

module _ {ℓ} {T : Type ℓ} where
  own-after_adding :
      (after : After) (res : Option T) → own (after_adding after res) ≡ own_after after
  unfolding after_adding
  own-after_adding (then_free old_head) res = refl
  own-after_adding then_subtract res = refl

  counted-after_adding :
      (after : After) (res : Option T) → counted (after_adding after res) ≡ counted_after after
  unfolding after_adding
  counted-after_adding (then_free old_head) res = refl
  counted-after_adding then_subtract res = refl

  -- Its thread has nothing to know, has no chain and uses no node.
  after_adding-Knows :
      (after : After) (res : Option T) (t : ℕ) (status : ℕ → Status) (nodes : ℕ → Node T)
      → Knows t status nodes (after_adding after res)
        × (Shape nodes (after_adding after res) []
            × (((a : ℕ) → Uses a (after_adding after res) → ⊥)
                × ((a : ℕ) → Cleared a (after_adding after res) [] → own_after after ≡ some a)))
  unfolding after_adding
  after_adding-Knows (then_free old_head) res t status nodes =
      (tt, (refl, (λ a us. us, λ a cl. cl)))
  after_adding-Knows then_subtract res t status nodes =
      (tt, (refl, (λ a us. us, λ a cl. absurd cl)))

  pub hand_on-Inv :
      (threads : ℕ) (after : After) (first last : ℕ) (res : Option T) (t : ℕ) (s : State T)
      (xs : List T)
      → Inv threads s xs
      → t < threads
      → s.pcs t ≡ adding after first last res
      → s.to_delete_list_ ≡ (s.nodes last).next_
      → Inv threads (hand_on after first res t s) xs
  unfolding hand_on
  hand_on-Inv threads after first last res t s xs inv lt pc same =
      let pc' = after_adding after res in
      let chain = s.chains t in
      let new = update_self s.chains t [] in
      let owns = own-after_adding after res in
      let (knows, (shape', (uses, clears))) = after_adding-Knows after res t s.status s.nodes in
      let held = held_at inv pc in
      let (once, out) =
        own-Distinct (own_after after) chain
          (subst (λ c. Distinct (hand c chain)) pc (inv.once t)) in
      let (ys, (q, (e, seg))) = Shape-at inv pc in
      let to_end : q ≡ s.to_delete_list_ =
        sym (
          Segment-after s.nodes (some first) q ys last []
            (subst (λ c. Segment s.nodes (some first) c q) e seg))
        ∙ sym same in
      let in_chain : (a : ℕ) → In a chain → s.holder a ≡ some t =
        λ a i. (held a (chain-hand a (adding after first last res) chain i)).1 in
      let keeps : (u a : ℕ)
          → t ≢ u
          → s.holder a ≡ some u
          → (if member a chain then none else s.holder a) ≡ some u =
        λ u a ne o. elim (Bool-cases (member a chain)) [
          | inl i ↦ absurd (ne (cc (sym (in_chain a (In-member a chain i)) ∙ o)))
          | inr i ↦ rw (i) o
        ] in
      let own_held : (a : ℕ)
          → own_after after ≡ some a
          → (s.status a ≡ removed) × ((if member a chain then none else s.holder a) ≡ some t) =
        λ a eq.
          let (r, o) = held a (own-hand a (own_after after) chain eq) in
          (
            r,
            elim (Bool-cases (member a chain)) [
              | inl i ↦ absurd (out a eq (In-member a chain i))
              | inr i ↦ rw (i) o
            ],
          ) in
      Moves-Inv threads t pc' s (hand_on after first res t s) xs xs inv (record {
        represents = inv.represents;
        depth = inv.depth;
        counter =
            inv.counter
            ∙ tally_stays threads t lt s.pcs pc'
                (counted-after_adding after res ∙ sym (ap counted pc));
        below = lt;
        chains = λ u ne. update-ne s.chains t [] u ne;
        later = λ u c ne. Later-refl t (Uses c (s.pcs u) → ⊥) (s.status c) (s.nodes c);
        next_kept = λ u c ne r o. refl;
        kept = λ u c ne r o. (r, keeps u c ne o);
        knows = knows;
        held = rw (new) (λ a i. elim (own-or-chain a (own pc') [] i) [
          | inl eq ↦ own_held a (sym owns ∙ eq)
          | inr i ↦ absurd i
        ]);
        once = rw (new) (Distinct-own (own pc') [] tt (λ a eq i. i));
        shape = rw (new) shape';
        listed = λ a i. elim (append-In a chain s.pending i) [
          | inl j ↦ (
            (held a (chain-hand a (adding after first last res) chain j)).0,
            rw (member-In a chain j) refl,
          )
          | inr j ↦
              let (r, o) = inv.listed a j in
              (r, elim (Bool-cases (member a chain)) [ inl m ↦ rw (m) refl | inr m ↦ rw (m) o ])
        ];
        listed_once =
            Distinct-append chain s.pending once inv.listed_once
              (λ a i j. let (_, o) = inv.listed a j in cc (sym (in_chain a i) ∙ o));
        linked =
            Segment-append s.nodes (some first) s.to_delete_list_ none chain s.pending
              (subst (λ r. Segment s.nodes (some first) chain r) to_end seg) inv.linked;
        clears = rw (new) (λ u a ne cl.
            inv.unused t u a ne (subst (λ c. Cleared a c chain) (sym pc) (clears a cl)));
        uses = λ v b ne us. absurd (uses b us);
      })
