-- ===== src/Containers/DeleteListStack/Reclaim.antt =====
-- The list of removed nodes in lockfree_statck_delete_list.hpp, and the deletes.
use playground_cpp.Common.{
  ℕ, ◌<◌, ◌≡◌, refl, sym, ◌∙◌, ap, subst, inl, inr, Option, none, some, List, [], ◌∷◌, update,
  update_self, update-ne, In, In-append, Distinct, member, member-In, In-member, Bool-cases,
  if◌then◌else◌,
}
use playground_cpp.Containers.SharedStack.{Node, removed}
use playground_cpp.Containers.SharedStack.Chain.{Represents-update}
use playground_cpp.Containers.HazardStack.Invariant.{Later-refl}
use playground_cpp.Containers.HazardStack.Moves.{Later-at}
use playground_cpp.Containers.DeleteListStack.{
  After, then_subtract, checking, claiming, leaving, linking, adding, State, keep_for_later, claim,
  link,
}
use playground_cpp.Containers.DeleteListStack.Segments.{Segment, Segment-same, Segment-set}
use playground_cpp.Containers.DeleteListStack.Invariant.{
  Shape-at, held_at, own_after, with_own, Uses, counted, counted_after, own, hand, Cleared, Shape,
  Inv,
}
use playground_cpp.Containers.DeleteListStack.Kept.{Moves-Inv, chain-hand}
use playground_cpp.Containers.DeleteListStack.Quiet.{own-hand, tally_stays}
use playground_cpp.Containers.DeleteListStack.Hands.{own-or-chain, Distinct-own, own-Distinct}

module _ {ℓ} {T : Type ℓ} where
  pub keep-Inv :
      (threads a : ℕ) (res : Option T) (t : ℕ) (s : State T) (xs : List T)
      → Inv threads s xs
      → t < threads
      → s.pcs t ≡ checking (some a) res
      → Inv threads (keep_for_later (some a) res t s) xs
  unfolding keep_for_later
  keep-Inv threads a res t s xs inv lt pc =
      let empty = Shape-at inv pc in
      let held = held_at inv pc in
      let new = update_self s.chains t (a ∷ []) in
      Moves-Inv threads t (linking then_subtract a a res) s (keep_for_later (some a) res t s) xs xs
        inv
        (record {
          represents = inv.represents;
          depth = inv.depth;
          counter =
              inv.counter
              ∙ tally_stays threads t lt s.pcs (linking then_subtract a a res)
                  (sym (ap counted pc));
          below = lt;
          chains = λ u ne. update-ne s.chains t (a ∷ []) u ne;
          later = λ u c ne. Later-refl t (Uses c (s.pcs u) → ⊥) (s.status c) (s.nodes c);
          next_kept = λ u c ne r o. refl;
          kept = λ u c ne r o. (r, o);
          knows = tt;
          held = rw (new) (λ b i. elim i [ inl e ↦ held b (inl e) | inr i ↦ absurd i ]);
          once = rw (new) ((λ i. i), tt);
          shape = rw (new) ([], ((s.nodes a).next_, (refl, (refl, refl))));
          listed = inv.listed;
          listed_once = inv.listed_once;
          linked = inv.linked;
          clears = λ u b ne cl. absurd (cc cl);
          uses = λ v b ne us. absurd us;
        })

  pub claim-Inv :
      (threads : ℕ) (old_head : Option ℕ) (res : Option T) (t : ℕ) (s : State T) (xs : List T)
      → Inv threads s xs
      → t < threads
      → s.pcs t ≡ claiming old_head res
      → Inv threads (claim old_head res t s) xs
  unfolding claim
  claim-Inv threads old_head res t s xs inv lt pc =
      let held = held_at inv pc in
      let new = update_self s.chains t s.pending in
      let own_held : (a : ℕ) → old_head ≡ some a → (s.status a ≡ removed) × (s.holder a ≡ some t) =
        λ a e. held a (own-hand a old_head (s.chains t) e) in
      let kept : (u a : ℕ)
          → s.holder a ≡ some u
          → (if member a s.pending then some t else s.holder a) ≡ some u =
        λ u a o. elim (Bool-cases (member a s.pending)) [
          | inl i ↦ let (_, o') = inv.listed a (In-member a s.pending i) in absurd (cc (sym o ∙ o'))
          | inr i ↦ rw (i) o
        ] in
      Moves-Inv threads t (leaving old_head s.to_delete_list_ res) s (claim old_head res t s) xs xs
        inv
        (record {
          represents = inv.represents;
          depth = inv.depth;
          counter =
              inv.counter
              ∙ tally_stays threads t lt s.pcs (leaving old_head s.to_delete_list_ res)
                  (sym (ap counted pc));
          below = lt;
          chains = λ u ne. update-ne s.chains t s.pending u ne;
          later = λ u c ne. Later-refl t (Uses c (s.pcs u) → ⊥) (s.status c) (s.nodes c);
          next_kept = λ u c ne r o. refl;
          kept = λ u c ne r o. (r, kept u c o);
          knows = tt;
          held = rw (new) (λ a i. elim (own-or-chain a old_head s.pending i) [
            | inl e ↦ let (r, o) = own_held a e in (r, kept t a o)
            | inr i ↦ let (r, _) = inv.listed a i in (r, rw (member-In a s.pending i) refl)
          ]);
          once = rw (new) (
              Distinct-own old_head s.pending inv.listed_once (λ a e i.
                let (_, o) = own_held a e in let (_, o') = inv.listed a i in cc (sym o ∙ o')));
          shape = rw (new) inv.linked;
          listed = λ a i. absurd i;
          listed_once = tt;
          linked = refl;
          clears =
              λ u a ne cl. inv.unused t u a ne (subst (λ c. Cleared a c (s.chains t)) (sym pc) cl);
          uses = λ v b ne us. absurd us;
        })

  pub link-Inv :
      (threads : ℕ) (after : After) (first last : ℕ) (res : Option T) (t : ℕ) (s : State T)
      (xs : List T)
      → Inv threads s xs
      → t < threads
      → counted (s.pcs t) ≡ counted_after after
      → own (s.pcs t) ≡ own_after after
      → ((a : ℕ) → own_after after ≡ some a → Cleared a (s.pcs t) (s.chains t))
      → Shape {T = T} s.nodes (linking after first last res) (s.chains t)
      → Inv threads (link after first last res t s) xs
  unfolding link
  link-Inv threads after first last res t s xs inv lt count owns cleared (ys, (q, (e, seg))) =
      let nd : Node T = record (s.nodes last) { next_ = s.to_delete_list_ } in
      let same_hand : hand (s.pcs t) (s.chains t) ≡ with_own (own_after after) (s.chains t) =
        ap (λ o. with_own o (s.chains t)) owns in
      let once = subst Distinct same_hand (inv.once t) in
      let last_in : In last (s.chains t) =
        subst (In last) (sym e) (In-append last ys (last ∷ []) (inl refl)) in
      let (r, o) = inv.held t last (chain-hand last (s.pcs t) (s.chains t) last_in) in
      let set =
        Segment-set s.nodes (some first) q s.to_delete_list_ ys last
          (subst Distinct e (own-Distinct (own_after after) (s.chains t) once).0)
          (subst (λ c. Segment s.nodes (some first) c q) e seg) in
      Moves-Inv threads t (adding after first last res) s (link after first last res t s) xs xs inv
        (record {
          represents =
              (Represents-update last s.status s.nodes removed nd s.head_ xs (λ k le e. cc)
                inv.represents).1.1;
          depth = inv.depth;
          counter =
              inv.counter
              ∙ tally_stays threads t lt s.pcs (adding after first last res) (sym count);
          below = lt;
          chains = λ u ne. refl;
          later = λ u c ne.
              Later-at t last (λ c. Uses c (s.pcs u) → ⊥) s.status s.status s.nodes
                (update s.nodes last nd) (rw (r) (inl refl, tt))
                (λ c ne. (refl, update-ne s.nodes last nd c ne)) c;
          next_kept = λ u c ne r' o'.
              ap (λ n. n.next_)
                (update-ne s.nodes last nd c (λ same. ne (cc (sym o ∙ ap s.holder same ∙ o'))));
          kept = λ u c ne r o. (r, o);
          knows = tt;
          held = λ a i. inv.held t a (subst (In a) (sym same_hand) i);
          once = once;
          shape = (
            ys,
            (
              s.to_delete_list_,
              (
                e,
                subst (λ c. Segment (update s.nodes last nd) (some first) c s.to_delete_list_)
                    (sym e) set,
              ),
            ),
          );
          listed = inv.listed;
          listed_once = inv.listed_once;
          linked =
              Segment-same s.nodes (update s.nodes last nd) s.to_delete_list_ none s.pending
                (λ c i.
                  let (_, o') = inv.listed c i in
                  ap (λ n. n.next_)
                    (update-ne s.nodes last nd c (λ same. cc (sym o ∙ ap s.holder same ∙ o'))))
                inv.linked;
          clears = λ u a ne cl. inv.unused t u a ne (cleared a cl);
          uses = λ v a ne us. absurd us;
        })
