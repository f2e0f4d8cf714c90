-- ===== src/Containers/DeleteListStack/Chaining.antt =====
-- ChainPendingNodes in lockfree_statck_delete_list.hpp.
use playground_cpp.Common.{
  ℕ, ◌<◌, ◌≡◌, refl, sym, ◌∙◌, ap, subst, inl, inr, Bool, not, ◌&&◌, Option, none, some, List, [],
  ◌∷◌, ◌++◌, append_assoc, arith, Bool-cases,
}
use playground_cpp.Containers.SharedStack.{same_pointer}
use playground_cpp.Containers.SharedStack.Chain.{same_pointer_lem}
use playground_cpp.Containers.DeleteListStack.{
  After, then_free, walking, linking, adding, State, at, walk, link, add,
}
use playground_cpp.Containers.DeleteListStack.Segments.{Segment, Segment-after}
use playground_cpp.Containers.DeleteListStack.Invariant.{Shape-at, counted, own, Cleared, Inv}
use playground_cpp.Containers.DeleteListStack.Segments.{Segment-none, Segment-some}
use playground_cpp.Containers.DeleteListStack.Reclaim.{link-Inv}
use playground_cpp.Containers.DeleteListStack.HandOn.{hand_on-Inv}
use playground_cpp.Containers.DeleteListStack.Deletes.{holds-Inv}

module _ {ℓ} {T : Type ℓ} where
  -- The test of a round of the loop, which finds that the last node points to `n`.
  finds-Inv :
      (threads : ℕ) (old_head n : Option ℕ) (first last : ℕ) (res : Option T) (ys zs : List ℕ)
      (t : ℕ) (s : State T) (xs : List T)
      → Inv threads s xs
      → t < threads
      → s.pcs t ≡ walking old_head first last res
      → s.chains t ≡ ys ++ last ∷ zs
      → Segment s.nodes (some first) (s.chains t) none
      → Segment s.nodes n zs none
      → Inv threads (at (walk old_head n first last res) t s) xs
  unfolding walk
  finds-Inv threads old_head none first last res ys zs t s xs inv lt e chain seg rest =
      let at_end = chain ∙ ap (λ c. ys ++ last ∷ c) (Segment-none s.nodes none zs rest) in
      holds-Inv threads t (walking old_head first last res)
        (linking (then_free old_head) first last res) s xs inv lt e refl refl tt
        (ys, (none, (at_end, seg))) (λ a us. us) (λ a cl. cl)
  finds-Inv threads old_head (some n) first last res ys zs t s xs inv lt e chain seg rest =
      let (ws, (more, _)) = Segment-some s.nodes n zs rest in
      let further : s.chains t ≡ (ys ++ last ∷ []) ++ n ∷ ws =
        chain ∙ ap (λ c. ys ++ last ∷ c) more ∙ sym (append_assoc ys (last ∷ []) (n ∷ ws)) in
      holds-Inv threads t (walking old_head first last res) (walking old_head first n res) s xs inv
        lt e refl refl tt (ys ++ last ∷ [], (ws, (further, seg))) (λ a us. us) (λ a cl. cl)

  pub walk-Inv :
      (threads : ℕ) (old_head : Option ℕ) (first last : ℕ) (res : Option T) (t : ℕ) (s : State T)
      (xs : List T)
      → Inv threads s xs
      → t < threads
      → s.pcs t ≡ walking old_head first last res
      → Inv threads (at (walk old_head (s.nodes last).next_ first last res) t s) xs
  walk-Inv threads old_head first last res t s xs inv lt e =
      let (ys, (zs, (chain, seg))) = Shape-at inv e in
      finds-Inv threads old_head (s.nodes last).next_ first last res ys zs t s xs inv lt e chain seg
        (Segment-after s.nodes (some first) none ys last zs
          (subst (λ c. Segment s.nodes (some first) c none) chain seg))

  pub add-Inv :
      (threads : ℕ) (fails : Bool) (after : After) (first last : ℕ) (res : Option T) (t : ℕ)
      (s : State T) (xs : List T)
      → Inv threads s xs
      → t < threads
      → s.pcs t ≡ adding after first last res
      → Inv threads (add fails after first last res t s) xs
  unfolding add
  add-Inv threads fails after first last res t s xs inv lt e =
      let shape = Shape-at inv e in
      elim (Bool-cases (same_pointer s.to_delete_list_ (s.nodes last).next_ && not fails)) [
        | inl wins ↦ rw (wins) (
            hand_on-Inv threads after first last res t s xs inv lt e
              (same_pointer_lem s.to_delete_list_ (s.nodes last).next_ (ground arith)))
        | inr loses ↦ rw (loses) (
            link-Inv threads after first last res t s xs inv lt (ap counted e) (ap own e)
              (λ a cl. subst (λ c. Cleared a c (s.chains t)) (sym e) cl) shape)
      ]

  pub start_link-Inv :
      (threads : ℕ) (after : After) (first last : ℕ) (res : Option T) (t : ℕ) (s : State T)
      (xs : List T)
      → Inv threads s xs
      → t < threads
      → s.pcs t ≡ linking after first last res
      → Inv threads (link after first last res t s) xs
  start_link-Inv threads after first last res t s xs inv lt e =
      link-Inv threads after first last res t s xs inv lt (ap counted e) (ap own e)
        (λ a cl. subst (λ c. Cleared a c (s.chains t)) (sym e) cl) (Shape-at inv e)
