-- ===== src/Containers/DeleteListStack/Removal.antt =====
-- The exchange of Pop in lockfree_statck_delete_list.hpp, and its swap, keep what the threads
-- rely on.
use playground_cpp.Common.{
  ℕ, length, ◌<◌, ◌≡◌, ◌≢◌, refl, sym, ◌∙◌, ap, subst, inl, inr, Option, none, some, List, [], ◌∷◌,
  update, update_self, update-ne, Distinct, arith, ℕ_discrete,
}
use playground_cpp.Containers.SharedStack.{Node, stacked, removed}
use playground_cpp.Containers.SharedStack.Chain.{Represents, Represents-update}
use playground_cpp.Containers.HazardStack.Moves.{Later-at}
use playground_cpp.Containers.DeleteListStack.{
  taking, exchanging, checking, State, unlink, take_data,
}
use playground_cpp.Containers.DeleteListStack.Segments.{Segment-same}
use playground_cpp.Containers.DeleteListStack.Invariant.{
  Shape-at, held_at, Uses, counted, hand, Knows, Inv,
}
use playground_cpp.Containers.DeleteListStack.Kept.{Moves-Inv}
use playground_cpp.Containers.DeleteListStack.Quiet.{tally_stays}

module _ {ℓ} {T : Type ℓ} where
  pub unlink-Inv :
      (threads a : ℕ) (n : Option ℕ) (t : ℕ) (s : State T) (xs : List T)
      → Inv threads s xs
      → t < threads
      → s.pcs t ≡ exchanging a n
      → s.head_ ≡ some a
      → (ys : List T) × Inv threads (unlink a n t s) ys
  unfolding unlink
  unlink-Inv threads a n t s [] inv lt pc e = absurd (cc (sym e ∙ inv.represents.0))
  unlink-Inv threads a n t s (x ∷ xs) inv lt pc e =
      let h = (subst (Knows t s.status s.nodes) pc (inv.knows t)).0 in
      let empty = Shape-at inv pc in
      let (b, (e', (d, (st, r)))) = inv.represents in
      let same : b ≡ a = cc (sym e' ∙ e) in
      let top : s.status a ≡ stacked (length xs) = ap s.status (sym same) ∙ st in
      let next_b : (s.nodes b).next_ ≡ n = elim h [
        | inl gone ↦ absurd (cc (sym top ∙ gone))
        | inr (k, (_, en)) ↦ ap (λ c. (s.nodes c).next_) same ∙ en
      ] in
      let apart_k : (k : ℕ) → k < length xs → s.status a ≢ stacked k =
        λ k le e. let eq : length xs ≡ k = cc (sym top ∙ e) in omega arith in
      let rest = subst (λ p. Represents s.status s.nodes p xs) next_b r in
      let depth = inv.depth in
      let ne_of : (c : ℕ) → s.status c ≡ removed → a ≢ c =
        λ c r same. cc (sym top ∙ ap s.status same ∙ r) in
      let others : (c : ℕ) → s.status c ≡ removed → update s.status a removed c ≡ removed =
        λ c r. update-ne s.status a removed c (ne_of c r) ∙ r in
      let hold : (c : ℕ) → s.status c ≡ removed → update s.holder a (some t) c ≡ s.holder c =
        λ c r. update-ne s.holder a (some t) c (ne_of c r) in
      (
        xs,
        Moves-Inv threads t (taking a) s (unlink a n t s) (x ∷ xs) xs inv (record {
          represents =
              (Represents-update a s.status s.nodes removed (s.nodes a) n xs apart_k rest).1.0;
          depth = ground arith;
          counter = inv.counter ∙ tally_stays threads t lt s.pcs (taking a) (sym (ap counted pc));
          below = lt;
          chains = λ u ne. refl;
          later = λ u c ne.
              Later-at t a (λ c. Uses c (s.pcs u) → ⊥) s.status (update s.status a removed) s.nodes
                s.nodes (rw (top) (inl (ground arith), tt))
                (λ c ne. (update-ne s.status a removed c ne, refl)) c;
          next_kept = λ u c ne r o. refl;
          kept = λ u c ne r o. (others c r, hold c r ∙ o);
          knows = tt;
          held = rw (empty) (λ c i. elim i [
            | inl e ↦
                subst
                  (λ c.
                    (update s.status a removed c ≡ removed)
                    × (update s.holder a (some t) c ≡ some t))
                  e (update_self s.status a removed, update_self s.holder a (some t))
            | inr i ↦ absurd i
          ]);
          once = rw (empty) ((λ i. i), tt);
          shape = empty;
          listed = λ c i. let (r, o) = inv.listed c i in (others c r, hold c r ∙ o);
          listed_once = inv.listed_once;
          linked = inv.linked;
          clears = λ u a ne cl. absurd cl;
          uses = λ v a ne us. absurd us;
        }),
      )

  pub take_data-Inv :
      (threads a t : ℕ) (s : State T) (xs : List T)
      → Inv threads s xs
      → t < threads
      → s.pcs t ≡ taking a
      → Inv threads (take_data a t s) xs
  unfolding take_data
  take_data-Inv threads a t s xs inv lt pc =
      let nd : Node T = record (s.nodes a) { data_ = none } in
      let res = (s.nodes a).data_ in
      let empty = Shape-at inv pc in
      let held = held_at inv pc in
      let (r, o) = held a (inl refl) in
      let next_of : (c : ℕ) → (update s.nodes a nd c).next_ ≡ (s.nodes c).next_ = λ c.
        elim (ℕ_discrete a c) [
          | yes e ↦
              subst (λ x. (update s.nodes a nd x).next_ ≡ (s.nodes x).next_) e
                (ap (λ n. n.next_) (update_self s.nodes a nd))
          | no ne ↦ ap (λ n. n.next_) (update-ne s.nodes a nd c ne)
        ] in
      Moves-Inv threads t (checking (some a) res) s (take_data a t s) xs xs inv (record {
        represents =
            (Represents-update a s.status s.nodes removed nd s.head_ xs (λ k le e. cc)
              inv.represents).1.1;
        depth = inv.depth;
        counter =
            inv.counter
            ∙ tally_stays threads t lt s.pcs (checking (some a) res) (sym (ap counted pc));
        below = lt;
        chains = λ u ne. refl;
        later = λ u c ne.
            Later-at t a (λ c. Uses c (s.pcs u) → ⊥) s.status s.status s.nodes (update s.nodes a nd)
              (rw (r) (inl refl, tt)) (λ c ne. (refl, update-ne s.nodes a nd c ne)) c;
        next_kept = λ u c ne r o. next_of c;
        kept = λ u a ne r o. (r, o);
        knows = tt;
        held = held;
        once = subst (λ c. Distinct (hand c (s.chains t))) pc (inv.once t);
        shape = empty;
        listed = inv.listed;
        listed_once = inv.listed_once;
        linked =
            Segment-same s.nodes (update s.nodes a nd) s.to_delete_list_ none s.pending
              (λ c i. next_of c) inv.linked;
        clears = λ u a ne cl. absurd cl;
        uses = λ v a ne us. absurd us;
      })
