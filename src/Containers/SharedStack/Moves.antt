-- ===== src/Containers/SharedStack/Moves.antt =====
-- Each operation of lockfree_stack_shared_ptr.hpp keeps the invariant, with the items that its
-- action gives.
use playground_cpp.Common.{
  ℕ, ◌<◌, ◌≡◌, ◌≢◌, refl, sym, ◌∙◌, ap, subst, none, some, List, [], ◌∷◌, update, update_self,
  update-ne, length, arith,
}
use playground_cpp.Containers.SharedStack.{
  Node, Pc, idle, made, pushing, owned, stacked, State, Action, silent, pushes, pops, finds_empty,
  with_next, make_node, load_next_of_new, publish,
}
use playground_cpp.Containers.SharedStack.Chain.{
  Represents, Later-refl, Later-nodes, Later-status, Later-update, Represents-update,
}
use playground_cpp.Containers.SharedStack.Invariant.{ThreadInv, Inv, threads-update}

module _ {ℓ} {T : Type ℓ} where
  -- What the actions do to a stack.
  pub data Does : Action T → List T → List T → Type ℓ where
    does_nothing : (xs : List T) → Does silent xs xs
    does_push : (x : T) (xs : List T) → Does (pushes x) xs (x ∷ xs)
    does_pop : (x : T) (xs : List T) → Does (pops (some x)) (x ∷ xs) xs
    does_find_empty : Does finds_empty [] []

  abbrev pub Simulates : List T → Action T × State T → Type ℓ
  Simulates xs out = (ys : List T) × (Does (out.0) xs ys × Inv (out.1) ys)

  pub make_node-Inv :
      (v : T) (t : ℕ) (s : State T) (xs : List T) → Inv s xs → Inv (make_node v t s) xs
  unfolding make_node
  make_node-Inv v t s xs inv =
      let new = inv.unborn_from s.fresh (omega arith) in
      let nd : Node T = record { data_ = some v; next_ = none } in
      let apart : (k : ℕ) → k < length xs → s.status s.fresh ≢ stacked k = λ k le e. cc in
      record {
        represents =
            (Represents-update s.fresh s.status s.nodes (owned t) nd s.head_ xs apart
              inv.represents).0;
        depth = inv.depth;
        unborn_from = λ p le.
            update-ne s.status s.fresh (owned t) p (λ same. omega arith)
            ∙ inv.unborn_from p (omega arith);
        threads =
            threads-update t s.status _ s.nodes _ s.claimed s.claimed s.pcs (made v s.fresh)
              (λ u ne. Later-update u s.fresh s.status s.nodes (owned t) nd new) (λ u ne. refl)
              (
                update_self s.status s.fresh (owned t),
                ap (λ m. m.data_) (update_self s.nodes s.fresh nd),
              )
              inv.threads;
      }

  pub load_next_of_new-Inv :
      (v : T) (p t : ℕ) (s : State T) (xs : List T)
      → s.status p ≡ owned t
      → (s.nodes p).data_ ≡ some v
      → Inv s xs
      → Inv (load_next_of_new v p t s) xs
  unfolding load_next_of_new
  load_next_of_new-Inv v p t s xs o d inv =
      let nd : Node T = record (s.nodes p) { next_ = s.head_ } in
      let apart : (k : ℕ) → k < length xs → s.status p ≢ stacked k = λ k le e. cc in
      record {
        represents =
            (Represents-update p s.status s.nodes (owned t) nd s.head_ xs apart inv.represents).1.1;
        depth = inv.depth;
        unborn_from = inv.unborn_from;
        threads =
            threads-update t s.status s.status s.nodes (with_next p s.head_ s) s.claimed s.claimed
              s.pcs (pushing v p)
              (λ u ne. Later-nodes u p s.status s.nodes nd (rw (o) (λ e. absurd (ne e))))
              (λ u ne. refl) (o, ap (λ m. m.data_) (update_self s.nodes p nd) ∙ d) inv.threads;
      }

  pub publish-Inv :
      (v : T) (p t : ℕ) (s : State T) (xs : List T)
      → s.status p ≡ owned t
      → (s.nodes p).data_ ≡ some v
      → (s.nodes p).next_ ≡ s.head_
      → Inv s xs
      → Inv (publish p t s) (v ∷ xs)
  unfolding publish
  publish-Inv v p t s xs o d n inv =
      let apart : (k : ℕ) → k < length xs → s.status p ≢ stacked k = λ k le e. cc in
      let below =
        (Represents-update p s.status s.nodes (stacked s.depth) (s.nodes p) s.head_ xs apart
          inv.represents).1.0 in
      let depth = inv.depth in
      record {
        represents = (
          p,
          (
            refl,
            (
              d,
              (
                update_self s.status p (stacked s.depth) ∙ ap stacked depth,
                subst (λ h. Represents (update s.status p (stacked s.depth)) s.nodes h xs) (sym n)
                    below,
              ),
            ),
          ),
        );
        depth = ground arith;
        unborn_from = λ q le.
            let free = inv.unborn_from q le in
            update-ne s.status p (stacked s.depth) q (λ same. cc) ∙ free;
        threads =
            threads-update t s.status (update s.status p (stacked s.depth)) s.nodes s.nodes
              s.claimed s.claimed s.pcs idle
              (λ u ne.
                Later-status u p s.status s.nodes (stacked s.depth) (rw (o) (λ e. absurd (ne e))))
              (λ u ne. refl) tt inv.threads;
      }

  -- A thread that changes nothing but where it is.
  pub at-Inv :
      (pc : Pc T) (t : ℕ) (s : State T) (xs : List T)
      → ThreadInv t s.status s.nodes (s.claimed t) pc
      → Inv s xs
      → Inv (record s { pcs = update s.pcs t pc }) xs
  at-Inv pc t s xs own inv = record {
    represents = inv.represents;
    depth = inv.depth;
    unborn_from = inv.unborn_from;
    threads =
        threads-update t s.status s.status s.nodes s.nodes s.claimed s.claimed s.pcs pc
          (λ u ne a. Later-refl u (s.status a) (s.nodes a)) (λ u ne. refl) own inv.threads;
  }
