-- ===== src/Containers/SharedStack/Exchanges.antt =====
-- The loads of the head and the exchanges of lockfree_stack_shared_ptr.hpp keep the invariant,
-- with the items that their action gives.
use playground_cpp.Common.{
  ℕ, ◌<◌, ◌≡◌, ◌≢◌, refl, sym, ◌∙◌, ap, subst, inl, inr, ◌⊎◌, Bool, not, ◌&&◌, Option, none, some,
  List, [], ◌∷◌, update, update_self, update-ne, length, arith, Bool-cases,
}
use playground_cpp.Containers.SharedStack.{
  Node, loaded, popping, clearing, reading, returned, owned, stacked, removed, State, pops,
  same_pointer, with_next, push_exchange, load_old_head, load_next, unlink, pop_exchange,
  clear_next,
}
use playground_cpp.Containers.SharedStack.Chain.{
  Represents, Later-refl, Later-nodes, Later-status, Represents-update, same_pointer_lem,
}
use playground_cpp.Containers.SharedStack.Invariant.{Inv, threads-update}
use playground_cpp.Containers.SharedStack.Moves.{
  Does, does_nothing, does_push, does_pop, does_find_empty, Simulates, load_next_of_new-Inv,
  publish-Inv, at-Inv,
}

module _ {ℓ} {T : Type ℓ} where
  pub load_old_head-Simulates :
      (head : Option ℕ) (t : ℕ) (s : State T) (xs : List T)
      → s.head_ ≡ head
      → Inv s xs
      → Simulates xs (load_old_head head t s)
  unfolding load_old_head
  load_old_head-Simulates none t s [] e inv = (
    [],
    (
      does_find_empty,
      record {
        represents = inv.represents;
        depth = inv.depth;
        unborn_from = inv.unborn_from;
        threads =
            threads-update t s.status s.status s.nodes s.nodes s.claimed (update s.claimed t none)
              s.pcs (returned none) (λ u ne a. Later-refl u (s.status a) (s.nodes a))
              (λ u ne. update-ne s.claimed t none u ne) (update_self s.claimed t none) inv.threads;
      },
    ),
  )
  load_old_head-Simulates none t s (x ∷ xs) e inv =
      let (b, (e', _)) = inv.represents in absurd (cc (sym e ∙ e'))
  load_old_head-Simulates (some a) t s [] e inv =
      let (e', _) = inv.represents in absurd (cc (sym e ∙ e'))
  load_old_head-Simulates (some a) t s (x ∷ xs) e inv =
      let (b, (e', (_, (st, _)))) = inv.represents in
      let same : a ≡ b = cc (sym e ∙ e') in
      (
        x ∷ xs,
        (
          does_nothing (x ∷ xs),
          at-Inv (loaded a) t s (x ∷ xs) (inr (length xs, ap s.status same ∙ st), tt) inv,
        ),
      )

  pub load_next-Inv :
      (a t : ℕ) (s : State T) (xs : List T)
      → (s.status a ≡ removed) ⊎ ((k : ℕ) × (s.status a ≡ stacked k))
      → Inv s xs
      → Inv (load_next a t s) xs
  unfolding load_next
  load_next-Inv a t s xs h inv =
      at-Inv (popping a (s.nodes a).next_) t s xs
        (elim h [ inl r ↦ (inl r, tt) | inr (k, e) ↦ (inr (k, (e, refl)), tt) ]) inv

  unlink-Simulates :
      (a : ℕ) (n : Option ℕ) (t : ℕ) (s : State T) (xs : List T)
      → s.head_ ≡ some a
      → (s.status a ≡ removed) ⊎ ((k : ℕ) × ((s.status a ≡ stacked k) × ((s.nodes a).next_ ≡ n)))
      → Inv s xs
      → Simulates xs (pops (s.nodes a).data_, unlink a n t s)
  unfolding unlink
  unlink-Simulates a n t s [] e h inv = absurd (cc (sym e ∙ inv.represents.0))
  unlink-Simulates a n t s (x ∷ xs) e h inv =
      let (b, (e', (d, (st, r)))) = inv.represents in
      let same : b ≡ a = cc (sym e' ∙ e) in
      let top : s.status a ≡ stacked (length xs) = ap s.status (sym same) ∙ st in
      let data_a : (s.nodes a).data_ ≡ some x = ap (λ c. (s.nodes c).data_) (sym same) ∙ d in
      let next_b : (s.nodes b).next_ ≡ n = elim h [
        | inl gone ↦ absurd (cc (sym top ∙ gone))
        | inr (k, (_, en)) ↦ ap (λ c. (s.nodes c).next_) same ∙ en
      ] in
      let apart : (k : ℕ) → k < length xs → s.status a ≢ stacked k =
        λ k le e. let eq : length xs ≡ k = cc (sym top ∙ e) in omega arith in
      let rest = subst (λ p. Represents s.status s.nodes p xs) next_b r in
      let depth = inv.depth in
      (
        xs,
        (
          subst (λ v. Does (pops v) (x ∷ xs) xs) (sym data_a) (does_pop x xs),
          record {
            represents =
                (Represents-update a s.status s.nodes removed (s.nodes a) n xs apart rest).1.0;
            depth = ground arith;
            unborn_from = λ q le.
                let free = inv.unborn_from q le in
                update-ne s.status a removed q (λ same. cc) ∙ free;
            threads =
                threads-update t s.status (update s.status a removed) s.nodes s.nodes s.claimed
                  (update s.claimed t (s.nodes a).data_) s.pcs (clearing a)
                  (λ u ne. Later-status u a s.status s.nodes removed (rw (top) (inl refl)))
                  (λ u ne. update-ne s.claimed t (s.nodes a).data_ u ne)
                  (update_self s.status a removed, update_self s.claimed t (s.nodes a).data_)
                  inv.threads;
          },
        ),
      )

  pub clear_next-Inv :
      (a t : ℕ) (s : State T) (xs : List T)
      → s.status a ≡ removed
      → s.claimed t ≡ (s.nodes a).data_
      → Inv s xs
      → Inv (clear_next a t s) xs
  unfolding clear_next
  clear_next-Inv a t s xs r e inv =
      let nd : Node T = record (s.nodes a) { next_ = none } in
      let apart : (k : ℕ) → k < length xs → s.status a ≢ stacked k = λ k le e. cc in
      record {
        represents =
            (Represents-update a s.status s.nodes removed nd s.head_ xs apart inv.represents).1.1;
        depth = inv.depth;
        unborn_from = inv.unborn_from;
        threads =
            threads-update t s.status s.status s.nodes (with_next a none s) s.claimed s.claimed
              s.pcs (reading a) (λ u ne. Later-nodes u a s.status s.nodes nd (rw (r) (refl, refl)))
              (λ u ne. refl) (r, e ∙ sym (ap (λ m. m.data_) (update_self s.nodes a nd)))
              inv.threads;
      }

  pub push_exchange-Simulates :
      (fails : Bool) (v : T) (p t : ℕ) (s : State T) (xs : List T)
      → s.status p ≡ owned t
      → (s.nodes p).data_ ≡ some v
      → Inv s xs
      → Simulates xs (push_exchange fails v p t s)
  unfolding push_exchange
  push_exchange-Simulates fails v p t s xs o d inv =
      elim (Bool-cases (same_pointer s.head_ (s.nodes p).next_ && not fails)) [
        | inl wins ↦ rw (wins) (
          v ∷ xs,
          (
            does_push v xs,
            publish-Inv v p t s xs o d
                (sym (same_pointer_lem s.head_ (s.nodes p).next_ (ground arith))) inv,
          ),
        )
        | inr loses ↦ rw (loses) (xs, (does_nothing xs, load_next_of_new-Inv v p t s xs o d inv))
      ]

  pub pop_exchange-Simulates :
      (fails : Bool) (a : ℕ) (n : Option ℕ) (t : ℕ) (s : State T) (xs : List T)
      → (s.status a ≡ removed) ⊎ ((k : ℕ) × ((s.status a ≡ stacked k) × ((s.nodes a).next_ ≡ n)))
      → Inv s xs
      → Simulates xs (pop_exchange fails a n t s)
  unfolding pop_exchange
  pop_exchange-Simulates fails a n t s xs h inv =
      elim (Bool-cases (same_pointer s.head_ (some a) && not fails)) [
        | inl wins ↦
            rw (wins)
              (unlink-Simulates a n t s xs (same_pointer_lem s.head_ (some a) (ground arith)) h inv)
        | inr loses ↦ rw (loses) (load_old_head-Simulates s.head_ t s xs refl inv)
      ]
