-- ===== src/Containers/CountedStack/Removal.antt =====
-- IncreaseHeadCount and the exchange of Pop in lockfree_stack_reference_counting.hpp keep what
-- the threads rely on.
use playground_cpp.Common.{
  ℕ, length, ◌+◌, ◌-◌, ◌%◌, ◌^◌, ◌<◌, ◌≡◌, ◌≢◌, refl, sym, ◌∙◌, ap, subst, inl, inr, true, Option,
  none, some, List, [], ◌∷◌, update, update_self, update-ne, one, arith, Bool-cases, ◌==◌,
}
use playground_cpp.Containers.SharedStack.Chain.{same_pointer_lem}
use playground_cpp.Containers.CountedStack.{
  CountedNodePtr, stacked, removed, increasing, following, taking, exchanging, giving_back,
  returned, State, counted, same_counted, at, increase, increase_exchange, unlink, pop_exchange,
}
use playground_cpp.Containers.CountedStack.Invariant.{owner_of, holds, Knows, Contents, Inv}
use playground_cpp.Containers.CountedStack.Kept.{keeps-update, move-Inv}
use playground_cpp.Containers.CountedStack.Quiet.{quiet-Inv, Balance-at, Contents-off}

pub same_counted_lem :
    (p q : CountedNodePtr)
    → same_counted p q ≡ true
    → (p.node_ ≡ q.node_) × (p.external_count_ ≡ q.external_count_)
unfolding same_counted
same_counted_lem p q e = (same_pointer_lem p.node_ q.node_ (ground arith), ground arith)

module _ {ℓ} {T : Type ℓ} where
  -- IncreaseHeadCount of a node, which is the head.
  increase_node-Inv :
      (threads moves a e t : ℕ) (old : CountedNodePtr) (s : State T) (xs : List T)
      → moves + 2 < 2 ^ 32
      → Inv threads moves s xs
      → t < threads
      → s.pcs t ≡ increasing old
      → s.head_.node_ ≡ some a
      → s.head_.external_count_ ≡ e
      → Inv threads (moves + 1) (increase (some a) e t s) xs
  unfolding increase
  increase_node-Inv threads moves a e t old s [] few inv lt pc head count =
      absurd (cc (sym head ∙ inv.contents.0))
  increase_node-Inv threads moves a e t old s (x ∷ xs) few inv lt pc head count =
      let (b, (top, (beside, (d, (st, below))))) = inv.contents in
      let is_a : b ≡ a = cc (sym top ∙ head) in
      let life : s.lives a ≡ stacked (length xs) = ap s.lives (sym is_a) ∙ st in
      let external : s.externals a ≡ e = ap s.externals (sym is_a) ∙ sym beside ∙ count in
      let e' = (e + 1) % 2 ^ 32 in
      let externals = update s.externals a e' in
      let now = update_self s.externals a e' in
      let bound = inv.small a in
      let no_wrap : e' ≡ e + 1 = omega arith in
      let same : (c : ℕ)
          → a ≢ c
          → (s.lives c ≡ s.lives c) × ((s.nodes c ≡ s.nodes c) × (externals c ≡ s.externals c)) =
        λ c ne. (refl, (refl, update-ne s.externals a e' c ne)) in
      let rest =
        Contents-off a s.lives s.lives s.nodes s.nodes s.externals externals (s.nodes b).next_ xs
          same (λ k lt e. let eq : length xs ≡ k = cc (sym life ∙ e) in omega arith) below in
      let (given, (returned_i, total)) = Balance-at inv a (stacked (length xs)) life in
      move-Inv threads moves t a (following a e') s.lives s.nodes externals (counted a e') s.depth s
        (x ∷ xs) (x ∷ xs) inv lt same
        (
          a,
          (
            refl,
            (
              sym now,
              (
                ap (λ c. (s.nodes c).data_) (sym is_a) ∙ d,
                (
                  life,
                  subst (λ c. Contents s.lives s.nodes externals (s.nodes c).next_ xs) is_a rest,
                ),
              ),
            ),
          ),
        )
        inv.depth (rw (now) (omega arith)) (λ c ne. rw (pc) (ground arith, refl))
        (λ h held.
          let c = held ∙ ap (λ q. h + one (holds a q)) pc in
          let self : one (a == a) ≡ 1 = ground arith in
          rw (life) (rw (now) (given, (returned_i, omega arith))))
        tt (λ u ne o. absurd (cc (sym (ap owner_of life) ∙ o)))
        (λ u o. absurd (cc (sym (ap owner_of life) ∙ o))) (λ l pos st. ((l, st), refl))

  increase-Inv :
      (threads moves t : ℕ) (old : CountedNodePtr) (p : Option ℕ) (e : ℕ) (s : State T)
      (xs : List T)
      → moves + 2 < 2 ^ 32
      → Inv threads moves s xs
      → t < threads
      → s.pcs t ≡ increasing old
      → s.head_.node_ ≡ p
      → s.head_.external_count_ ≡ e
      → Inv threads (moves + 1) (increase p e t s) xs
  unfolding increase
  increase-Inv threads moves t old none e s [] few inv lt pc head count =
      quiet-Inv threads moves t (returned none)
        (record { node_ = none; external_count_ = (e + 1) % 2 ^ 32 }) s [] inv lt (refl, tt)
        (λ c. rw (pc) (refl, refl)) tt
  increase-Inv threads moves t old none e s (x ∷ xs) few inv lt pc head count =
      let (b, (top, _)) = inv.contents in absurd (cc (sym head ∙ top))
  increase-Inv threads moves t old (some a) e s xs few inv lt pc head count =
      increase_node-Inv threads moves a e t old s xs few inv lt pc head count

  pub increase_exchange-Inv :
      (threads moves t : ℕ) (old : CountedNodePtr) (s : State T) (xs : List T)
      → moves + 2 < 2 ^ 32
      → Inv threads moves s xs
      → t < threads
      → s.pcs t ≡ increasing old
      → Inv threads (moves + 1) (increase_exchange old t s) xs
  unfolding increase_exchange
  increase_exchange-Inv threads moves t old s xs few inv lt pc =
      elim (Bool-cases (same_counted s.head_ old)) [
        | inl wins ↦
            let (p, e) = same_counted_lem s.head_ old wins in
            rw (wins) (
              increase-Inv threads moves t old old.node_ old.external_count_ s xs few inv lt pc p e)
        | inr loses ↦ rw (loses) (
            quiet-Inv threads moves t (increasing s.head_) s.head_ s xs inv lt inv.contents
              (λ c. rw (pc) (refl, refl)) tt)
      ]

  pub follow-Inv :
      (threads moves a e t : ℕ) (s : State T) (xs : List T)
      → Inv threads moves s xs
      → t < threads
      → s.pcs t ≡ following a e
      → Inv threads (moves + 1) (at (exchanging a e (s.nodes a).next_) t s) xs
  follow-Inv threads moves a e t s xs inv lt pc =
      quiet-Inv threads moves t (exchanging a e (s.nodes a).next_) s.head_ s xs inv lt inv.contents
        (λ c. rw (pc) (refl, refl)) (λ k st. refl, tt)

  unlink-Inv :
      (threads moves a e : ℕ) (n : CountedNodePtr) (t : ℕ) (s : State T) (xs : List T)
      → Inv threads moves s xs
      → t < threads
      → s.pcs t ≡ exchanging a e n
      → s.head_.node_ ≡ some a
      → s.head_.external_count_ ≡ e
      → (ys : List T) × Inv threads (moves + 1) (unlink a e n t s) ys
  unfolding unlink
  unlink-Inv threads moves a e n t s [] inv lt pc head count =
      absurd (cc (sym head ∙ inv.contents.0))
  unlink-Inv threads moves a e n t s (x ∷ xs) inv lt pc head count =
      let (b, (top, (beside, (d, (st, below))))) = inv.contents in
      let (next_known, _) = subst (Knows t s.lives s.nodes s.externals) pc (inv.knows t) in
      let is_a : b ≡ a = cc (sym top ∙ head) in
      let life : s.lives a ≡ stacked (length xs) = ap s.lives (sym is_a) ∙ st in
      let external : s.externals a ≡ e = ap s.externals (sym is_a) ∙ sym beside ∙ count in
      let next_b : (s.nodes b).next_ ≡ n =
        ap (λ c. (s.nodes c).next_) is_a ∙ next_known (length xs) life in
      let lives = update s.lives a (removed t) in
      let now = update_self s.lives a (removed t) in
      let same : (c : ℕ)
          → a ≢ c
          → (lives c ≡ s.lives c) × ((s.nodes c ≡ s.nodes c) × (s.externals c ≡ s.externals c)) =
        λ c ne. (update-ne s.lives a (removed t) c ne, (refl, refl)) in
      let rest =
        Contents-off a s.lives lives s.nodes s.nodes s.externals s.externals (s.nodes b).next_ xs
          same (λ k lt e. let eq : length xs ≡ k = cc (sym life ∙ e) in omega arith) below in
      let (given, (returned_i, total)) = Balance-at inv a (stacked (length xs)) life in
      let depth = inv.depth in
      (
        xs,
        move-Inv threads moves t a (taking a e) lives s.nodes s.externals n (s.depth - 1) s (x ∷ xs)
            xs inv lt same (subst (λ q. Contents lives s.nodes s.externals q xs) next_b rest)
            (ground arith) (let le = inv.small a in omega arith)
            (λ c ne. rw (pc) (ground arith, ground arith))
            (λ h held.
              let c = held ∙ ap (λ q. h + one (holds a q)) pc in
              let self : one (a == a) ≡ 1 = ground arith in
              rw (now) (given, (returned_i, omega arith)))
            ((now, external), tt) (λ u ne o. absurd (cc (sym (ap owner_of life) ∙ o)))
            (λ u o.
              keeps-update t u a s.pcs (taking a e) (cc (sym (ap owner_of now) ∙ o)) (ground arith))
            (λ l pos st. absurd (cc (sym now ∙ st))),
      )

  pub pop_exchange-Inv :
      (threads moves a e : ℕ) (n : CountedNodePtr) (t : ℕ) (s : State T) (xs : List T)
      → Inv threads moves s xs
      → t < threads
      → s.pcs t ≡ exchanging a e n
      → (ys : List T) × Inv threads (moves + 1) (pop_exchange a e n t s) ys
  unfolding pop_exchange
  pop_exchange-Inv threads moves a e n t s xs inv lt pc =
      elim (Bool-cases (same_counted s.head_ (counted a e))) [
        | inl wins ↦
            let (p, c) = same_counted_lem s.head_ (counted a e) wins in
            rw (wins) (unlink-Inv threads moves a e n t s xs inv lt pc p c)
        | inr loses ↦ rw (loses) (
          xs,
          quiet-Inv threads moves t (giving_back a) s.head_ s xs inv lt inv.contents
              (λ c. rw (pc) (refl, refl)) tt,
        )
      ]
