-- ===== src/Containers/CountedStack/Moves.antt =====
-- Push of lockfree_stack_reference_counting.hpp keeps what the threads rely on.
use playground_cpp.Common.{
  ℕ, ◌+◌, ◌<◌, ◌≡◌, ◌≢◌, refl, sym, ◌∙◌, ap, subst, false, some, List, ◌∷◌, update, update_self,
  update-ne, tally, one, arith, ◌==◌,
}
use playground_cpp.Containers.CountedStack.{
  Node, unborn, owned, stacked, idle, made, pushing, State, null, counted, make_node,
  load_next_of_new, publish,
}
use playground_cpp.Containers.CountedStack.Invariant.{owner_of, holds, keeps, Contents, Inv}
use playground_cpp.Containers.CountedStack.Kept.{keeps-update, move-Inv}
use playground_cpp.Containers.CountedStack.Quiet.{Balance-at, Contents-off}

module _ {ℓ} {T : Type ℓ} where
  pub make_node-Inv :
      (threads moves : ℕ) (v : T) (p t : ℕ) (s : State T) (xs : List T)
      → Inv threads moves s xs
      → t < threads
      → s.pcs t ≡ idle
      → s.lives p ≡ unborn
      → Inv threads (moves + 1) (make_node v p t s) xs
  unfolding make_node
  make_node-Inv threads moves v p t s xs inv lt e free =
      let nd : Node T = record { data_ = some v; next_ = null; internal_count_ = 0 } in
      let lives = update s.lives p (owned t) in
      let nodes = update s.nodes p nd in
      let now = update_self s.lives p (owned t) in
      let there = update_self s.nodes p nd in
      let none_hold : tally threads (λ u. holds p (s.pcs u)) ≡ 0 = Balance-at inv p unborn free in
      let same : (c : ℕ)
          → p ≢ c
          → (lives c ≡ s.lives c) × ((nodes c ≡ s.nodes c) × (s.externals c ≡ s.externals c)) =
        λ c ne. (update-ne s.lives p (owned t) c ne, (update-ne s.nodes p nd c ne, refl)) in
      move-Inv threads moves t p (made v p) lives nodes s.externals s.head_ s.depth s xs xs inv lt
        same
        (Contents-off p s.lives lives s.nodes nodes s.externals s.externals s.head_ xs same
          (λ k lt st. cc (sym free ∙ st)) inv.contents)
        inv.depth (let le = inv.small p in omega arith) (λ c ne. rw (e) (refl, ground arith))
        (λ h count.
          let c = count ∙ ap (λ q. h + one (holds p q)) e in
          rw (now) (rw (there) (omega arith, refl)))
        (now, ap (λ m. m.data_) there) (λ u ne o. absurd (cc (sym (ap owner_of free) ∙ o)))
        (λ u o. keeps-update t u p s.pcs (made v p) (cc (sym (ap owner_of now) ∙ o)) (ground arith))
        (λ l pos st. cc (sym now ∙ st))

  pub load_next_of_new-Inv :
      (threads moves : ℕ) (v : T) (p t : ℕ) (s : State T) (xs : List T)
      → Inv threads moves s xs
      → t < threads
      → ((c : ℕ) → (holds c (s.pcs t) ≡ false) × (keeps c (s.pcs t) ≡ (p == c)))
      → s.lives p ≡ owned t
      → (s.nodes p).data_ ≡ some v
      → Inv threads (moves + 1) (load_next_of_new v p t s) xs
  unfolding load_next_of_new
  load_next_of_new-Inv threads moves v p t s xs inv lt at_t mine d =
      let nd : Node T = record (s.nodes p) { next_ = s.head_ } in
      let nodes = update s.nodes p nd in
      let there = update_self s.nodes p nd in
      let (none_hold, zero_count) = Balance-at inv p (owned t) mine in
      let same : (c : ℕ)
          → p ≢ c
          → (s.lives c ≡ s.lives c) × ((nodes c ≡ s.nodes c) × (s.externals c ≡ s.externals c)) =
        λ c ne. (refl, (update-ne s.nodes p nd c ne, refl)) in
      move-Inv threads moves t p (pushing v p) s.lives nodes s.externals s.head_ s.depth s xs xs inv
        lt same
        (Contents-off p s.lives s.lives s.nodes nodes s.externals s.externals s.head_ xs same
          (λ k lt st. cc (sym mine ∙ st)) inv.contents)
        inv.depth (let le = inv.small p in omega arith)
        (λ c ne. let (h, k) = at_t c in (sym h, sym k))
        (λ h count. let c = ap one (at_t p).0 in rw (mine) (rw (there) (omega arith, zero_count)))
        (mine, ap (λ m. m.data_) there ∙ d)
        (λ u ne o. absurd (ne (cc (sym (ap owner_of mine) ∙ o))))
        (λ u o.
          keeps-update t u p s.pcs (pushing v p) (cc (sym (ap owner_of mine) ∙ o)) (ground arith))
        (λ l pos st. cc (sym mine ∙ st))

  pub publish-Inv :
      (threads moves : ℕ) (v : T) (p t : ℕ) (s : State T) (xs : List T)
      → Inv threads moves s xs
      → t < threads
      → s.pcs t ≡ pushing v p
      → s.lives p ≡ owned t
      → (s.nodes p).data_ ≡ some v
      → (s.nodes p).next_ ≡ s.head_
      → Inv threads (moves + 1) (publish p t s) (v ∷ xs)
  unfolding publish
  publish-Inv threads moves v p t s xs inv lt e mine d n =
      let st = stacked s.depth in
      let lives = update s.lives p st in
      let externals = update s.externals p 1 in
      let now = update_self s.lives p st in
      let one_of = update_self s.externals p 1 in
      let (none_hold, zero_count) = Balance-at inv p (owned t) mine in
      let same : (c : ℕ)
          → p ≢ c
          → (lives c ≡ s.lives c) × ((s.nodes c ≡ s.nodes c) × (externals c ≡ s.externals c)) =
        λ c ne. (update-ne s.lives p st c ne, (refl, update-ne s.externals p 1 c ne)) in
      let below =
        Contents-off p s.lives lives s.nodes s.nodes s.externals externals s.head_ xs same
          (λ k lt st. cc (sym mine ∙ st)) inv.contents in
      let depth = inv.depth in
      move-Inv threads moves t p idle lives s.nodes externals (counted p 1) (s.depth + 1) s xs
        (v ∷ xs) inv lt same
        (
          p,
          (
            refl,
            (
              sym one_of,
              (
                d,
                (
                  now ∙ ap stacked depth,
                  subst (λ q. Contents lives s.nodes externals q xs) (sym n) below,
                ),
              ),
            ),
          ),
        )
        (ground arith) (rw (one_of) (omega arith)) (λ c ne. rw (e) (refl, ground arith))
        (λ h count.
          let c = count ∙ ap (λ q. h + one (holds p q)) e in
          rw (now) (rw (one_of) (0, (zero_count, omega arith))))
        tt (λ u ne o. absurd (ne (cc (sym (ap owner_of mine) ∙ o))))
        (λ u o. absurd (cc (sym (ap owner_of now) ∙ o))) (λ l pos st. absurd (omega arith))
