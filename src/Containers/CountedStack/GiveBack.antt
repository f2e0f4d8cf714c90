-- ===== src/Containers/CountedStack/GiveBack.antt =====
-- The subtraction of lockfree_stack_reference_counting.hpp when the exchange of Pop has failed.
use playground_cpp.Common.{
  ℕ, ◌+◌, ◌^◌, ◌≤◌, ◌<◌, ◌≡◌, ◌≢◌, refl, sym, ◌∙◌, ap, subst, inl, inr, true, false, some, List,
  update, update-same, update_self, at_each, tally, tally-le, one, arith, Bool-cases, ◌==◌,
}
use playground_cpp.Containers.CountedStack.{
  Life, unborn, released, owned, stacked, removed, doomed, then_retry, loading, giving_back,
  deleting, State, minus_one, negated, give_back,
}
use playground_cpp.Containers.CountedStack.Invariant.{owner_of, Balance, holds, keeps, Inv}
use playground_cpp.Containers.CountedStack.Kept.{holds-positive, keeps-update}
use playground_cpp.Containers.CountedStack.Quiet.{Balance-at}
use playground_cpp.Containers.CountedStack.Counts.{count-Inv}

-- A count of the references that were given back, when another is.
give_one :
    (given : ℕ)
    → given + 1 < 2 ^ 32
    → (minus_one (negated given) ≡ negated (given + 1)) × ((negated given == 1) ≡ false)
give_one given few = (omega arith, ground arith)

module _ {ℓ} {T : Type ℓ} where
  -- The subtraction in the state that leaves a node as it was used.
  given_back-Inv :
      (threads moves a t : ℕ) (s : State T) (xs : List T)
      → Inv threads moves s xs
      → t < threads
      → s.pcs t ≡ giving_back a
      → ((h : ℕ)
          → tally threads (λ u. holds a (s.pcs u)) ≡ h + 1
          → Balance (s.lives a) (s.externals a) (minus_one (s.nodes a).internal_count_) h)
      → Inv threads
          (moves + 1)
          (record s {
            nodes =
                update s.nodes a
                  (record (s.nodes a) { internal_count_ = minus_one (s.nodes a).internal_count_ });
            pcs = update s.pcs t loading;
          })
          xs
  given_back-Inv threads moves a t s xs inv lt pc balance =
      let nodes =
        update s.nodes a
          (record (s.nodes a) { internal_count_ = minus_one (s.nodes a).internal_count_ }) in
      subst
        (λ l.
          Inv threads (moves + 1)
            (record s { nodes = nodes; pcs = update s.pcs t loading; lives = l }) xs)
        (update-same s.lives a (s.lives a) refl)
        (count-Inv threads moves a (minus_one (s.nodes a).internal_count_) t loading (s.lives a) s
          xs inv lt (λ k st. refl) (λ c ne. rw (pc) (ground arith, refl))
          (λ h held.
            let c = held ∙ ap (λ q. h + one (holds a q)) pc in
            let self : one (a == a) ≡ 1 = ground arith in balance h (omega arith))
          tt (λ u ne o. refl)
          (λ u o.
            at_each (λ u c. owner_of (s.lives a) ≡ some u → keeps a c ≡ true) t s.pcs loading
              (λ o. let k = inv.kept a t o in absurd (cc (sym k ∙ ap (keeps a) pc)))
              (λ u ne. inv.kept a u) u o)
          (λ l st. (l, st)))

  -- By the use of the node whose reference is given back.
  give_back_of-Inv :
      (threads moves a t : ℕ) (life : Life) (s : State T) (xs : List T)
      → s.lives a ≡ life
      → moves + 2 < 2 ^ 32
      → threads < 2 ^ 32
      → Inv threads moves s xs
      → t < threads
      → s.pcs t ≡ giving_back a
      → 1 ≤ tally threads (λ u. holds a (s.pcs u))
      → Inv threads (moves + 1) (give_back a t s) xs
  unfolding give_back
  give_back_of-Inv threads moves a t unborn s xs life few low inv lt pc pos =
      let none_hold = Balance-at inv a unborn life in absurd (omega arith)
  give_back_of-Inv threads moves a t (owned v) s xs life few low inv lt pc pos =
      let (none_hold, _) = Balance-at inv a (owned v) life in absurd (omega arith)
  give_back_of-Inv threads moves a t (doomed v) s xs life few low inv lt pc pos =
      let none_hold = Balance-at inv a (doomed v) life in absurd (omega arith)
  give_back_of-Inv threads moves a t (stacked k) s xs life few low inv lt pc pos =
      let (given, (i, total)) = Balance-at inv a (stacked k) life in
      let le = inv.small a in
      let (next_count, not_last) = give_one given (omega arith) in
      let test : ((s.nodes a).internal_count_ == 1) ≡ false = ap (λ n. n == 1) i ∙ not_last in
      rw (test) (
        given_back-Inv threads moves a t s xs inv lt pc
          (λ h held. rw (life) (given + 1, (ap minus_one i ∙ next_count, omega arith))))
  give_back_of-Inv threads moves a t (removed v) s xs life few low inv lt pc pos =
      let (given, (i, total)) = Balance-at inv a (removed v) life in
      let le = inv.small a in
      let (next_count, not_last) = give_one given (omega arith) in
      let test : ((s.nodes a).internal_count_ == 1) ≡ false = ap (λ n. n == 1) i ∙ not_last in
      rw (test) (
        given_back-Inv threads moves a t s xs inv lt pc
          (λ h held. rw (life) (given + 1, (ap minus_one i ∙ next_count, omega arith))))
  give_back_of-Inv threads moves a t released s xs life few low inv lt pc pos =
      let (i, _) = Balance-at inv a released life in
      let most = tally-le threads (λ u. holds a (s.pcs u)) in
      elim (Bool-cases ((s.nodes a).internal_count_ == 1)) [
        | inl last ↦ rw (last) (
            count-Inv threads moves a (minus_one (s.nodes a).internal_count_) t
              (deleting a then_retry) (doomed t) s xs inv lt (λ k st. absurd (cc (sym life ∙ st)))
              (λ c ne. rw (pc) (ground arith, ground arith))
              (λ h held.
                let c = held ∙ ap (λ q. h + one (holds a q)) pc in
                let self : one (a == a) ≡ 1 = ground arith in
                let is_one : (s.nodes a).internal_count_ ≡ 1 = ground arith in omega arith)
              (update_self s.lives a (doomed t), tt)
              (λ u ne o. absurd (cc (sym (ap owner_of life) ∙ o)))
              (λ u o. keeps-update t u a s.pcs (deleting a then_retry) (cc o) (ground arith))
              (λ l st. absurd (cc st)))
        | inr more ↦ rw (more) (
            given_back-Inv threads moves a t s xs inv lt pc (λ h held.
              let not_one : (s.nodes a).internal_count_ ≢ 1 = ground arith in
              rw (life) (omega arith, omega arith)))
      ]

  pub give_back-Inv :
      (threads moves a t : ℕ) (s : State T) (xs : List T)
      → moves + 2 < 2 ^ 32
      → threads < 2 ^ 32
      → Inv threads moves s xs
      → t < threads
      → s.pcs t ≡ giving_back a
      → Inv threads (moves + 1) (give_back a t s) xs
  give_back-Inv threads moves a t s xs few low inv lt pc =
      give_back_of-Inv threads moves a t (s.lives a) s xs refl few low inv lt pc (
        holds-positive threads moves t a s xs inv
          (let self : (a == a) ≡ true = ground arith in ap (holds a) pc ∙ self))
