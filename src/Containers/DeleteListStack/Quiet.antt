-- ===== src/Containers/DeleteListStack/Quiet.antt =====
-- Moves in lockfree_statck_delete_list.hpp that change no node, and how a thread knows that it
-- is alone.
use playground_cpp.Common.{
  ℕ, ◌+◌, ◌^◌, ◌<◌, ◌≡◌, ◌≢◌, refl, sym, ◌∙◌, ap, subst, inl, inr, true, false, Option, none, some,
  List, [], update, update_self, update-ne, In, Distinct, tally, tally-le, tally-update, tally_two,
  one, arith, dec_lt,
}
use playground_cpp.Containers.SharedStack.{Node, Status, unborn}
use playground_cpp.Containers.HazardStack.Invariant.{Later-refl}
use playground_cpp.Containers.DeleteListStack.{
  Pc, idle, loading, made, pushing, following, taking, exchanging, checking, claiming, freeing,
  leaving, deleting, walking, linking, adding, subtracting, returned, State, fetch_add, fetch_sub,
}
use playground_cpp.Containers.DeleteListStack.Invariant.{
  own_after, with_own, Uses, counted, own, hand, Cleared, Shape, Knows, Inv,
}
use playground_cpp.Containers.DeleteListStack.Kept.{Moves-Inv, chain-hand}

pub own-hand : (a : ℕ) (o : Option ℕ) (chain : List ℕ) → o ≡ some a → In a (with_own o chain)
own-hand a none chain e = absurd (cc e)
own-hand a (some b) chain e = inl (cc e)

module _ {ℓ} {T : Type ℓ} where
  -- What is cleared is in the thread's hands.
  pub Cleared-hand :
      (a : ℕ) (pc : Pc T) (chain : List ℕ) → Cleared a pc chain → In a (hand pc chain)
  Cleared-hand a idle chain h = absurd h
  Cleared-hand a loading chain h = absurd h
  Cleared-hand a (made v p) chain h = absurd h
  Cleared-hand a (pushing v p) chain h = absurd h
  Cleared-hand a (following b) chain h = absurd h
  Cleared-hand a (taking b) chain h = absurd h
  Cleared-hand a (exchanging b n) chain h = absurd h
  Cleared-hand a (checking old_head res) chain h = absurd h
  Cleared-hand a (claiming old_head res) chain h = own-hand a old_head chain h
  Cleared-hand a (freeing old_head res) chain h = own-hand a old_head chain h
  Cleared-hand a (leaving old_head nodes_of res) chain h = own-hand a old_head chain h
  Cleared-hand a (deleting old_head nodes_of res) chain h = elim h [
    | inl e ↦ own-hand a old_head chain e
    | inr i ↦ (let pc : Pc T = deleting old_head nodes_of res in chain-hand a pc chain i)
  ]
  Cleared-hand a (walking old_head first last res) chain h = own-hand a old_head chain h
  Cleared-hand a (linking after first last res) chain h = own-hand a (own_after after) chain h
  Cleared-hand a (adding after first last res) chain h = own-hand a (own_after after) chain h
  Cleared-hand a (subtracting res) chain h = absurd h
  Cleared-hand a (returned res) chain h = absurd h

  -- A node that is in use is not deleted, and its user is counted.
  pub Uses-Knows :
      (a t : ℕ) (status : ℕ → Status) (nodes : ℕ → Node T) (pc : Pc T)
      → Uses a pc
      → Knows t status nodes pc
      → (status a ≢ unborn) × (counted pc ≡ true)
  Uses-Knows a t status nodes idle h k = absurd h
  Uses-Knows a t status nodes loading h k = absurd h
  Uses-Knows a t status nodes (made v p) h k = absurd h
  Uses-Knows a t status nodes (pushing v p) h k = absurd h
  Uses-Knows a t status nodes (following b) h k = (
    elim (k.0) [
      | inl r ↦ λ free. cc (sym free ∙ ap status (sym h) ∙ r)
      | inr (_, r) ↦ λ free. cc (sym free ∙ ap status (sym h) ∙ r)
    ],
    refl,
  )
  Uses-Knows a t status nodes (taking b) h k = absurd h
  Uses-Knows a t status nodes (exchanging b n) h k = (
    elim (k.0) [
      | inl r ↦ λ free. cc (sym free ∙ ap status (sym h) ∙ r)
      | inr (_, (r, _)) ↦ λ free. cc (sym free ∙ ap status (sym h) ∙ r)
    ],
    refl,
  )
  Uses-Knows a t status nodes (checking old_head res) h k = absurd h
  Uses-Knows a t status nodes (claiming old_head res) h k = absurd h
  Uses-Knows a t status nodes (freeing old_head res) h k = absurd h
  Uses-Knows a t status nodes (leaving old_head nodes_of res) h k = absurd h
  Uses-Knows a t status nodes (deleting old_head nodes_of res) h k = absurd h
  Uses-Knows a t status nodes (walking old_head first last res) h k = absurd h
  Uses-Knows a t status nodes (linking after first last res) h k = absurd h
  Uses-Knows a t status nodes (adding after first last res) h k = absurd h
  Uses-Knows a t status nodes (subtracting res) h k = absurd h
  Uses-Knows a t status nodes (returned res) h k = absurd h

  module _ (threads t : ℕ) (lt : t < threads) (pcs : ℕ → Pc T) (pc : Pc T) where
    -- The count after the thread has gone to `pc`.
    tally-go :
        tally threads (λ u. counted (pcs u)) + one (counted pc)
        ≡ tally threads (λ u. counted (update pcs t pc u)) + one (counted (pcs t))
    tally-go =
        let now = ap (λ c. one (counted c)) (update_self pcs t pc) in
        let all =
          tally-update threads t (λ u. counted (pcs u)) (λ u. counted (update pcs t pc u)) lt
            (λ u ne. ap counted (sym (update-ne pcs t pc u ne))) in
        omega arith

    pub tally_stays :
        counted pc ≡ counted (pcs t)
        → tally threads (λ u. counted (pcs u)) ≡ tally threads (λ u. counted (update pcs t pc u))
    tally_stays e = let go = tally-go in let same = ap one e in omega arith

    pub fetch_add-tally :
        (n : ℕ)
        → threads < 2 ^ 32
        → n ≡ tally threads (λ u. counted (pcs u))
        → counted (pcs t) ≡ false
        → counted pc ≡ true
        → fetch_add n ≡ tally threads (λ u. counted (update pcs t pc u))
    unfolding fetch_add
    fetch_add-tally n few e out in_loop =
        let go = tally-go in
        let le = tally-le threads (λ u. counted (update pcs t pc u)) in
        let b = ap one out in let c = ap one in_loop in omega arith

    pub fetch_sub-tally :
        (n : ℕ)
        → threads < 2 ^ 32
        → n ≡ tally threads (λ u. counted (pcs u))
        → counted (pcs t) ≡ true
        → counted pc ≡ false
        → fetch_sub n ≡ tally threads (λ u. counted (update pcs t pc u))
    unfolding fetch_sub
    fetch_sub-tally n few e in_loop out =
        let go = tally-go in
        let le = tally-le threads (λ u. counted (pcs u)) in
        let b = ap one out in let c = ap one in_loop in omega arith

  -- When the counter is one, no thread but the one that is counted uses a node.
  pub alone :
      (threads t : ℕ) (s : State T) (xs : List T)
      → Inv threads s xs
      → t < threads
      → counted (s.pcs t) ≡ true
      → s.thread_in_loop_ ≡ 1
      → (u a : ℕ) → t ≢ u
      → Uses a (s.pcs u)
      → ⊥
  alone threads t s xs inv lt here only u a ne us = elim (dec_lt u threads) [
    | yes lu ↦
        let (_, there) = Uses-Knows a u s.status s.nodes (s.pcs u) us (inv.knows u) in
        let two = tally_two threads t u (λ v. counted (s.pcs v)) lt lu ne here there in
        let count = inv.counter in omega arith
    | no ge ↦ subst (Uses a) (inv.no_others u (omega arith)) us
  ]

  pub quiet-Inv :
      (threads t n : ℕ) (pc : Pc T) (s : State T) (xs : List T)
      → Inv threads s xs
      → t < threads
      → n ≡ tally threads (λ u. counted (update s.pcs t pc u))
      → Knows t s.status s.nodes pc
      → ((a : ℕ) → In a (hand pc (s.chains t)) → In a (hand (s.pcs t) (s.chains t)))
      → Distinct (hand pc (s.chains t))
      → Shape s.nodes pc (s.chains t)
      → ((u a : ℕ) → t ≢ u → Cleared a pc (s.chains t) → Uses a (s.pcs u) → ⊥)
      → ((v a : ℕ) → t ≢ v → Uses a pc → Cleared a (s.pcs v) (s.chains v) → ⊥)
      → Inv threads (record s { thread_in_loop_ = n; pcs = update s.pcs t pc }) xs
  quiet-Inv threads t n pc s xs inv lt count knows keeps once shape clears uses =
      Moves-Inv threads t pc s (record s { thread_in_loop_ = n }) xs xs inv
        (record {
          represents = inv.represents;
          depth = inv.depth;
          counter = count;
          below = lt;
          chains = λ u ne. refl;
          later = λ u a ne. Later-refl t (Uses a (s.pcs u) → ⊥) (s.status a) (s.nodes a);
          next_kept = λ u a ne r o. refl;
          kept = λ u a ne r o. (r, o);
          knows = knows;
          held = λ a i. inv.held t a (keeps a i);
          once = once;
          shape = shape;
          listed = inv.listed;
          listed_once = inv.listed_once;
          linked = inv.linked;
          clears = clears;
          uses = uses;
        })

  -- A thread that has no removed node, and goes where it has none and uses none.
  pub rest-Inv :
      (threads t n : ℕ) (pc : Pc T) (s : State T) (xs : List T)
      → Inv threads s xs
      → t < threads
      → n ≡ tally threads (λ u. counted (update s.pcs t pc u))
      → Knows t s.status s.nodes pc
      → s.chains t ≡ []
      → own pc ≡ none
      → Shape s.nodes pc []
      → ((a : ℕ) → Uses a pc → ⊥)
      → Inv threads (record s { thread_in_loop_ = n; pcs = update s.pcs t pc }) xs
  rest-Inv threads t n pc s xs inv lt count knows empty nothing shape uses =
      let no_hand : hand pc (s.chains t) ≡ [] = ap (λ o. with_own o (s.chains t)) nothing ∙ empty in
      quiet-Inv threads t n pc s xs inv lt count knows (λ a i. absurd (subst (In a) no_hand i))
        (subst Distinct (sym no_hand) tt) (subst (Shape s.nodes pc) (sym empty) shape)
        (λ u a ne cl. absurd (subst (In a) no_hand (Cleared-hand a pc (s.chains t) cl)))
        (λ v a ne us. absurd (uses a us))
