-- ===== src/Containers/CountedStack/Quiet.antt =====
-- Moves of lockfree_stack_reference_counting.hpp that change no address, and addresses off the
-- stack.
use playground_cpp.Common.{
  ℕ, length, ◌+◌, ◌≤◌, ◌<◌, ◌≡◌, ◌≢◌, ◌∙◌, ap, subst, true, some, List, update, at_each, tally, one,
  arith,
}
use playground_cpp.Containers.CountedStack.{CountedNodePtr, Node, Life, stacked, Pc, idle, State}
use playground_cpp.Containers.CountedStack.Invariant.{
  owner_of, Balance, holds, keeps, Knows, Contents, Contents-same, Inv,
}
use playground_cpp.Containers.CountedStack.Kept.{tally-go}

module _ {ℓ} {T : Type ℓ} where
  -- A move that changes no address, nor what the thread holds or keeps.
  pub quiet-Inv :
      (threads moves t : ℕ) (pc : Pc T) (head : CountedNodePtr) (s : State T) (xs : List T)
      → Inv threads moves s xs
      → t < threads
      → Contents s.lives s.nodes s.externals head xs
      → ((c : ℕ) → (holds c pc ≡ holds c (s.pcs t)) × (keeps c pc ≡ keeps c (s.pcs t)))
      → Knows t s.lives s.nodes s.externals pc
      → Inv threads (moves + 1) (record s { head_ = head; pcs = update s.pcs t pc }) xs
  quiet-Inv threads moves t pc head s xs inv lt contents same knows = record {
    contents = contents;
    depth = inv.depth;
    small = λ a. let le = inv.small a in omega arith;
    balance = λ a.
        let go = tally-go threads t a s.pcs pc lt in
        let as_before = ap one (same a).0 in
        let count : tally threads (λ u. holds a (s.pcs u))
            ≡ tally threads (λ u. holds a (update s.pcs t pc u)) =
          omega arith in
        subst (Balance (s.lives a) (s.externals a) (s.nodes a).internal_count_) count
          (inv.balance a);
    no_others =
        at_each (λ u c. threads ≤ u → c ≡ idle) t s.pcs pc (λ le. absurd (omega arith))
          (λ u ne. inv.no_others u);
    knows =
        at_each (λ u c. Knows u s.lives s.nodes s.externals c) t s.pcs pc knows
          (λ u ne. inv.knows u);
    kept = λ a.
        at_each (λ u c. owner_of (s.lives a) ≡ some u → keeps a c ≡ true) t s.pcs pc
          (λ o. (same a).1 ∙ inv.kept a t o) (λ u ne. inv.kept a u);
  }

  -- The counts of a node of which the use is known.
  pub Balance-at :
      {threads moves : ℕ} {s : State T} {xs : List T}
      → Inv threads moves s xs
      → (a : ℕ) (life : Life) → s.lives a ≡ life
      → Balance life
          (s.externals a)
          (s.nodes a).internal_count_
          (tally threads (λ u. holds a (s.pcs u)))
  Balance-at {threads} {moves} {s} inv a life e =
      subst
        (λ l.
          Balance l (s.externals a) (s.nodes a).internal_count_
            (tally threads (λ u. holds a (s.pcs u))))
        e (inv.balance a)

  -- A change of an address that is not in the stack leaves the stack.
  pub Contents-off :
      (b : ℕ) (lives lives' : ℕ → Life) (nodes nodes' : ℕ → Node T) (externals externals' : ℕ → ℕ)
      (p : CountedNodePtr) (xs : List T)
      → ((c : ℕ)
          → b ≢ c
          → (lives' c ≡ lives c) × ((nodes' c ≡ nodes c) × (externals' c ≡ externals c)))
      → ((k : ℕ) → k < length xs → lives b ≢ stacked k)
      → Contents lives nodes externals p xs
      → Contents lives' nodes' externals' p xs
  Contents-off b lives lives' nodes nodes' externals externals' p xs same off =
      Contents-same lives lives' nodes nodes' externals externals' p xs (λ a k lt st.
        let (l, (n, e)) = same a (λ e. off k lt (ap lives e ∙ st)) in
        (l, (ap (λ m. m.data_) n, (ap (λ m. m.next_) n, e))))
