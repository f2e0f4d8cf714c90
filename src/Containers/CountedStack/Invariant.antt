-- ===== src/Containers/CountedStack/Invariant.antt =====
-- What the threads of lockfree_stack_reference_counting.hpp rely on.
use playground_cpp.Common.{
  ℕ, length, ◌+◌, ◌≤◌, ◌<◌, ◌≡◌, sym, ◌∙◌, subst, Bool, true, false, Option, none, some, List, [],
  ◌∷◌, tally, arith, ◌==◌,
}
use playground_cpp.Containers.CountedStack.{
  CountedNodePtr, Node, Life, unborn, released, owned, stacked, removed, doomed, Pc, idle, loading,
  made, pushing, increasing, following, taking, exchanging, adding, giving_back, deleting, returned,
  State, negated,
}

-- The thread that has to do with an address alone.
abbrev pub owner_of : Life → Option ℕ
owner_of unborn = none
owner_of released = none
owner_of (owned t) = some t
owner_of (stacked k) = none
owner_of (removed t) = some t
owner_of (doomed t) = some t

-- What the counts of a node are, when `held` threads have a reference to it. In the stack, and
-- until its counts are joined, `given` references were given back in the internal count.
abbrev pub Balance : Life → (external internal held : ℕ) → Type 0
Balance unborn e i h = h ≡ 0
Balance released e i h = (i ≡ h) × (1 ≤ h)
Balance (owned t) e i h = (h ≡ 0) × (i ≡ 0)
Balance (stacked k) e i h = (given : ℕ) × ((i ≡ negated given) × (e ≡ 1 + h + given))
Balance (removed t) e i h = (given : ℕ) × ((i ≡ negated given) × (e ≡ 2 + h + given))
Balance (doomed t) e i h = h ≡ 0

module _ {ℓ} {T : Type ℓ} where
  -- The thread has a counted reference to the node.
  abbrev pub holds : ℕ → Pc T → Bool
  holds a idle = false
  holds a loading = false
  holds a (made v b) = false
  holds a (pushing v b) = false
  holds a (increasing old) = false
  holds a (following b e) = b == a
  holds a (taking b e) = false
  holds a (exchanging b e n) = b == a
  holds a (adding b e res) = false
  holds a (giving_back b) = b == a
  holds a (deleting b after) = false
  holds a (returned res) = false

  -- The thread alone has to do with the node.
  abbrev pub keeps : ℕ → Pc T → Bool
  keeps a idle = false
  keeps a loading = false
  keeps a (made v b) = b == a
  keeps a (pushing v b) = b == a
  keeps a (increasing old) = false
  keeps a (following b e) = false
  keeps a (taking b e) = b == a
  keeps a (exchanging b e n) = false
  keeps a (adding b e res) = b == a
  keeps a (giving_back b) = false
  keeps a (deleting b after) = b == a
  keeps a (returned res) = false

  abbrev pub Knows : ℕ → (ℕ → Life) → (ℕ → Node T) → (ℕ → ℕ) → Pc T → Type ℓ
  Knows t lives nodes externals idle = Unit
  Knows t lives nodes externals loading = Unit
  Knows t lives nodes externals (made v b) = (lives b ≡ owned t) × ((nodes b).data_ ≡ some v)
  Knows t lives nodes externals (pushing v b) = (lives b ≡ owned t) × ((nodes b).data_ ≡ some v)
  Knows t lives nodes externals (increasing old) = Unit
  Knows t lives nodes externals (following b e) = Unit
  Knows t lives nodes externals (taking b e) = ((lives b ≡ removed t) × (externals b ≡ e)) × Unit
  Knows t lives nodes externals (exchanging b e n) =
      ((k : ℕ) → lives b ≡ stacked k → (nodes b).next_ ≡ n) × Unit
  Knows t lives nodes externals (adding b e res) =
      ((lives b ≡ removed t) × (externals b ≡ e)) × Unit
  Knows t lives nodes externals (giving_back b) = Unit
  Knows t lives nodes externals (deleting b after) = (lives b ≡ doomed t) × Unit
  Knows t lives nodes externals (returned res) = Unit

  -- From the head on the nodes are the stack, and the external counts stand beside their pointers.
  abbrev pub Contents : (ℕ → Life) → (ℕ → Node T) → (ℕ → ℕ) → CountedNodePtr → List T → Type ℓ
  Contents lives nodes externals p [] = (p.node_ ≡ none) × Unit
  Contents lives nodes externals p (x ∷ xs) =
      (a : ℕ) × ((p.node_ ≡ some a)
        × ((p.external_count_ ≡ externals a)
            × (((nodes a).data_ ≡ some x)
                × ((lives a ≡ stacked (length xs))
                    × Contents lives nodes externals (nodes a).next_ xs))))

  -- After `moves` moves of threads with numbers below `threads`.
  pub record Inv (threads moves : ℕ) (s : State T) (items : List T) : Type ℓ where
    pub contents : Contents s.lives s.nodes s.externals s.head_ items
    pub depth : s.depth ≡ length items
    pub small : (a : ℕ) → s.externals a ≤ moves + 1
    pub balance :
        (a : ℕ)
        → Balance
            (s.lives a)
            (s.externals a)
            (s.nodes a).internal_count_
            (tally threads (λ u. holds a (s.pcs u)))
    pub no_others : (u : ℕ) → threads ≤ u → s.pcs u ≡ idle
    pub knows : (t : ℕ) → Knows t s.lives s.nodes s.externals (s.pcs t)
    pub kept : (a t : ℕ) → owner_of (s.lives a) ≡ some t → keeps a (s.pcs t) ≡ true

  pub Contents-same :
      (lives lives' : ℕ → Life) (nodes nodes' : ℕ → Node T) (externals externals' : ℕ → ℕ)
      (p : CountedNodePtr) (xs : List T)
      → ((a k : ℕ)
          → k < length xs
          → lives a ≡ stacked k
          → (lives' a ≡ lives a)
            × (((nodes' a).data_ ≡ (nodes a).data_)
                × (((nodes' a).next_ ≡ (nodes a).next_) × (externals' a ≡ externals a))))
      → Contents lives nodes externals p xs
      → Contents lives' nodes' externals' p xs
  Contents-same lives lives' nodes nodes' externals externals' p [] h c = c
  Contents-same lives lives' nodes nodes' externals externals' p (x ∷ xs) h
        (a, (e, (n, (d, (l, c))))) =
      let (l', (d', (n', e'))) = h a (length xs) (ground arith) l in
      (
        a,
        (
          e,
          (
            n ∙ sym e',
            (
              d' ∙ d,
              (
                l' ∙ l,
                subst (λ q. Contents lives' nodes' externals' q xs) (sym n')
                    (Contents-same lives lives' nodes nodes' externals externals' (nodes a).next_ xs
                      (λ b k lt. h b k (ground arith)) c),
              ),
            ),
          ),
        ),
      )
