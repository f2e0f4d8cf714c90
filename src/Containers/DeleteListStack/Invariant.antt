-- ===== src/Containers/DeleteListStack/Invariant.antt =====
-- What the threads of lockfree_statck_delete_list.hpp rely on.
use playground_cpp.Common.{
  subst, sym, ℕ, length, ◌≤◌, ◌<◌, ◌≡◌, ◌≢◌, ◌⊎◌, Bool, true, false, Option, none, some, List, [],
  ◌∷◌, ◌++◌, update, In, Distinct, tally,
}
use playground_cpp.Containers.SharedStack.{Node, Status, owned, stacked, removed}
use playground_cpp.Containers.SharedStack.Chain.{Represents}
use playground_cpp.Containers.HazardStack.Invariant.{Later}
use playground_cpp.Containers.DeleteListStack.{
  After, then_free, then_subtract, Pc, idle, loading, made, pushing, following, taking, exchanging,
  checking, claiming, freeing, leaving, deleting, walking, linking, adding, subtracting, returned,
  State,
}
use playground_cpp.Containers.DeleteListStack.Segments.{Segment}

abbrev pub own_after : After → Option ℕ
own_after (then_free old_head) = old_head
own_after then_subtract = none

abbrev pub with_own : Option ℕ → List ℕ → List ℕ
with_own none chain = chain
with_own (some a) chain = a ∷ chain

abbrev pub counted_after : After → Bool
counted_after (then_free old_head) = false
counted_after then_subtract = true

module _ {ℓ} {T : Type ℓ} where
  -- The thread may read the `next_` of the node, which it has loaded from the head.
  abbrev pub Uses : ℕ → Pc T → Type 0
  Uses a idle = ⊥
  Uses a loading = ⊥
  Uses a (made v p) = ⊥
  Uses a (pushing v p) = ⊥
  Uses a (following b) = b ≡ a
  Uses a (taking b) = ⊥
  Uses a (exchanging b n) = b ≡ a
  Uses a (checking old_head res) = ⊥
  Uses a (claiming old_head res) = ⊥
  Uses a (freeing old_head res) = ⊥
  Uses a (leaving old_head nodes_of res) = ⊥
  Uses a (deleting old_head nodes_of res) = ⊥
  Uses a (walking old_head first last res) = ⊥
  Uses a (linking after first last res) = ⊥
  Uses a (adding after first last res) = ⊥
  Uses a (subtracting res) = ⊥
  Uses a (returned res) = ⊥

  -- The thread is counted by `thread_in_loop_`.
  abbrev pub counted : Pc T → Bool
  counted idle = false
  counted loading = true
  counted (made v p) = false
  counted (pushing v p) = false
  counted (following b) = true
  counted (taking b) = true
  counted (exchanging b n) = true
  counted (checking old_head res) = true
  counted (claiming old_head res) = true
  counted (freeing old_head res) = false
  counted (leaving old_head nodes_of res) = true
  counted (deleting old_head nodes_of res) = false
  counted (walking old_head first last res) = false
  counted (linking after first last res) = counted_after after
  counted (adding after first last res) = counted_after after
  counted (subtracting res) = true
  counted (returned res) = false

  -- The node that the thread has removed and not put into a chain.
  abbrev pub own : Pc T → Option ℕ
  own idle = none
  own loading = none
  own (made v p) = none
  own (pushing v p) = none
  own (following b) = none
  own (taking b) = some b
  own (exchanging b n) = none
  own (checking old_head res) = old_head
  own (claiming old_head res) = old_head
  own (freeing old_head res) = old_head
  own (leaving old_head nodes_of res) = old_head
  own (deleting old_head nodes_of res) = old_head
  own (walking old_head first last res) = old_head
  own (linking after first last res) = own_after after
  own (adding after first last res) = own_after after
  own (subtracting res) = none
  own (returned res) = none

  -- The removed nodes that a thread has in its hands.
  abbrev pub hand : Pc T → List ℕ → List ℕ
  hand pc chain = with_own (own pc) chain

  -- The nodes of which a thread knows that no other uses them.
  abbrev pub Cleared : ℕ → Pc T → List ℕ → Type 0
  Cleared a idle chain = ⊥
  Cleared a loading chain = ⊥
  Cleared a (made v p) chain = ⊥
  Cleared a (pushing v p) chain = ⊥
  Cleared a (following b) chain = ⊥
  Cleared a (taking b) chain = ⊥
  Cleared a (exchanging b n) chain = ⊥
  Cleared a (checking old_head res) chain = ⊥
  Cleared a (claiming old_head res) chain = old_head ≡ some a
  Cleared a (freeing old_head res) chain = old_head ≡ some a
  Cleared a (leaving old_head nodes_of res) chain = old_head ≡ some a
  Cleared a (deleting old_head nodes_of res) chain = (old_head ≡ some a) ⊎ In a chain
  Cleared a (walking old_head first last res) chain = old_head ≡ some a
  Cleared a (linking after first last res) chain = own_after after ≡ some a
  Cleared a (adding after first last res) chain = own_after after ≡ some a
  Cleared a (subtracting res) chain = ⊥
  Cleared a (returned res) chain = ⊥

  -- How the pointers of a thread lead through its chain.
  abbrev pub Shape : (ℕ → Node T) → Pc T → List ℕ → Type 0
  Shape nodes idle chain = chain ≡ []
  Shape nodes loading chain = chain ≡ []
  Shape nodes (made v p) chain = chain ≡ []
  Shape nodes (pushing v p) chain = chain ≡ []
  Shape nodes (following b) chain = chain ≡ []
  Shape nodes (taking b) chain = chain ≡ []
  Shape nodes (exchanging b n) chain = chain ≡ []
  Shape nodes (checking old_head res) chain = chain ≡ []
  Shape nodes (claiming old_head res) chain = chain ≡ []
  Shape nodes (freeing old_head res) chain = chain ≡ []
  Shape nodes (leaving old_head nodes_of res) chain = Segment nodes nodes_of chain none
  Shape nodes (deleting old_head nodes_of res) chain = Segment nodes nodes_of chain none
  Shape nodes (walking old_head first last res) chain =
      (ys : List ℕ) × ((zs : List ℕ) × ((chain ≡ ys ++ last ∷ zs)
          × Segment nodes (some first) chain none))
  Shape nodes (linking after first last res) chain =
      (ys : List ℕ) × ((q : Option ℕ) × ((chain ≡ ys ++ last ∷ [])
          × Segment nodes (some first) chain q))
  Shape nodes (adding after first last res) chain =
      (ys : List ℕ) × ((q : Option ℕ) × ((chain ≡ ys ++ last ∷ [])
          × Segment nodes (some first) chain q))
  Shape nodes (subtracting res) chain = chain ≡ []
  Shape nodes (returned res) chain = chain ≡ []

  abbrev pub Knows : ℕ → (ℕ → Status) → (ℕ → Node T) → Pc T → Type ℓ
  Knows t status nodes idle = Unit
  Knows t status nodes loading = Unit
  Knows t status nodes (made v p) = (status p ≡ owned t) × ((nodes p).data_ ≡ some v)
  Knows t status nodes (pushing v p) = (status p ≡ owned t) × ((nodes p).data_ ≡ some v)
  Knows t status nodes (following b) =
      ((status b ≡ removed) ⊎ ((k : ℕ) × (status b ≡ stacked k))) × Unit
  Knows t status nodes (taking b) = Unit
  Knows t status nodes (exchanging b n) =
      ((status b ≡ removed) ⊎ ((k : ℕ) × ((status b ≡ stacked k) × ((nodes b).next_ ≡ n)))) × Unit
  Knows t status nodes (checking old_head res) = Unit
  Knows t status nodes (claiming old_head res) = Unit
  Knows t status nodes (freeing old_head res) = Unit
  Knows t status nodes (leaving old_head nodes_of res) = Unit
  Knows t status nodes (deleting old_head nodes_of res) = Unit
  Knows t status nodes (walking old_head first last res) = Unit
  Knows t status nodes (linking after first last res) = Unit
  Knows t status nodes (adding after first last res) = Unit
  Knows t status nodes (subtracting res) = Unit
  Knows t status nodes (returned res) = Unit

  pub record Inv (threads : ℕ) (s : State T) (items : List T) : Type ℓ where
    pub represents : Represents s.status s.nodes s.head_ items
    pub depth : s.depth ≡ length items
    pub counter : s.thread_in_loop_ ≡ tally threads (λ u. counted (s.pcs u))
    pub no_others : (u : ℕ) → threads ≤ u → s.pcs u ≡ idle
    pub knows : (t : ℕ) → Knows t s.status s.nodes (s.pcs t)
    pub held :
        (t a : ℕ)
        → In a (hand (s.pcs t) (s.chains t))
        → (s.status a ≡ removed) × (s.holder a ≡ some t)
    pub once : (t : ℕ) → Distinct (hand (s.pcs t) (s.chains t))
    pub shape : (t : ℕ) → Shape s.nodes (s.pcs t) (s.chains t)
    pub listed : (a : ℕ) → In a s.pending → (s.status a ≡ removed) × (s.holder a ≡ none)
    pub listed_once : Distinct s.pending
    pub linked : Segment s.nodes s.to_delete_list_ s.pending none
    -- What a thread has cleared no other thread uses.
    pub unused : (t u a : ℕ) → t ≢ u → Cleared a (s.pcs t) (s.chains t) → Uses a (s.pcs u) → ⊥

  -- A move of thread `t` to `pc`, from a state to the other fields of another.
  pub record Moves (threads t : ℕ) (pc : Pc T) (s s' : State T) (items : List T) : Type ℓ where
    pub represents : Represents s'.status s'.nodes s'.head_ items
    pub depth : s'.depth ≡ length items
    pub counter : s'.thread_in_loop_ ≡ tally threads (λ u. counted (update s.pcs t pc u))
    pub below : t < threads
    pub chains : (u : ℕ) → t ≢ u → s'.chains u ≡ s.chains u
    pub later :
        (u a : ℕ)
        → t ≢ u
        → Later t (Uses a (s.pcs u) → ⊥) (s.status a) (s.nodes a) (s'.status a) (s'.nodes a)
    pub next_kept :
        (u a : ℕ)
        → t ≢ u
        → s.status a ≡ removed
        → s.holder a ≡ some u
        → (s'.nodes a).next_ ≡ (s.nodes a).next_
    pub kept :
        (u a : ℕ)
        → t ≢ u
        → s.status a ≡ removed
        → s.holder a ≡ some u
        → (s'.status a ≡ removed) × (s'.holder a ≡ some u)
    pub knows : Knows t s'.status s'.nodes pc
    pub held :
        (a : ℕ) → In a (hand pc (s'.chains t)) → (s'.status a ≡ removed) × (s'.holder a ≡ some t)
    pub once : Distinct (hand pc (s'.chains t))
    pub shape : Shape s'.nodes pc (s'.chains t)
    pub listed : (a : ℕ) → In a s'.pending → (s'.status a ≡ removed) × (s'.holder a ≡ none)
    pub listed_once : Distinct s'.pending
    pub linked : Segment s'.nodes s'.to_delete_list_ s'.pending none
    pub clears : (u a : ℕ) → t ≢ u → Cleared a pc (s'.chains t) → Uses a (s.pcs u) → ⊥
    pub uses : (v a : ℕ) → t ≢ v → Uses a pc → Cleared a (s.pcs v) (s.chains v) → ⊥

  -- What the invariant says of a thread at `pc`.
  pub Shape-at :
      {threads t : ℕ} {pc : Pc T} {s : State T} {xs : List T}
      → Inv threads s xs
      → s.pcs t ≡ pc
      → Shape s.nodes pc (s.chains t)
  Shape-at {t = t} {s = s} inv e = subst (λ c. Shape s.nodes c (s.chains t)) e (inv.shape t)

  pub held_at :
      {threads t : ℕ} {pc : Pc T} {s : State T} {xs : List T}
      → Inv threads s xs
      → s.pcs t ≡ pc
      → (a : ℕ) → In a (hand pc (s.chains t))
      → (s.status a ≡ removed) × (s.holder a ≡ some t)
  held_at {t = t} {s = s} inv e a i =
      inv.held t a (subst (λ c. In a (hand c (s.chains t))) (sym e) i)
