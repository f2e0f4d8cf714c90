-- ===== src/Containers/SharedStack/Chain.antt =====
-- Which list the nodes of lockfree_stack_shared_ptr.hpp are, and what changes leave it.
use playground_cpp.Common.{
  ℕ, ◌<◌, ◌≡◌, ◌≢◌, refl, sym, ◌∙◌, ap, subst, inr, ◌⊎◌, true, Option, none, some, List, [], ◌∷◌,
  update, update_self, update-ne, length, arith, ℕ_discrete,
}
use playground_cpp.Containers.SharedStack.{
  Node, Status, unborn, owned, stacked, removed, same_pointer,
}

pub same_pointer_lem : (p q : Option ℕ) → same_pointer p q ≡ true → p ≡ q
unfolding same_pointer
same_pointer_lem none none e = refl
same_pointer_lem none (some b) e = ground arith
same_pointer_lem (some a) none e = ground arith
same_pointer_lem (some a) (some b) e = let same : a ≡ b = ground arith in ap some same

pub same_pointer_refl : (p : Option ℕ) → same_pointer p p ≡ true
unfolding same_pointer
same_pointer_refl none = refl
same_pointer_refl (some a) = ground arith

module _ {ℓ} {T : Type ℓ} where
  -- From the pointer on, the nodes hold the items, each with as many nodes below it as its
  -- status says.
  abbrev pub Represents : (ℕ → Status) → (ℕ → Node T) → Option ℕ → List T → Type ℓ
  Represents status nodes head [] = (head ≡ none) × Unit
  Represents status nodes head (x ∷ xs) =
      (a : ℕ) × ((head ≡ some a)
        × (((nodes a).data_ ≡ some x)
            × ((status a ≡ stacked (length xs)) × Represents status nodes ((nodes a).next_) xs)))

  -- What another thread may do to a node, by its status before.
  abbrev pub Later : ℕ → Status → Node T → Status → Node T → Type ℓ
  Later u unborn nd st' nd' = Unit
  Later u (owned v) nd st' nd' = v ≡ u → (st' ≡ owned v) × (nd'.data_ ≡ nd.data_)
  Later u (stacked k) nd st' nd' =
      (st' ≡ removed) ⊎ ((st' ≡ stacked k) × ((nd'.next_ ≡ nd.next_) × (nd'.data_ ≡ nd.data_)))
  Later u removed nd st' nd' = (st' ≡ removed) × (nd'.data_ ≡ nd.data_)

  pub Later-refl : (u : ℕ) (st : Status) (nd : Node T) → Later u st nd st nd
  Later-refl u unborn nd = tt
  Later-refl u (owned v) nd = λ e. (refl, refl)
  Later-refl u (stacked k) nd = inr (refl, (refl, refl))
  Later-refl u removed nd = (refl, refl)

  pub Later-nodes :
      (u p : ℕ) (status : ℕ → Status) (nodes : ℕ → Node T) (nd : Node T)
      → Later u (status p) (nodes p) (status p) nd
      → (a : ℕ) → Later u (status a) (nodes a) (status a) (update nodes p nd a)
  Later-nodes u p status nodes nd h a = elim (ℕ_discrete p a) [
    | yes e ↦
        subst (λ b. Later u (status b) (nodes b) (status b) (update nodes p nd b)) e
          (rw (update_self nodes p nd) h)
    | no ne ↦ rw (update-ne nodes p nd a ne) (Later-refl u (status a) (nodes a))
  ]

  pub Later-status :
      (u p : ℕ) (status : ℕ → Status) (nodes : ℕ → Node T) (st : Status)
      → Later u (status p) (nodes p) st (nodes p)
      → (a : ℕ) → Later u (status a) (nodes a) (update status p st a) (nodes a)
  Later-status u p status nodes st h a = elim (ℕ_discrete p a) [
    | yes e ↦
        subst (λ b. Later u (status b) (nodes b) (update status p st b) (nodes b)) e
          (rw (update_self status p st) h)
    | no ne ↦ rw (update-ne status p st a ne) (Later-refl u (status a) (nodes a))
  ]

  -- A node that is owned by another thread, or not made yet, may be changed in any way.
  pub Later-update :
      (u p : ℕ) (status : ℕ → Status) (nodes : ℕ → Node T) (st : Status) (nd : Node T)
      → status p ≡ unborn
      → (a : ℕ) → Later u (status a) (nodes a) (update status p st a) (update nodes p nd a)
  Later-update u p status nodes st nd e a = elim (ℕ_discrete p a) [
    | yes same ↦ rw (sym same, e) tt
    | no ne ↦
        rw (update-ne status p st a ne, update-ne nodes p nd a ne)
          (Later-refl u (status a) (nodes a))
  ]

  -- The items stay when their nodes do.
  pub Represents-unchanged :
      (status status' : ℕ → Status) (nodes nodes' : ℕ → Node T) (head : Option ℕ) (xs : List T)
      → ((a k : ℕ)
          → k < length xs
          → status a ≡ stacked k
          → (status' a ≡ stacked k) × (nodes' a ≡ nodes a))
      → Represents status nodes head xs
      → Represents status' nodes' head xs
  Represents-unchanged status status' nodes nodes' head [] h r = r
  Represents-unchanged status status' nodes nodes' head (x ∷ xs) h (a, (e, (d, (s, r)))) =
      let (s', same) = h a (length xs) (omega arith) s in
      let rest =
        Represents-unchanged status status' nodes nodes' ((nodes a).next_) xs
          (λ b k le. h b k (omega arith)) r in
      (
        a,
        (
          e,
          (
            ap (λ m. m.data_) same ∙ d,
            (s', subst (λ m. Represents status' nodes' (m.next_) xs) (sym same) rest),
          ),
        ),
      )

  -- A change of a node that is not among the items leaves them as they are.
  pub Represents-update :
      (p : ℕ) (status : ℕ → Status) (nodes : ℕ → Node T) (st : Status) (nd : Node T)
      (head : Option ℕ) (xs : List T)
      → ((k : ℕ) → k < length xs → status p ≢ stacked k)
      → Represents status nodes head xs
      → Represents (update status p st) (update nodes p nd) head xs
        × (Represents (update status p st) nodes head xs
            × Represents status (update nodes p nd) head xs)
  Represents-update p status nodes st nd head xs h r =
      let apart : (a k : ℕ) → k < length xs → status a ≡ stacked k → p ≢ a =
        λ a k le s same. h k le (ap status same ∙ s) in
      let s : (a k : ℕ) → k < length xs → status a ≡ stacked k → update status p st a ≡ stacked k =
        λ a k le e. update-ne status p st a (apart a k le e) ∙ e in
      let n : (a k : ℕ) → k < length xs → status a ≡ stacked k → update nodes p nd a ≡ nodes a =
        λ a k le e. update-ne nodes p nd a (apart a k le e) in
      (
        Represents-unchanged status (update status p st) nodes (update nodes p nd) head xs
            (λ a k le e. (s a k le e, n a k le e)) r,
        (
          Represents-unchanged status (update status p st) nodes nodes head xs
              (λ a k le e. (s a k le e, refl)) r,
          Represents-unchanged status status nodes (update nodes p nd) head xs
              (λ a k le e. (e, n a k le e)) r,
        ),
      )
