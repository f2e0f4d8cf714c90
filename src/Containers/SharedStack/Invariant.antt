-- ===== src/Containers/SharedStack/Invariant.antt =====
-- What holds of the nodes and the threads of lockfree_stack_shared_ptr.hpp between any two moves.
use playground_cpp.Common.{
  ℕ, ◌≤◌, ◌≡◌, ◌≢◌, refl, sym, ◌∙◌, subst, inl, inr, ◌⊎◌, Option, some, List, [], update,
  update_self, update-ne, length, ℕ_discrete,
}
use playground_cpp.Containers.SharedStack.{
  Node, Pc, idle, made, pushing, loaded, popping, clearing, reading, returned, Status, unborn,
  owned, stacked, removed, State, init,
}
use playground_cpp.Containers.SharedStack.Chain.{Represents, Later}

module _ {ℓ} {T : Type ℓ} where
  -- What a thread relies on, where `claimed` is what its last pop took.
  abbrev pub ThreadInv : ℕ → (ℕ → Status) → (ℕ → Node T) → Option T → Pc T → Type ℓ
  ThreadInv t status nodes claimed idle = Unit
  ThreadInv t status nodes claimed (made v p) = (status p ≡ owned t) × ((nodes p).data_ ≡ some v)
  ThreadInv t status nodes claimed (pushing v p) = (status p ≡ owned t) × ((nodes p).data_ ≡ some v)
  ThreadInv t status nodes claimed (loaded a) =
      ((status a ≡ removed) ⊎ ((k : ℕ) × (status a ≡ stacked k))) × Unit
  ThreadInv t status nodes claimed (popping a n) =
      ((status a ≡ removed) ⊎ ((k : ℕ) × ((status a ≡ stacked k) × ((nodes a).next_ ≡ n)))) × Unit
  ThreadInv t status nodes claimed (clearing a) = (status a ≡ removed) × (claimed ≡ (nodes a).data_)
  ThreadInv t status nodes claimed (reading a) = (status a ≡ removed) × (claimed ≡ (nodes a).data_)
  ThreadInv t status nodes claimed (returned r) = claimed ≡ r

  pub record Inv (s : State T) (items : List T) : Type ℓ where
    pub represents : Represents s.status s.nodes s.head_ items
    pub depth : s.depth ≡ length items
    pub unborn_from : (p : ℕ) → s.fresh ≤ p → s.status p ≡ unborn
    pub threads : (t : ℕ) → ThreadInv t s.status s.nodes (s.claimed t) (s.pcs t)

  pub init-Inv : Inv init []
  init-Inv = record {
    represents = (refl, tt);
    depth = refl;
    unborn_from = λ p le. refl;
    threads = λ t. tt;
  }

  ThreadInv-Later :
      (u : ℕ) (status status' : ℕ → Status) (nodes nodes' : ℕ → Node T) (claimed : Option T)
      (pc : Pc T)
      → ((a : ℕ) → Later u (status a) (nodes a) (status' a) (nodes' a))
      → ThreadInv u status nodes claimed pc
      → ThreadInv u status' nodes' claimed pc
  ThreadInv-Later u status status' nodes nodes' claimed idle later h = tt
  ThreadInv-Later u status status' nodes nodes' claimed (made v p) later (o, d) =
      let (o', d') = subst (λ x. Later u x (nodes p) (status' p) (nodes' p)) o (later p) refl in
      (o', d' ∙ d)
  ThreadInv-Later u status status' nodes nodes' claimed (pushing v p) later (o, d) =
      let (o', d') = subst (λ x. Later u x (nodes p) (status' p) (nodes' p)) o (later p) refl in
      (o', d' ∙ d)
  ThreadInv-Later u status status' nodes nodes' claimed (loaded a) later (inl r, _) =
      (inl (subst (λ x. Later u x (nodes a) (status' a) (nodes' a)) r (later a)).0, tt)
  ThreadInv-Later u status status' nodes nodes' claimed (loaded a) later (inr (k, r), _) =
      elim (subst (λ x. Later u x (nodes a) (status' a) (nodes' a)) r (later a)) [
        | inl gone ↦ (inl gone, tt)
        | inr (there, _) ↦ (inr (k, there), tt)
      ]
  ThreadInv-Later u status status' nodes nodes' claimed (popping a n) later (inl r, _) =
      (inl (subst (λ x. Later u x (nodes a) (status' a) (nodes' a)) r (later a)).0, tt)
  ThreadInv-Later u status status' nodes nodes' claimed (popping a n) later (inr (k, (r, e)), _) =
      elim (subst (λ x. Later u x (nodes a) (status' a) (nodes' a)) r (later a)) [
        | inl gone ↦ (inl gone, tt)
        | inr (there, (same, _)) ↦ (inr (k, (there, same ∙ e)), tt)
      ]
  ThreadInv-Later u status status' nodes nodes' claimed (clearing a) later (r, e) =
      let (r', same) = subst (λ x. Later u x (nodes a) (status' a) (nodes' a)) r (later a) in
      (r', e ∙ sym same)
  ThreadInv-Later u status status' nodes nodes' claimed (reading a) later (r, e) =
      let (r', same) = subst (λ x. Later u x (nodes a) (status' a) (nodes' a)) r (later a) in
      (r', e ∙ sym same)
  ThreadInv-Later u status status' nodes nodes' claimed (returned r) later h = h

  -- A move of thread `t`.
  pub threads-update :
      (t : ℕ) (status status' : ℕ → Status) (nodes nodes' : ℕ → Node T)
      (claimed claimed' : ℕ → Option T) (pcs : ℕ → Pc T) (pc : Pc T)
      → ((u : ℕ) → t ≢ u → (a : ℕ) → Later u (status a) (nodes a) (status' a) (nodes' a))
      → ((u : ℕ) → t ≢ u → claimed' u ≡ claimed u)
      → ThreadInv t status' nodes' (claimed' t) pc
      → ((u : ℕ) → ThreadInv u status nodes (claimed u) (pcs u))
      → (u : ℕ) → ThreadInv u status' nodes' (claimed' u) (update pcs t pc u)
  threads-update t status status' nodes nodes' claimed claimed' pcs pc later same own h u =
      elim (ℕ_discrete t u) [
        | yes e ↦
            subst (λ v. ThreadInv v status' nodes' (claimed' v) (update pcs t pc v)) e
              (rw (update_self pcs t pc) own)
        | no ne ↦
            rw (update-ne pcs t pc u ne, same u ne)
              (ThreadInv-Later u status status' nodes nodes' (claimed u) (pcs u) (later u ne) (h u))
      ]
