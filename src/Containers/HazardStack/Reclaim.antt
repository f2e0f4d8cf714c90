-- ===== src/Containers/HazardStack/Reclaim.antt =====
-- How lockfree_stack_hazard_pointer.hpp deletes nodes, or keeps them for later.
use playground_cpp.Common.{
  Distinct, member, member-In, In-member, ℕ, ◌≡◌, ◌≢◌, refl, sym, ◌∙◌, ap, subst, inl, inr, Option,
  none, some, List, ◌∷◌, update, update_self, update-ne, In, Bool-cases,
}
use playground_cpp.Containers.SharedStack.{Node, Status, unborn, removed}
use playground_cpp.Containers.SharedStack.Chain.{Represents-update}
use playground_cpp.Containers.HazardStack.{Pc, sweeping, State, delete_node, reclaim_later, collect}
use playground_cpp.Containers.HazardStack.Invariant.{
  Uses, hand, Knows, Scans, Inv, Later-refl, Moves-Inv,
}
use playground_cpp.Containers.HazardStack.Moves.{Later-at}

module _ {ℓ} {T : Type ℓ} where
  -- Where the thread goes on with nodes that it had already, and neither scans nor uses one.
  pub record GoesOn (pc : Pc T) (rest : List ℕ) : Type ℓ where
    pub subset : (a : ℕ) → In a (hand pc) → In a rest
    pub distinct : Distinct (hand pc)
    pub knows :
        (t : ℕ) (status : ℕ → Status) (nodes : ℕ → Node T) (hz : Option ℕ)
        → Knows t status nodes hz pc
    pub scans : (a u : ℕ) → Scans a u pc → ⊥
    pub uses : (a : ℕ) → Uses a pc → ⊥

  pub delete_node-Inv :
      (a t : ℕ) (rest : List ℕ) (pc : Pc T) (s : State T) (xs : List T)
      → Inv s xs
      → hand (s.pcs t) ≡ a ∷ rest
      → GoesOn pc rest
      → ((u : ℕ) → t ≢ u → Uses a (s.pcs u) → ⊥)
      → Inv (delete_node a pc t s) xs
  unfolding delete_node
  delete_node-Inv a t rest pc s xs inv e goes unused =
      let held =
        subst (λ l. (b : ℕ) → In b l → (s.status b ≡ removed) × (s.holder b ≡ some t)) e
          (inv.held t) in
      let (r, o) = held a (inl refl) in
      let once = subst Distinct e (inv.once t) in
      let kept : (c : ℕ) → a ≢ c → s.status c ≡ removed → update s.status a unborn c ≡ removed =
        λ c ne r. update-ne s.status a unborn c ne ∙ r in
      Moves-Inv t pc s (delete_node a pc t s) xs xs inv (record {
        represents =
            (Represents-update a s.status s.nodes unborn (s.nodes a) s.head_ xs (λ k le e. cc)
              inv.represents).1.0;
        depth = inv.depth;
        hazards = λ u ne. refl;
        later = λ u c ne.
            Later-at t a (λ c. Uses c (s.pcs u) → ⊥) s.status (update s.status a unborn) s.nodes
              s.nodes (rw (r) (inr (unused u ne), tt))
              (λ c ne. (update-ne s.status a unborn c ne, refl)) c;
        knows = goes.knows t (update s.status a unborn) s.nodes (s.hazards t);
        kept = λ u c ne r' o'. (kept c (λ same. ne (cc (sym o ∙ ap s.holder same ∙ o'))) r', o');
        held = λ c i.
            let (r', o') = held c (inr (goes.subset c i)) in
            (kept c (λ same. once.0 (subst (λ b. In b rest) (sym same) (goes.subset c i))) r', o');
        once = goes.distinct;
        listed = λ c i.
            let (r', o') = inv.listed c i in
            (kept c (λ same. cc (sym o ∙ ap s.holder same ∙ o')) r', o');
        listed_once = inv.listed_once;
        scanned = λ u c ne sc. absurd (goes.scans c u sc);
        used = λ v c ne us. absurd (goes.uses c us);
      })

  pub reclaim_later-Inv :
      (a t : ℕ) (rest : List ℕ) (pc : Pc T) (s : State T) (xs : List T)
      → Inv s xs
      → hand (s.pcs t) ≡ a ∷ rest
      → GoesOn pc rest
      → Inv (reclaim_later a pc t s) xs
  unfolding reclaim_later
  reclaim_later-Inv a t rest pc s xs inv e goes =
      let held =
        subst (λ l. (b : ℕ) → In b l → (s.status b ≡ removed) × (s.holder b ≡ some t)) e
          (inv.held t) in
      let (r, o) = held a (inl refl) in
      let once = subst Distinct e (inv.once t) in
      Moves-Inv t pc s (reclaim_later a pc t s) xs xs inv (record {
        represents = inv.represents;
        depth = inv.depth;
        hazards = λ u ne. refl;
        later = λ u c ne. Later-refl t (Uses c (s.pcs u) → ⊥) (s.status c) (s.nodes c);
        knows = goes.knows t s.status s.nodes (s.hazards t);
        kept = λ u c ne r' o'. (
          r',
          update-ne s.holder a none c (λ same. ne (cc (sym o ∙ ap s.holder same ∙ o'))) ∙ o',
        );
        held = λ c i.
            let (r', o') = held c (inr (goes.subset c i)) in
            (
              r',
              update-ne s.holder a none c
                    (λ same. once.0 (subst (λ b. In b rest) (sym same) (goes.subset c i)))
                  ∙ o',
            );
        once = goes.distinct;
        listed = λ c i. elim i [
          | inl e ↦
              subst (λ b. (s.status b ≡ removed) × (update s.holder a none b ≡ none)) e
                (r, update_self s.holder a none)
          | inr i ↦
              let (r', o') = inv.listed c i in
              (r', update-ne s.holder a none c (λ same. cc (sym o ∙ ap s.holder same ∙ o')) ∙ o')
        ];
        listed_once = ((λ i. let (_, o') = inv.listed a i in cc (sym o ∙ o')), inv.listed_once);
        scanned = λ u c ne sc. absurd (goes.scans c u sc);
        used = λ v c ne us. absurd (goes.uses c us);
      })

  pub collect-Inv :
      (res : Option T) (t : ℕ) (s : State T) (xs : List T) → Inv s xs → Inv (collect res t s) xs
  unfolding collect
  collect-Inv res t s xs inv =
      Moves-Inv t (sweeping s.reclaim res) s (collect res t s) xs xs inv (record {
        represents = inv.represents;
        depth = inv.depth;
        hazards = λ u ne. refl;
        later = λ u c ne. Later-refl t (Uses c (s.pcs u) → ⊥) (s.status c) (s.nodes c);
        knows = tt;
        kept = λ u c ne r o. (
          r,
          elim (Bool-cases (member c s.reclaim)) [
            | inl i ↦
                let (_, o') = inv.listed c (In-member c s.reclaim i) in absurd (cc (sym o ∙ o'))
            | inr i ↦ rw (i) o
          ],
        );
        held = λ c i. let (r, _) = inv.listed c i in (r, rw (member-In c s.reclaim i) refl);
        once = inv.listed_once;
        listed = λ c i. absurd i;
        listed_once = tt;
        scanned = λ u a ne sc. absurd sc;
        used = λ v a ne us. absurd us;
      })
