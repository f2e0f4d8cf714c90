-- ===== src/Containers/HazardStack/Moves.antt =====
-- Each operation of lockfree_stack_hazard_pointer.hpp keeps what the threads rely on.
use playground_cpp.Common.{
  Distinct, ℕ, ◌≡◌, ◌≢◌, refl, sym, ◌∙◌, ap, subst, none, some, List, ◌∷◌, update, update_self,
  update-ne, In, arith, ℕ_discrete,
}
use playground_cpp.Containers.SharedStack.{Node, Status, unborn, owned, stacked, removed}
use playground_cpp.Containers.SharedStack.Chain.{Represents, Represents-update}
use playground_cpp.Containers.HazardStack.{
  Pc, idle, made, pushing, State, at, make_node, load_next_of_new, publish,
}
use playground_cpp.Containers.HazardStack.Invariant.{
  Uses, hand, Knows, Scans, Inv, Later, Later-refl, Moves-Inv,
}

module _ {ℓ} {T : Type ℓ} where
  -- A thread that has the same removed nodes as before, or fewer.
  abbrev pub Keeps : Pc T → Pc T → Type 0
  Keeps pc pc' = (a : ℕ) → In a (hand pc') → In a (hand pc)

  pub at-Inv :
      (t : ℕ) (pc : Pc T) (s : State T) (xs : List T)
      → Inv s xs
      → Keeps (s.pcs t) pc
      → Distinct (hand pc)
      → Knows t s.status s.nodes (s.hazards t) pc
      → ((u a : ℕ) → t ≢ u → Scans a u pc → Uses a (s.pcs u) → ⊥)
      → ((v a : ℕ) → t ≢ v → Uses a pc → Scans a t (s.pcs v) → ⊥)
      → Inv (at pc t s) xs
  at-Inv t pc s xs inv keeps once knows scanned used = Moves-Inv t pc s s xs xs inv (record {
    represents = inv.represents;
    depth = inv.depth;
    hazards = λ u ne. refl;
    later = λ u a ne. Later-refl t (Uses a (s.pcs u) → ⊥) (s.status a) (s.nodes a);
    knows = knows;
    kept = λ u a ne r o. (r, o);
    held = λ a i. inv.held t a (keeps a i);
    once = once;
    listed = inv.listed;
    listed_once = inv.listed_once;
    scanned = scanned;
    used = used;
  })

  -- A change of one address.
  pub Later-at :
      (t p : ℕ) (unused : ℕ → Type 0) (status status' : ℕ → Status) (nodes nodes' : ℕ → Node T)
      → Later t (unused p) (status p) (nodes p) (status' p) (nodes' p)
      → ((a : ℕ) → p ≢ a → (status' a ≡ status a) × (nodes' a ≡ nodes a))
      → (a : ℕ) → Later t (unused a) (status a) (nodes a) (status' a) (nodes' a)
  Later-at t p unused status status' nodes nodes' h same a = elim (ℕ_discrete p a) [
    | yes e ↦ subst (λ b. Later t (unused b) (status b) (nodes b) (status' b) (nodes' b)) e h
    | no ne ↦ let (e, f) = same a ne in rw (e, f) (Later-refl t (unused a) (status a) (nodes a))
  ]

  pub apart :
      (p a : ℕ) (s : State T) (st : Status)
      → s.status p ≡ st
      → st ≢ removed
      → s.status a ≡ removed
      → p ≢ a
  apart p a s st e ne r same = ne (sym e ∙ ap s.status same ∙ r)

  pub make_node-Inv :
      (v : T) (p t : ℕ) (s : State T) (xs : List T)
      → Inv s xs
      → s.status p ≡ unborn
      → Inv (make_node v p t s) xs
  unfolding make_node
  make_node-Inv v p t s xs inv free =
      let nd : Node T = record { data_ = some v; next_ = none } in
      let others : (a : ℕ) → s.status a ≡ removed → update s.status p (owned t) a ≡ removed =
        λ a r. update-ne s.status p (owned t) a (apart p a s unborn free (λ e. cc) r) ∙ r in
      Moves-Inv t (made v p) s (make_node v p t s) xs xs inv (record {
        represents =
            (Represents-update p s.status s.nodes (owned t) nd s.head_ xs (λ k le e. cc)
              inv.represents).0;
        depth = inv.depth;
        hazards = λ u ne. refl;
        later = λ u a ne.
            Later-at t p (λ a. Uses a (s.pcs u) → ⊥) s.status (update s.status p (owned t)) s.nodes
              (update s.nodes p nd) (rw (free) tt)
              (λ a ne. (update-ne s.status p (owned t) a ne, update-ne s.nodes p nd a ne)) a;
        knows = (update_self s.status p (owned t), ap (λ m. m.data_) (update_self s.nodes p nd));
        kept = λ u a ne r o. (others a r, o);
        held = λ a i. absurd i;
        once = tt;
        listed = λ a i. let (r, o) = inv.listed a i in (others a r, o);
        listed_once = inv.listed_once;
        scanned = λ u a ne sc. absurd sc;
        used = λ v a ne us. absurd us;
      })

  pub load_next_of_new-Inv :
      (v : T) (p t : ℕ) (s : State T) (xs : List T)
      → Inv s xs
      → s.status p ≡ owned t
      → (s.nodes p).data_ ≡ some v
      → Inv (load_next_of_new v p t s) xs
  unfolding load_next_of_new
  load_next_of_new-Inv v p t s xs inv o d =
      let nd : Node T = record (s.nodes p) { next_ = s.head_ } in
      Moves-Inv t (pushing v p) s (load_next_of_new v p t s) xs xs inv (record {
        represents =
            (Represents-update p s.status s.nodes (owned t) nd s.head_ xs (λ k le e. cc)
              inv.represents).1.1;
        depth = inv.depth;
        hazards = λ u ne. refl;
        later = λ u a ne.
            Later-at t p (λ a. Uses a (s.pcs u) → ⊥) s.status s.status s.nodes (update s.nodes p nd)
              (rw (o) (λ n. absurd (n refl))) (λ a ne. (refl, update-ne s.nodes p nd a ne)) a;
        knows = (o, ap (λ m. m.data_) (update_self s.nodes p nd) ∙ d);
        kept = λ u a ne r o. (r, o);
        held = λ a i. absurd i;
        once = tt;
        listed = inv.listed;
        listed_once = inv.listed_once;
        scanned = λ u a ne sc. absurd sc;
        used = λ v a ne us. absurd us;
      })

  pub publish-Inv :
      (v : T) (p t : ℕ) (s : State T) (xs : List T)
      → Inv s xs
      → s.status p ≡ owned t
      → (s.nodes p).data_ ≡ some v
      → (s.nodes p).next_ ≡ s.head_
      → Inv (publish p t s) (v ∷ xs)
  unfolding publish
  publish-Inv v p t s xs inv o d n =
      let st : Status = stacked s.depth in
      let below =
        (Represents-update p s.status s.nodes st (s.nodes p) s.head_ xs (λ k le e. cc)
          inv.represents).1.0 in
      let depth = inv.depth in
      let others : (a : ℕ) → s.status a ≡ removed → update s.status p st a ≡ removed =
        λ a r. update-ne s.status p st a (apart p a s (owned t) o (λ e. cc) r) ∙ r in
      Moves-Inv t idle s (publish p t s) xs (v ∷ xs) inv (record {
        represents = (
          p,
          (
            refl,
            (
              d,
              (
                update_self s.status p st ∙ ap stacked depth,
                subst (λ h. Represents (update s.status p st) s.nodes h xs) (sym n) below,
              ),
            ),
          ),
        );
        depth = ground arith;
        hazards = λ u ne. refl;
        later = λ u a ne.
            Later-at t p (λ a. Uses a (s.pcs u) → ⊥) s.status (update s.status p st) s.nodes s.nodes
              (rw (o) (λ n. absurd (n refl))) (λ a ne. (update-ne s.status p st a ne, refl)) a;
        knows = tt;
        kept = λ u a ne r o. (others a r, o);
        held = λ a i. absurd i;
        once = tt;
        listed = λ a i. let (r, o) = inv.listed a i in (others a r, o);
        listed_once = inv.listed_once;
        scanned = λ u a ne sc. absurd sc;
        used = λ v a ne us. absurd us;
      })
