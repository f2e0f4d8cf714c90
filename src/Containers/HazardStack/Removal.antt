-- ===== src/Containers/HazardStack/Removal.antt =====
-- The removal of a node in lockfree_stack_hazard_pointer.hpp, and the hazard pointers, keep
-- what the threads rely on.
use playground_cpp.Common.{
  Distinct, ℕ, length, ◌<◌, ◌≡◌, ◌≢◌, refl, sym, ◌∙◌, ap, subst, inl, inr, ◌⊎◌, true, Option, none,
  some, List, [], ◌∷◌, update, update_self, update-ne, In, arith,
}
use playground_cpp.Containers.SharedStack.{Node, stacked, removed}
use playground_cpp.Containers.SharedStack.Chain.{Represents, Represents-update}
use playground_cpp.Containers.HazardStack.{Pc, dropping, taking, scanning, State, unlink, take_data}
use playground_cpp.Containers.HazardStack.Invariant.{
  Uses, hand, Knows, Scans, Inv, Later-refl, Moves-Inv,
}
use playground_cpp.Containers.HazardStack.Moves.{Keeps, Later-at, apart}

module _ {ℓ} {T : Type ℓ} where
  -- A thread that changes its hazard pointer.
  pub hazard-Inv :
      (t : ℕ) (hz : Option ℕ) (pc : Pc T) (s : State T) (xs : List T)
      → Inv s xs
      → Keeps (s.pcs t) pc
      → Distinct (hand pc)
      → ((h : Option ℕ) → h ≡ hz → Knows t s.status s.nodes h pc)
      → ((a u : ℕ) → Scans a u pc → ⊥)
      → ((a : ℕ) → Uses a pc → ⊥)
      → Inv (record s { hazards = update s.hazards t hz; pcs = update s.pcs t pc }) xs
  hazard-Inv t hz pc s xs inv keeps once knows scans uses =
      Moves-Inv t pc s (record s { hazards = update s.hazards t hz }) xs xs inv
        (record {
          represents = inv.represents;
          depth = inv.depth;
          hazards = λ u ne. update-ne s.hazards t hz u ne;
          later = λ u a ne. Later-refl t (Uses a (s.pcs u) → ⊥) (s.status a) (s.nodes a);
          knows = knows (update s.hazards t hz t) (update_self s.hazards t hz);
          kept = λ u a ne r o. (r, o);
          held = λ a i. inv.held t a (keeps a i);
          once = once;
          listed = inv.listed;
          listed_once = inv.listed_once;
          scanned = λ u a ne sc. absurd (scans a u sc);
          used = λ v a ne us. absurd (uses a us);
        })

  pub unlink-Inv :
      (a : ℕ) (n : Option ℕ) (t : ℕ) (s : State T) (xs : List T)
      → Inv s xs
      → s.head_ ≡ some a
      → (s.status a ≡ removed) ⊎ ((k : ℕ) × ((s.status a ≡ stacked k) × ((s.nodes a).next_ ≡ n)))
      → (ys : List T) × Inv (unlink a n t s) ys
  unfolding unlink
  unlink-Inv a n t s [] inv e h = absurd (cc (sym e ∙ inv.represents.0))
  unlink-Inv a n t s (x ∷ xs) inv e h =
      let (b, (e', (d, (st, r)))) = inv.represents in
      let same : b ≡ a = cc (sym e' ∙ e) in
      let top : s.status a ≡ stacked (length xs) = ap s.status (sym same) ∙ st in
      let next_b : (s.nodes b).next_ ≡ n = elim h [
        | inl gone ↦ absurd (cc (sym top ∙ gone))
        | inr (k, (_, en)) ↦ ap (λ c. (s.nodes c).next_) same ∙ en
      ] in
      let apart_k : (k : ℕ) → k < length xs → s.status a ≢ stacked k =
        λ k le e. let eq : length xs ≡ k = cc (sym top ∙ e) in omega arith in
      let rest = subst (λ p. Represents s.status s.nodes p xs) next_b r in
      let depth = inv.depth in
      let ne_of : (c : ℕ) → s.status c ≡ removed → a ≢ c =
        λ c r. apart a c s (stacked (length xs)) top (λ e. cc) r in
      let others : (c : ℕ) → s.status c ≡ removed → update s.status a removed c ≡ removed =
        λ c r. update-ne s.status a removed c (ne_of c r) ∙ r in
      (
        xs,
        Moves-Inv t (dropping (some a)) s (unlink a n t s) (x ∷ xs) xs inv (record {
          represents =
              (Represents-update a s.status s.nodes removed (s.nodes a) n xs apart_k rest).1.0;
          depth = ground arith;
          hazards = λ u ne. refl;
          later = λ u c ne.
              Later-at t a (λ c. Uses c (s.pcs u) → ⊥) s.status (update s.status a removed) s.nodes
                s.nodes (rw (top) (inl (ground arith), tt))
                (λ c ne. (update-ne s.status a removed c ne, refl)) c;
          knows = tt;
          kept = λ u c ne r o. (others c r, update-ne s.holder a (some t) c (ne_of c r) ∙ o);
          held = λ c i. elim i [
            | inl e ↦
                subst
                  (λ c.
                    (update s.status a removed c ≡ removed)
                    × (update s.holder a (some t) c ≡ some t))
                  e (update_self s.status a removed, update_self s.holder a (some t))
            | inr i ↦ absurd i
          ];
          once = ((λ i. i), tt);
          listed = λ c i.
              let (r, o) = inv.listed c i in
              (others c r, update-ne s.holder a (some t) c (ne_of c r) ∙ o);
          listed_once = inv.listed_once;
          scanned = λ u a ne sc. absurd sc;
          used = λ v a ne us. absurd us;
        }),
      )

  pub take_data-Inv :
      (a t : ℕ) (s : State T) (xs : List T)
      → Inv s xs
      → s.pcs t ≡ taking a
      → Inv (take_data a t s) xs
  unfolding take_data
  take_data-Inv a t s xs inv e =
      let nd : Node T = record (s.nodes a) { data_ = none } in
      let (r, o) =
        subst (λ c. (b : ℕ) → In b (hand c) → (s.status b ≡ removed) × (s.holder b ≡ some t)) e
          (inv.held t) a (inl refl) in
      Moves-Inv t (scanning a 0 [] true (s.nodes a).data_) s (take_data a t s) xs xs inv (record {
        represents =
            (Represents-update a s.status s.nodes removed nd s.head_ xs (λ k le e. cc)
              inv.represents).1.1;
        depth = inv.depth;
        hazards = λ u ne. refl;
        later = λ u c ne.
            Later-at t a (λ c. Uses c (s.pcs u) → ⊥) s.status s.status s.nodes (update s.nodes a nd)
              (rw (r) (inl refl, tt)) (λ c ne. (refl, update-ne s.nodes a nd c ne)) c;
        knows = tt;
        kept = λ u a ne r o. (r, o);
        held = λ c i.
            subst (λ p. (b : ℕ) → In b (hand p) → (s.status b ≡ removed) × (s.holder b ≡ some t)) e
              (inv.held t) c i;
        once = ((λ i. i), tt);
        listed = inv.listed;
        listed_once = inv.listed_once;
        scanned = λ u c ne (e, lt). omega arith;
        used = λ v a ne us. absurd us;
      })
