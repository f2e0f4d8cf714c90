-- ===== src/Containers/DeleteListStack/Kept.antt =====
-- A move of one thread of lockfree_statck_delete_list.hpp leaves what the others rely on.
use playground_cpp.Common.{
  ℕ, ◌≤◌, ◌≡◌, ◌≢◌, refl, ◌∙◌, subst, inl, inr, Option, none, some, List, update, In, Distinct,
  at_each, arith,
}
use playground_cpp.Containers.SharedStack.{Node, Status, removed}
use playground_cpp.Containers.HazardStack.Invariant.{Later}
use playground_cpp.Containers.DeleteListStack.{
  Pc, idle, loading, made, pushing, following, taking, exchanging, checking, claiming, freeing,
  leaving, deleting, walking, linking, adding, subtracting, returned, State,
}
use playground_cpp.Containers.DeleteListStack.Segments.{Segment-same}
use playground_cpp.Containers.DeleteListStack.Invariant.{
  with_own, Uses, own, hand, Cleared, Shape, Knows, Inv, Moves,
}

module _ {ℓ} {T : Type ℓ} where
  -- The chain of a thread is in its hands.
  pub chain-hand : (a : ℕ) (pc : Pc T) (chain : List ℕ) → In a chain → In a (hand pc chain)
  chain-hand a pc chain i = with_chain (own pc)
    where
      with_chain : (o : Option ℕ) → In a (with_own o chain)
      with_chain none = i
      with_chain (some b) = inr i

  pub Shape-same :
      (nodes nodes' : ℕ → Node T) (pc : Pc T) (chain : List ℕ)
      → ((a : ℕ) → In a chain → (nodes' a).next_ ≡ (nodes a).next_)
      → Shape nodes pc chain
      → Shape nodes' pc chain
  Shape-same nodes nodes' idle chain h shape = shape
  Shape-same nodes nodes' loading chain h shape = shape
  Shape-same nodes nodes' (made v p) chain h shape = shape
  Shape-same nodes nodes' (pushing v p) chain h shape = shape
  Shape-same nodes nodes' (following b) chain h shape = shape
  Shape-same nodes nodes' (taking b) chain h shape = shape
  Shape-same nodes nodes' (exchanging b n) chain h shape = shape
  Shape-same nodes nodes' (checking old_head res) chain h shape = shape
  Shape-same nodes nodes' (claiming old_head res) chain h shape = shape
  Shape-same nodes nodes' (freeing old_head res) chain h shape = shape
  Shape-same nodes nodes' (leaving old_head nodes_of res) chain h shape =
      Segment-same nodes nodes' nodes_of none chain h shape
  Shape-same nodes nodes' (deleting old_head nodes_of res) chain h shape =
      Segment-same nodes nodes' nodes_of none chain h shape
  Shape-same nodes nodes' (walking old_head first last res) chain h shape =
      let (ys, (zs, (e, seg))) = shape in
      (ys, (zs, (e, Segment-same nodes nodes' (some first) none chain h seg)))
  Shape-same nodes nodes' (linking after first last res) chain h shape =
      let (ys, (q, (e, seg))) = shape in
      (ys, (q, (e, Segment-same nodes nodes' (some first) q chain h seg)))
  Shape-same nodes nodes' (adding after first last res) chain h shape =
      let (ys, (q, (e, seg))) = shape in
      (ys, (q, (e, Segment-same nodes nodes' (some first) q chain h seg)))
  Shape-same nodes nodes' (subtracting res) chain h shape = shape
  Shape-same nodes nodes' (returned res) chain h shape = shape

  Knows-Later :
      (t u : ℕ) (status status' : ℕ → Status) (nodes nodes' : ℕ → Node T) (pc : Pc T)
      → t ≢ u
      → ((a : ℕ) → Later t (Uses a pc → ⊥) (status a) (nodes a) (status' a) (nodes' a))
      → Knows u status nodes pc
      → Knows u status' nodes' pc
  Knows-Later t u status status' nodes nodes' idle ne later h = tt
  Knows-Later t u status status' nodes nodes' loading ne later h = tt
  Knows-Later t u status status' nodes nodes' (made v p) ne later h =
      let (o', d') =
        subst (λ x. Later t (⊥ → ⊥) x (nodes p) (status' p) (nodes' p)) (h.0) (later p) ne in
      (o', d' ∙ h.1)
  Knows-Later t u status status' nodes nodes' (pushing v p) ne later h =
      let (o', d') =
        subst (λ x. Later t (⊥ → ⊥) x (nodes p) (status' p) (nodes' p)) (h.0) (later p) ne in
      (o', d' ∙ h.1)
  Knows-Later t u status status' nodes nodes' (following b) ne later h = elim (h.0) [
    | inl r ↦
        elim (subst (λ x. Later t (b ≡ b → ⊥) x (nodes b) (status' b) (nodes' b)) r (later b)).0 [
          | inl still ↦ (inl still, tt)
          | inr unused ↦ absurd (unused refl)
        ]
    | inr (k, r) ↦
        elim (subst (λ x. Later t (b ≡ b → ⊥) x (nodes b) (status' b) (nodes' b)) r (later b)).0 [
          | inl gone ↦ (inl gone, tt)
          | inr (there, _) ↦ (inr (k, there), tt)
        ]
  ]
  Knows-Later t u status status' nodes nodes' (taking b) ne later h = tt
  Knows-Later t u status status' nodes nodes' (exchanging b n) ne later h = elim (h.0) [
    | inl r ↦
        elim (subst (λ x. Later t (b ≡ b → ⊥) x (nodes b) (status' b) (nodes' b)) r (later b)).0 [
          | inl still ↦ (inl still, tt)
          | inr unused ↦ absurd (unused refl)
        ]
    | inr (k, (r, e)) ↦
        elim (subst (λ x. Later t (b ≡ b → ⊥) x (nodes b) (status' b) (nodes' b)) r (later b)).0 [
          | inl gone ↦ (inl gone, tt)
          | inr (there, same) ↦ (inr (k, (there, same ∙ e)), tt)
        ]
  ]
  Knows-Later t u status status' nodes nodes' (checking old_head res) ne later h = tt
  Knows-Later t u status status' nodes nodes' (claiming old_head res) ne later h = tt
  Knows-Later t u status status' nodes nodes' (freeing old_head res) ne later h = tt
  Knows-Later t u status status' nodes nodes' (leaving old_head nodes_of res) ne later h = tt
  Knows-Later t u status status' nodes nodes' (deleting old_head nodes_of res) ne later h = tt
  Knows-Later t u status status' nodes nodes' (walking old_head first last res) ne later h = tt
  Knows-Later t u status status' nodes nodes' (linking after first last res) ne later h = tt
  Knows-Later t u status status' nodes nodes' (adding after first last res) ne later h = tt
  Knows-Later t u status status' nodes nodes' (subtracting res) ne later h = tt
  Knows-Later t u status status' nodes nodes' (returned res) ne later h = tt

  pub Moves-Inv :
      (threads t : ℕ) (pc : Pc T) (s s' : State T) (xs ys : List T)
      → Inv threads s xs
      → Moves threads t pc s s' ys
      → Inv threads (record s' { pcs = update s.pcs t pc }) ys
  Moves-Inv threads t pc s s' xs ys inv m = record {
    represents = m.represents;
    depth = m.depth;
    counter = m.counter;
    no_others =
        at_each (λ u c. threads ≤ u → c ≡ idle) t s.pcs pc
          (λ le. let lt = m.below in absurd (omega arith)) (λ u ne. inv.no_others u);
    knows =
        at_each (λ u c. Knows u s'.status s'.nodes c) t s.pcs pc m.knows
          (λ u ne.
            Knows-Later t u s.status s'.status s.nodes s'.nodes (s.pcs u) ne (λ a. m.later u a ne)
              (inv.knows u));
    held =
        at_each
          (λ u c.
            (a : ℕ)
            → In a (hand c (s'.chains u))
            → (s'.status a ≡ removed) × (s'.holder a ≡ some u))
          t s.pcs pc m.held
          (λ u ne. rw (m.chains u ne) (λ a i. let (r, o) = inv.held u a i in m.kept u a ne r o));
    once =
        at_each (λ u c. Distinct (hand c (s'.chains u))) t s.pcs pc m.once
          (λ u ne. rw (m.chains u ne) (inv.once u));
    shape =
        at_each (λ u c. Shape s'.nodes c (s'.chains u)) t s.pcs pc m.shape
          (λ u ne. rw (m.chains u ne) (
            Shape-same s.nodes s'.nodes (s.pcs u) (s.chains u)
              (λ a i.
                let (r, o) = inv.held u a (chain-hand a (s.pcs u) (s.chains u) i) in
                m.next_kept u a ne r o)
              (inv.shape u)));
    listed = m.listed;
    listed_once = m.listed_once;
    linked = m.linked;
    unused = λ v u a.
        at_each (λ v c. v ≢ u → Cleared a c (s'.chains v) → Uses a (update s.pcs t pc u) → ⊥) t
          s.pcs pc
          (at_each (λ u c. t ≢ u → Cleared a pc (s'.chains t) → Uses a c → ⊥) t s.pcs pc
            (λ n. absurd (n refl)) (λ u ne n. m.clears u a ne) u)
          (λ v ne. rw (m.chains v ne) (
            at_each (λ u c. v ≢ u → Cleared a (s.pcs v) (s.chains v) → Uses a c → ⊥) t s.pcs pc
              (λ n cl us. m.uses v a ne us cl) (λ u ne' n. inv.unused v u a n) u))
          v;
  }
