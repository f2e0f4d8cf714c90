-- ===== src/Containers/DeleteListStack/Free.antt =====
-- The delete of a node in lockfree_statck_delete_list.hpp.
use playground_cpp.Common.{
  ℕ, ◌<◌, ◌≡◌, ◌≢◌, refl, sym, ◌∙◌, ap, inr, List, update, update_self, update-ne, In, Distinct,
}
use playground_cpp.Containers.SharedStack.{unborn, removed}
use playground_cpp.Containers.SharedStack.Chain.{Represents-update}
use playground_cpp.Containers.HazardStack.Moves.{Later-at}
use playground_cpp.Containers.DeleteListStack.{Pc, State}
use playground_cpp.Containers.DeleteListStack.Invariant.{
  Uses, counted, hand, Cleared, Shape, Knows, Inv,
}
use playground_cpp.Containers.DeleteListStack.Kept.{Moves-Inv}
use playground_cpp.Containers.DeleteListStack.Quiet.{tally_stays}

module _ {ℓ} {T : Type ℓ} where
  -- The delete of a node that no other thread uses, after which the thread goes to `pc` with
  -- a chain.
  pub free-Inv :
      (threads a t : ℕ) (pc : Pc T) (chain : List ℕ) (s : State T) (xs : List T)
      → Inv threads s xs
      → t < threads
      → counted pc ≡ counted (s.pcs t)
      → ((b : ℕ) → In b (hand pc chain) → In b (hand (s.pcs t) (s.chains t)) × (a ≢ b))
      → In a (hand (s.pcs t) (s.chains t))
      → Distinct (hand pc chain)
      → Shape s.nodes pc chain
      → Knows t (update s.status a unborn) s.nodes pc
      → ((b : ℕ) → Uses b pc → ⊥)
      → ((u : ℕ) → t ≢ u → Uses a (s.pcs u) → ⊥)
      → ((b : ℕ) → Cleared b pc chain → Cleared b (s.pcs t) (s.chains t))
      → Inv threads
          (record s {
            pcs = update s.pcs t pc;
            status = update s.status a unborn;
            chains = update s.chains t chain;
          })
          xs
  free-Inv threads a t pc chain s xs inv lt count subset mine once shape knows uses unused cleared =
      let s' : State T = record s {
        status = update s.status a unborn;
        chains = update s.chains t chain;
      } in
      let (r, o) = inv.held t a mine in
      let new = update_self s.chains t chain in
      let kept : (c : ℕ) → a ≢ c → s.status c ≡ removed → update s.status a unborn c ≡ removed =
        λ c ne r. update-ne s.status a unborn c ne ∙ r in
      Moves-Inv threads t pc s s' xs xs inv (record {
        represents =
            (Represents-update a s.status s.nodes unborn (s.nodes a) s.head_ xs (λ k le e. cc)
              inv.represents).1.0;
        depth = inv.depth;
        counter = inv.counter ∙ tally_stays threads t lt s.pcs pc count;
        below = lt;
        chains = λ u ne. update-ne s.chains t chain u ne;
        later = λ u c ne.
            Later-at t a (λ c. Uses c (s.pcs u) → ⊥) s.status (update s.status a unborn) s.nodes
              s.nodes (rw (r) (inr (unused u ne), tt))
              (λ c ne. (update-ne s.status a unborn c ne, refl)) c;
        next_kept = λ u c ne r o. refl;
        kept = λ u c ne r' o'. (kept c (λ same. ne (cc (sym o ∙ ap s.holder same ∙ o'))) r', o');
        knows = knows;
        held = rw (new) (λ c i.
            let (j, ne) = subset c i in let (r', o') = inv.held t c j in (kept c ne r', o'));
        once = rw (new) once;
        shape = rw (new) shape;
        listed = λ c i.
            let (r', o') = inv.listed c i in
            (kept c (λ same. cc (sym o ∙ ap s.holder same ∙ o')) r', o');
        listed_once = inv.listed_once;
        linked = inv.linked;
        clears = rw (new) (λ u b ne cl. inv.unused t u b ne (cleared b cl));
        uses = λ v b ne us. absurd (uses b us);
      })
