-- ===== src/Containers/DeleteListStack/Deletes.antt =====
-- TryReclaim and its loops in lockfree_statck_delete_list.hpp.
use playground_cpp.Common.{
  ℕ, ◌^◌, ◌<◌, ◌≡◌, ◌≢◌, refl, sym, ◌∙◌, ap, subst, inl, inr, ◌⊎◌, false, Option, none, some, List,
  [], ◌∷◌, update, In, Distinct, tally, arith, Bool-cases, ◌==◌,
}
use playground_cpp.Containers.SharedStack.{unborn}
use playground_cpp.Containers.DeleteListStack.{
  Pc, checking, claiming, freeing, leaving, deleting, walking, subtracting, returned, State,
  fetch_sub, at, keep_for_later, check, to_chain, leave, tail, delete_next, subtract, delete_node,
}
use playground_cpp.Containers.DeleteListStack.Segments.{Segment}
use playground_cpp.Containers.DeleteListStack.Invariant.{
  Shape-at, with_own, Uses, counted, own, hand, Cleared, Shape, Knows, Inv,
}
use playground_cpp.Containers.DeleteListStack.Kept.{chain-hand}
use playground_cpp.Common.{update-same}
use playground_cpp.Containers.DeleteListStack.Segments.{Segment-none, Segment-some}
use playground_cpp.Containers.DeleteListStack.Quiet.{
  tally_stays, fetch_sub-tally, alone, quiet-Inv, rest-Inv,
}
use playground_cpp.Containers.DeleteListStack.Reclaim.{keep-Inv}
use playground_cpp.Containers.DeleteListStack.Free.{free-Inv}
use playground_cpp.Containers.DeleteListStack.Calls.{at_rest-Inv}
use playground_cpp.Containers.DeleteListStack.Hands.{without_first}

module _ {ℓ} {T : Type ℓ} where
  -- A move of a thread that keeps what it has in its hands, and uses no node.
  keeps-Inv :
      (threads t n : ℕ) (pc pc' : Pc T) (s : State T) (xs : List T)
      → Inv threads s xs
      → t < threads
      → s.pcs t ≡ pc
      → n ≡ tally threads (λ u. counted (update s.pcs t pc' u))
      → own pc' ≡ own pc
      → Knows t s.status s.nodes pc'
      → Shape s.nodes pc' (s.chains t)
      → ((a : ℕ) → Uses a pc' → ⊥)
      → ((u a : ℕ) → t ≢ u → Cleared a pc' (s.chains t) → Uses a (s.pcs u) → ⊥)
      → Inv threads (record s { thread_in_loop_ = n; pcs = update s.pcs t pc' }) xs
  keeps-Inv threads t n pc pc' s xs inv lt e count owns knows shape uses clears =
      let same : hand pc' (s.chains t) ≡ hand (s.pcs t) (s.chains t) =
        ap (λ o. with_own o (s.chains t)) (owns ∙ sym (ap own e)) in
      quiet-Inv threads t n pc' s xs inv lt count knows (λ a. subst (In a) same)
        (subst Distinct (sym same) (inv.once t)) shape clears (λ v a ne us. absurd (uses a us))

  -- Such a move that does not change whether the thread is counted, and clears nothing new.
  pub holds-Inv :
      (threads t : ℕ) (pc pc' : Pc T) (s : State T) (xs : List T)
      → Inv threads s xs
      → t < threads
      → s.pcs t ≡ pc
      → counted pc' ≡ counted pc
      → own pc' ≡ own pc
      → Knows t s.status s.nodes pc'
      → Shape s.nodes pc' (s.chains t)
      → ((a : ℕ) → Uses a pc' → ⊥)
      → ((a : ℕ) → Cleared a pc' (s.chains t) → Cleared a pc (s.chains t))
      → Inv threads (at pc' t s) xs
  holds-Inv threads t pc pc' s xs inv lt e count owns knows shape uses cleared =
      keeps-Inv threads t s.thread_in_loop_ pc pc' s xs inv lt e
        (inv.counter ∙ tally_stays threads t lt s.pcs pc' (count ∙ sym (ap counted e))) owns knows
        shape uses
        (λ u a ne cl.
          inv.unused t u a ne (subst (λ c. Cleared a c (s.chains t)) (sym e) (cleared a cl)))

  keep_for_later-Inv :
      (threads : ℕ) (old_head : Option ℕ) (res : Option T) (t : ℕ) (s : State T) (xs : List T)
      → Inv threads s xs
      → t < threads
      → s.pcs t ≡ checking old_head res
      → s.chains t ≡ []
      → Inv threads (keep_for_later old_head res t s) xs
  unfolding keep_for_later
  keep_for_later-Inv threads none res t s xs inv lt e shape =
      at_rest-Inv threads t (subtracting res) s xs inv lt (sym (ap counted e)) tt shape refl refl
        (λ a us. us)
  keep_for_later-Inv threads (some a) res t s xs inv lt e shape =
      keep-Inv threads a res t s xs inv lt e

  pub check-Inv :
      (threads : ℕ) (old_head : Option ℕ) (res : Option T) (t : ℕ) (s : State T) (xs : List T)
      → Inv threads s xs
      → t < threads
      → s.pcs t ≡ checking old_head res
      → Inv threads (check old_head res t s) xs
  unfolding check
  check-Inv threads old_head res t s xs inv lt e =
      let shape = Shape-at inv e in
      elim (Bool-cases (s.thread_in_loop_ == 1)) [
        | inl one_thread ↦
            let only : s.thread_in_loop_ ≡ 1 = ground arith in
            rw (one_thread) (
              keeps-Inv threads t s.thread_in_loop_ (checking old_head res) (claiming old_head res)
                s xs inv lt e
                (inv.counter
                  ∙ tally_stays threads t lt s.pcs (claiming old_head res) (sym (ap counted e)))
                refl tt shape (λ a us. us)
                (λ u a ne cl. alone threads t s xs inv lt (ap counted e) only u a ne))
        | inr others ↦ rw (others) (keep_for_later-Inv threads old_head res t s xs inv lt e shape)
      ]

  -- Where the thread goes when others may be in the loop.
  to_chain-Inv :
      (threads n : ℕ) (old_head nodes_of : Option ℕ) (res : Option T) (t : ℕ) (s : State T)
      (xs : List T)
      → Inv threads s xs
      → t < threads
      → s.pcs t ≡ leaving old_head nodes_of res
      → ((pc : Pc T) → counted pc ≡ false → n ≡ tally threads (λ u. counted (update s.pcs t pc u)))
      → Segment s.nodes nodes_of (s.chains t) none
      → Inv threads
          (record s { thread_in_loop_ = n; pcs = update s.pcs t (to_chain old_head nodes_of res) })
          xs
  unfolding to_chain
  to_chain-Inv threads n old_head none res t s xs inv lt e count seg =
      keeps-Inv threads t n (leaving old_head none res) (freeing old_head res) s xs inv lt e
        (count (freeing old_head res) refl) refl tt (Segment-none s.nodes none (s.chains t) seg)
        (λ a us. us)
        (λ u a ne cl. inv.unused t u a ne (subst (λ c. Cleared a c (s.chains t)) (sym e) cl))
  to_chain-Inv threads n old_head (some first) res t s xs inv lt e count seg =
      let (zs, (chain, _)) = Segment-some s.nodes first (s.chains t) seg in
      keeps-Inv threads t n (leaving old_head (some first) res) (walking old_head first first res) s
        xs inv lt e (count (walking old_head first first res) refl) refl tt ([], (zs, (chain, seg)))
        (λ a us. us)
        (λ u a ne cl. inv.unused t u a ne (subst (λ c. Cleared a c (s.chains t)) (sym e) cl))

  pub leave-Inv :
      (threads : ℕ) (old_head nodes_of : Option ℕ) (res : Option T) (t : ℕ) (s : State T)
      (xs : List T)
      → threads < 2 ^ 32
      → Inv threads s xs
      → t < threads
      → s.pcs t ≡ leaving old_head nodes_of res
      → Inv threads (leave old_head nodes_of res t s) xs
  unfolding leave
  leave-Inv threads old_head nodes_of res t s xs few inv lt e =
      let shape = Shape-at inv e in
      let count : (pc : Pc T)
          → counted pc ≡ false
          → fetch_sub s.thread_in_loop_ ≡ tally threads (λ u. counted (update s.pcs t pc u)) =
        λ pc.
          fetch_sub-tally threads t lt s.pcs pc s.thread_in_loop_ few inv.counter (ap counted e) in
      elim (Bool-cases (s.thread_in_loop_ == 1)) [
        | inl one_thread ↦
            let only : s.thread_in_loop_ ≡ 1 = ground arith in
            rw (one_thread) (
              keeps-Inv threads t (fetch_sub s.thread_in_loop_) (leaving old_head nodes_of res)
                (deleting old_head nodes_of res) s xs inv lt e
                (count (deleting old_head nodes_of res) refl) refl tt shape (λ a us. us)
                (λ u a ne cl. alone threads t s xs inv lt (ap counted e) only u a ne))
        | inr others ↦ rw (others) (
            to_chain-Inv threads (fetch_sub s.thread_in_loop_) old_head nodes_of res t s xs inv lt e
              count shape)
      ]

  pub delete_next-Inv :
      (threads : ℕ) (old_head nodes_of : Option ℕ) (res : Option T) (t : ℕ) (s : State T)
      (xs : List T)
      → Inv threads s xs
      → t < threads
      → s.pcs t ≡ deleting old_head nodes_of res
      → Inv threads (delete_next old_head nodes_of res t s) xs
  unfolding delete_next
  delete_next-Inv threads old_head none res t s xs inv lt e =
      let shape = Shape-at inv e in
      holds-Inv threads t (deleting old_head none res) (freeing old_head res) s xs inv lt e refl
        refl tt (Segment-none s.nodes none (s.chains t) shape) (λ a us. us) (λ a cl. inl cl)
  delete_next-Inv threads old_head (some a) res t s xs inv lt e =
      let pc : Pc T = deleting old_head (some a) res in
      let pc' : Pc T = deleting old_head (s.nodes a).next_ res in
      let shape = Shape-at inv e in
      let (zs, (chain, rest)) = Segment-some s.nodes a (s.chains t) shape in
      let in_hand : hand (s.pcs t) (s.chains t) ≡ with_own old_head (a ∷ zs) =
        ap (λ c. hand c (s.chains t)) e ∙ ap (λ c. with_own old_head c) chain in
      let (once, kept) = without_first old_head a zs (subst Distinct in_hand (inv.once t)) in
      let cleared : (b : ℕ)
          → (old_head ≡ some b) ⊎ In b (s.chains t)
          → Cleared b (s.pcs t) (s.chains t) =
        λ b. subst (λ c. Cleared b c (s.chains t)) (sym e) in
      let first_in : In a (s.chains t) = subst (In a) (sym chain) (inl refl) in
      rw (ap tail chain) (
        free-Inv threads a t pc' zs s xs inv lt (sym (ap counted e))
          (λ b i. let (j, ne) = kept b i in (subst (In b) (sym in_hand) j, ne))
          (chain-hand a (s.pcs t) (s.chains t) first_in) once rest tt (λ b us. us)
          (λ u ne us. inv.unused t u a ne (cleared a (inr first_in)) us)
          (λ b cl.
            cleared b
              (elim cl [ inl own_b ↦ inl own_b | inr i ↦ inr (subst (In b) (sym chain) (inr i)) ])))

  pub subtract-Inv :
      (threads : ℕ) (res : Option T) (t : ℕ) (s : State T) (xs : List T)
      → threads < 2 ^ 32
      → Inv threads s xs
      → t < threads
      → s.pcs t ≡ subtracting res
      → Inv threads (subtract res t s) xs
  unfolding subtract
  subtract-Inv threads res t s xs few inv lt e =
      rest-Inv threads t (fetch_sub s.thread_in_loop_) (returned res) s xs inv lt
        (fetch_sub-tally threads t lt s.pcs (returned res) s.thread_in_loop_ few inv.counter
          (ap counted e) refl)
        tt (Shape-at inv e) refl refl (λ a us. us)

  pub delete_node-Inv :
      (threads : ℕ) (old_head : Option ℕ) (res : Option T) (t : ℕ) (s : State T) (xs : List T)
      → Inv threads s xs
      → t < threads
      → s.pcs t ≡ freeing old_head res
      → Inv threads (delete_node old_head res t s) xs
  unfolding delete_node
  delete_node-Inv threads none res t s xs inv lt e =
      at_rest-Inv threads t (returned res) s xs inv lt (sym (ap counted e)) tt (Shape-at inv e) refl
        refl (λ a us. us)
  delete_node-Inv threads (some a) res t s xs inv lt e =
      let empty = Shape-at inv e in
      let in_hand : hand (s.pcs t) (s.chains t) ≡ a ∷ [] =
        ap (λ c. hand c (s.chains t)) e ∙ ap (λ c. a ∷ c) empty in
      subst
        (λ c.
          Inv threads
            (record s {
              pcs = update s.pcs t (returned res);
              status = update s.status a unborn;
              chains = c;
            })
            xs)
        (update-same s.chains t [] empty)
        (free-Inv threads a t (returned res) [] s xs inv lt (sym (ap counted e)) (λ b i. absurd i)
          (subst (In a) (sym in_hand) (inl refl)) tt refl tt (λ b us. us)
          (λ u ne us. inv.unused t u a ne (subst (λ c. Cleared a c (s.chains t)) (sym e) refl) us)
          (λ b cl. absurd cl))
