-- ===== src/Containers/HazardStack/Safety.antt =====
-- No thread of lockfree_stack_hazard_pointer.hpp uses a node that is deleted.
use playground_cpp.Common.{
  Distinct, ℕ, ◌+◌, ◌<◌, ◌≡◌, ◌≢◌, refl, sym, ◌∙◌, ap, subst, inl, inr, Bool, true, false, Option,
  none, some, List, [], ◌∷◌, In, ltb, arith, Bool-cases, ℕ_discrete,
}
use playground_cpp.Containers.SharedStack.{unborn, removed, same_pointer}
use playground_cpp.Containers.SharedStack.Chain.{Represents, same_pointer_refl}
use playground_cpp.Containers.HazardStack.{
  max_hazard_pointers, Pc, idle, threw, made, pushing, announcing, reloading, following, exchanging,
  dropping, taking, scanning, collecting, sweeping, returned, State, Call, at, init, announce,
  drop_hazard, dropped, after_node, scan, sweep, go_on, run,
}
use playground_cpp.Containers.HazardStack.Invariant.{Uses, hand, Knows, Scans, Inv}
use playground_cpp.Containers.HazardStack.Moves.{at-Inv, load_next_of_new-Inv}
use playground_cpp.Containers.HazardStack.Removal.{hazard-Inv, take_data-Inv}
use playground_cpp.Containers.HazardStack.Reclaim.{
  GoesOn, delete_node-Inv, reclaim_later-Inv, collect-Inv,
}
use playground_cpp.Containers.HazardStack.Calls.{
  Uses-Knows, rests-Inv, start_call-Inv, push_exchange-Inv, reload-Inv, follow-Inv,
  pop_exchange-Inv,
}

module _ {ℓ} {T : Type ℓ} where
  drop_hazard-Inv :
      (o : Option ℕ) (t : ℕ) (s : State T) (xs : List T)
      → s.pcs t ≡ dropping o
      → Inv s xs
      → Inv (drop_hazard o t s) xs
  unfolding drop_hazard dropped
  drop_hazard-Inv none t s xs e inv =
      hazard-Inv t none (returned none) s xs inv (λ a i. absurd i) tt (λ h e. tt) (λ a u sc. sc)
        (λ a us. us)
  drop_hazard-Inv (some a) t s xs e inv =
      hazard-Inv t none (taking a) s xs inv (λ b i. subst (λ c. In b (hand c)) (sym e) i)
        ((λ i. i), tt) (λ h e. tt) (λ a u sc. sc) (λ a us. us)

  after_node-GoesOn :
      (rest : List ℕ) (own : Bool) (res : Option T)
      → Distinct rest
      → GoesOn (after_node rest own res) rest
  after_node-GoesOn rest true res h = record {
    subset = λ a i. absurd i;
    distinct = tt;
    knows = λ t status nodes hz. tt;
    scans = λ a u sc. sc;
    uses = λ a us. us;
  }
  after_node-GoesOn rest false res h = record {
    subset = λ a i. i;
    distinct = h;
    knows = λ t status nodes hz. tt;
    scans = λ a u sc. sc;
    uses = λ a us. us;
  }

  scan-Inv :
      (a i : ℕ) (rest : List ℕ) (own : Bool) (res : Option T) (t : ℕ) (s : State T) (xs : List T)
      → s.pcs t ≡ scanning a i rest own res
      → Inv s xs
      → Inv (scan a i rest own res t s) xs
  unfolding scan
  scan-Inv a i rest own res t s xs e inv =
      let once = subst (λ c. Distinct (hand c)) e (inv.once t) in
      let goes = after_node-GoesOn rest own res once.1 in
      let seen : (u : ℕ) → u < i → Uses a (s.pcs u) → ⊥ =
        λ u lt. inv.unseen t u a (subst (Scans a u) (sym e) (refl, lt)) in
      elim (Bool-cases (ltb i max_hazard_pointers)) [
        | inl more ↦ elim (Bool-cases (same_pointer (s.hazards i) (some a))) [
          | inl guarded ↦
              rw (more, guarded)
                (reclaim_later-Inv a t rest (after_node rest own res) s xs inv (ap hand e) goes)
          | inr free ↦
              let next_free : (u : ℕ) → u < i + 1 → Uses a (s.pcs u) → ⊥ = λ u lt us.
                elim (ℕ_discrete u i) [
                  | yes last ↦
                      let (_, (hz, _)) =
                        Uses-Knows a u s.status s.nodes (s.hazards u) (s.pcs u) us (inv.knows u) in
                      let hit : same_pointer (s.hazards i) (some a) ≡ true =
                        ap (λ q. same_pointer q (some a)) (ap s.hazards (sym last) ∙ hz)
                        ∙ same_pointer_refl (some a) in
                      cc (sym hit ∙ free)
                  | no ne ↦ seen u (omega arith) us
                ] in
              rw (more, free)
                (at-Inv t (scanning a (i + 1) rest own res) s xs inv
                  (λ b j. subst (λ c. In b (hand c)) (sym e) j) once tt
                  (λ u b ne (same, lt) us.
                    next_free u lt (subst (λ x. Uses x (s.pcs u)) (sym same) us))
                  (λ v b ne us. absurd us))
        ]
        | inr last ↦ rw (last) (
            delete_node-Inv a t rest (after_node rest own res) s xs inv (ap hand e) goes (λ u ne us.
              let (lt, _) =
                Uses-Knows a u s.status s.nodes (s.hazards u) (s.pcs u) us (inv.knows u) in
              seen u (ground arith) us))
      ]

  sweep-Inv :
      (ns : List ℕ) (res : Option T) (t : ℕ) (s : State T) (xs : List T)
      → s.pcs t ≡ sweeping ns res
      → Inv s xs
      → Inv (at (sweep ns res) t s) xs
  unfolding sweep
  sweep-Inv [] res t s xs e inv = rests-Inv t (returned res) s xs inv refl tt (λ a us. us)
  sweep-Inv (n ∷ ns) res t s xs e inv =
      at-Inv t (scanning n 0 ns false res) s xs inv (λ b j. subst (λ c. In b (hand c)) (sym e) j)
        (subst (λ c. Distinct (hand c)) e (inv.once t)) tt (λ u b ne (same, lt) us. omega arith)
        (λ v b ne us. absurd us)

  go_on-Inv :
      (c : Call T) (fails : Bool) (pc : Pc T) (t : ℕ) (s : State T) (xs : List T)
      → s.pcs t ≡ pc
      → Inv s xs
      → (ys : List T) × Inv (go_on c fails pc t s) ys
  unfolding go_on announce
  go_on-Inv c fails idle t s xs e inv = (xs, start_call-Inv c t s xs inv)
  go_on-Inv c fails threw t s xs e inv = (xs, rests-Inv t idle s xs inv refl tt (λ a us. us))
  go_on-Inv c fails (made v p) t s xs e inv =
      let (o, d) = subst (Knows t s.status s.nodes (s.hazards t)) e (inv.knows t) in
      (xs, load_next_of_new-Inv v p t s xs inv o d)
  go_on-Inv c fails (pushing v p) t s xs e inv = push_exchange-Inv fails v p t s xs e inv
  go_on-Inv c fails (announcing o) t s xs e inv =
      let (lt, _) = subst (Knows t s.status s.nodes (s.hazards t)) e (inv.knows t) in
      (
        xs,
        hazard-Inv t o (reloading o) s xs inv (λ a i. absurd i) tt (λ h g. ((lt, g), tt))
            (λ a u sc. sc) (λ a us. us),
      )
  go_on-Inv c fails (reloading o) t s xs e inv = (xs, reload-Inv o t s xs e inv)
  go_on-Inv c fails (following a) t s xs e inv = (xs, follow-Inv a t s xs e inv)
  go_on-Inv c fails (exchanging a n) t s xs e inv = pop_exchange-Inv a n t s xs e inv
  go_on-Inv c fails (dropping o) t s xs e inv = (xs, drop_hazard-Inv o t s xs e inv)
  go_on-Inv c fails (taking a) t s xs e inv = (xs, take_data-Inv a t s xs inv e)
  go_on-Inv c fails (scanning a i rest own res) t s xs e inv =
      (xs, scan-Inv a i rest own res t s xs e inv)
  go_on-Inv c fails (collecting res) t s xs e inv = (xs, collect-Inv res t s xs inv)
  go_on-Inv c fails (sweeping ns res) t s xs e inv = (xs, sweep-Inv ns res t s xs e inv)
  go_on-Inv c fails (returned res) t s xs e inv =
      (xs, rests-Inv t idle s xs inv refl tt (λ a us. us))

  init-Inv : Inv (init {T = T}) []
  init-Inv = record {
    represents = (refl, tt);
    depth = refl;
    knows = λ t. tt;
    held = λ t a i. absurd i;
    once = λ t. tt;
    listed = λ a i. absurd i;
    listed_once = tt;
    unseen = λ t u a sc us. absurd sc;
  }

  run-Inv :
      (ms : List (ℕ × (Call T × Bool))) (s : State T) (xs : List T)
      → Inv s xs
      → (ys : List T) × Inv (run ms s) ys
  unfolding run
  run-Inv [] s xs inv = (xs, inv)
  run-Inv ((t, (c, fails)) ∷ ms) s xs inv =
      let (ys, inv') = go_on-Inv c fails (s.pcs t) t s xs refl inv in
      run-Inv ms (go_on c fails (s.pcs t) t s) ys inv'

  -- In every order of the moves of any threads, addresses that are used again included: a
  -- node that a thread is about to read the `next_` of, or to exchange for it, is not
  -- deleted; the nodes that a thread has removed and not handed on, which it will read,
  -- delete or hand on, are not deleted, are in the hands of no other thread and each once;
  -- and the nodes from the head on are a list.
  pub no_use_after_delete :
      (ms : List (ℕ × (Call T × Bool)))
      → let s = run ms init in
        ((t a : ℕ) → Uses a (s.pcs t) → s.status a ≢ unborn)
        × (((t a : ℕ) → In a (hand (s.pcs t)) → (s.status a ≡ removed) × (s.holder a ≡ some t))
            × (((t : ℕ) → Distinct (hand (s.pcs t)))
                × ((xs : List T) × Represents s.status s.nodes s.head_ xs)))
  no_use_after_delete ms =
      let s = run ms init in
      let (xs, inv) = run-Inv ms init [] init-Inv in
      (
        λ t a us. (Uses-Knows a t s.status s.nodes (s.hazards t) (s.pcs t) us (inv.knows t)).1.1,
        (inv.held, (inv.once, (xs, inv.represents))),
      )
