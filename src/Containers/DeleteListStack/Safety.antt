-- ===== src/Containers/DeleteListStack/Safety.antt =====
-- No thread of lockfree_statck_delete_list.hpp uses a node that is deleted, in any order of
-- the threads' moves.
use playground_cpp.Common.{
  ℕ, zero, suc, ◌^◌, ◌<◌, ◌≡◌, ◌≢◌, refl, sym, ap, subst, Bool, false, none, some, List, [], ◌∷◌,
  In, Distinct, tally, arith,
}
use playground_cpp.Containers.SharedStack.{unborn, removed}
use playground_cpp.Containers.SharedStack.Chain.{Represents}
use playground_cpp.Containers.DeleteListStack.{
  Pc, idle, loading, made, pushing, following, taking, exchanging, checking, claiming, freeing,
  leaving, deleting, walking, linking, adding, subtracting, returned, State,
}
use playground_cpp.Containers.DeleteListStack.Segments.{Segment}
use playground_cpp.Containers.DeleteListStack.Invariant.{Shape-at, Uses, counted, hand, Knows, Inv}
use playground_cpp.Containers.HazardStack.{Call}
use playground_cpp.Containers.DeleteListStack.{init, go_on, run}
use playground_cpp.Containers.DeleteListStack.Quiet.{Uses-Knows}
use playground_cpp.Containers.DeleteListStack.Moves.{load_next_of_new-Inv}
use playground_cpp.Containers.DeleteListStack.Removal.{take_data-Inv}
use playground_cpp.Containers.DeleteListStack.Reclaim.{claim-Inv}
use playground_cpp.Containers.DeleteListStack.Calls.{
  at_rest-Inv, with_old_head-Inv, start_call-Inv, push_exchange-Inv, follow-Inv, pop_exchange-Inv,
}
use playground_cpp.Containers.DeleteListStack.Deletes.{
  check-Inv, leave-Inv, delete_next-Inv, subtract-Inv, delete_node-Inv,
}
use playground_cpp.Containers.DeleteListStack.Chaining.{walk-Inv, add-Inv, start_link-Inv}

-- All moves are of threads with a number below `threads`.
abbrev pub Among {ℓ} : {T : Type ℓ} → ℕ → List (ℕ × (Call T × Bool)) → Type 0
Among threads [] = Unit
Among threads ((t, m) ∷ ms) = (t < threads) × Among threads ms

tally-none : (n : ℕ) → tally n (λ u. false) ≡ 0
tally-none zero = refl
tally-none (suc n) = let ih = tally-none n in ground arith

module _ {ℓ} {T : Type ℓ} where
  go_on-Inv :
      (threads : ℕ) (c : Call T) (fails : Bool) (pc : Pc T) (t : ℕ) (s : State T) (xs : List T)
      → threads < 2 ^ 32
      → t < threads
      → s.pcs t ≡ pc
      → Inv threads s xs
      → (ys : List T) × Inv threads (go_on c fails pc t s) ys
  unfolding go_on
  go_on-Inv threads c fails idle t s xs few lt e inv =
      (xs, start_call-Inv threads c t s xs few inv lt e)
  go_on-Inv threads c fails (made v p) t s xs few lt e inv =
      let (o, d) = subst (Knows t s.status s.nodes) e (inv.knows t) in
      let empty = Shape-at inv e in
      (xs, load_next_of_new-Inv threads v p t s xs inv lt (ap counted e) empty o d)
  go_on-Inv threads c fails (pushing v p) t s xs few lt e inv =
      push_exchange-Inv threads fails v p t s xs inv lt e
  go_on-Inv threads c fails loading t s xs few lt e inv =
      let empty = Shape-at inv e in
      (xs, with_old_head-Inv threads s.head_ t s xs inv lt (ap counted e) empty refl)
  go_on-Inv threads c fails (following a) t s xs few lt e inv =
      (xs, follow-Inv threads a t s xs inv lt e)
  go_on-Inv threads c fails (exchanging a n) t s xs few lt e inv =
      pop_exchange-Inv threads fails a n t s xs inv lt e
  go_on-Inv threads c fails (taking a) t s xs few lt e inv =
      (xs, take_data-Inv threads a t s xs inv lt e)
  go_on-Inv threads c fails (checking old_head res) t s xs few lt e inv =
      (xs, check-Inv threads old_head res t s xs inv lt e)
  go_on-Inv threads c fails (claiming old_head res) t s xs few lt e inv =
      (xs, claim-Inv threads old_head res t s xs inv lt e)
  go_on-Inv threads c fails (leaving old_head nodes_of res) t s xs few lt e inv =
      (xs, leave-Inv threads old_head nodes_of res t s xs few inv lt e)
  go_on-Inv threads c fails (deleting old_head nodes_of res) t s xs few lt e inv =
      (xs, delete_next-Inv threads old_head nodes_of res t s xs inv lt e)
  go_on-Inv threads c fails (walking old_head first last res) t s xs few lt e inv =
      (xs, walk-Inv threads old_head first last res t s xs inv lt e)
  go_on-Inv threads c fails (linking after first last res) t s xs few lt e inv =
      (xs, start_link-Inv threads after first last res t s xs inv lt e)
  go_on-Inv threads c fails (adding after first last res) t s xs few lt e inv =
      (xs, add-Inv threads fails after first last res t s xs inv lt e)
  go_on-Inv threads c fails (subtracting res) t s xs few lt e inv =
      (xs, subtract-Inv threads res t s xs few inv lt e)
  go_on-Inv threads c fails (freeing old_head res) t s xs few lt e inv =
      (xs, delete_node-Inv threads old_head res t s xs inv lt e)
  go_on-Inv threads c fails (returned res) t s xs few lt e inv =
      let empty = Shape-at inv e in
      (
        xs,
        at_rest-Inv threads t idle s xs inv lt (sym (ap counted e)) tt empty refl refl (λ a us. us),
      )

  init-Inv : (threads : ℕ) → Inv threads (init {T = T}) []
  init-Inv threads = record {
    represents = (refl, tt);
    depth = refl;
    counter = sym (tally-none threads);
    no_others = λ u le. refl;
    knows = λ t. tt;
    held = λ t a i. absurd i;
    once = λ t. tt;
    shape = λ t. refl;
    listed = λ a i. absurd i;
    listed_once = tt;
    linked = refl;
    unused = λ t u a ne cl us. absurd cl;
  }

  run-Inv :
      (threads : ℕ) (ms : List (ℕ × (Call T × Bool))) (s : State T) (xs : List T)
      → threads < 2 ^ 32
      → Among threads ms
      → Inv threads s xs
      → (ys : List T) × Inv threads (run ms s) ys
  unfolding run
  run-Inv threads [] s xs few among inv = (xs, inv)
  run-Inv threads ((t, (c, fails)) ∷ ms) s xs few (lt, among) inv =
      let (ys, inv') = go_on-Inv threads c fails (s.pcs t) t s xs few lt refl inv in
      run-Inv threads ms (go_on c fails (s.pcs t) t s) ys few among inv'

  -- With fewer than 2 ^ 32 threads, in every order of their moves, addresses that are used
  -- again included: a node that a thread is about to read the `next_` of, or to exchange for
  -- it, is not deleted; the nodes that a thread has removed and not handed on, which it will
  -- read, write or delete, are not deleted, are in the hands of no other thread and each
  -- once; the nodes from `to_delete_list_` on are not deleted, each once in the list and in
  -- no thread's hands; and the nodes from the head on are a list.
  pub deletes_unused :
      (threads : ℕ) (ms : List (ℕ × (Call T × Bool)))
      → threads < 2 ^ 32
      → Among threads ms
      → let s = run ms init in
        ((t a : ℕ) → Uses a (s.pcs t) → s.status a ≢ unborn)
        × (((t a : ℕ)
              → In a (hand (s.pcs t) (s.chains t))
              → (s.status a ≡ removed) × (s.holder a ≡ some t))
            × (((t : ℕ) → Distinct (hand (s.pcs t) (s.chains t)))
                × ((Segment s.nodes s.to_delete_list_ s.pending none
                      × (Distinct s.pending
                          × ((a : ℕ)
                              → In a s.pending
                              → (s.status a ≡ removed) × (s.holder a ≡ none))))
                    × ((xs : List T) × Represents s.status s.nodes s.head_ xs))))
  deletes_unused threads ms few among =
      let s = run ms init in
      let (xs, inv) = run-Inv threads ms init [] few among (init-Inv threads) in
      (
        λ t a us. (Uses-Knows a t s.status s.nodes (s.pcs t) us (inv.knows t)).0,
        (inv.held, (inv.once, ((inv.linked, (inv.listed_once, inv.listed)), (xs, inv.represents)))),
      )
