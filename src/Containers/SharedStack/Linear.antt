-- ===== src/Containers/SharedStack/Linear.antt =====
-- The threads of lockfree_stack_shared_ptr.hpp act on one stack, whatever the schedule.
use playground_cpp.Common.{ℕ, ◌≡◌, refl, subst, Option, none, some, List, [], ◌∷◌}
use playground_cpp.Containers.SharedStack.{
  Pc, idle, made, pushing, loaded, popping, clearing, reading, returned, State, Action, Move, init,
  start_call, go_on, step, run, read_data,
}
use playground_cpp.Containers.SharedStack.Chain.{Represents}
use playground_cpp.Containers.SharedStack.Invariant.{ThreadInv, Inv, init-Inv}
use playground_cpp.Containers.SharedStack.Moves.{
  Does, does_nothing, Simulates, make_node-Inv, load_next_of_new-Inv, at-Inv,
}
use playground_cpp.Containers.SharedStack.Exchanges.{
  load_old_head-Simulates, load_next-Inv, clear_next-Inv, push_exchange-Simulates,
  pop_exchange-Simulates,
}

module _ {ℓ} {T : Type ℓ} where
  -- The actions one after another.
  pub data DoesAll : List (Action T) → List T → List T → Type ℓ where
    done : (xs : List T) → DoesAll [] xs xs
    next :
        (a : Action T) (actions : List (Action T)) (xs ys zs : List T)
        → Does a xs ys
        → DoesAll actions ys zs
        → DoesAll (a ∷ actions) xs zs

  start_call-Simulates :
      (call : Option T) (t : ℕ) (s : State T) (xs : List T)
      → Inv s xs
      → Simulates xs (start_call call t s)
  unfolding start_call
  start_call-Simulates (some v) t s xs inv = (xs, (does_nothing xs, make_node-Inv v t s xs inv))
  start_call-Simulates none t s xs inv = load_old_head-Simulates s.head_ t s xs refl inv

  go_on-Simulates :
      (m : Move T) (pc : Pc T) (t : ℕ) (s : State T) (xs : List T)
      → ThreadInv t s.status s.nodes (s.claimed t) pc
      → Inv s xs
      → Simulates xs (go_on m pc t s)
  unfolding go_on read_data
  go_on-Simulates m idle t s xs h inv = start_call-Simulates m.call t s xs inv
  go_on-Simulates m (made v p) t s xs (o, d) inv =
      (xs, (does_nothing xs, load_next_of_new-Inv v p t s xs o d inv))
  go_on-Simulates m (pushing v p) t s xs (o, d) inv =
      push_exchange-Simulates m.fails v p t s xs o d inv
  go_on-Simulates m (loaded a) t s xs (h, _) inv =
      (xs, (does_nothing xs, load_next-Inv a t s xs h inv))
  go_on-Simulates m (popping a n) t s xs (h, _) inv =
      pop_exchange-Simulates m.fails a n t s xs h inv
  go_on-Simulates m (clearing a) t s xs (r, e) inv =
      (xs, (does_nothing xs, clear_next-Inv a t s xs r e inv))
  go_on-Simulates m (reading a) t s xs (r, e) inv =
      (xs, (does_nothing xs, at-Inv (returned (s.nodes a).data_) t s xs e inv))
  go_on-Simulates m (returned r) t s xs h inv = (xs, (does_nothing xs, at-Inv idle t s xs tt inv))

  run-Inv :
      (ms : List (ℕ × Move T)) (s : State T) (xs : List T)
      → Inv s xs
      → (ys : List T) × (DoesAll ((run ms s).0) xs ys × Inv ((run ms s).1) ys)
  unfolding run step go_on
  run-Inv [] s xs inv = (xs, (done xs, inv))
  run-Inv (m ∷ ms) s xs inv =
      let (ys, (does, inv')) =
        go_on-Simulates (m.1) (s.pcs (m.0)) (m.0) s xs (inv.threads (m.0)) inv in
      let (zs, (rest, inv'')) = run-Inv ms ((step m s).1) ys inv' in
      (zs, (next (step m s).0 (run ms ((step m s).1)).0 xs ys zs does rest, inv''))

  -- Whatever the threads call and in whatever order they move, the exchanges of Push that
  -- succeed, those of Pop, and the loads that find no head are, in order, the pushes, the
  -- pops and the finds of an empty stack of one list that starts empty; the nodes from the
  -- head on hold that list at the end; and a Pop that returns gives what its exchange took,
  -- or nothing when it found the stack empty.
  pub run_linearizes :
      (ms : List (ℕ × Move T))
      → let s = (run ms init).1 in
        (xs : List T) × (DoesAll ((run ms init).0) [] xs
          × (Represents s.status s.nodes s.head_ xs
              × ((t : ℕ) (r : Option T) → s.pcs t ≡ returned r → s.claimed t ≡ r)))
  run_linearizes ms =
      let s = (run ms init).1 in
      let (xs, (does, inv)) = run-Inv ms init [] init-Inv in
      (
        xs,
        (
          does,
          (
            inv.represents,
            λ t r e. subst (ThreadInv t s.status s.nodes (s.claimed t)) e (inv.threads t),
          ),
        ),
      )
