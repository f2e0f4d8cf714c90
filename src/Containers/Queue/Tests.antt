-- ===== src/Containers/Queue/Tests.antt =====
-- The theorems of threadsafe_queue.hpp at concrete queues.
use playground_cpp.Common.{ℕ, ◌≡◌, ◌↔◌, refl, true, List, [], ◌∷◌, ◌++◌}
use playground_cpp.Containers.Queue.{Queue, popped, init, push, is_empty, try_pop}
use playground_cpp.Containers.Queue.Refine.{Holds, queue_refines_list}
use playground_cpp.Containers.Queue.Interleave.{
  System, start, Reach, here, next, pushes, sees_data, first_in_first_out,
}

-- The dummy at 1; then 40 and 50 pushed with new nodes at 2 and 3.
abbrev one : System ℕ
one = record (start 1) { queue = push 2 40 (init 1); pushed = 40 ∷ [] }

-- A consumer has seen data, and a producer pushes before the consumer unlinks the head.
abbrev racing : System ℕ
racing = record {
  queue = push 3 50 (push 2 40 (init 1));
  popping = true;
  pushed = 40 ∷ 50 ∷ [];
  taken = [];
}

racing-Reach : Reach racing
unfolding init push is_empty
racing-Reach =
    next (next (next (here 1) (pushes 2 40 refl)) (sees_data refl refl)) (pushes 3 50 refl)

queue_refines_list_example :
    (q : Queue ℕ) × (try_pop (push 2 40 (init 1)) ≡ popped 40 q) × Holds q []
unfolding init
queue_refines_list_example =
    let pushed = queue_refines_list.1 (init 1) [] 2 40 (queue_refines_list.0 1) refl in
    queue_refines_list.3 (push 2 40 (init 1)) 40 [] pushed

first_in_first_out_example :
    (rest : List ℕ) × (racing.pushed ≡ racing.taken ++ rest)
    × ((is_empty racing.queue ≡ true) ↔ (rest ≡ []))
first_in_first_out_example = first_in_first_out racing-Reach

-- Both values come out, in order.
pops_in_order :
    (q q' : Queue ℕ) × (try_pop racing.queue ≡ popped 40 q)
    × (try_pop q ≡ popped 50 q')
    × (is_empty q' ≡ true)
unfolding init push is_empty try_pop
pops_in_order = (_, _, refl, refl, refl)
