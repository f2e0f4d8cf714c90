-- ===== src/Pools/WorkStealing.antt =====
-- experiments/concurrent_algorithms/include/concurrent/thread_pool.hpp: a pool in which each
-- thread has a queue, and takes from its own, the pool's, or the end of another's. Each queue
-- is locked for one operation, and between two of them `others` is what other threads do to
-- the pool: `others 0` before the thread's own queue, `others 1` before the pool's, and
-- `others (i + 2)` before round `i` of the loop. The queue of a thread and the pool's, a
-- ThreadsafeQueue, are lists, first out first. `local_queue_` and `local_queue_index_` are one
-- pair for all threads, as declared.
pub mod Search
pub mod Conservation
mod Tests
use playground_cpp.Common.{
  ℕ, zero, suc, ◌+◌, ◌%◌, ◌^◌, Option, none, some, List, [], ◌∷◌, ◌++◌, length, get_elem?, set,
  replicate,
}

pub record Pool {ℓ} (T : Type ℓ) : Type ℓ where
  pub pool_work_queue : List T
  pub queues : List (List T)
  -- The index of the queue that the pointer points to.
  pub local_queue : Option ℕ
  pub local_queue_index : ℕ

module _ {ℓ} {T : Type ℓ} where
  -- The pool before its threads have run.
  abbrev pub init : ℕ → Pool T
  init thread_count = record {
    pool_work_queue = [];
    queues = replicate thread_count [];
    local_queue = none;
    local_queue_index = 0;
  }

  unfoldable pub try_pop : List T → Option (T × List T)
  try_pop [] = none
  try_pop (t ∷ q) = some (t, q)

  unfoldable pub try_steal : List T → Option (T × List T)
  try_steal [] = none
  try_steal (t ∷ q) = elim (try_steal q) [ none ↦ some (t, []) | some (u, r) ↦ some (u, t ∷ r) ]

  -- An operation on the queue of a thread.
  abbrev pub at_queue : (List T → Option (T × List T)) → ℕ → Pool T → Option (T × Pool T)
  at_queue take index p = elim (get_elem? p.queues index) [
    | none ↦ none
    | some q ↦ elim (take q) [
      | none ↦ none
      | some (t, r) ↦ some (t, record p { queues = set p.queues index r })
    ]
  ]

  -- What a critical section has taken, or what comes of the next ones.
  abbrev pub or_go_on : Option (T × Pool T) → Option T × Pool T → Option T × Pool T
  or_go_on none rest = rest
  or_go_on (some (t, p)) rest = (some t, p)

  unfoldable pub pop_task_from_local : Pool T → Option (T × Pool T)
  unfolding try_pop
  pop_task_from_local p = elim p.local_queue [ none ↦ none | some i ↦ at_queue try_pop i p ]

  unfoldable pub pop_task_from_pool : Pool T → Option (T × Pool T)
  pop_task_from_pool p = elim p.pool_work_queue [
    | [] ↦ none
    | t ∷ q ↦ some (t, record p { pool_work_queue = q })
  ]

  -- The index is computed in unsigned int.
  unfoldable pub victim : ℕ → Pool T → ℕ
  victim i p = (p.local_queue_index + 1 + i) % 2 ^ 32 % length p.queues

  -- The rest of the loop, with `n` rounds to go from `i`: the task, if one was found, and the pool.
  unfoldable pub steal_from :
      (n i : ℕ) → (others : ℕ → Pool T → Pool T) → Pool T → Option T × Pool T
  unfolding try_steal victim
  steal_from zero i others p = (none, p)
  steal_from (suc n) i others p =
      let p' = others (suc (suc i)) p in
      let rest = steal_from n (suc i) others p' in
      or_go_on (at_queue try_steal (victim i p') p') rest

  unfoldable pub pop_task_from_other_thread :
      (others : ℕ → Pool T → Pool T) → Pool T → Option T × Pool T
  unfolding steal_from
  pop_task_from_other_thread others p = steal_from (length p.queues) 0 others p

  -- `RunPendingTasks`: the task to run, or `none` where the thread yields.
  unfoldable pub run_pending_tasks : (others : ℕ → Pool T → Pool T) → Pool T → Option T × Pool T
  unfolding pop_task_from_local pop_task_from_pool pop_task_from_other_thread
  run_pending_tasks others p =
      let own = others 0 p in
      let shared = others 1 own in
      or_go_on (pop_task_from_local own)
        (or_go_on (pop_task_from_pool shared) (pop_task_from_other_thread others shared))

  unfoldable pub push : T → List T → List T
  push t q = q ++ t ∷ []

  unfoldable pub add_task : T → Pool T → Pool T
  unfolding push
  add_task t p = elim p.local_queue [
    | none ↦ record p { pool_work_queue = push t p.pool_work_queue }
    | some i ↦ elim (get_elem? p.queues i) [
      | none ↦ p
      | some q ↦ record p { queues = set p.queues i (push t q) }
    ]
  ]

  -- The first two lines of ThreadTask.
  unfoldable pub thread_task : ℕ → Pool T → Pool T
  thread_task my_index p = record p { local_queue_index = my_index; local_queue = some my_index }
