-- ===== src/Pools/ThreadPool/Tests.antt =====
-- A pool of one thread that is given a task and stopped.
use playground_cpp.Common.{
  ℕ, zero, suc, ◌<◌, ◌≡◌, ◌≢◌, ◌⊎◌, inl, inr, refl, none, some, [], ◌∷◌, ◌++◌, arith,
}
use playground_cpp.Pools.ThreadPool.{asleep, ended, init, add_task, stop, worker_step, thread_count}
use playground_cpp.Pools.ThreadPool.Reach.{
  System, Reach, grow, start, here, next, adds, stops, works,
}
use playground_cpp.Pools.ThreadPool.Laws.{tasks_in_order, join_leaves_nothing}

many : thread_count 8 100 ≡ 16
unfolding thread_count
many = refl

abbrev worked : System ℕ → System ℕ
worked s = let (p, t) = worker_step 0 s.pool in record s { pool = p; taken = grow t s.taken }

abbrev given : ℕ → System ℕ → System ℕ
given t s = record s {
  pool = elim (add_task t 0 s.pool) [ none ↦ s.pool | some p ↦ p ];
  added = s.added ++ t ∷ [];
}

-- The thread falls asleep, and two tasks come in; the first wakes it.
abbrev sleepy : System ℕ
sleepy = worked (start 1 1)

abbrev two_tasks : System ℕ
two_tasks = given 9 (given 7 sleepy)

-- Then the pool is stopped, and the thread takes five steps.
abbrev finished : System ℕ
finished =
    worked (worked (worked (worked (worked (record two_tasks { pool = stop two_tasks.pool })))))

one_thread_awake :
    (j : ℕ) → j < (given 7 sleepy).pool.size → (given 7 sleepy).pool.workers j ≢ asleep
unfolding add_task worker_step init
one_thread_awake zero lt e = cc
one_thread_awake (suc j) lt e = absurd (omega arith)

two_tasks-Reach : Reach two_tasks
unfolding add_task worker_step init
two_tasks-Reach =
    next (next (next (here 1 1) (works 0 (omega arith))) (adds 7 0 (inl (omega arith, refl)) refl))
      (adds 9 0 (inr one_thread_awake) refl)

finished-Reach : Reach finished
unfolding worker_step init add_task stop
finished-Reach =
    next
      (next
        (next
          (next (next (next two_tasks-Reach stops) (works 0 (omega arith))) (works 0 (omega arith)))
          (works 0 (omega arith)))
        (works 0 (omega arith)))
      (works 0 (omega arith))

tasks_in_order_example :
    (two_tasks.added ≡ two_tasks.taken ++ (two_tasks.cancelled ++ two_tasks.pool.tasks))
    × ((two_tasks.cancelled ≡ []) ⊎ (two_tasks.pool.tasks ≡ []))
tasks_in_order_example = tasks_in_order two_tasks-Reach

all_ended : (i : ℕ) → i < finished.pool.size → finished.pool.workers i ≡ ended
unfolding worker_step init add_task stop
all_ended zero lt = refl
all_ended (suc i) lt = absurd (omega arith)

join_leaves_nothing_example :
    (finished.added ≡ finished.taken ++ finished.cancelled)
    × ((t i : ℕ) → add_task t i finished.pool ≡ none)
join_leaves_nothing_example = join_leaves_nothing finished-Reach all_ended
