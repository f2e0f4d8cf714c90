-- ===== src/Pools/WorkStealing/Tests.antt =====
-- A pool of three threads.
use playground_cpp.Common.{
  weight, ℕ, zero, suc, ◌+◌, ◌≡◌, refl, none, some, [], ◌∷◌, get_elem?, arith, ltb, length, ◌<◌,
  ◌==◌, if◌then◌else◌, Bool-cases, inl, inr,
}
use playground_cpp.Pools.WorkStealing.{Pool, init, run_pending_tasks, add_task, thread_task}
use playground_cpp.Pools.WorkStealing.Search.{Pointing, seen, yields_when_empty}
use playground_cpp.Pools.WorkStealing.Conservation.{count_pool, tasks_conserved}

-- Task 5 waits in the pool's queue, 7 and 8 in the first thread's; the second thread runs.
abbrev loaded : Pool ℕ
loaded = thread_task 1 (add_task 8 (add_task 7 (thread_task 0 (add_task 5 (init 3)))))

-- No other thread moves.
abbrev quiet : ℕ → Pool ℕ → Pool ℕ
quiet k p = p

takes_pool_first : run_pending_tasks quiet loaded ≡ (some 5, record loaded { pool_work_queue = [] })
unfolding run_pending_tasks add_task thread_task
takes_pool_first = refl

-- Then it steals the newest task of the first thread.
steals_newest :
    run_pending_tasks quiet (record loaded { pool_work_queue = [] })
    ≡ (some 8, record loaded { pool_work_queue = []; queues = (7 ∷ []) ∷ [] ∷ [] ∷ [] })
unfolding run_pending_tasks add_task thread_task
steals_newest = refl

loaded-Pointing : Pointing loaded
unfolding add_task thread_task
loaded-Pointing zero e = omega arith
loaded-Pointing (suc zero) e = omega arith
loaded-Pointing (suc (suc i)) e = cc

tasks_conserved_example :
    ((t : ℕ)
      → count_pool (ltb 6) (add_task t loaded) ≡ weight (ltb 6) t + count_pool (ltb 6) loaded)
    × (((others : ℕ → Pool ℕ → Pool ℕ) (t : ℕ) (p' : Pool ℕ)
          → run_pending_tasks others loaded ≡ (some t, p')
          → (k : ℕ) × (count_pool (ltb 6) (seen others k loaded)
              ≡ weight (ltb 6) t + count_pool (ltb 6) p'))
        × ((others : ℕ → Pool ℕ → Pool ℕ) (p' : Pool ℕ)
            → run_pending_tasks others loaded ≡ (none, p')
            → (k : ℕ) × (p' ≡ seen others k loaded)))
tasks_conserved_example = tasks_conserved (ltb 6) loaded loaded-Pointing

abbrev idle : Pool ℕ
idle = thread_task 2 (init 3)

-- Another thread adds a task to the pool's queue once this thread has passed it.
abbrev late_task : ℕ → Pool ℕ → Pool ℕ
late_task k p = if k == 3 then record p { pool_work_queue = 6 ∷ [] } else p

yields_all_the_same :
    run_pending_tasks late_task idle ≡ (none, record idle { pool_work_queue = 6 ∷ [] })
unfolding run_pending_tasks thread_task
yields_all_the_same = refl

late_task-steady :
    (k : ℕ)
    → ((seen late_task k idle).local_queue_index ≡ 2) × (length (seen late_task k idle).queues ≡ 3)
unfolding thread_task
late_task-steady zero = (refl, refl)
late_task-steady (suc k) =
    let (index, size) = late_task-steady k in
    elim (Bool-cases (suc k == 3)) [ inl e ↦ rw (e) (index, size) | inr e ↦ rw (e) (index, size) ]

yields_when_empty_example :
    ((seen late_task 1 idle).pool_work_queue ≡ [])
    × ((j : ℕ)
        → j < 3
        → (k : ℕ) × ((k < 3) × (get_elem? (seen late_task (suc (suc k)) idle).queues j ≡ some [])))
unfolding run_pending_tasks thread_task
yields_when_empty_example =
    yields_when_empty late_task idle 3 2 late_task-steady (omega arith) (omega arith) refl
