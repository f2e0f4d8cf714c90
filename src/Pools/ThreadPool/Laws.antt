-- ===== src/Pools/ThreadPool/Laws.antt =====
-- What the pool of thread_pool.h promises to its callers.
use playground_cpp.Common.{
  ℕ, ◌<◌, ◌*◌, ◌-◌, ◌^◌, ◌≡◌, ◌≢◌, ◌⊎◌, refl, ◌∙◌, min, max, none, [], ◌++◌, arith, append-nil,
}
use playground_cpp.Pools.ThreadPool.{ended, add_task, thread_count, uint_mod}
use playground_cpp.Pools.ThreadPool.Reach.{System, Reach}
use playground_cpp.Pools.ThreadPool.Work.{Reach-Inv}

-- The pool has at least one thread: as many as the hardware by default, and otherwise as many
-- as asked for but no more than two for each of the hardware's, where these are fewer than 2 ^
-- 31 and known.
thread_count_bounds :
    (hardware num : ℕ)
    → hardware < 2 ^ 31
    → (num ≡ uint_mod - 1 → thread_count hardware num ≡ max 1 hardware)
      × ((num ≢ uint_mod - 1
            → 0 < hardware
            → thread_count hardware num ≡ max 1 (min num (hardware * 2)))
          × (num ≢ uint_mod - 1 → hardware ≡ 0 → thread_count hardware num ≡ max 1 num))
unfolding thread_count
thread_count_bounds hardware num h = (λ e. ground arith, (λ e p. ground arith, λ e z. ground arith))

module _ {ℓ} {T : Type ℓ} where
  -- In every interleaving of addTask, stop, abort and the workers, the tasks that addTask
  -- accepted are those that workers took, in that order, then those that abort threw away,
  -- then those still waiting; no task waits once abort has thrown any away.
  pub tasks_in_order :
      {s : System T}
      → Reach s
      → (s.added ≡ s.taken ++ (s.cancelled ++ s.pool.tasks))
        × ((s.cancelled ≡ []) ⊎ (s.pool.tasks ≡ []))
  tasks_in_order r = ((Reach-Inv r).balance, (Reach-Inv r).one_empty)

  -- When all threads have left their loops, as after the destructor's join, addTask throws,
  -- and every task that was accepted has been taken by a worker or thrown away by abort.
  pub join_leaves_nothing :
      {s : System T}
      → Reach s
      → ((i : ℕ) → i < s.pool.size → s.pool.workers i ≡ ended)
      → (s.added ≡ s.taken ++ s.cancelled) × ((t : T) (i : ℕ) → add_task t i s.pool ≡ none)
  unfolding add_task
  join_leaves_nothing {s = s} r all =
      let v = Reach-Inv r in
      let (on, empty) = v.enders 0 (all 0 v.some_thread) in
      (v.balance ∙ (rw (empty, append-nil s.cancelled) refl), λ t i. rw (on))
