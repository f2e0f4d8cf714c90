-- ===== src/Pools/ThreadPool.antt =====
-- include/playground/threading/thread_pool.h and src/threading/thread_pool.cpp. Each function is a
-- critical section under `mtx_`, or a task's run. A task that addTask wraps keeps its exceptions
-- in its future, so that the worker's own handler is never entered.
pub mod Reach
pub mod Invariant
pub mod Work
pub mod Laws
mod Tests
use playground_cpp.Common.{
  ℕ, ◌*◌, ◌-◌, ◌%◌, ◌^◌, Bool, true, false, Option, none, some, List, [], ◌∷◌, ◌++◌, ltb, ◌==◌,
  if◌then◌else◌, update,
}

abbrev pub uint_mod : ℕ
uint_mod = 2 ^ 32

-- At least one thread.
unfoldable pub at_least_one : ℕ → ℕ
at_least_one num = if num == 0 then 1 else num

-- The constructor's number of threads; the default argument -1 is the largest unsigned int.
unfoldable pub thread_count : (hardware num : ℕ) → ℕ
unfolding at_least_one
thread_count hardware num =
    let limit = (hardware * 2) % uint_mod in
    at_least_one (
      if num == uint_mod - 1
      then hardware
      else if hardware == 0
      then num
      else if ltb limit num
      then limit
      else num)

-- Where a worker stands: before its test, with or without the mutex; asleep in `cv_.wait`; in a
-- task; past its loop.
pub data Worker {ℓ} (T : Type ℓ) : Type ℓ where
  at_queue : Worker T
  asleep : Worker T
  running : T → Worker T
  ended : Worker T

-- `workers` says where each of the threads below `size` stands.
pub record Pool {ℓ} (T : Type ℓ) : Type ℓ where
  pub size : ℕ
  pub workers : ℕ → Worker T
  pub tasks : List T
  pub stopped : Bool

module _ {ℓ} {T : Type ℓ} where
  unfoldable pub init : (hardware num : ℕ) → Pool T
  unfolding thread_count
  init hardware num = record {
    size = thread_count hardware num;
    workers = λ i. at_queue;
    tasks = [];
    stopped = false;
  }

  unfoldable pub wake : Worker T → Worker T
  wake asleep = at_queue
  wake at_queue = at_queue
  wake (running t) = running t
  wake ended = ended

  -- `none` where it throws std::logic_error. `notify_one` wakes the thread `woken`.
  unfoldable pub add_task : T → (woken : ℕ) → Pool T → Option (Pool T)
  unfolding wake
  add_task t woken p =
      if p.stopped
      then none
      else some (record p {
        tasks = p.tasks ++ t ∷ [];
        workers = update p.workers woken (wake (p.workers woken));
      })

  unfoldable pub stop : Pool T → Pool T
  unfolding wake
  stop p = record p { stopped = true; workers = λ i. wake (p.workers i) }

  unfoldable pub abort : Pool T → Pool T
  unfolding wake
  abort p = record p { tasks = []; stopped = true; workers = λ i. wake (p.workers i) }

  -- The test of a worker, up to the pop.
  unfoldable pub take_task : ℕ → Pool T → Pool T × Option T
  take_task i p = elim p.tasks [
    | [] ↦ (record p { workers = update p.workers i (if p.stopped then ended else asleep) }, none)
    | t ∷ ts ↦ (record p { tasks = ts; workers = update p.workers i (running t) }, some t)
  ]

  unfoldable pub worker_at : Worker T → ℕ → Pool T → Pool T × Option T
  unfolding take_task
  worker_at at_queue i p = take_task i p
  worker_at asleep i p = (p, none)
  worker_at (running t) i p = (record p { workers = update p.workers i at_queue }, none)
  worker_at ended i p = (p, none)

  -- One step of thread `i`, and the task that it took.
  unfoldable pub worker_step : ℕ → Pool T → Pool T × Option T
  unfolding worker_at
  worker_step i p = worker_at (p.workers i) i p
