-- ===== src/Pools/ThreadPool/Reach.antt =====
-- The pool of thread_pool.h under calls and workers in any interleaving. `added`, `taken` and
-- `cancelled` are ghosts: the tasks that addTask accepted, that workers took and that abort threw
-- away, in order.
use playground_cpp.Common.{
  ℕ, ◌<◌, ◌≡◌, ◌≢◌, ◌⊎◌, true, false, Option, none, some, List, [], ◌∷◌, ◌++◌,
}
use playground_cpp.Pools.ThreadPool.{
  Pool, Worker, at_queue, asleep, running, ended, init, add_task, stop, abort, worker_step,
}

pub record System {ℓ} (T : Type ℓ) : Type ℓ where
  pub pool : Pool T
  pub added : List T
  pub taken : List T
  pub cancelled : List T

module _ {ℓ} {T : Type ℓ} where
  -- The thread that notify_one wakes is asleep, unless none is.
  abbrev pub Woken : ℕ → Pool T → Type ℓ
  Woken i p =
      ((i < p.size) × (p.workers i ≡ asleep)) ⊎ ((j : ℕ) → j < p.size → p.workers j ≢ asleep)

  abbrev pub grow : Option T → List T → List T
  grow none ts = ts
  grow (some t) ts = ts ++ t ∷ []

  pub data Step (s : System T) : System T → Type ℓ where
    adds :
        (t : T) (woken : ℕ) {p : Pool T}
        → Woken woken s.pool
        → add_task t woken s.pool ≡ some p
        → Step s (record s { pool = p; added = s.added ++ t ∷ [] })
    stops : Step s (record s { pool = stop s.pool })
    aborts : Step s (record s { pool = abort s.pool; cancelled = s.cancelled ++ s.pool.tasks })
    works :
        (i : ℕ)
        → i < s.pool.size
        → Step s
            (let (p, t) = worker_step i s.pool in record s { pool = p; taken = grow t s.taken })

  abbrev pub start : (hardware num : ℕ) → System T
  start hardware num = record { pool = init hardware num; added = []; taken = []; cancelled = [] }

  pub data Reach : System T → Type ℓ where
    here : (hardware num : ℕ) → Reach (start hardware num)
    next : {s t : System T} → Reach s → Step s t → Reach t

  abbrev pub Busy : Worker T → Type ℓ
  Busy w = (w ≡ at_queue) ⊎ ((t : T) × (w ≡ running t))

  pub record Inv (s : System T) : Type ℓ where
    pub some_thread : 0 < s.pool.size
    pub sleepers : (i : ℕ) → s.pool.workers i ≡ asleep → s.pool.stopped ≡ false
    pub enders : (i : ℕ) → s.pool.workers i ≡ ended → (s.pool.stopped ≡ true) × (s.pool.tasks ≡ [])
    pub attended : s.pool.tasks ≢ [] → (i : ℕ) × ((i < s.pool.size) × Busy (s.pool.workers i))
    pub balance : s.added ≡ s.taken ++ (s.cancelled ++ s.pool.tasks)
    pub not_cancelled : s.pool.stopped ≡ false → s.cancelled ≡ []
    pub one_empty : (s.cancelled ≡ []) ⊎ (s.pool.tasks ≡ [])
