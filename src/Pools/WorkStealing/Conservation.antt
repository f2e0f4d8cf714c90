-- ===== src/Pools/WorkStealing/Conservation.antt =====
-- No operation of concurrent/thread_pool.hpp loses a task or makes two of one. Tasks are
-- counted by a test `f`: tasks that pass the same tests are the same.
use playground_cpp.Common.{
  weight, count, count-append, subst, refl, sym, ◌∙◌, ap, ℕ, zero, suc, ◌+◌, ◌≡◌, inl, inr, Bool,
  Option, none, some, List, [], ◌∷◌, ◌++◌, length, get_elem?, set, arith, Option-cases,
  get_elem?-lt,
}
use playground_cpp.Pools.WorkStealing.{
  Pool, or_go_on, at_queue, try_pop, try_steal, victim, steal_from, pop_task_from_local,
  pop_task_from_pool, pop_task_from_other_thread, run_pending_tasks, push, add_task,
}
use playground_cpp.Pools.WorkStealing.Search.{
  Pointing, try_steal-none, go_on-some, go_on-idle, seen,
}

module _ {ℓ} {T : Type ℓ} (f : T → Bool) where
  unfoldable pub count_queues : List (List T) → ℕ
  count_queues [] = 0
  count_queues (q ∷ qs) = count f q + count_queues qs

  unfoldable pub count_pool : Pool T → ℕ
  unfolding count_queues
  count_pool p = count f p.pool_work_queue + count_queues p.queues

  count_queues-set :
      (qs : List (List T)) (i : ℕ) (q r : List T)
      → get_elem? qs i ≡ some q
      → count_queues (set qs i r) + count f q ≡ count_queues qs + count f r
  unfolding count_queues
  count_queues-set [] i q r e = cc
  count_queues-set (x ∷ qs) zero q r e = ground arith
  count_queues-set (x ∷ qs) (suc i) q r e = omega (arith, count_queues-set qs i q r e)

  -- A way to take a task from a list.
  abbrev Takes : (List T → Option (T × List T)) → Type ℓ
  Takes take =
      (q : List T) (t : T) (r : List T) → take q ≡ some (t, r) → count f q ≡ weight f t + count f r

  try_pop-Takes : Takes try_pop
  unfolding try_pop
  try_pop-Takes [] t r e = cc
  try_pop-Takes (x ∷ q) t r e = ground arith

  try_steal-Takes : Takes try_steal
  unfolding try_steal
  try_steal-Takes [] t r e = cc
  try_steal-Takes (x ∷ q) t r e = elim (Option-cases (try_steal q)) [
    | inl n ↦ let nil = try_steal-none q n in ground arith
    | inr ((u, s), h) ↦ let ih = try_steal-Takes q u s h in ground arith
  ]

  -- An operation that takes one task from the pool.
  abbrev TakesOne : (Pool T → Option (T × Pool T)) → Type ℓ
  TakesOne take =
      (p : Pool T) (t : T) (p' : Pool T)
      → take p ≡ some (t, p')
      → count_pool p ≡ weight f t + count_pool p'

  at_queue-TakesOne :
      (take : List T → Option (T × List T)) (i : ℕ) → Takes take → TakesOne (at_queue take i)
  unfolding count_pool
  at_queue-TakesOne take i h p t p' e = elim (Option-cases (get_elem? p.queues i)) [
    | inl n ↦ ground arith
    | inr (q, g) ↦ elim (Option-cases (take q)) [
      | inl n ↦ ground arith
      | inr ((u, r), k) ↦
          let one = h q u r k in let all = count_queues-set p.queues i q r g in ground arith
    ]
  ]

  local-TakesOne : TakesOne pop_task_from_local
  unfolding pop_task_from_local
  local-TakesOne p t p' e = elim (Option-cases p.local_queue) [
    | inl n ↦ ground arith
    | inr (i, g) ↦
        let at_i =
          subst (λ o. elim o [ none ↦ none | some j ↦ at_queue try_pop j p ] ≡ some (t, p')) g e in
        at_queue-TakesOne try_pop i try_pop-Takes p t p' at_i
  ]

  pool-TakesOne : TakesOne pop_task_from_pool
  unfolding pop_task_from_pool count_pool
  pool-TakesOne p t p' e = ground arith

  -- Section `k` of the call takes the task `t`, and leaves `p'`.
  abbrev TakesAt : (others : ℕ → Pool T → Pool T) (p : Pool T) (k : ℕ) → T → Pool T → Type 0
  TakesAt others p k t p' = count_pool (seen others k p) ≡ weight f t + count_pool p'

  steal_from-TakesAt :
      (n i : ℕ) (others : ℕ → Pool T → Pool T) (q p : Pool T) (t : T) (p' : Pool T)
      → q ≡ seen others (suc i) p
      → steal_from n i others q ≡ (some t, p')
      → (k : ℕ) × TakesAt others p k t p'
  unfolding steal_from
  steal_from-TakesAt zero i others q p t p' same e = absurd (cc e)
  steal_from-TakesAt (suc n) i others q p t p' same e =
      let q' = others (suc (suc i)) q in
      let same' : q' ≡ seen others (suc (suc i)) p = ap (others (suc (suc i))) same in
      elim (go_on-some (at_queue try_steal (victim i q') q') (steal_from n (suc i) others q') e) [
        | inl m ↦ (
          suc (suc i),
          ap count_pool (sym same')
              ∙ at_queue-TakesOne try_steal (victim i q') try_steal-Takes q' t p' m,
        )
        | inr m ↦ steal_from-TakesAt n (suc i) others q' p t p' same' m
      ]

  run-TakesAt :
      (others : ℕ → Pool T → Pool T) (p : Pool T) (t : T) (p' : Pool T)
      → run_pending_tasks others p ≡ (some t, p')
      → (k : ℕ) × TakesAt others p k t p'
  unfolding run_pending_tasks pop_task_from_other_thread
  run-TakesAt others p t p' e =
      let own = others 0 p in
      let shared = others 1 own in
      elim (go_on-some (pop_task_from_local own)
        (or_go_on (pop_task_from_pool shared) (pop_task_from_other_thread others shared)) e) [
          | inl m ↦ (0, local-TakesOne own t p' m)
          | inr m ↦
              elim (go_on-some (pop_task_from_pool shared)
                (pop_task_from_other_thread others shared) m) [
                  | inl k ↦ (1, pool-TakesOne shared t p' k)
                  | inr k ↦ steal_from-TakesAt (length shared.queues) 0 others shared p t p' refl k
                ]
        ]

  steal_from-seen :
      (n i : ℕ) (others : ℕ → Pool T → Pool T) (q p p' : Pool T)
      → q ≡ seen others (suc i) p
      → steal_from n i others q ≡ (none, p')
      → (k : ℕ) × (p' ≡ seen others k p)
  unfolding steal_from
  steal_from-seen zero i others q p p' same e = (suc i, sym (ap (λ r. r.1) e) ∙ same)
  steal_from-seen (suc n) i others q p p' same e =
      let q' = others (suc (suc i)) q in
      steal_from-seen n (suc i) others q' p p' (ap (others (suc (suc i))) same)
        (go_on-idle (at_queue try_steal (victim i q') q') (steal_from n (suc i) others q') e)

  run-seen :
      (others : ℕ → Pool T → Pool T) (p p' : Pool T)
      → run_pending_tasks others p ≡ (none, p')
      → (k : ℕ) × (p' ≡ seen others k p)
  unfolding run_pending_tasks pop_task_from_other_thread
  run-seen others p p' e =
      let own = others 0 p in
      let shared = others 1 own in
      steal_from-seen (length shared.queues) 0 others shared p p' refl (
        go_on-idle (pop_task_from_pool shared) (pop_task_from_other_thread others shared) (
          go_on-idle (pop_task_from_local own)
            (or_go_on (pop_task_from_pool shared) (pop_task_from_other_thread others shared)) e))

  add-counts :
      (t : T) (p : Pool T) → Pointing p → count_pool (add_task t p) ≡ weight f t + count_pool p
  unfolding add_task push count_pool
  add-counts t p v = elim (Option-cases p.local_queue) [
    | inl n ↦ let a = count-append f p.pool_work_queue (t ∷ []) in ground arith
    | inr (i, g) ↦
        let (q, h) = get_elem?-lt p.queues i (v i g) in
        let a = count-append f q (t ∷ []) in
        let all = count_queues-set p.queues i q (q ++ t ∷ []) h in ground arith
  ]

  -- Tasks are neither lost nor doubled: AddTask, where the pointer to the local queue points
  -- to the queue of a thread or to none, adds its one task to those that wait in all queues;
  -- and whatever other threads do between its critical sections, RunPendingTasks removes
  -- exactly the task that it runs, in one of the sections, from what they have left there,
  -- and nothing when it yields.
  pub tasks_conserved :
      (p : Pool T)
      → Pointing p
      → ((t : T) → count_pool (add_task t p) ≡ weight f t + count_pool p)
        × (((others : ℕ → Pool T → Pool T) (t : T) (p' : Pool T)
              → run_pending_tasks others p ≡ (some t, p')
              → (k : ℕ) × (count_pool (seen others k p) ≡ weight f t + count_pool p'))
            × ((others : ℕ → Pool T → Pool T) (p' : Pool T)
                → run_pending_tasks others p ≡ (none, p')
                → (k : ℕ) × (p' ≡ seen others k p)))
  tasks_conserved p v = (
    λ t. add-counts t p v,
    (λ others t p' e. run-TakesAt others p t p' e, λ others p' e. run-seen others p p' e),
  )
