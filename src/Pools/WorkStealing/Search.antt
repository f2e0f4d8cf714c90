-- ===== src/Pools/WorkStealing/Search.antt =====
-- Which tasks RunPendingTasks of concurrent/thread_pool.hpp finds.
use native.Mathlib.Nat.{mod-eq_of_lt, add-mod_right}
use playground_cpp.Common.{
  ℕ, zero, suc, ◌+◌, ◌-◌, ◌^◌, ◌<◌, ◌≤◌, ◌≡◌, ◌⊎◌, inl, inr, refl, sym, ◌∙◌, ap, get_elem?-lt,
  subst, ℕ_discrete, Option, none, some, List, [], ◌∷◌, length, get_elem?, arith, Option-cases,
  dec_lt,
}
use playground_cpp.Pools.WorkStealing.{
  Pool, or_go_on, at_queue, try_steal, victim, steal_from, pop_task_from_local, pop_task_from_pool,
  pop_task_from_other_thread, run_pending_tasks,
}

module _ {ℓ} {T : Type ℓ} where
  -- The pointer to the local queue points to the queue of a thread, or to none.
  abbrev pub Pointing : Pool T → Type 0
  Pointing p = (i : ℕ) → p.local_queue ≡ some i → i < length p.queues

  victim_low :
      (i j : ℕ) (p : Pool T)
      → p.local_queue_index + 1 + i ≡ j
      → j < length p.queues
      → length p.queues < 2 ^ 31
      → victim i p ≡ j
  unfolding victim
  victim_low i j p e lt small =
      rw (e, mod-eq_of_lt {n = j} {m = 2 ^ 32} (omega arith)) (mod-eq_of_lt lt)

  victim_high :
      (i j : ℕ) (p : Pool T)
      → p.local_queue_index + 1 + i ≡ j + length p.queues
      → j < length p.queues
      → length p.queues < 2 ^ 31
      → victim i p ≡ j
  unfolding victim
  victim_high i j p e lt small =
      rw
        (
          e,
          mod-eq_of_lt {n = j + length p.queues} {m = 2 ^ 32} (omega arith),
          add-mod_right j (length p.queues),
        )
        (mod-eq_of_lt lt)

  -- The loop comes to every queue.
  every_victim :
      (j : ℕ) (p : Pool T)
      → p.local_queue_index < length p.queues
      → length p.queues < 2 ^ 31
      → j < length p.queues
      → (i : ℕ) × ((i < length p.queues) × (victim i p ≡ j))
  every_victim j p local small lt = elim (dec_lt p.local_queue_index j) [
    | yes h ↦ (
      j - p.local_queue_index - 1,
      (omega arith, victim_low (j - p.local_queue_index - 1) j p (omega arith) lt small),
    )
    | no h ↦
        let i = j + length p.queues - p.local_queue_index - 1 in
        (i, (omega arith, victim_high i j p (omega arith) lt small))
  ]

  pub try_steal-none : (q : List T) → try_steal q ≡ none → q ≡ []
  unfolding try_steal
  try_steal-none [] e = refl
  try_steal-none (t ∷ q) e = elim (Option-cases (try_steal q)) [
    | inl n ↦ ground arith
    | inr s ↦ ground arith
  ]

  at_queue-none :
      (j : ℕ) (p : Pool T) (q : List T)
      → get_elem? p.queues j ≡ some q
      → at_queue try_steal j p ≡ none
      → q ≡ []
  at_queue-none j p q e n = elim (Option-cases (try_steal q)) [
    | inl m ↦ try_steal-none q m
    | inr s ↦ ground arith
  ]

  pool-none : (p : Pool T) → pop_task_from_pool p ≡ none → p.pool_work_queue ≡ []
  unfolding pop_task_from_pool
  pool-none p e = ground arith

  -- The pool that section `k` of RunPendingTasks finds when the sections before it have
  -- found nothing.
  abbrev pub seen : (others : ℕ → Pool T → Pool T) → ℕ → Pool T → Pool T
  seen others zero p = others 0 p
  seen others (suc k) p = others (suc k) (seen others k p)

  pub go_on-none :
      (o : Option (T × Pool T)) (rest : Option T × Pool T)
      → (or_go_on o rest).0 ≡ none
      → (o ≡ none) × (rest.0 ≡ none)
  go_on-none none rest e = (refl, e)
  go_on-none (some (t, p)) rest e = absurd (cc e)

  pub go_on-some :
      (o : Option (T × Pool T)) (rest : Option T × Pool T) {t : T} {p : Pool T}
      → or_go_on o rest ≡ (some t, p)
      → (o ≡ some (t, p)) ⊎ (rest ≡ (some t, p))
  go_on-some none rest e = inr e
  go_on-some (some (u, q)) rest {t = t} e =
      let same : u ≡ t = cc (ap (λ r. r.0) e) in inl (ap some (λ i. (same i, (e i).1)))

  pub go_on-idle :
      (o : Option (T × Pool T)) (rest : Option T × Pool T) {p : Pool T}
      → or_go_on o rest ≡ (none, p)
      → rest ≡ (none, p)
  go_on-idle none rest e = e
  go_on-idle (some (u, q)) rest e = absurd (cc (ap (λ r. r.0) e))

  steal_from-none :
      (n i : ℕ) (others : ℕ → Pool T → Pool T) (q p : Pool T) (k : ℕ)
      → q ≡ seen others (suc i) p
      → (steal_from n i others q).0 ≡ none
      → i ≤ k
      → k < i + n
      → let found = seen others (suc (suc k)) p in at_queue try_steal (victim k found) found ≡ none
  unfolding steal_from
  steal_from-none zero i others q p k same e le lt = absurd (omega arith)
  steal_from-none (suc n) i others q p k same e le lt =
      let q' = others (suc (suc i)) q in
      let same' : q' ≡ seen others (suc (suc i)) p = ap (others (suc (suc i))) same in
      let (a, b) =
        go_on-none (at_queue try_steal (victim i q') q') (steal_from n (suc i) others q') e in
      elim (ℕ_discrete i k) [
        | yes h ↦
            subst
              (λ m.
                let found = seen others (suc (suc m)) p in
                at_queue try_steal (victim m found) found ≡ none)
              h (subst (λ r. at_queue try_steal (victim i r) r ≡ none) same' a)
        | no h ↦ steal_from-none n (suc i) others q' p k same' b (omega arith) (omega arith)
      ]

  victim-same :
      (i : ℕ) (p q : Pool T)
      → p.local_queue_index ≡ q.local_queue_index
      → length p.queues ≡ length q.queues
      → victim i p ≡ victim i q
  unfolding victim
  victim-same i p q e l = rw (e, l) refl

  -- Where a thread yields in RunPendingTasks, it has found the pool's queue empty at one
  -- moment of the call, and the queue of each thread empty at one, whatever other threads do
  -- between its critical sections, for fewer than 2 ^ 31 threads of which none is added, and
  -- a local index that is one of theirs and stays.
  pub yields_when_empty :
      (others : ℕ → Pool T → Pool T) (p : Pool T) (threads me : ℕ)
      → ((k : ℕ)
          → ((seen others k p).local_queue_index ≡ me)
            × (length (seen others k p).queues ≡ threads))
      → me < threads
      → threads < 2 ^ 31
      → (run_pending_tasks others p).0 ≡ none
      → ((seen others 1 p).pool_work_queue ≡ [])
        × ((j : ℕ)
            → j < threads
            → (k : ℕ) × ((k < threads)
                × (get_elem? (seen others (suc (suc k)) p).queues j ≡ some [])))
  unfolding run_pending_tasks pop_task_from_other_thread
  yields_when_empty others p threads me steady local small e =
      let own = others 0 p in
      let shared = others 1 own in
      let (index, size) = steady 1 in
      let (_, rest) =
        go_on-none (pop_task_from_local own)
          (or_go_on (pop_task_from_pool shared) (pop_task_from_other_thread others shared)) e in
      let (b, c) =
        go_on-none (pop_task_from_pool shared) (pop_task_from_other_thread others shared) rest in
      (
        pool-none shared b,
        λ j lt.
            let (i, (round, v)) = every_victim j shared (omega arith) (omega arith) (omega arith) in
            let found = seen others (suc (suc i)) p in
            let (index', size') = steady (suc (suc i)) in
            let n =
              steal_from-none (length shared.queues) 0 others shared p i refl c (omega arith)
                (omega arith) in
            let there = victim-same i found shared (index' ∙ sym index) (size' ∙ sym size) ∙ v in
            let (q, h) = get_elem?-lt found.queues j (omega arith) in
            let empty =
              at_queue-none j found q h (subst (λ m. at_queue try_steal m found ≡ none) there n) in
            (i, (omega arith, h ∙ ap some empty)),
      )
