-- ===== src/Pools/ThreadPool/Invariant.antt =====
-- What holds of the pool of thread_pool.h in every state that it reaches.
use playground_cpp.Common.{
  ℕ, ◌<◌, ◌≡◌, ◌≢◌, ◌⊎◌, inl, inr, refl, sym, subst, ◌∙◌, ap, true, false, some, [], ◌∷◌, ◌++◌,
  update, update_self, update-ne, arith, append_assoc, append-nil, Bool-cases, ℕ_discrete,
}
use playground_cpp.Pools.ThreadPool.{
  Pool, Worker, at_queue, asleep, running, ended, init, wake, add_task, stop, abort, thread_count,
}
use playground_cpp.Pools.ThreadPool.Reach.{System, Woken, start, Busy, Inv}

pub thread_count_pos : (hardware num : ℕ) → 0 < thread_count hardware num
unfolding thread_count
thread_count_pos hardware num = ground arith

module _ {ℓ} {T : Type ℓ} where
  pub update-cases :
      (f : ℕ → Worker T) (i : ℕ) (w : Worker T) (j : ℕ)
      → (update f i w j ≡ w) ⊎ (update f i w j ≡ f j)
  update-cases f i w j = elim (ℕ_discrete i j) [
    | yes e ↦ inl (subst (λ k. update f i w k ≡ w) e (update_self f i w))
    | no ne ↦ inr (update-ne f i w j ne)
  ]

  wake-ne-asleep : (w : Worker T) → wake w ≢ asleep
  unfolding wake
  wake-ne-asleep at_queue e = cc
  wake-ne-asleep asleep e = cc
  wake-ne-asleep (running t) e = cc
  wake-ne-asleep ended e = cc

  wake_ended : (w : Worker T) → wake w ≡ ended → w ≡ ended
  unfolding wake
  wake_ended at_queue e = cc
  wake_ended asleep e = cc
  wake_ended (running t) e = cc
  wake_ended ended e = refl

  wake-Busy : (w : Worker T) → Busy w → Busy (wake w)
  unfolding wake
  wake-Busy at_queue b = inl refl
  wake-Busy asleep b = inl refl
  wake-Busy (running t) b = inr (t, refl)
  wake-Busy ended b = elim b [ inl e ↦ cc | inr (t, e) ↦ cc ]

  -- A thread that is neither asleep nor at its end.
  awake-Busy : (w : Worker T) → w ≢ asleep → w ≢ ended → Busy w
  awake-Busy at_queue a e = inl refl
  awake-Busy asleep a e = absurd (a refl)
  awake-Busy (running t) a e = inr (t, refl)
  awake-Busy ended a e = absurd (e refl)

  pub start-Inv : (hardware num : ℕ) → Inv (start {T = T} hardware num)
  unfolding init
  start-Inv hardware num = record {
    some_thread = thread_count_pos hardware num;
    sleepers = λ i e. refl;
    enders = λ i e. cc;
    attended = λ ne. absurd (ne refl);
    balance = refl;
    not_cancelled = λ e. refl;
    one_empty = inl refl;
  }

  pub stops-Inv : (s : System T) → Inv s → Inv (record s { pool = stop s.pool })
  unfolding stop
  stops-Inv s v = record {
    some_thread = v.some_thread;
    sleepers = λ i e. absurd (wake-ne-asleep (s.pool.workers i) e);
    enders = λ i e. (refl, (v.enders i (wake_ended (s.pool.workers i) e)).1);
    attended = λ ne. let (i, (lt, b)) = v.attended ne in (i, (lt, wake-Busy (s.pool.workers i) b));
    balance = v.balance;
    not_cancelled = λ e. cc;
    one_empty = v.one_empty;
  }

  pub aborts-Inv :
      (s : System T)
      → Inv s
      → Inv (record s { pool = abort s.pool; cancelled = s.cancelled ++ s.pool.tasks })
  unfolding abort
  aborts-Inv s v = record {
    some_thread = v.some_thread;
    sleepers = λ i e. absurd (wake-ne-asleep (s.pool.workers i) e);
    enders = λ i e. (refl, refl);
    attended = λ ne. absurd (ne refl);
    balance = v.balance ∙ ap (λ xs. s.taken ++ xs) (sym (append-nil (s.cancelled ++ s.pool.tasks)));
    not_cancelled = λ e. cc;
    one_empty = inr refl;
  }

  wake_sleeper-Busy : (w : Worker T) → w ≡ asleep → Busy (wake w)
  unfolding wake
  wake_sleeper-Busy w e = rw (e) (inl refl)

  update-wake :
      (f : ℕ → Worker T) (i j : ℕ)
      → (update f i (wake (f i)) j ≡ wake (f j)) ⊎ (update f i (wake (f i)) j ≡ f j)
  update-wake f i j = elim (ℕ_discrete i j) [
    | yes e ↦
        inl (subst (λ k. update f i (wake (f i)) k ≡ wake (f k)) e (update_self f i (wake (f i))))
    | no ne ↦ inr (update-ne f i (wake (f i)) j ne)
  ]

  someone-Busy :
      (i : ℕ) (p : Pool T)
      → Woken i p
      → 0 < p.size
      → ((j : ℕ) → p.workers j ≢ ended)
      → (j : ℕ) × ((j < p.size) × Busy (update p.workers i (wake (p.workers i)) j))
  someone-Busy i p (inl (lt, e)) pos ne = (
    i,
    (
      lt,
      subst Busy (sym (update_self p.workers i (wake (p.workers i))))
          (wake_sleeper-Busy (p.workers i) e),
    ),
  )
  someone-Busy i p (inr none_asleep) pos ne =
      let b = awake-Busy (p.workers 0) (none_asleep 0 pos) (ne 0) in
      (
        0,
        (
          pos,
          elim (update-wake p.workers i 0) [
            | inl u ↦ subst Busy (sym u) (wake-Busy (p.workers 0) b)
            | inr u ↦ subst Busy (sym u) b
          ],
        ),
      )

  open-not_ended :
      (s : System T) → Inv s → s.pool.stopped ≡ false → (j : ℕ) → s.pool.workers j ≢ ended
  open-not_ended s v off j e = let (on, n) = v.enders j e in cc

  update_wake-ended :
      (f : ℕ → Worker T) (i j : ℕ) → ((k : ℕ) → f k ≢ ended) → update f i (wake (f i)) j ≢ ended
  update_wake-ended f i j ne e = elim (update-wake f i j) [
    | inl u ↦ ne j (wake_ended (f j) (sym u ∙ e))
    | inr u ↦ ne j (sym u ∙ e)
  ]

  accepted-Inv :
      (s : System T) (t : T) (i : ℕ)
      → Woken i s.pool
      → s.pool.stopped ≡ false
      → Inv s
      → Inv (record s {
        pool = record s.pool {
          tasks = s.pool.tasks ++ t ∷ [];
          workers = update s.pool.workers i (wake (s.pool.workers i));
        };
        added = s.added ++ t ∷ [];
      })
  accepted-Inv s t i w off v = record {
    some_thread = v.some_thread;
    sleepers = λ j e. off;
    enders = λ j e. absurd (update_wake-ended s.pool.workers i j (open-not_ended s v off) e);
    attended = λ ne. someone-Busy i s.pool w v.some_thread (open-not_ended s v off);
    balance =
        rw
          (
            v.balance,
            append_assoc s.taken (s.cancelled ++ s.pool.tasks) (t ∷ []),
            append_assoc s.cancelled s.pool.tasks (t ∷ []),
          )
          refl;
    not_cancelled = v.not_cancelled;
    one_empty = inl (v.not_cancelled off);
  }

  stopped_rejects :
      (p : Pool T) (t : T) (i : ℕ) {q : Pool T} → p.stopped ≡ true → add_task t i p ≢ some q
  unfolding add_task
  stopped_rejects p t i on e = ground arith

  open_accepts :
      (p : Pool T) (t : T) (i : ℕ) {q : Pool T}
      → p.stopped ≡ false
      → add_task t i p ≡ some q
      → record p { tasks = p.tasks ++ t ∷ []; workers = update p.workers i (wake (p.workers i)) }
        ≡ q
  unfolding add_task
  open_accepts p t i off e = ground arith

  pub adds-Inv :
      (s : System T) (t : T) (i : ℕ) {p : Pool T}
      → Woken i s.pool
      → add_task t i s.pool ≡ some p
      → Inv s
      → Inv (record s { pool = p; added = s.added ++ t ∷ [] })
  adds-Inv s t i w e v = elim (Bool-cases s.pool.stopped) [
    | inl on ↦ absurd (stopped_rejects s.pool t i on e)
    | inr off ↦
        subst (λ q. Inv (record s { pool = q; added = s.added ++ t ∷ [] }))
          (open_accepts s.pool t i off e) (accepted-Inv s t i w off v)
  ]
