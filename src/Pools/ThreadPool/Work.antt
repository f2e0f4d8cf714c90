-- ===== src/Pools/ThreadPool/Work.antt =====
-- The steps of the workers of thread_pool.h keep the invariant, which so holds in every state that
-- the pool reaches.
use playground_cpp.Common.{
  ℕ, ◌<◌, ◌≡◌, ◌≢◌, inl, inr, refl, sym, subst, ◌∙◌, Bool, true, false, none, some, List, [], ◌∷◌,
  ◌++◌, if◌then◌else◌, update, update_self, append_assoc,
}
use playground_cpp.Pools.ThreadPool.{
  Pool, Worker, at_queue, asleep, running, ended, worker_step, take_task, worker_at,
}
use playground_cpp.Pools.ThreadPool.Reach.{
  System, grow, Step, adds, stops, aborts, works, Reach, here, next, Busy, Inv,
}
use playground_cpp.Pools.ThreadPool.Invariant.{
  update-cases, start-Inv, stops-Inv, aborts-Inv, adds-Inv,
}

module _ {ℓ} {T : Type ℓ} where
  idle_asleep : (b : Bool) → (if◌then◌else◌ {A = Worker T} b ended asleep) ≡ asleep → b ≡ false
  idle_asleep true e = cc
  idle_asleep false e = refl

  idle_ended : (b : Bool) → (if◌then◌else◌ {A = Worker T} b ended asleep) ≡ ended → b ≡ true
  idle_ended true e = refl
  idle_ended false e = cc

  -- The worker finds nothing to do.
  idle-Inv :
      (s : System T) (i : ℕ)
      → s.pool.tasks ≡ []
      → Inv s
      → Inv (record s {
        pool = record s.pool {
          workers = update s.pool.workers i (if s.pool.stopped then ended else asleep);
        };
      })
  idle-Inv s i n v =
      let w = if s.pool.stopped then ended else asleep in
      record {
        some_thread = v.some_thread;
        sleepers = λ j e. elim (update-cases s.pool.workers i w j) [
          | inl u ↦ idle_asleep s.pool.stopped (sym u ∙ e)
          | inr u ↦ v.sleepers j (sym u ∙ e)
        ];
        enders = λ j e. elim (update-cases s.pool.workers i w j) [
          | inl u ↦ (idle_ended s.pool.stopped (sym u ∙ e), n)
          | inr u ↦ v.enders j (sym u ∙ e)
        ];
        attended = λ ne. absurd (ne n);
        balance = v.balance;
        not_cancelled = v.not_cancelled;
        one_empty = v.one_empty;
      }

  -- The worker goes on to `w`, and is not asleep or at its end there.
  moves-Inv :
      (s : System T) (i : ℕ) (w : Worker T)
      → i < s.pool.size
      → Busy w
      → Inv s
      → Inv (record s { pool = record s.pool { workers = update s.pool.workers i w } })
  moves-Inv s i w lt b v = record {
    some_thread = v.some_thread;
    sleepers = λ j e. elim (update-cases s.pool.workers i w j) [
      | inl u ↦ elim b [ inl q ↦ cc | inr (t, q) ↦ cc ]
      | inr u ↦ v.sleepers j (sym u ∙ e)
    ];
    enders = λ j e. elim (update-cases s.pool.workers i w j) [
      | inl u ↦ elim b [ inl q ↦ cc | inr (t, q) ↦ cc ]
      | inr u ↦ v.enders j (sym u ∙ e)
    ];
    attended = λ ne. (i, (lt, subst Busy (sym (update_self s.pool.workers i w)) b));
    balance = v.balance;
    not_cancelled = v.not_cancelled;
    one_empty = v.one_empty;
  }

  cons-ne-nil : (t : T) (ts : List T) → t ∷ ts ≢ []
  cons-ne-nil t ts e = cc

  tasks-not_cancelled :
      (s : System T) (t : T) (ts : List T) → s.pool.tasks ≡ t ∷ ts → Inv s → s.cancelled ≡ []
  tasks-not_cancelled s t ts n v = elim v.one_empty [
    | inl c ↦ c
    | inr e ↦ absurd (cons-ne-nil t ts (sym n ∙ e))
  ]

  takes-Inv :
      (s : System T) (i : ℕ) (t : T) (ts : List T)
      → i < s.pool.size
      → s.pool.tasks ≡ t ∷ ts
      → Inv s
      → Inv (record s {
        pool = record s.pool { tasks = ts; workers = update s.pool.workers i (running t) };
        taken = s.taken ++ t ∷ [];
      })
  takes-Inv s i t ts lt n v =
      let moved = moves-Inv s i (running t) lt (inr (t, refl)) v in
      let kept = tasks-not_cancelled s t ts n v in
      record {
        some_thread = v.some_thread;
        sleepers = moved.sleepers;
        enders = λ j e. absurd (cons-ne-nil t ts (sym n ∙ (moved.enders j e).1));
        attended = λ ne.
            (i, (lt, subst Busy (sym (update_self s.pool.workers i (running t))) (inr (t, refl))));
        balance = v.balance ∙ rw (kept, n) (sym (append_assoc s.taken (t ∷ []) ts));
        not_cancelled = v.not_cancelled;
        one_empty = inl kept;
      }

  take_task-nil :
      (p : Pool T) (i : ℕ)
      → p.tasks ≡ []
      → take_task i p
        ≡ (record p { workers = update p.workers i (if p.stopped then ended else asleep) }, none)
  unfolding take_task
  take_task-nil p i n = rw (n)

  take_task-cons :
      (p : Pool T) (i : ℕ) (t : T) (ts : List T)
      → p.tasks ≡ t ∷ ts
      → take_task i p ≡ (record p { tasks = ts; workers = update p.workers i (running t) }, some t)
  unfolding take_task
  take_task-cons p i t ts n = rw (n)

  take_task-Inv :
      (ts : List T) (s : System T) (i : ℕ)
      → s.pool.tasks ≡ ts
      → i < s.pool.size
      → Inv s
      → Inv
          (record s { pool = (take_task i s.pool).0; taken = grow (take_task i s.pool).1 s.taken })
  take_task-Inv [] s i n lt v = rw (take_task-nil s.pool i n) (idle-Inv s i n v)
  take_task-Inv (t ∷ ts) s i n lt v =
      rw (take_task-cons s.pool i t ts n) (takes-Inv s i t ts lt n v)

  worker_at-Inv :
      (w : Worker T) (s : System T) (i : ℕ)
      → s.pool.workers i ≡ w
      → i < s.pool.size
      → Inv s
      → Inv (let (p, t) = worker_at w i s.pool in record s { pool = p; taken = grow t s.taken })
  unfolding worker_at
  worker_at-Inv at_queue s i e lt v = take_task-Inv s.pool.tasks s i refl lt v
  worker_at-Inv asleep s i e lt v = v
  worker_at-Inv (running t) s i e lt v = moves-Inv s i at_queue lt (inl refl) v
  worker_at-Inv ended s i e lt v = v

  Step-Inv : {s t : System T} → Step s t → Inv s → Inv t
  unfolding worker_step
  Step-Inv {s = s} (adds t i w e) v = adds-Inv s t i w e v
  Step-Inv {s = s} stops v = stops-Inv s v
  Step-Inv {s = s} aborts v = aborts-Inv s v
  Step-Inv {s = s} (works i lt) v = worker_at-Inv (s.pool.workers i) s i refl lt v

  pub Reach-Inv : {s : System T} → Reach s → Inv s
  Reach-Inv (here hardware num) = start-Inv hardware num
  Reach-Inv (next r st) = Step-Inv st (Reach-Inv r)
