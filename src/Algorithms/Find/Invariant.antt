-- ===== src/Algorithms/Find/Invariant.antt =====
-- What the threads of Find keep true.
use playground_cpp.Common.{
  ℕ, zero, suc, ◌≤◌, ◌<◌, ◌≡◌, refl, ◌⊎◌, inl, inr, true, false, List, [], ◌∷◌, map, arith, ap, ◌∙◌,
  Bool-cases,
}
use playground_cpp.Algorithms.Find.{
  Compared, equal, different, throws, Promise, unset, value, exception, Shared, comparing, storing,
  returned, Worker, is_set, worker_step, step, run, System,
}

-- Some thread is about to set the flag.
abbrev pub Storing : List Worker → Type 0
Storing [] = ⊥
Storing (w ∷ ws) = (w.status ≡ storing) ⊎ Storing ws

-- The blocks that the threads search.
abbrev pub spans : List Worker → List (ℕ × ℕ)
spans = map λ w. (w.first, w.end)

module _ (compare : ℕ → Compared) (length : ℕ) where
  -- What the promise holds is true of the range.
  abbrev pub IsSound : Promise → Type 0
  IsSound unset = Unit
  IsSound (value i) = (i < length) × (compare i ≡ equal)
  IsSound exception = (i : ℕ) × (i < length) × (compare i ≡ throws)

  pub record Good (s : Shared) (w : Worker) : Type 0 where
    pub order : (w.first ≤ w.begin) × (w.begin ≤ w.end) × (w.end ≤ length)
    pub inside : w.status ≡ comparing → w.begin < w.end
    pub stored : w.status ≡ storing → is_set s.result ≡ true
    pub searched :
        (j : ℕ) → is_set s.result ≡ false → w.first ≤ j → j < w.begin → compare j ≡ different
    pub ended : w.status ≡ returned → is_set s.result ≡ false → w.begin ≡ w.end

  pub record GoodShared (s : Shared) : Type 0 where
    pub sound : IsSound s.result
    pub flagged : s.done_flag ≡ true → is_set s.result ≡ true

  worker_step-Good :
      (s : Shared) (w : Worker)
      → GoodShared s
      → Good s w
      → Good (worker_step compare s w).0 (worker_step compare s w).1
  unfolding worker_step
  worker_step-Good s w gs g = record {
    order = ground (arith, g.inside);
    inside = ground (arith, g.inside);
    stored = ground (arith, g.stored);
    searched = λ j e a b. ground (arith, g.searched j, g.inside);
    ended = ground (arith, g.ended, gs.flagged);
  }

  result_cases :
      (s : Shared) (w : Worker)
      → ((worker_step compare s w).0.result ≡ s.result)
        ⊎ ((w.status ≡ comparing)
            × (compare w.begin ≡ equal)
            × ((worker_step compare s w).0.result ≡ value w.begin))
        ⊎ ((w.status ≡ comparing)
            × (compare w.begin ≡ throws)
            × ((worker_step compare s w).0.result ≡ exception))
  unfolding worker_step
  result_cases s w = ground arith

  worker_step-IsSound :
      (s : Shared) (w : Worker)
      → GoodShared s
      → Good s w
      → IsSound (worker_step compare s w).0.result
  worker_step-IsSound s w gs g = elim (result_cases s w) [
    | inl e ↦ rw e gs.sound
    | inr (inl (c, q, e)) ↦ rw e (omega (arith, g.inside c, g.order), q)
    | inr (inr (c, q, e)) ↦ rw e (w.begin, omega (arith, g.inside c, g.order), q)
  ]

  worker_step-GoodShared :
      (s : Shared) (w : Worker) → GoodShared s → Good s w → GoodShared (worker_step compare s w).0
  unfolding worker_step
  worker_step-GoodShared s w gs g = record {
    sound = worker_step-IsSound s w gs g;
    flagged = ground (arith, gs.flagged, g.stored);
  }

  -- The promise and the flag, once set, stay so.
  worker_step_mono :
      (s : Shared) (w : Worker)
      → ((is_set s.result ≡ true) → (is_set (worker_step compare s w).0.result ≡ true))
        × ((s.done_flag ≡ true) → ((worker_step compare s w).0.done_flag ≡ true))
  unfolding worker_step
  worker_step_mono s w = (λ h. ground arith, λ h. ground arith)

  -- Another thread's steps keep what a thread knows.
  Good-mono :
      (s t : Shared) (w : Worker)
      → ((is_set s.result ≡ true) → (is_set t.result ≡ true))
      → Good s w
      → Good t w
  Good-mono s t w up g = record {
    order = g.order;
    inside = g.inside;
    stored = λ e. up (g.stored e);
    searched = λ j e a b. ground (arith, up, g.searched j);
    ended = λ e f. ground (arith, up, g.ended);
  }

  abbrev pub AllGood : Shared → List Worker → Type 0
  AllGood s [] = Unit
  AllGood s (w ∷ ws) = Good s w × AllGood s ws

  AllGood-mono :
      (s t : Shared) (ws : List Worker)
      → ((is_set s.result ≡ true) → (is_set t.result ≡ true))
      → AllGood s ws
      → AllGood t ws
  AllGood-mono s t [] up g = tt
  AllGood-mono s t (w ∷ ws) up g = (Good-mono s t w up g.0, AllGood-mono s t ws up g.1)

  -- If the promise is set, the flag is set or a thread is about to set it.
  abbrev pub Pending : Shared → List Worker → Type 0
  Pending s ws = is_set s.result ≡ true → (s.done_flag ≡ true) ⊎ Storing ws

  pub record Inv (s : Shared) (ws : List Worker) : Type 0 where
    pub shared : GoodShared s
    pub workers : AllGood s ws
    pub pending : Pending s ws

  step_mono :
      (i : ℕ) (s : Shared) (ws : List Worker)
      → ((is_set s.result ≡ true) → (is_set (step compare i s ws).0.result ≡ true))
        × ((s.done_flag ≡ true) → ((step compare i s ws).0.done_flag ≡ true))
  unfolding step
  step_mono i s [] = (λ h. h, λ h. h)
  step_mono zero s (w ∷ ws) = worker_step_mono s w
  step_mono (suc i) s (w ∷ ws) = step_mono i s ws

  step-GoodShared :
      (i : ℕ) (s : Shared) (ws : List Worker)
      → GoodShared s
      → AllGood s ws
      → GoodShared (step compare i s ws).0
  unfolding step
  step-GoodShared i s [] gs g = gs
  step-GoodShared zero s (w ∷ ws) gs g = worker_step-GoodShared s w gs g.0
  step-GoodShared (suc i) s (w ∷ ws) gs g = step-GoodShared i s ws gs g.1

  step-AllGood :
      (i : ℕ) (s : Shared) (ws : List Worker)
      → GoodShared s
      → AllGood s ws
      → AllGood (step compare i s ws).0 (step compare i s ws).1
  unfolding step
  step-AllGood i s [] gs g = tt
  step-AllGood zero s (w ∷ ws) gs g =
      (worker_step-Good s w gs g.0, AllGood-mono s _ ws (worker_step_mono s w).0 g.1)
  step-AllGood (suc i) s (w ∷ ws) gs g =
      (Good-mono s _ w (step_mono i s ws).0 g.0, step-AllGood i s ws gs g.1)

  -- A thread that sets the promise goes on to set the flag, and one that was about to has set it.
  worker_step-Pending :
      (s : Shared) (w : Worker)
      → (is_set (worker_step compare s w).0.result ≡ true
          → is_set s.result ≡ false
          → (worker_step compare s w).1.status ≡ storing)
        × (w.status ≡ storing → (worker_step compare s w).0.done_flag ≡ true)
  unfolding worker_step
  worker_step-Pending s w = (λ h k. ground arith, λ h. ground arith)

  step-Pending :
      (i : ℕ) (s : Shared) (ws : List Worker)
      → Pending s ws
      → Pending (step compare i s ws).0 (step compare i s ws).1
  unfolding step
  step-Pending i s [] p h = p h
  step-Pending zero s (w ∷ ws) p h = elim (Bool-cases (is_set s.result)) [
    | inr e ↦ inr (inl ((worker_step-Pending s w).0 h e))
    | inl e ↦ elim (p e) [
      | inl d ↦ inl ((worker_step_mono s w).1 d)
      | inr (inl q) ↦ inl ((worker_step-Pending s w).1 q)
      | inr (inr m) ↦ inr (inr m)
    ]
  ]
  step-Pending (suc i) s (w ∷ ws) p h = elim (Bool-cases (is_set s.result)) [
    | inr e ↦ behind (step-Pending i s ws (λ k. cc) h)
    | inl e ↦ elim (p e) [
      | inl d ↦ inl ((step_mono i s ws).1 d)
      | inr (inl q) ↦ inr (inl q)
      | inr (inr m) ↦ behind (step-Pending i s ws (λ _. inr m) h)
    ]
  ]
    where
      behind :
          ((step compare i s ws).0.done_flag ≡ true) ⊎ Storing (step compare i s ws).1
          → ((step compare i s ws).0.done_flag ≡ true) ⊎ Storing (w ∷ (step compare i s ws).1)
      behind (inl d) = inl d
      behind (inr m) = inr (inr m)

  pub step-Inv :
      (i : ℕ) (s : Shared) (ws : List Worker)
      → Inv s ws
      → Inv (step compare i s ws).0 (step compare i s ws).1
  step-Inv i s ws inv = record {
    shared = step-GoodShared i s ws inv.shared inv.workers;
    workers = step-AllGood i s ws inv.shared inv.workers;
    pending = step-Pending i s ws inv.pending;
  }

  pub run-Inv :
      (is : List ℕ) (s : System)
      → Inv s.shared s.workers
      → Inv (run compare is s).shared (run compare is s).workers
  unfolding run
  run-Inv [] s inv = inv
  run-Inv (i ∷ is) s inv = run-Inv is _ (step-Inv i s.shared s.workers inv)

  worker_step-span :
      (s : Shared) (w : Worker)
      → ((worker_step compare s w).1.first ≡ w.first) × ((worker_step compare s w).1.end ≡ w.end)
  unfolding worker_step
  worker_step-span s w = (ground arith, ground arith)

  step-spans : (i : ℕ) (s : Shared) (ws : List Worker) → spans (step compare i s ws).1 ≡ spans ws
  unfolding step
  step-spans i s [] = refl
  step-spans zero s (w ∷ ws) = rw (worker_step-span s w).0 (rw (worker_step-span s w).1)
  step-spans (suc i) s (w ∷ ws) = ap (◌∷◌ (w.first, w.end)) (step-spans i s ws)

  pub run-spans : (is : List ℕ) (s : System) → spans (run compare is s).workers ≡ spans s.workers
  unfolding run
  run-spans [] s = refl
  run-spans (i ∷ is) s = run-spans is _ ∙ step-spans i s.shared s.workers
