-- ===== src/Algorithms/Find/Progress.antt =====
-- The threads of Find all come to their end, and cannot run for ever.
use playground_cpp.Common.{
  ℕ, zero, suc, ◌+◌, ◌-◌, ◌*◌, ◌^◌, ◌≤◌, ◌<◌, ◌≡◌, ◌≢◌, refl, ◌⊎◌, inl, inr, List, [], ◌∷◌, map,
  arith, length,
}
use playground_cpp.Algorithms.Blocks.{ranges, split_ranges, num_threads, block_size}
use playground_cpp.Algorithms.Blocks.Bounds.{split_bounds}
use playground_cpp.Algorithms.Find.{
  Compared, Shared, Status, looping, comparing, storing, returned, Worker, fresh_worker, start,
  worker_step, step, run,
}
use playground_cpp.Algorithms.Find.Invariant.{Good, AllGood, Inv, step-Inv}
use playground_cpp.Algorithms.Find.Answer.{AllReturned, start-Inv}

-- The steps that a thread has left, at most.
abbrev weight : Worker → ℕ
weight w = elim w.status [
  | looping ↦ 2 * (w.end - w.begin) + 2
  | comparing ↦ 2 * (w.end - w.begin) + 1
  | storing ↦ 1
  | returned ↦ 0
]

abbrev work : List Worker → ℕ
work [] = 0
work (w ∷ ws) = weight w + work ws

-- Thread `i` is there and has not ended.
abbrev pub Live : ℕ → List Worker → Type 0
Live i [] = ⊥
Live zero (w ∷ ws) = w.status ≢ returned
Live (suc i) (w ∷ ws) = Live i ws

-- Every choice of the schedule is a thread that has not ended by then.
abbrev pub EachLive : (ℕ → Compared) → List ℕ → Shared → List Worker → Type 0
EachLive compare [] s ws = Unit
EachLive compare (i ∷ is) s ws =
    Live i ws × EachLive compare is (step compare i s ws).0 (step compare i s ws).1

Status-cases : (st : Status) → (st ≡ returned) ⊎ (st ≢ returned)
Status-cases looping = inr (λ e. cc)
Status-cases comparing = inr (λ e. cc)
Status-cases storing = inr (λ e. cc)
Status-cases returned = inl refl

some-Live : (ws : List Worker) → AllReturned ws ⊎ ((i : ℕ) × Live i ws)
some-Live [] = inl tt
some-Live (w ∷ ws) = elim (Status-cases w.status) [
  | inr l ↦ inr (0, l)
  | inl e ↦ elim (some-Live ws) [ inl r ↦ inl (e, r) | inr (i, l) ↦ inr (suc i, l) ]
]

module _ (compare : ℕ → Compared) (len : ℕ) where
  worker_step-weight :
      (s : Shared) (w : Worker)
      → Good compare len s w
      → w.status ≢ returned
      → weight (worker_step compare s w).1 < weight w
  unfolding worker_step
  worker_step-weight s w g live = ground (arith, g.inside, g.order)

  step-work :
      (i : ℕ) (s : Shared) (ws : List Worker)
      → AllGood compare len s ws
      → Live i ws
      → work (step compare i s ws).1 < work ws
  unfolding step
  step-work i s [] g l = absurd l
  step-work zero s (w ∷ ws) g l = omega (arith, worker_step-weight s w g.0 l)
  step-work (suc i) s (w ∷ ws) g l = omega (arith, step-work i s ws g.1 l)

  length-le-work :
      (is : List ℕ) (s : Shared) (ws : List Worker)
      → Inv compare len s ws
      → EachLive compare is s ws
      → length is ≤ work ws
  length-le-work [] s ws inv l = omega arith
  length-le-work (i ∷ is) s ws inv l = omega (
    arith,
    step-work i s ws inv.workers l.0,
    length-le-work is (step compare i s ws).0 (step compare i s ws).1
        (step-Inv compare len i s ws inv) l.1,
  )

  work-ranges :
      (size first n last : ℕ)
      → first + n * size ≤ last
      → work (map fresh_worker (ranges size first n last)) ≡ 2 * (last - first) + 2 * (n + 1)
  unfolding ranges
  work-ranges size first zero last h = omega arith
  work-ranges size first (suc n) last h =
      omega (arith, work-ranges size (first + size) n last (omega arith))

  -- The threads of `Find` cannot run for ever: a schedule that at each point lets a thread
  -- run that has not ended has at most two steps for each element and two for each thread;
  -- and at its end all threads have ended, or there is one that can go on.
  pub find_terminates :
      (hardware : ℕ) (schedule : List ℕ)
      → 0 < len
      → len < 2 ^ 63
      → EachLive compare schedule (start hardware len).shared (start hardware len).workers
      → (length schedule ≤ 2 * len + 2 * num_threads hardware len)
        × (let ws = (run compare schedule (start hardware len)).workers in
            AllReturned ws ⊎ ((i : ℕ) × Live i ws))
  unfolding start split_ranges
  find_terminates hardware schedule pos small l = (
    omega (
      arith,
      length-le-work schedule _ _ (start-Inv compare len hardware pos small) l,
      work-ranges (block_size hardware len) 0 (num_threads hardware len - 1) len
          (grind (arith, split_bounds hardware len pos small)),
      split_bounds hardware len pos small,
    ),
    some-Live _,
  )
