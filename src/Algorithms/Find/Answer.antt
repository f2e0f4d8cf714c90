-- ===== src/Algorithms/Find/Answer.antt =====
-- What Find returns, whatever the order in which its threads run.
use playground_cpp.Common.{
  ℕ, zero, suc, ◌+◌, ◌-◌, ◌*◌, ◌^◌, ◌≤◌, ◌<◌, ◌≡◌, refl, ◌⊎◌, inl, inr, true, false, List, [], ◌∷◌,
  map, arith, ap, subst, sym, ◌∙◌, Bool-cases,
}
use playground_cpp.Algorithms.Blocks.{ranges, split_ranges, num_threads, block_size}
use playground_cpp.Algorithms.Blocks.Bounds.{split_bounds}
use playground_cpp.Algorithms.Blocks.Cover.{Covered, split_ranges-Covered}
use playground_cpp.Algorithms.Find.{
  Compared, equal, different, throws, Promise, unset, value, exception, Shared, returned, Worker,
  is_set, fresh_worker, start, run, Outcome, at, raised, get, outcome,
}
use playground_cpp.Algorithms.Find.Invariant.{
  AllGood, Storing, IsSound, Inv, spans, run-Inv, run-spans,
}

-- All threads have come to their end, so that the destructor of ThreadsGuard has joined them.
abbrev pub AllReturned : List Worker → Type 0
AllReturned [] = Unit
AllReturned (w ∷ ws) = (w.status ≡ returned) × AllReturned ws

-- The ranges lie in order within the first `length` positions.
abbrev Within : ℕ → List (ℕ × ℕ) → Type 0
Within length [] = Unit
Within length ((a, b) ∷ rs) = (a ≤ b) × (b ≤ length) × Within length rs

ranges-Within :
    (size first n last : ℕ) → first + n * size ≤ last → Within last (ranges size first n last)
unfolding ranges
ranges-Within size first zero last h = (omega arith, omega arith, tt)
ranges-Within size first (suc n) last h =
    (omega arith, omega arith, ranges-Within size (first + size) n last (omega arith))

module _ (compare : ℕ → Compared) (length : ℕ) where
  fresh-AllGood :
      (s : Shared) (rs : List (ℕ × ℕ))
      → Within length rs
      → AllGood compare length s (map fresh_worker rs)
  fresh-AllGood s [] h = tt
  fresh-AllGood s ((a, b) ∷ rs) h = (
    record {
      order = omega arith;
      inside = λ e. cc;
      stored = λ e. cc;
      searched = λ j e p q. absurd (omega arith);
      ended = λ e. cc;
    },
    fresh-AllGood s rs h.2,
  )

  pub start-Inv :
      (hardware : ℕ)
      → 0 < length
      → length < 2 ^ 63
      → Inv compare length (start hardware length).shared (start hardware length).workers
  unfolding start split_ranges
  start-Inv hardware pos small = record {
    shared = record { sound = tt; flagged = λ e. cc };
    workers = fresh-AllGood _ _ (ranges-Within _ 0 _ length fits);
    pending = λ e. cc;
  }
    where
      fits : 0 + (num_threads hardware length - 1) * block_size hardware length ≤ length
      fits = grind (arith, split_bounds hardware length pos small)

  spans-fresh : (rs : List (ℕ × ℕ)) → spans (map fresh_worker rs) ≡ rs
  spans-fresh [] = refl
  spans-fresh ((a, b) ∷ rs) = ap (◌∷◌ (a, b)) (spans-fresh rs)

  none-Storing : (ws : List Worker) → AllReturned ws → ¬ Storing ws
  none-Storing [] r m = m
  none-Storing (w ∷ ws) r (inl e) = cc (r.0)
  none-Storing (w ∷ ws) r (inr m) = none-Storing ws r.1 m

  all_searched :
      (s : Shared) (ws : List Worker) (j : ℕ)
      → AllGood compare length s ws
      → AllReturned ws
      → is_set s.result ≡ false
      → Covered j (spans ws)
      → compare j ≡ different
  all_searched s [] j g r e c = absurd c
  all_searched s (w ∷ ws) j g r e (inl c) = g.0.searched j e c.0 (omega (arith, g.0.ended r.0 e))
  all_searched s (w ∷ ws) j g r e (inr c) = all_searched s ws j g.1 r.1 e c

  -- What an outcome must mean: a position with the value; `last`, and no position has it; or an
  -- exception that some comparison threw.
  abbrev pub IsRight : Outcome → Type 0
  IsRight o =
      ((i : ℕ) × (o ≡ at i) × (i < length) × (compare i ≡ equal))
      ⊎ ((o ≡ at length) × ((j : ℕ) → j < length → compare j ≡ different))
      ⊎ ((o ≡ raised) × (i : ℕ) × (i < length) × (compare i ≡ throws))

  set_IsRight : (p : Promise) → IsSound compare length p → is_set p ≡ true → IsRight (get p)
  unfolding get
  set_IsRight unset h e = cc
  set_IsRight (value i) h e = inl (i, refl, h.0, h.1)
  set_IsRight exception h e = inr (inr (refl, h.0, h.1, h.2))

  ended-IsRight :
      (s : Shared) (ws : List Worker)
      → Inv compare length s ws
      → AllReturned ws
      → ((j : ℕ) → j < length → Covered j (spans ws))
      → IsRight (outcome length s)
  unfolding outcome
  ended-IsRight s ws inv r cover = elim (Bool-cases s.done_flag) [
    | inr no_flag ↦
        rw (no_flag, outcome)
          (inr
            (inl (refl, λ j h. all_searched s ws j inv.workers r (unset_of no_flag) (cover j h))))
    | inl flag ↦
        rw (flag, outcome) (set_IsRight s.result inv.shared.sound (inv.shared.flagged flag))
  ]
    where
      unset_of : s.done_flag ≡ false → is_set s.result ≡ false
      unset_of e = elim (Bool-cases (is_set s.result)) [
        | inr q ↦ q
        | inl q ↦ elim (inv.pending q) [ inl d ↦ cc | inr m ↦ absurd (none-Storing ws r m) ]
      ]

  -- However the threads of `Find` are interleaved, when they have all ended, its answer on a range
  -- of fewer than 2^63 elements is right: a position returned holds the value, `last` is returned
  -- only if no position holds it, and an exception comes only from a comparison.
  pub find-IsRight :
      (hardware : ℕ) (schedule : List ℕ)
      → 0 < length
      → length < 2 ^ 63
      → AllReturned (run compare schedule (start hardware length)).workers
      → IsRight (outcome length (run compare schedule (start hardware length)).shared)
  unfolding start
  find-IsRight hardware schedule pos small r =
      ended-IsRight _ _ (run-Inv compare length schedule _ (start-Inv hardware pos small)) r λ j h.
        subst (Covered j)
          (sym (run-spans compare length schedule (start hardware length) ∙ spans-fresh _))
          (split_ranges-Covered hardware length j h)
