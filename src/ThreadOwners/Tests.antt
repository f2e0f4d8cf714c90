-- ===== src/ThreadOwners/Tests.antt =====
-- Owners of threads in concrete sequences of calls.
use playground_cpp.Common.{ℕ, ◌≡◌, ◌<◌, refl, true, false, none, some, List, [], ◌∷◌, In, ◌⊎◌}
use playground_cpp.ThreadOwners.{
  joined, detached, running, Call, spawn, launch_in, assign_from, destroy_in, scope_from,
  end_scope_in, init, all_plain, end_guard, run,
}
use playground_cpp.ThreadOwners.Laws.{no_thread_lost}
use playground_cpp.ThreadOwners.Guard.{guard_joins}

-- Two JoiningThreads, of which the second is assigned to the first and destroyed; then a
-- ScopedThread.
abbrev assigned : List Call
assigned =
    launch_in 1 ∷ launch_in 2 ∷ assign_from 1 2 ∷ destroy_in 2 ∷ spawn 3 ∷ scope_from 4 3 ∷ []

assigned_joins : (run assigned init).fates 0 ≡ joined
unfolding run
assigned_joins = refl

assigned_moves : (run assigned init).objects 1 ≡ some 1
unfolding run
assigned_moves = refl

scope_joins : (run (end_scope_in 4 ∷ []) (run assigned init)).fates 2 ≡ joined
unfolding run
scope_joins = refl

no_thread_lost_example :
    let w = run assigned init in
    (w.terminated ≡ false)
    × (((id : ℕ)
          → id < w.started
          → ((w.fates id ≡ joined) ⊎ (w.fates id ≡ detached))
            ⊎ ((i : ℕ) × ((w.objects i ≡ some id) × ((j : ℕ) → w.objects j ≡ some id → i ≡ j))))
        × ((i id : ℕ) → w.objects i ≡ some id → w.fates id ≡ running))
no_thread_lost_example = no_thread_lost assigned

abbrev spawned : List Call
spawned = spawn 0 ∷ spawn 1 ∷ spawn 2 ∷ []

spawned-all_plain : all_plain (0 ∷ 2 ∷ []) (run spawned init) ≡ true
unfolding run
spawned-all_plain = refl

guard_joins_example :
    let w = run spawned init in
    let w' = end_guard (0 ∷ 2 ∷ []) w in
    (w'.terminated ≡ false)
    × (((i : ℕ) → In i (0 ∷ 2 ∷ []) → w'.objects i ≡ none)
        × (((i id : ℕ) → In i (0 ∷ 2 ∷ []) → w.objects i ≡ some id → w'.fates id ≡ joined)
            × ((i : ℕ) → (In i (0 ∷ 2 ∷ []) → ⊥) → w'.objects i ≡ w.objects i)))
guard_joins_example = guard_joins spawned (0 ∷ 2 ∷ []) spawned-all_plain
