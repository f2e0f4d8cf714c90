-- ===== src/Algorithms/Find/Tests.antt =====
-- `Find` of 60 elements with two threads, and its theorems there.
use playground_cpp.Common.{
  ℕ, ◌+◌, ◌*◌, ◌≤◌, ◌≡◌, refl, ◌⊎◌, List, [], ◌∷◌, ◌++◌, arith, replicate, if◌then◌else◌, ◌==◌,
}
use playground_cpp.Algorithms.Blocks.{num_threads, split_ranges}
use playground_cpp.Algorithms.Find.{Compared, equal, different, start, step, run, outcome, at}
use playground_cpp.Algorithms.Find.Answer.{AllReturned, IsRight, find-IsRight}
use playground_cpp.Algorithms.Find.Progress.{Live, EachLive, find_terminates}

-- The value stands at 12 and at 40, one position in each block.
abbrev twice : ℕ → Compared
twice i = if i == 12 then equal else if i == 40 then equal else different

-- Thread 1 wins the race.
abbrev second_first : List ℕ
second_first = replicate 30 1 ++ replicate 10 0

second_wins : outcome 60 (run twice second_first (start 2 60)).shared ≡ at 40
unfolding run outcome start split_ranges
second_wins = refl

second_ends : AllReturned (run twice second_first (start 2 60)).workers
unfolding run start split_ranges
second_ends = (refl, (refl, tt))

find-IsRight_example : IsRight twice 60 (outcome 60 (run twice second_first (start 2 60)).shared)
find-IsRight_example = find-IsRight twice 60 2 second_first (omega arith) (omega arith) second_ends

-- Two steps of thread 0 and one of thread 1.
three_live : EachLive twice (0 ∷ 0 ∷ 1 ∷ []) (start 2 60).shared (start 2 60).workers
unfolding step start split_ranges
three_live = (λ e. cc, (λ e. cc, (λ e. cc, tt)))

find_terminates_example :
    (3 ≤ 2 * 60 + 2 * num_threads 2 60)
    × (let ws = (run twice (0 ∷ 0 ∷ 1 ∷ []) (start 2 60)).workers in
        AllReturned ws ⊎ ((i : ℕ) × Live i ws))
find_terminates_example =
    find_terminates twice 60 2 (0 ∷ 0 ∷ 1 ∷ []) (omega arith) (omega arith) three_live
