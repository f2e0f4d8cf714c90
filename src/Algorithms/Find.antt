-- ===== src/Algorithms/Find.antt =====
-- experiments/concurrent_algorithms/include/concurrent/find.hpp, Find: threads that search their
-- blocks, in any interleaving. Elements are known by position, and `compare` says what
-- `*begin == val` does there; the comparison may throw.
pub mod Invariant
pub mod Answer
pub mod Progress
mod Tests
use playground_cpp.Common.{
  ℕ, zero, suc, ◌+◌, Bool, true, false, List, [], ◌∷◌, map, ◌==◌, ◌||◌, if◌then◌else◌,
}
use playground_cpp.Algorithms.Blocks.{split_ranges}

pub data Compared : Type 0 where
  equal : Compared
  different : Compared
  throws : Compared

-- The std::promise that all threads share; setting it twice throws.
pub data Promise : Type 0 where
  unset : Promise
  value : ℕ → Promise
  exception : Promise

pub record Shared : Type 0 where
  pub result : Promise
  pub done_flag : Bool

-- Where a thread stands: at the test of its `for`; at `*begin == val`; between setting the promise
-- and `done_flag->store(true)`; at its end.
pub data Status : Type 0 where
  looping comparing storing returned : Status

pub record Worker : Type 0 where
  pub first : ℕ
  pub begin : ℕ
  pub end : ℕ
  pub status : Status

abbrev pub is_set : Promise → Bool
is_set unset = false
is_set (value i) = true
is_set exception = true

-- Setting the promise: where it throws, set_exception in the handler throws too, and the handler
-- within swallows that, so the thread just ends.
set_result : Promise → Shared → Worker → Shared × Worker
set_result p s w =
    if is_set s.result
    then (s, record w { status = returned })
    else (record s { result = p }, record w { status = storing })

compare_step : Compared → Shared → Worker → Shared × Worker
unfolding set_result
compare_step equal s w = set_result (value w.begin) s w
compare_step different s w = (s, record w { begin = w.begin + 1; status = looping })
compare_step throws s w = set_result exception s w

status_step : Status → (ℕ → Compared) → Shared → Worker → Shared × Worker
unfolding compare_step
status_step looping compare s w =
    if (w.begin == w.end) || s.done_flag
    then (s, record w { status = returned })
    else (s, record w { status = comparing })
status_step comparing compare s w = compare_step (compare w.begin) s w
status_step storing compare s w = (record s { done_flag = true }, record w { status = returned })
status_step returned compare s w = (s, w)

-- One step of `Finder::operator()`.
unfoldable pub worker_step : (ℕ → Compared) → Shared → Worker → Shared × Worker
unfolding status_step
worker_step compare s w = status_step w.status compare s w

pub record System : Type 0 where
  pub shared : Shared
  pub workers : List Worker

-- One step of thread number `i`.
unfoldable pub step : (ℕ → Compared) → ℕ → Shared → List Worker → Shared × List Worker
unfolding worker_step
step compare i s [] = (s, [])
step compare zero s (w ∷ ws) = let (s', w') = worker_step compare s w in (s', w' ∷ ws)
step compare (suc i) s (w ∷ ws) = let (s', ws') = step compare i s ws in (s', w ∷ ws')

abbrev pub fresh_worker : ℕ × ℕ → Worker
fresh_worker (a, b) = record { first = a; begin = a; end = b; status = looping }

-- `Find` on a range that is not empty, when its threads have been started.
unfoldable pub start : (hardware length : ℕ) → System
start hardware length = record {
  shared = record { result = unset; done_flag = false };
  workers = map fresh_worker (split_ranges hardware length);
}

-- The threads run in the order of a schedule of their numbers.
unfoldable pub run : (ℕ → Compared) → List ℕ → System → System
unfolding step
run compare [] s = s
run compare (i ∷ is) s =
    let (shared, workers) = step compare i s.shared s.workers in
    run compare is (record { shared = shared; workers = workers })

-- What `Find` does when all threads have ended: `at length` is `last`.
pub data Outcome : Type 0 where
  at : ℕ → Outcome
  raised : Outcome
  -- `get` on a promise that was never set.
  stuck : Outcome

unfoldable pub get : Promise → Outcome
get unset = stuck
get (value i) = at i
get exception = raised

unfoldable pub outcome : ℕ → Shared → Outcome
unfolding get
outcome length s = if s.done_flag then get s.result else at length
