-- ===== src/Locks/HierarchicalMutex/Tests.antt =====
-- Runs of hierarchical_mutex.hpp, and its theorems at them: levels 10000 and 5000, one thread.
use playground_cpp.Common.{ℕ, suc, zero, ◌≡◌, refl}
use playground_cpp.Locks.HierarchicalMutex.{logic_error, init, ulong_max, lock}
use playground_cpp.Locks.HierarchicalMutex.System.{System, start, took, locks, Reach, here, next}
use playground_cpp.Locks.HierarchicalMutex.Order.{Inv, taken, Reach-Inv}
use playground_cpp.Locks.HierarchicalMutex.Deadlock.{WaitsFor, no_circular_wait}

abbrev levels : ℕ → ℕ
levels zero = 10000
levels (suc i) = 5000

-- The thread holds mutex 0, then mutexes 0 and 1.
abbrev outer : System
outer = took (start levels) 0 0 (taken 0 ulong_max (init 10000))

abbrev inner : System
inner = took outer 0 1 (taken 0 10000 (init 5000))

outer-Reach : Reach levels outer
unfolding lock init
outer-Reach = next here (locks 0 0 refl)

inner-Reach : Reach levels inner
unfolding lock init
inner-Reach = next outer-Reach (locks 0 1 refl)

-- Upwards is refused.
lock_upwards : lock 0 (inner.value 0) (init 10000) ≡ logic_error
unfolding lock init
lock_upwards = refl

Reach-Inv_example : Inv inner
Reach-Inv_example = Reach-Inv inner-Reach

no_circular_wait_example : ¬ WaitsFor inner 0 0
no_circular_wait_example = no_circular_wait 0 inner-Reach
