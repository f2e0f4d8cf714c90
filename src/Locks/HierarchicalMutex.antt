-- ===== src/Locks/HierarchicalMutex.antt =====
-- include/playground/threading/hierarchical_mutex.hpp: a mutex with a level. The thread-local
-- `this_thread_hierarchy_value_` is the argument `value` of an operation, and its new value a
-- part of the result. The std::mutex inside is the thread that owns it, if any.
pub mod System
pub mod Order
pub mod Deadlock
mod Tests
use playground_cpp.Common.{
  ℕ, ◌-◌, ◌^◌, Bool, true, false, Option, none, some, leb, ◌==◌, if◌then◌else◌, not,
}

abbrev pub ulong_max : ℕ
ulong_max = 2 ^ 64 - 1

pub record Mutex : Type 0 where
  pub owner : Option ℕ
  pub hierarchy_value : ℕ
  pub previous_hierarchy_value : ℕ

-- How a call ends: it returns, throws std::logic_error, or does not return while `m_` is owned.
pub data Outcome (A : Type 0) : Type 0 where
  returned : A → Outcome A
  logic_error : Outcome A
  blocked : Outcome A

-- The mutex and the thread's value after a call.
pub record After : Type 0 where
  pub mutex : Mutex
  pub value : ℕ

unfoldable pub init : ℕ → Mutex
init level = record { owner = none; hierarchy_value = level; previous_hierarchy_value = 0 }

-- True when `check_for_hierarchy_violation` throws.
unfoldable pub violates : ℕ → Mutex → Bool
violates value m = leb value m.hierarchy_value

unfoldable pub update_hierarchy_value : ℕ → Mutex → After
update_hierarchy_value value m = record {
  mutex = record m { previous_hierarchy_value = value };
  value = m.hierarchy_value;
}

unfoldable pub lock : (thread value : ℕ) → Mutex → Outcome After
unfolding violates update_hierarchy_value
lock thread value m = if violates value m then logic_error else elim m.owner [
  | none ↦ returned (update_hierarchy_value value (record m { owner = some thread }))
  | some _ ↦ blocked
]

unfoldable pub unlock : (value : ℕ) → Mutex → Outcome After
unlock value m =
    if not (value == m.hierarchy_value)
    then logic_error
    else returned (record { mutex = record m { owner = none }; value = m.previous_hierarchy_value })

-- The result says whether the lock was taken.
unfoldable pub try_lock : (thread value : ℕ) → Mutex → Outcome (After × Bool)
unfolding violates update_hierarchy_value
try_lock thread value m = if violates value m then logic_error else elim m.owner [
  | none ↦ returned (update_hierarchy_value value (record m { owner = some thread }), true)
  | some _ ↦ returned (record { mutex = m; value = value }, false)
]
