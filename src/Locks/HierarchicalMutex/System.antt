-- ===== src/Locks/HierarchicalMutex/System.antt =====
-- Threads that lock and unlock mutexes of hierarchical_mutex.hpp in any interleaving. `held` is a
-- ghost: the mutexes that a thread has locked and not unlocked, the latest first.
use playground_cpp.Common.{ℕ, ◌≡◌, true, List, [], ◌∷◌, if◌then◌else◌, ◌==◌, update, In}
use playground_cpp.Locks.HierarchicalMutex.{
  Mutex, returned, After, ulong_max, init, lock, try_lock, unlock,
}

pub record System : Type 0 where
  pub mutexes : ℕ → Mutex
  pub value : ℕ → ℕ
  pub held : ℕ → List ℕ

-- `levels i` is the constructor argument of mutex `i`.
abbrev pub start : (ℕ → ℕ) → System
start levels = record { mutexes = λ i. init (levels i); value = λ t. ulong_max; held = λ t. [] }

abbrev pub remove : ℕ → List ℕ → List ℕ
remove i [] = []
remove i (x ∷ xs) = if x == i then xs else x ∷ remove i xs

abbrev pub took : System → ℕ → ℕ → After → System
took s t i a = record {
  mutexes = update s.mutexes i a.mutex;
  value = update s.value t a.value;
  held = update s.held t (i ∷ s.held t);
}

abbrev pub gave : System → ℕ → ℕ → After → System
gave s t i a = record {
  mutexes = update s.mutexes i a.mutex;
  value = update s.value t a.value;
  held = update s.held t (remove i (s.held t));
}

-- One completed call by thread `t` on mutex `i`. A call that throws or fails changes nothing. As
-- std::mutex demands, a thread unlocks what it holds.
pub data Step (s : System) : System → Type 0 where
  locks :
      (t i : ℕ) {a : After} → lock t (s.value t) (s.mutexes i) ≡ returned a → Step s (took s t i a)
  try_locks :
      (t i : ℕ) {a : After}
      → try_lock t (s.value t) (s.mutexes i) ≡ returned (a, true)
      → Step s (took s t i a)
  unlocks :
      (t i : ℕ) {a : After}
      → In i (s.held t)
      → unlock (s.value t) (s.mutexes i) ≡ returned a
      → Step s (gave s t i a)

pub data Reach (levels : ℕ → ℕ) : System → Type 0 where
  here : Reach levels (start levels)
  next : {s u : System} → Reach levels s → Step s u → Reach levels u
