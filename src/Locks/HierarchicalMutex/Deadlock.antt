-- ===== src/Locks/HierarchicalMutex/Deadlock.antt =====
-- What the order of hierarchical_mutex.hpp is for: no circular wait, and unlocking in order.
use playground_cpp.Common.{
  ℕ, ◌≡◌, ◌<◌, inl, inr, List, ◌∷◌, arith, subst, In, ℕ_discrete, ◌⊎◌, none,
}
use playground_cpp.Locks.HierarchicalMutex.{Mutex, returned, logic_error, blocked, lock, unlock}
use playground_cpp.Locks.HierarchicalMutex.System.{System, Reach}
use playground_cpp.Locks.HierarchicalMutex.Order.{
  Inv, Chain, value-le-level, head_of_value, Reach-Inv,
}

-- Thread `t` is inside `lock` of mutex `i` past the check, and thread `u` holds `i`.
pub data Waits (s : System) (t u : ℕ) : Type 0 where
  waits : (i : ℕ) → lock t (s.value t) (s.mutexes i) ≡ blocked → In i (s.held u) → Waits s t u

-- A chain of waits.
pub data WaitsFor (s : System) (t : ℕ) : ℕ → Type 0 where
  direct : {u : ℕ} → Waits s t u → WaitsFor s t u
  through : {u w : ℕ} → WaitsFor s t u → Waits s u w → WaitsFor s t w

blocked-lt : (t v : ℕ) (m : Mutex) → lock t v m ≡ blocked → m.hierarchy_value < v
unfolding lock
blocked-lt t v m e = ground arith

Waits-lt : {s : System} {t u : ℕ} → Inv s → Waits s t u → s.value u < s.value t
Waits-lt {s} {t} {u} inv (waits i e m) = omega (
  arith,
  blocked-lt t (s.value t) (s.mutexes i) e,
  value-le-level s.mutexes (s.value u) (s.held u) i (inv.chain u) m,
)

WaitsFor-lt : {s : System} {t u : ℕ} → Inv s → WaitsFor s t u → s.value u < s.value t
WaitsFor-lt inv (direct w) = Waits-lt inv w
WaitsFor-lt inv (through r w) = omega (arith, WaitsFor-lt inv r, Waits-lt inv w)

-- In no reachable state is there a circle of threads that each wait for a mutex that the next one
-- holds: the levels rule out deadlock.
pub no_circular_wait : {levels : ℕ → ℕ} {s : System} (t : ℕ) → Reach levels s → ¬ WaitsFor s t t
no_circular_wait t r w = omega (arith, WaitsFor-lt (Reach-Inv r) w)

-- In a reachable state `unlock` of a mutex that the thread holds returns exactly when it is the
-- mutex that the thread locked last; otherwise it throws std::logic_error.
unlock_latest :
    {levels : ℕ → ℕ} {s : System} (t i : ℕ)
    → Reach levels s
    → In i (s.held t)
    → ((rest : List ℕ) × (s.held t ≡ i ∷ rest)
        × (unlock (s.value t) (s.mutexes i)
            ≡ returned (record {
              mutex = record (s.mutexes i) { owner = none };
              value = (s.mutexes i).previous_hierarchy_value;
            })))
      ⊎ (((rest : List ℕ) → ¬ (s.held t ≡ i ∷ rest))
          × (unlock (s.value t) (s.mutexes i) ≡ logic_error))
unfolding unlock
unlock_latest {s} t i r m = elim (ℕ_discrete (s.value t) (s.mutexes i).hierarchy_value) [
  | yes e ↦
      let (rest, is, _, _) = head_of_value s.mutexes (s.value t) (s.held t) i (inv.chain t) m e in
      inl (rest, is, ground arith)
  | no e ↦ inr (λ rest is. e (subst (Chain s.mutexes (s.value t)) is (inv.chain t)).0, ground arith)
]
  where
    inv : Inv s
    inv = Reach-Inv r
