-- ===== src/Locks/HierarchicalMutex/Order.antt =====
-- The invariant of hierarchical_mutex.hpp: each thread's locks form a descending chain.
use playground_cpp.Common.{
  ℕ, ◌≡◌, ◌≢◌, ◌<◌, ◌≤◌, refl, inl, inr, true, some, none, Option, List, [], ◌∷◌, arith, sym, subst,
  update, update_self, update-ne, In, ℕ_discrete,
}
use playground_cpp.Locks.HierarchicalMutex.{
  Mutex, returned, After, ulong_max, lock, try_lock, unlock,
}
use playground_cpp.Locks.HierarchicalMutex.System.{
  System, start, remove, took, gave, Step, locks, try_locks, unlocks, Reach, here, next,
}

-- The thread's value is the level of the latest lock, and each lock has saved the value before it.
abbrev pub Chain : (ℕ → Mutex) → ℕ → List ℕ → Type 0
Chain ms v [] = v ≡ ulong_max
Chain ms v (i ∷ is) =
    (v ≡ (ms i).hierarchy_value)
    × ((ms i).hierarchy_value < (ms i).previous_hierarchy_value)
    × Chain ms (ms i).previous_hierarchy_value is

pub record Inv (s : System) : Type 0 where
  pub chain : (t : ℕ) → Chain s.mutexes (s.value t) (s.held t)
  pub owned : (t i : ℕ) → In i (s.held t) → (s.mutexes i).owner ≡ some t

-- A thread's value is at most the level of what it holds.
pub value-le-level :
    (ms : ℕ → Mutex) (v : ℕ) (is : List ℕ) (i : ℕ)
    → Chain ms v is
    → In i is
    → v ≤ (ms i).hierarchy_value
value-le-level ms v [] i c m = absurd m
value-le-level ms v (x ∷ xs) i c (inl e) = ground arith
value-le-level ms v (x ∷ xs) i c (inr m) =
    ground (arith, value-le-level ms (ms x).previous_hierarchy_value xs i c.2 m)

-- Only the head of a chain has the thread's value for its level.
pub head_of_value :
    (ms : ℕ → Mutex) (v : ℕ) (is : List ℕ) (i : ℕ)
    → Chain ms v is
    → In i is
    → v ≡ (ms i).hierarchy_value
    → (rest : List ℕ) × (is ≡ i ∷ rest)
      × Chain ms (ms i).previous_hierarchy_value rest
      × ¬ In i rest
head_of_value ms v [] i c m e = absurd m
head_of_value ms v (x ∷ xs) i c (inl q) e = (
  xs,
  ground arith,
  ground arith,
  λ k. ground (arith, value-le-level ms (ms x).previous_hierarchy_value xs i c.2 k),
)
head_of_value ms v (x ∷ xs) i c (inr m) e =
    absurd (ground (arith, value-le-level ms (ms x).previous_hierarchy_value xs i c.2 m))

In-remove : (j i : ℕ) (is : List ℕ) → In j (remove i is) → In j is
In-remove j i [] m = m
In-remove j i (x ∷ xs) m = ground (arith, In-remove j i xs)

-- A chain sees only the levels and the saved values of its own mutexes.
Chain-same :
    (ms ns : ℕ → Mutex) (v : ℕ) (is : List ℕ)
    → ((i : ℕ) → In i is → (ns i).hierarchy_value ≡ (ms i).hierarchy_value)
    → ((i : ℕ) → In i is → (ns i).previous_hierarchy_value ≡ (ms i).previous_hierarchy_value)
    → Chain ms v is
    → Chain ns v is
Chain-same ms ns v [] h p c = c
Chain-same ms ns v (x ∷ xs) h p c = (
  ground (arith, h x (inl refl)),
  ground (arith, h x (inl refl), p x (inl refl)),
  rw (p x (inl refl)) (Chain-same ms ns _ xs (λ i m. h i (inr m)) (λ i m. p i (inr m)) c.2),
)

start-Inv : (levels : ℕ → ℕ) → Inv (start levels)
start-Inv levels = record { chain = λ t. refl; owned = λ t i m. absurd m }

-- What a mutex and a value become when the lock is taken.
abbrev pub taken : ℕ → ℕ → Mutex → After
taken t v m = record {
  mutex = record m { owner = some t; previous_hierarchy_value = v };
  value = m.hierarchy_value;
}

lock-returned :
    (t v : ℕ) (m : Mutex) {a : After}
    → lock t v m ≡ returned a
    → (m.hierarchy_value < v) × (m.owner ≡ none) × (a ≡ taken t v m)
unfolding lock
lock-returned t v m e = ground arith

try_lock-returned :
    (t v : ℕ) (m : Mutex) {a : After}
    → try_lock t v m ≡ returned (a, true)
    → (m.hierarchy_value < v) × (m.owner ≡ none) × (a ≡ taken t v m)
unfolding try_lock
try_lock-returned t v m e = ground arith

unlock-returned :
    (v : ℕ) (m : Mutex) {a : After}
    → unlock v m ≡ returned a
    → (v ≡ m.hierarchy_value)
      × (a ≡ record { mutex = record m { owner = none }; value = m.previous_hierarchy_value })
unfolding unlock
unlock-returned v m e = ground arith

Chain-update :
    (ms : ℕ → Mutex) (i : ℕ) (m : Mutex) (v : ℕ) (is : List ℕ)
    → ¬ In i is
    → Chain ms v is
    → Chain (update ms i m) v is
Chain-update ms i m v is out =
    Chain-same ms (update ms i m) v is (λ j k. ground (arith, aside j k))
      (λ j k. ground (arith, aside j k))
  where
    aside : (j : ℕ) → In j is → i ≢ j
    aside j k e = out (subst (λ x. In x is) (sym e) k)

Chain-owner :
    (ms : ℕ → Mutex) (i : ℕ) (o : Option ℕ) (v : ℕ) (is : List ℕ)
    → Chain ms v is
    → Chain (update ms i (record (ms i) { owner = o })) v is
Chain-owner ms i o v is =
    Chain-same ms (update ms i (record (ms i) { owner = o })) v is (λ j k. ground arith)
      (λ j k. ground arith)

module _ {s : System} (inv : Inv s) (t i : ℕ) where
  free_is_unheld : (s.mutexes i).owner ≡ none → (u : ℕ) → ¬ In i (s.held u)
  free_is_unheld e u m = cc (inv.owned u i m)

  took-Inv :
      (s.mutexes i).hierarchy_value < s.value t
      → (s.mutexes i).owner ≡ none
      → Inv (took s t i (taken t (s.value t) (s.mutexes i)))
  took-Inv lt free = record { chain = chain; owned = owned }
    where
      n : System
      n = took s t i (taken t (s.value t) (s.mutexes i))

      kept : (u : ℕ) → Chain n.mutexes (s.value u) (s.held u)
      kept u = Chain-update s.mutexes i _ _ _ (free_is_unheld free u) (inv.chain u)

      saved : s.value t ≡ (n.mutexes i).previous_hierarchy_value
      saved = ground arith

      own : Chain n.mutexes (s.mutexes i).hierarchy_value (i ∷ s.held t)
      own = (ground arith, ground arith, subst (λ v. Chain n.mutexes v (s.held t)) saved (kept t))

      chain : (u : ℕ) → Chain n.mutexes (n.value u) (n.held u)
      chain u = elim (ℕ_discrete t u) [
        | yes e ↦
            subst (λ u. Chain n.mutexes (n.value u) (n.held u)) e
              (rw (update_self, update_self) own)
        | no e ↦ rw (update-ne s.value t _ u e, update-ne s.held t _ u e) (kept u)
      ]

      owned : (u j : ℕ) → In j (n.held u) → (n.mutexes j).owner ≡ some u
      owned u j m = ground (arith, inv.owned u j, free_is_unheld free u)

  gave-Inv :
      In i (s.held t)
      → s.value t ≡ (s.mutexes i).hierarchy_value
      → Inv (
          gave s t i (record {
            mutex = record (s.mutexes i) { owner = none };
            value = (s.mutexes i).previous_hierarchy_value;
          }))
  gave-Inv m e = record { chain = chain; owned = owned }
    where
      n : System
      n = gave s t i (record {
        mutex = record (s.mutexes i) { owner = none };
        value = (s.mutexes i).previous_hierarchy_value;
      })

      latest :
          (rest : List ℕ) × (s.held t ≡ i ∷ rest)
          × Chain s.mutexes (s.mutexes i).previous_hierarchy_value rest
          × ¬ In i rest
      latest = head_of_value s.mutexes (s.value t) (s.held t) i (inv.chain t) m e

      removed : remove i (s.held t) ≡ latest.0
      removed = ground arith

      chain : (u : ℕ) → Chain n.mutexes (n.value u) (n.held u)
      chain u = elim (ℕ_discrete t u) [
        | yes q ↦
            subst (λ u. Chain n.mutexes (n.value u) (n.held u)) q
              (rw (update_self, update_self, removed) (Chain-owner s.mutexes i none _ _ latest.2))
        | no q ↦
            rw (update-ne s.value t _ u q, update-ne s.held t _ u q)
              (Chain-owner s.mutexes i none _ _ (inv.chain u))
      ]

      owned : (u j : ℕ) → In j (n.held u) → (n.mutexes j).owner ≡ some u
      owned u j k =
          ground
            (arith, inv.owned u j, inv.owned t i m, removed, latest.3, In-remove j i (s.held t))

-- Every completed call keeps each thread's locks a descending chain of mutexes that it owns.
pub Step-Inv : {s u : System} → Step s u → Inv s → Inv u
Step-Inv {s} (locks t i e) inv =
    let (lt, free, q) = lock-returned t (s.value t) (s.mutexes i) e in
    subst (λ a. Inv (took s t i a)) (sym q) (took-Inv inv t i lt free)
Step-Inv {s} (try_locks t i e) inv =
    let (lt, free, q) = try_lock-returned t (s.value t) (s.mutexes i) e in
    subst (λ a. Inv (took s t i a)) (sym q) (took-Inv inv t i lt free)
Step-Inv {s} (unlocks t i m e) inv =
    let (q, r) = unlock-returned (s.value t) (s.mutexes i) e in
    subst (λ a. Inv (gave s t i a)) (sym r) (gave-Inv inv t i m q)

-- In every reachable state each thread holds mutexes of strictly falling levels, its thread-local
-- value is the level of the latest one (ULONG_MAX if it holds none), each mutex has saved the
-- value to go back to, and it owns what it holds.
pub Reach-Inv : {levels : ℕ → ℕ} {s : System} → Reach levels s → Inv s
Reach-Inv {levels} here = start-Inv levels
Reach-Inv (next r st) = Step-Inv st (Reach-Inv r)
