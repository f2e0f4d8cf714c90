-- ===== src/Containers/Queue.antt =====
-- include/playground/threading/threadsafe_queue.hpp: a linked queue with a dummy last node. Nodes
-- live in a heap; an address is a number, and `fresh` is what std::make_unique returns. Each
-- function is a critical section of a method.
pub mod Chain
pub mod Refine
pub mod Interleave
mod Tests
use playground_cpp.Common.{ℕ, Bool, true, false, Option, none, some, ◌==◌, if◌then◌else◌, update}

-- `data_` is null in the dummy node, and `next_` too.
pub record Node {ℓ} (T : Type ℓ) : Type ℓ where
  pub data_ : Option T
  pub next : Option ℕ

abbrev pub Heap {ℓ} : Type ℓ → Type ℓ
Heap T = ℕ → Option (Node T)

pub record Queue {ℓ} (T : Type ℓ) : Type ℓ where
  pub heap : Heap T
  pub head : ℕ
  pub tail : ℕ

-- How a method ends; a null pointer that is followed is a fault.
pub data Popped {ℓ} (T : Type ℓ) : Type ℓ where
  empty_queue : Popped T
  popped : T → Queue T → Popped T
  fault : Popped T

module _ {ℓ} {T : Type ℓ} where
  abbrev pub dummy : Node T
  dummy = record { data_ = none; next = none }

  unfoldable pub init : ℕ → Queue T
  init fresh = record { heap = update (λ a. none) fresh (some dummy); head = fresh; tail = fresh }

  -- The block under `tail_mtx_`: the dummy takes the value, and the new node becomes the dummy.
  unfoldable pub push : (fresh : ℕ) → T → Queue T → Queue T
  push fresh value q = record q {
    heap =
        update (update q.heap fresh (some dummy)) q.tail
          (some (record { data_ = some value; next = some fresh }));
    tail = fresh;
  }

  unfoldable pub is_empty : Queue T → Bool
  is_empty q = q.head == q.tail

  -- `pop_head`, and the end of `old_head`'s life at the return of its caller.
  unfoldable pub pop_head : Queue T → Popped T
  pop_head q = elim (q.heap q.head) [
    | none ↦ fault
    | some n ↦ elim n.data_ [
      | none ↦ fault
      | some v ↦ elim n.next [
        | none ↦ fault
        | some p ↦ popped v (record q { heap = update q.heap q.head none; head = p })
      ]
    ]
  ]

  unfoldable pub try_pop : Queue T → Popped T
  unfolding is_empty pop_head
  try_pop q = if is_empty q then empty_queue else pop_head q
