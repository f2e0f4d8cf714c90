-- ===== src/Containers/SharedStack.antt =====
-- include/playground/threading/lockfree_stack_shared_ptr.hpp: LockfreeStackSharedPtr. Threads
-- move one atomic operation at a time. A node has the number of its allocation, which no other
-- node ever gets while a shared_ptr to it is held; a null pointer is `none`. `depth`, `status`
-- and `claimed` are ghosts: how many nodes are in the stack, what each node is used for, and
-- what the last pop of a thread took where it took effect.
pub mod Chain
pub mod Invariant
pub mod Moves
pub mod Exchanges
pub mod Linear
pub mod Alone
mod Tests
use playground_cpp.Common.{
  ℕ, ◌+◌, ◌-◌, Bool, true, false, not, ◌&&◌, Option, none, some, List, [], ◌∷◌, update, ◌==◌,
  if◌then◌else◌,
}

pub record Node {ℓ} (T : Type ℓ) : Type ℓ where
  pub data_ : Option T
  pub next_ : Option ℕ

-- Where a thread is: in Push with its new node, before the first load and before an exchange;
-- in Pop before the load of `next_`, before the exchange, before the store to `next_` and
-- before the load of `data_`; or at its end with the result.
pub data Pc {ℓ} (T : Type ℓ) : Type ℓ where
  idle : Pc T
  made : T → ℕ → Pc T
  pushing : T → ℕ → Pc T
  loaded : ℕ → Pc T
  popping : ℕ → Option ℕ → Pc T
  clearing reading : ℕ → Pc T
  returned : Option T → Pc T

-- A node of the stack knows how many are below it.
pub data Status : Type 0 where
  unborn : Status
  owned : ℕ → Status
  stacked : ℕ → Status
  removed : Status

pub record State {ℓ} (T : Type ℓ) : Type ℓ where
  pub head_ : Option ℕ
  pub nodes : ℕ → Node T
  pub fresh : ℕ
  pub pcs : ℕ → Pc T
  pub depth : ℕ
  pub status : ℕ → Status
  pub claimed : ℕ → Option T

-- What a move does to the stack at once, as a caller sees it.
pub data Action {ℓ} (T : Type ℓ) : Type ℓ where
  silent : Action T
  pushes : T → Action T
  pops : Option T → Action T
  finds_empty : Action T

-- What a thread does when it moves: the call that it makes if it is in none, of Push with a
-- value or of Pop, and whether its exchange, if it is at one, fails for no reason.
pub record Move {ℓ} (T : Type ℓ) : Type ℓ where
  pub call : Option T
  pub fails : Bool

unfoldable pub same_pointer : Option ℕ → Option ℕ → Bool
same_pointer none none = true
same_pointer none (some b) = false
same_pointer (some a) none = false
same_pointer (some a) (some b) = a == b

module _ {ℓ} {T : Type ℓ} where
  abbrev pub init : State T
  init = record {
    head_ = none;
    nodes = λ p. record { data_ = none; next_ = none };
    fresh = 0;
    pcs = λ t. idle;
    depth = 0;
    status = λ p. unborn;
    claimed = λ t. none;
  }

  abbrev pub with_next : ℕ → Option ℕ → State T → ℕ → Node T
  with_next p n s = update s.nodes p (record (s.nodes p) { next_ = n })

  unfoldable pub make_node : T → ℕ → State T → State T
  make_node v t s = record s {
    nodes = update s.nodes s.fresh (record { data_ = some v; next_ = none });
    fresh = s.fresh + 1;
    pcs = update s.pcs t (made v s.fresh);
    status = update s.status s.fresh (owned t);
  }

  -- `new_node->next_` becomes what the head is, by the load or by an exchange that fails.
  unfoldable pub load_next_of_new : T → ℕ → ℕ → State T → State T
  load_next_of_new v p t s = record s {
    nodes = with_next p s.head_ s;
    pcs = update s.pcs t (pushing v p);
  }

  unfoldable pub publish : ℕ → ℕ → State T → State T
  publish p t s = record s {
    head_ = some p;
    pcs = update s.pcs t idle;
    depth = s.depth + 1;
    status = update s.status p (stacked s.depth);
  }

  unfoldable pub push_exchange : (fails : Bool) → T → ℕ → ℕ → State T → Action T × State T
  unfolding same_pointer load_next_of_new publish
  push_exchange fails v p t s =
      if same_pointer s.head_ (s.nodes p).next_ && not fails
      then (pushes v, publish p t s)
      else (silent, load_next_of_new v p t s)

  -- `old_head` becomes what the head is, by the load or by an exchange that fails.
  unfoldable pub load_old_head : Option ℕ → ℕ → State T → Action T × State T
  load_old_head none t s = (
    finds_empty,
    record s { pcs = update s.pcs t (returned none); claimed = update s.claimed t none },
  )
  load_old_head (some a) t s = (silent, record s { pcs = update s.pcs t (loaded a) })

  unfoldable pub load_next : ℕ → ℕ → State T → State T
  load_next a t s = record s { pcs = update s.pcs t (popping a (s.nodes a).next_) }

  unfoldable pub unlink : ℕ → Option ℕ → ℕ → State T → State T
  unlink a n t s = record s {
    head_ = n;
    pcs = update s.pcs t (clearing a);
    depth = s.depth - 1;
    status = update s.status a removed;
    claimed = update s.claimed t (s.nodes a).data_;
  }

  unfoldable pub pop_exchange : (fails : Bool) → ℕ → Option ℕ → ℕ → State T → Action T × State T
  unfolding same_pointer unlink load_old_head
  pop_exchange fails a n t s =
      if same_pointer s.head_ (some a) && not fails
      then (pops (s.nodes a).data_, unlink a n t s)
      else load_old_head s.head_ t s

  unfoldable pub clear_next : ℕ → ℕ → State T → State T
  clear_next a t s = record s { nodes = with_next a none s; pcs = update s.pcs t (reading a) }

  unfoldable pub read_data : ℕ → ℕ → State T → State T
  read_data a t s = record s { pcs = update s.pcs t (returned (s.nodes a).data_) }

  unfoldable pub start_call : Option T → ℕ → State T → Action T × State T
  unfolding make_node load_old_head
  start_call (some v) t s = (silent, make_node v t s)
  start_call none t s = load_old_head s.head_ t s

  unfoldable pub go_on : Move T → Pc T → ℕ → State T → Action T × State T
  unfolding start_call load_next_of_new push_exchange load_next pop_exchange clear_next read_data
  go_on m idle t s = start_call m.call t s
  go_on m (made v p) t s = (silent, load_next_of_new v p t s)
  go_on m (pushing v p) t s = push_exchange m.fails v p t s
  go_on m (loaded a) t s = (silent, load_next a t s)
  go_on m (popping a n) t s = pop_exchange m.fails a n t s
  go_on m (clearing a) t s = (silent, clear_next a t s)
  go_on m (reading a) t s = (silent, read_data a t s)
  go_on m (returned r) t s = (silent, record s { pcs = update s.pcs t idle })

  abbrev pub step : ℕ × Move T → State T → Action T × State T
  unfolding go_on
  step m s = go_on (m.1) (s.pcs (m.0)) (m.0) s

  -- The actions of a schedule, in order, and the state at its end.
  unfoldable pub run : List (ℕ × Move T) → State T → List (Action T) × State T
  run [] s = ([], s)
  run (m ∷ ms) s =
      let (action, s') = step m s in let (actions, s'') = run ms s' in (action ∷ actions, s'')
