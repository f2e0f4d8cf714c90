-- ===== src/Containers/CountedStack.antt =====
-- include/playground/threading/lockfree_stack_reference_counting.hpp:
-- LockfreeStackReferenceCounting. Threads move one atomic operation at a time; a node has an
-- address, and `new` gives any address that is not in use. `depth`, `lives` and `externals`
-- are ghosts: how many nodes are in the stack, what each address is used for, and the external
-- count that stands beside the pointer to it. A thread that has seen the last reference to a
-- node go deletes it in its next move.
pub mod Invariant
pub mod Kept
pub mod Quiet
pub mod Moves
pub mod Removal
pub mod Counts
pub mod GiveBack
pub mod Safety
mod Tests
use playground_cpp.Common.{
  ℕ, ◌+◌, ◌-◌, ◌%◌, ◌^◌, Bool, true, false, not, ◌&&◌, Option, none, some, List, [], ◌∷◌, update,
  ◌==◌, if◌then◌else◌,
}
use playground_cpp.Containers.SharedStack.{same_pointer}
use playground_cpp.Containers.HazardStack.{Call, push, pop}

pub record CountedNodePtr : Type 0 where
  pub node_ : Option ℕ
  pub external_count_ : ℕ

pub record Node {ℓ} (T : Type ℓ) : Type ℓ where
  pub data_ : Option T
  pub next_ : CountedNodePtr
  pub internal_count_ : ℕ

-- What an address is used for: nothing, a node of Push, a node at a depth of the stack, a node
-- that the thread has removed and whose counts it has not joined, a node whose references are
-- counted in the node, and a node that the thread is to delete.
pub data Life : Type 0 where
  unborn released : Life
  owned stacked removed doomed : ℕ → Life

-- What a thread does after a delete: it returns from Pop or starts its loop again.
pub data After {ℓ} (T : Type ℓ) : Type ℓ where
  then_return : Option T → After T
  then_retry : After T

-- In Push: with a new node before the load, and before an exchange. In Pop: before the load of
-- the head, in IncreaseHeadCount before its exchange, before the load of `next_`, before the
-- exchange, before the swap, before the addition, before the subtraction of the other branch,
-- and before a delete.
pub data Pc {ℓ} (T : Type ℓ) : Type ℓ where
  idle loading : Pc T
  made pushing : T → ℕ → Pc T
  increasing : CountedNodePtr → Pc T
  following taking : ℕ → ℕ → Pc T
  exchanging : ℕ → ℕ → CountedNodePtr → Pc T
  adding : ℕ → ℕ → Option T → Pc T
  giving_back : ℕ → Pc T
  deleting : ℕ → After T → Pc T
  returned : Option T → Pc T

pub record State {ℓ} (T : Type ℓ) : Type ℓ where
  pub head_ : CountedNodePtr
  pub nodes : ℕ → Node T
  pub pcs : ℕ → Pc T
  pub depth : ℕ
  pub lives : ℕ → Life
  pub externals : ℕ → ℕ

abbrev pub null : CountedNodePtr
null = record { node_ = none; external_count_ = 0 }

abbrev pub counted : ℕ → ℕ → CountedNodePtr
counted a e = record { node_ = some a; external_count_ = e }

unfoldable pub same_counted : CountedNodePtr → CountedNodePtr → Bool
same_counted p q = same_pointer p.node_ q.node_ && (p.external_count_ == q.external_count_)

abbrev pub minus_two : ℕ → ℕ
minus_two e = (e + (2 ^ 32 - 2)) % 2 ^ 32

abbrev pub minus_one : ℕ → ℕ
minus_one n = (n + (2 ^ 32 - 1)) % 2 ^ 32

abbrev pub negated : ℕ → ℕ
negated n = (2 ^ 32 - n) % 2 ^ 32

unfoldable pub is_unborn : Life → Bool
is_unborn unborn = true
is_unborn released = false
is_unborn (owned t) = false
is_unborn (stacked k) = false
is_unborn (removed t) = false
is_unborn (doomed t) = false

module _ {ℓ} {T : Type ℓ} where
  abbrev pub init : State T
  init = record {
    head_ = null;
    nodes = λ p. record { data_ = none; next_ = null; internal_count_ = 0 };
    pcs = λ t. idle;
    depth = 0;
    lives = λ p. unborn;
    externals = λ p. 0;
  }

  abbrev pub at : Pc T → ℕ → State T → State T
  at pc t s = record s { pcs = update s.pcs t pc }

  unfoldable pub make_node : T → ℕ → ℕ → State T → State T
  make_node v p t s = record s {
    nodes = update s.nodes p (record { data_ = some v; next_ = null; internal_count_ = 0 });
    pcs = update s.pcs t (made v p);
    lives = update s.lives p (owned t);
  }

  unfoldable pub load_next_of_new : T → ℕ → ℕ → State T → State T
  load_next_of_new v p t s = record s {
    nodes = update s.nodes p (record (s.nodes p) { next_ = s.head_ });
    pcs = update s.pcs t (pushing v p);
  }

  unfoldable pub publish : ℕ → ℕ → State T → State T
  publish p t s = record s {
    head_ = counted p 1;
    pcs = update s.pcs t idle;
    depth = s.depth + 1;
    lives = update s.lives p (stacked s.depth);
    externals = update s.externals p 1;
  }

  unfoldable pub push_exchange : (fails : Bool) → T → ℕ → ℕ → State T → State T
  unfolding load_next_of_new publish
  push_exchange fails v p t s =
      if same_counted s.head_ (s.nodes p).next_ && not fails
      then publish p t s
      else load_next_of_new v p t s

  unfoldable pub start_call : Call T → ℕ → State T → State T
  unfolding make_node
  start_call (push v p) t s = if is_unborn (s.lives p) then make_node v p t s else s
  start_call pop t s = at loading t s

  -- The exchange of IncreaseHeadCount, which has found `old` in the head.
  unfoldable pub increase : Option ℕ → ℕ → ℕ → State T → State T
  increase none e t s = record s {
    head_ = record { node_ = none; external_count_ = (e + 1) % 2 ^ 32 };
    pcs = update s.pcs t (returned none);
  }
  increase (some a) e t s = record s {
    head_ = counted a ((e + 1) % 2 ^ 32);
    pcs = update s.pcs t (following a ((e + 1) % 2 ^ 32));
    externals = update s.externals a ((e + 1) % 2 ^ 32);
  }

  unfoldable pub increase_exchange : CountedNodePtr → ℕ → State T → State T
  unfolding increase
  increase_exchange old t s =
      if same_counted s.head_ old
      then increase old.node_ old.external_count_ t s
      else at (increasing s.head_) t s

  unfoldable pub unlink : ℕ → ℕ → CountedNodePtr → ℕ → State T → State T
  unlink a e n t s = record s {
    head_ = n;
    pcs = update s.pcs t (taking a e);
    depth = s.depth - 1;
    lives = update s.lives a (removed t);
  }

  unfoldable pub pop_exchange : ℕ → ℕ → CountedNodePtr → ℕ → State T → State T
  unfolding unlink
  pop_exchange a e n t s =
      if same_counted s.head_ (counted a e) then unlink a e n t s else at (giving_back a) t s

  unfoldable pub take_data : ℕ → ℕ → ℕ → State T → State T
  take_data a e t s = record s {
    nodes = update s.nodes a (record (s.nodes a) { data_ = none });
    pcs = update s.pcs t (adding a e (s.nodes a).data_);
  }

  unfoldable pub add_count : ℕ → ℕ → Option T → ℕ → State T → State T
  add_count a e res t s =
      let node_of = s.nodes a in
      let nodes' =
        update s.nodes a
          (record node_of { internal_count_ = (node_of.internal_count_ + minus_two e) % 2 ^ 32 }) in
      if node_of.internal_count_ == negated (minus_two e)
      then record s {
        nodes = nodes';
        pcs = update s.pcs t (deleting a (then_return res));
        lives = update s.lives a (doomed t);
      }
      else record s {
        nodes = nodes';
        pcs = update s.pcs t (returned res);
        lives = update s.lives a released;
      }

  unfoldable pub give_back : ℕ → ℕ → State T → State T
  give_back a t s =
      let node_of = s.nodes a in
      let nodes' =
        update s.nodes a (record node_of { internal_count_ = minus_one node_of.internal_count_ }) in
      if node_of.internal_count_ == 1
      then record s {
        nodes = nodes';
        pcs = update s.pcs t (deleting a then_retry);
        lives = update s.lives a (doomed t);
      }
      else record s { nodes = nodes'; pcs = update s.pcs t loading }

  abbrev pub after_delete : After T → Pc T
  after_delete (then_return res) = returned res
  after_delete then_retry = loading

  unfoldable pub delete_node : ℕ → After T → ℕ → State T → State T
  delete_node a after t s = record s {
    pcs = update s.pcs t (after_delete after);
    lives = update s.lives a unborn;
  }

  unfoldable pub go_on : Call T → (fails : Bool) → Pc T → ℕ → State T → State T
  unfolding load_next_of_new push_exchange start_call increase_exchange pop_exchange take_data
      add_count give_back delete_node
  go_on c fails idle t s = start_call c t s
  go_on c fails (made v p) t s = load_next_of_new v p t s
  go_on c fails (pushing v p) t s = push_exchange fails v p t s
  go_on c fails loading t s = at (increasing s.head_) t s
  go_on c fails (increasing old) t s = increase_exchange old t s
  go_on c fails (following a e) t s = at (exchanging a e (s.nodes a).next_) t s
  go_on c fails (exchanging a e n) t s = pop_exchange a e n t s
  go_on c fails (taking a e) t s = take_data a e t s
  go_on c fails (adding a e res) t s = add_count a e res t s
  go_on c fails (giving_back a) t s = give_back a t s
  go_on c fails (deleting a after) t s = delete_node a after t s
  go_on c fails (returned res) t s = at idle t s

  -- A move is a thread, the call that it makes if it is in none, and whether its weak
  -- exchange fails for no reason.
  unfoldable pub run : List (ℕ × (Call T × Bool)) → State T → State T
  unfolding go_on
  run [] s = s
  run ((t, (c, fails)) ∷ ms) s = run ms (go_on c fails (s.pcs t) t s)
