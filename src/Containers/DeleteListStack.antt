-- ===== src/Containers/DeleteListStack.antt =====
-- include/playground/threading/lockfree_statck_delete_list.hpp: LockfreeStackDeleteList.
-- Threads move one atomic operation at a time; a node has an address, and `new` gives any
-- address that is not in use. The removed nodes are chained by their own `next_`. `depth`,
-- `status`, `holder`, `pending` and `chains` are ghosts: how many nodes are in the stack, what
-- each address is used for, which thread has a removed node in its hands, and the nodes that
-- are chained from `to_delete_list_` and from the pointer of each thread.
pub mod Segments
pub mod Invariant
pub mod Kept
pub mod Quiet
pub mod Moves
pub mod Removal
pub mod Hands
pub mod Free
pub mod Reclaim
pub mod HandOn
pub mod Calls
pub mod Deletes
pub mod Chaining
pub mod Safety
mod Tests
use playground_cpp.Common.{
  ℕ, ◌+◌, ◌-◌, ◌%◌, ◌^◌, Bool, true, false, not, ◌&&◌, Option, none, some, List, [], ◌∷◌, ◌++◌,
  update, member, ◌==◌, if◌then◌else◌,
}
use playground_cpp.Containers.SharedStack.{
  Node, Status, unborn, owned, stacked, removed, same_pointer,
}
use playground_cpp.Containers.HazardStack.{Call, push, pop, is_free}

-- What a thread does after it has added a chain to the list: it deletes the node that it removed
-- itself, or it leaves the loop.
pub data After : Type 0 where
  then_free : Option ℕ → After
  then_subtract : After

-- In Push: with a new node before the load, and before an exchange. In Pop: before the load of
-- the head, before the load of `next_`, before the exchange, and before the swap. In
-- TryReclaim: before the test of the counter, before the exchange of the list, before the
-- subtraction, in the loop of DeleteNodes, in that of ChainPendingNodes, before its store,
-- before its exchange, before the subtraction of the other branch, and before the delete of
-- the node.
pub data Pc {ℓ} (T : Type ℓ) : Type ℓ where
  idle loading : Pc T
  made pushing : T → ℕ → Pc T
  following taking : ℕ → Pc T
  exchanging : ℕ → Option ℕ → Pc T
  checking claiming freeing : Option ℕ → Option T → Pc T
  leaving deleting : (old_head nodes : Option ℕ) → Option T → Pc T
  walking : (old_head : Option ℕ) → (first last : ℕ) → Option T → Pc T
  linking adding : After → (first last : ℕ) → Option T → Pc T
  subtracting returned : Option T → Pc T

pub record State {ℓ} (T : Type ℓ) : Type ℓ where
  pub head_ : Option ℕ
  pub thread_in_loop_ : ℕ
  pub to_delete_list_ : Option ℕ
  pub nodes : ℕ → Node T
  pub pcs : ℕ → Pc T
  pub depth : ℕ
  pub status : ℕ → Status
  pub holder : ℕ → Option ℕ
  pub pending : List ℕ
  pub chains : ℕ → List ℕ

unfoldable pub fetch_add : ℕ → ℕ
fetch_add n = (n + 1) % 2 ^ 32

unfoldable pub fetch_sub : ℕ → ℕ
fetch_sub n = (n + (2 ^ 32 - 1)) % 2 ^ 32

abbrev pub tail : List ℕ → List ℕ
tail [] = []
tail (x ∷ xs) = xs

module _ {ℓ} {T : Type ℓ} where
  abbrev pub init : State T
  init = record {
    head_ = none;
    thread_in_loop_ = 0;
    to_delete_list_ = none;
    nodes = λ p. record { data_ = none; next_ = none };
    pcs = λ t. idle;
    depth = 0;
    status = λ p. unborn;
    holder = λ p. none;
    pending = [];
    chains = λ t. [];
  }

  abbrev pub at : Pc T → ℕ → State T → State T
  at pc t s = record s { pcs = update s.pcs t pc }

  abbrev pub with_next : ℕ → Option ℕ → State T → ℕ → Node T
  with_next p n s = update s.nodes p (record (s.nodes p) { next_ = n })

  unfoldable pub make_node : T → ℕ → ℕ → State T → State T
  make_node v p t s = record s {
    nodes = update s.nodes p (record { data_ = some v; next_ = none });
    pcs = update s.pcs t (made v p);
    status = update s.status p (owned t);
  }

  unfoldable pub load_next_of_new : T → ℕ → ℕ → State T → State T
  load_next_of_new v p t s = record s {
    nodes = with_next p s.head_ s;
    pcs = update s.pcs t (pushing v p);
  }

  unfoldable pub publish : ℕ → ℕ → State T → State T
  publish p t s = record s {
    head_ = some p;
    pcs = update s.pcs t idle;
    depth = s.depth + 1;
    status = update s.status p (stacked s.depth);
  }

  unfoldable pub push_exchange : (fails : Bool) → T → ℕ → ℕ → State T → State T
  unfolding load_next_of_new publish
  push_exchange fails v p t s =
      if same_pointer s.head_ (s.nodes p).next_ && not fails
      then publish p t s
      else load_next_of_new v p t s

  unfoldable pub enter_loop : ℕ → State T → State T
  unfolding fetch_add
  enter_loop t s = record s {
    thread_in_loop_ = fetch_add s.thread_in_loop_;
    pcs = update s.pcs t loading;
  }

  unfoldable pub start_call : Call T → ℕ → State T → State T
  unfolding make_node enter_loop
  start_call (push v p) t s = if is_free (s.status p) then make_node v p t s else s
  start_call pop t s = enter_loop t s

  -- With `old_head` as it was loaded, or as an exchange that fails has stored it.
  unfoldable pub with_old_head : Option ℕ → Pc T
  with_old_head none = checking none none
  with_old_head (some a) = following a

  unfoldable pub unlink : ℕ → Option ℕ → ℕ → State T → State T
  unlink a n t s = record s {
    head_ = n;
    pcs = update s.pcs t (taking a);
    depth = s.depth - 1;
    status = update s.status a removed;
    holder = update s.holder a (some t);
  }

  unfoldable pub pop_exchange : (fails : Bool) → ℕ → Option ℕ → ℕ → State T → State T
  unfolding unlink with_old_head
  pop_exchange fails a n t s =
      if same_pointer s.head_ (some a) && not fails
      then unlink a n t s
      else at (with_old_head s.head_) t s

  unfoldable pub take_data : ℕ → ℕ → State T → State T
  take_data a t s = record s {
    nodes = update s.nodes a (record (s.nodes a) { data_ = none });
    pcs = update s.pcs t (checking (some a) (s.nodes a).data_);
  }

  -- The branch of TryReclaim for other threads in the loop.
  unfoldable pub keep_for_later : Option ℕ → Option T → ℕ → State T → State T
  keep_for_later none res t s = at (subtracting res) t s
  keep_for_later (some a) res t s = record s {
    pcs = update s.pcs t (linking then_subtract a a res);
    chains = update s.chains t (a ∷ []);
  }

  unfoldable pub check : Option ℕ → Option T → ℕ → State T → State T
  unfolding keep_for_later
  check old_head res t s =
      if s.thread_in_loop_ == 1
      then at (claiming old_head res) t s
      else keep_for_later old_head res t s

  unfoldable pub claim : Option ℕ → Option T → ℕ → State T → State T
  claim old_head res t s = record s {
    to_delete_list_ = none;
    pcs = update s.pcs t (leaving old_head s.to_delete_list_ res);
    holder = λ a. if member a s.pending then some t else s.holder a;
    pending = [];
    chains = update s.chains t s.pending;
  }

  unfoldable pub to_chain : Option ℕ → Option ℕ → Option T → Pc T
  to_chain old_head none res = freeing old_head res
  to_chain old_head (some first) res = walking old_head first first res

  unfoldable pub leave : Option ℕ → Option ℕ → Option T → ℕ → State T → State T
  unfolding fetch_sub to_chain
  leave old_head nodes res t s = record s {
    thread_in_loop_ = fetch_sub s.thread_in_loop_;
    pcs = update s.pcs t (
        if s.thread_in_loop_ == 1
        then deleting old_head nodes res
        else to_chain old_head nodes res);
  }

  -- A round of the loop of DeleteNodes.
  unfoldable pub delete_next : Option ℕ → Option ℕ → Option T → ℕ → State T → State T
  delete_next old_head none res t s = at (freeing old_head res) t s
  delete_next old_head (some a) res t s = record s {
    pcs = update s.pcs t (deleting old_head (s.nodes a).next_ res);
    status = update s.status a unborn;
    chains = update s.chains t (tail (s.chains t));
  }

  -- A test of the loop of ChainPendingNodes.
  unfoldable pub walk : Option ℕ → Option ℕ → ℕ → ℕ → Option T → Pc T
  walk old_head none first last res = linking (then_free old_head) first last res
  walk old_head (some n) first last res = walking old_head first n res

  unfoldable pub link : After → ℕ → ℕ → Option T → ℕ → State T → State T
  link after first last res t s = record s {
    nodes = with_next last s.to_delete_list_ s;
    pcs = update s.pcs t (adding after first last res);
  }

  unfoldable pub after_adding : After → Option T → Pc T
  after_adding (then_free old_head) res = freeing old_head res
  after_adding then_subtract res = subtracting res

  unfoldable pub hand_on : After → ℕ → Option T → ℕ → State T → State T
  unfolding after_adding
  hand_on after first res t s = record s {
    to_delete_list_ = some first;
    pcs = update s.pcs t (after_adding after res);
    holder = λ a. if member a (s.chains t) then none else s.holder a;
    pending = s.chains t ++ s.pending;
    chains = update s.chains t [];
  }

  unfoldable pub add : (fails : Bool) → After → ℕ → ℕ → Option T → ℕ → State T → State T
  unfolding hand_on link
  add fails after first last res t s =
      if same_pointer s.to_delete_list_ (s.nodes last).next_ && not fails
      then hand_on after first res t s
      else link after first last res t s

  unfoldable pub subtract : Option T → ℕ → State T → State T
  unfolding fetch_sub
  subtract res t s = record s {
    thread_in_loop_ = fetch_sub s.thread_in_loop_;
    pcs = update s.pcs t (returned res);
  }

  unfoldable pub delete_node : Option ℕ → Option T → ℕ → State T → State T
  delete_node none res t s = at (returned res) t s
  delete_node (some a) res t s = record s {
    pcs = update s.pcs t (returned res);
    status = update s.status a unborn;
  }

  unfoldable pub go_on : Call T → (fails : Bool) → Pc T → ℕ → State T → State T
  unfolding load_next_of_new push_exchange start_call with_old_head pop_exchange take_data check
      claim leave delete_next walk link add subtract delete_node
  go_on c fails idle t s = start_call c t s
  go_on c fails (made v p) t s = load_next_of_new v p t s
  go_on c fails (pushing v p) t s = push_exchange fails v p t s
  go_on c fails loading t s = at (with_old_head s.head_) t s
  go_on c fails (following a) t s = at (exchanging a (s.nodes a).next_) t s
  go_on c fails (exchanging a n) t s = pop_exchange fails a n t s
  go_on c fails (taking a) t s = take_data a t s
  go_on c fails (checking old_head res) t s = check old_head res t s
  go_on c fails (claiming old_head res) t s = claim old_head res t s
  go_on c fails (leaving old_head nodes res) t s = leave old_head nodes res t s
  go_on c fails (deleting old_head nodes res) t s = delete_next old_head nodes res t s
  go_on c fails (walking old_head first last res) t s =
      at (walk old_head (s.nodes last).next_ first last res) t s
  go_on c fails (linking after first last res) t s = link after first last res t s
  go_on c fails (adding after first last res) t s = add fails after first last res t s
  go_on c fails (subtracting res) t s = subtract res t s
  go_on c fails (freeing old_head res) t s = delete_node old_head res t s
  go_on c fails (returned res) t s = at idle t s

  -- A move is a thread, the call that it makes if it is in none, and whether its exchange
  -- fails for no reason.
  unfoldable pub run : List (ℕ × (Call T × Bool)) → State T → State T
  unfolding go_on
  run [] s = s
  run ((t, (c, fails)) ∷ ms) s = run ms (go_on c fails (s.pcs t) t s)
