-- ===== src/Containers/HazardStack.antt =====
-- include/playground/threading/lockfree_stack_hazard_pointer.hpp: LockfreeStackHazardPointer.
-- Threads move one atomic operation at a time; a node has an address, and `new` gives any
-- address that is not in use. Thread number t has hazard pointer t, and a thread beyond them
-- gets none. `reclaim` is the list `nodes_to_reclaim_`: its cells are private until the
-- exchange that adds them, so that the adding is one move. `depth`, `status` and `holder` are
-- ghosts: how many nodes are in the stack, what each address is used for, and which thread has
-- a removed node in its hands.
pub mod Invariant
pub mod Moves
pub mod Removal
pub mod Reclaim
pub mod Calls
pub mod Safety
mod Tests
use playground_cpp.Common.{
  Distinct, member, member-In, In-member, at_each, ℕ, ◌+◌, ◌-◌, Bool, true, false, not, ◌&&◌,
  Option, none, some, List, [], ◌∷◌, update, ◌==◌, ltb, if◌then◌else◌,
}
use playground_cpp.Containers.SharedStack.{
  Node, Status, unborn, owned, stacked, removed, same_pointer,
}

abbrev pub max_hazard_pointers : ℕ
max_hazard_pointers = 100

-- In Push: with a new node before the load, and before an exchange. In Pop: before the store
-- to the hazard pointer, before the load after it, before the load of `next_`, before the
-- exchange, before the hazard pointer is cleared, before the swap, before the test of hazard
-- pointer i for a node, before the exchange of the list, and between two nodes of it.
pub data Pc {ℓ} (T : Type ℓ) : Type ℓ where
  idle threw : Pc T
  made pushing : T → ℕ → Pc T
  announcing reloading : Option ℕ → Pc T
  following : ℕ → Pc T
  exchanging : ℕ → Option ℕ → Pc T
  dropping : Option ℕ → Pc T
  taking : ℕ → Pc T
  scanning : (node i : ℕ) → (rest : List ℕ) → (own : Bool) → Option T → Pc T
  collecting : Option T → Pc T
  sweeping : List ℕ → Option T → Pc T
  returned : Option T → Pc T

pub record State {ℓ} (T : Type ℓ) : Type ℓ where
  pub head_ : Option ℕ
  pub nodes : ℕ → Node T
  pub hazards : ℕ → Option ℕ
  pub reclaim : List ℕ
  pub pcs : ℕ → Pc T
  pub depth : ℕ
  pub status : ℕ → Status
  pub holder : ℕ → Option ℕ

-- A call of Push with a value, for which `new` gives the address, or of Pop.
pub data Call {ℓ} (T : Type ℓ) : Type ℓ where
  push : T → ℕ → Call T
  pop : Call T

unfoldable pub is_free : Status → Bool
is_free unborn = true
is_free (owned t) = false
is_free (stacked k) = false
is_free removed = false

module _ {ℓ} {T : Type ℓ} where
  abbrev pub init : State T
  init = record {
    head_ = none;
    nodes = λ p. record { data_ = none; next_ = none };
    hazards = λ t. none;
    reclaim = [];
    pcs = λ t. idle;
    depth = 0;
    status = λ p. unborn;
    holder = λ p. none;
  }

  abbrev pub at : Pc T → ℕ → State T → State T
  at pc t s = record s { pcs = update s.pcs t pc }

  unfoldable pub make_node : T → ℕ → ℕ → State T → State T
  make_node v p t s = record s {
    nodes = update s.nodes p (record { data_ = some v; next_ = none });
    pcs = update s.pcs t (made v p);
    status = update s.status p (owned t);
  }

  unfoldable pub load_next_of_new : T → ℕ → ℕ → State T → State T
  load_next_of_new v p t s = record s {
    nodes = update s.nodes p (record (s.nodes p) { next_ = s.head_ });
    pcs = update s.pcs t (pushing v p);
  }

  unfoldable pub publish : ℕ → ℕ → State T → State T
  publish p t s = record s {
    head_ = some p;
    pcs = update s.pcs t idle;
    depth = s.depth + 1;
    status = update s.status p (stacked s.depth);
  }

  unfoldable pub push_exchange : (fails : Bool) → T → ℕ → ℕ → State T → State T
  unfolding load_next_of_new publish
  push_exchange fails v p t s =
      if same_pointer s.head_ (s.nodes p).next_ && not fails
      then publish p t s
      else load_next_of_new v p t s

  unfoldable pub start_call : Call T → ℕ → State T → State T
  unfolding make_node is_free
  start_call (push v p) t s = if is_free (s.status p) then make_node v p t s else s
  start_call pop t s = at (if ltb t max_hazard_pointers then announcing s.head_ else threw) t s

  unfoldable pub announce : Option ℕ → ℕ → State T → State T
  announce o t s = record s { hazards = update s.hazards t o; pcs = update s.pcs t (reloading o) }

  unfoldable pub confirmed : Option ℕ → Pc T
  confirmed none = dropping none
  confirmed (some a) = following a

  unfoldable pub reload : Option ℕ → ℕ → State T → State T
  unfolding confirmed
  reload o t s = at (if same_pointer s.head_ o then confirmed o else announcing s.head_) t s

  unfoldable pub unlink : ℕ → Option ℕ → ℕ → State T → State T
  unlink a n t s = record s {
    head_ = n;
    pcs = update s.pcs t (dropping (some a));
    depth = s.depth - 1;
    status = update s.status a removed;
    holder = update s.holder a (some t);
  }

  unfoldable pub pop_exchange : ℕ → Option ℕ → ℕ → State T → State T
  unfolding unlink
  pop_exchange a n t s =
      if same_pointer s.head_ (some a) then unlink a n t s else at (announcing s.head_) t s

  unfoldable pub dropped : Option ℕ → Pc T
  dropped none = returned none
  dropped (some a) = taking a

  unfoldable pub drop_hazard : Option ℕ → ℕ → State T → State T
  unfolding dropped
  drop_hazard o t s = record s {
    hazards = update s.hazards t none;
    pcs = update s.pcs t (dropped o);
  }

  unfoldable pub take_data : ℕ → ℕ → State T → State T
  take_data a t s = record s {
    nodes = update s.nodes a (record (s.nodes a) { data_ = none });
    pcs = update s.pcs t (scanning a 0 [] true (s.nodes a).data_);
  }

  abbrev pub after_node : List ℕ → Bool → Option T → Pc T
  after_node rest own res = if own then collecting res else sweeping rest res

  unfoldable pub delete_node : ℕ → Pc T → ℕ → State T → State T
  delete_node a pc t s = record s { pcs = update s.pcs t pc; status = update s.status a unborn }

  unfoldable pub reclaim_later : ℕ → Pc T → ℕ → State T → State T
  reclaim_later a pc t s = record s {
    reclaim = a ∷ s.reclaim;
    pcs = update s.pcs t pc;
    holder = update s.holder a none;
  }

  -- One round of the loop of OutstandingHazardPointersFor, and what follows it.
  unfoldable pub scan : ℕ → ℕ → List ℕ → Bool → Option T → ℕ → State T → State T
  unfolding delete_node reclaim_later
  scan a i rest own res t s =
      if ltb i max_hazard_pointers
      then (if same_pointer (s.hazards i) (some a)
          then reclaim_later a (after_node rest own res) t s
          else at (scanning a (i + 1) rest own res) t s)
      else delete_node a (after_node rest own res) t s

  unfoldable pub collect : Option T → ℕ → State T → State T
  collect res t s = record s {
    reclaim = [];
    pcs = update s.pcs t (sweeping s.reclaim res);
    holder = λ a. if member a s.reclaim then some t else s.holder a;
  }

  unfoldable pub sweep : List ℕ → Option T → Pc T
  sweep [] res = returned res
  sweep (x ∷ xs) res = scanning x 0 xs false res

  unfoldable pub go_on : Call T → (fails : Bool) → Pc T → ℕ → State T → State T
  unfolding load_next_of_new push_exchange start_call announce reload pop_exchange drop_hazard
      take_data scan collect sweep
  go_on c fails idle t s = start_call c t s
  go_on c fails threw t s = at idle t s
  go_on c fails (made v p) t s = load_next_of_new v p t s
  go_on c fails (pushing v p) t s = push_exchange fails v p t s
  go_on c fails (announcing o) t s = announce o t s
  go_on c fails (reloading o) t s = reload o t s
  go_on c fails (following a) t s = at (exchanging a (s.nodes a).next_) t s
  go_on c fails (exchanging a n) t s = pop_exchange a n t s
  go_on c fails (dropping o) t s = drop_hazard o t s
  go_on c fails (taking a) t s = take_data a t s
  go_on c fails (scanning a i rest own res) t s = scan a i rest own res t s
  go_on c fails (collecting res) t s = collect res t s
  go_on c fails (sweeping xs res) t s = at (sweep xs res) t s
  go_on c fails (returned res) t s = at idle t s

  -- A move is a thread, the call that it makes if it is in none, and whether its exchange
  -- fails for no reason.
  unfoldable pub run : List (ℕ × (Call T × Bool)) → State T → State T
  unfolding go_on
  run [] s = s
  run ((t, (c, fails)) ∷ ms) s = run ms (go_on c fails (s.pcs t) t s)
