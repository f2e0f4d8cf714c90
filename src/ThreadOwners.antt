-- ===== src/ThreadOwners.antt =====
-- include/playground/threading/joining_thread.hpp, scoped_thread.hpp and threads_guard.hpp:
-- owners of a std::thread. Every object has a number, and a std::thread is the number of the
-- thread that it stands for, or nothing. `join`, `detach`, the assignment and the destructor
-- of a std::thread do what the standard says: the first two throw on one that stands for
-- nothing, the others end the program on one that stands for a thread.
pub mod Owned
pub mod Invariant
pub mod Calls
pub mod Laws
pub mod Guard
mod Tests
use playground_cpp.Common.{
  ℕ, ◌+◌, Bool, true, false, ◌&&◌, ◌==◌, Option, none, some, List, [], ◌∷◌, update, if◌then◌else◌,
}

pub data Fate : Type 0 where
  unstarted running joined detached : Fate

-- An object that does not exist, a std::thread of a caller, a JoiningThread, or a ScopedThread.
pub data Kind : Type 0 where
  absent plain joining scoped : Kind

pub record World : Type 0 where
  pub objects : ℕ → Option ℕ
  pub kinds : ℕ → Kind
  pub fates : ℕ → Fate
  pub started : ℕ
  pub terminated : Bool

abbrev pub init : World
init = record {
  objects = λ i. none;
  kinds = λ i. absent;
  fates = λ id. unstarted;
  started = 0;
  terminated = false;
}

abbrev pub joinable : Option ℕ → Bool
joinable none = false
joinable (some id) = true

abbrev pub finish : Fate → ℕ → Option ℕ → World → Option World
finish fate i none w = none
finish fate i (some id) w =
    some (record w { objects = update w.objects i none; fates = update w.fates id fate })

unfoldable pub join : ℕ → World → Option World
join i w = finish joined i (w.objects i) w

unfoldable pub detach : ℕ → World → Option World
detach i w = finish detached i (w.objects i) w

abbrev pub terminate : World → World
terminate w = record w { terminated = true }

-- A call in a function that is noexcept.
abbrev pub or_terminate : Option World → World → World
or_terminate none w = terminate w
or_terminate (some w') w = w'

abbrev pub set_kind : ℕ → Kind → World → World
set_kind i kind w = record w { kinds = update w.kinds i kind }

-- The construction of `i` from std::move(j).
abbrev pub move_from : ℕ → ℕ → World → World
move_from i j w = record w { objects = update (update w.objects j none) i (w.objects j) }

-- The assignment of std::move(j) to `i`.
abbrev pub move_assign : ℕ → ℕ → World → World
move_assign i j w = if joinable (w.objects i) then terminate w else move_from i j w

abbrev pub destroy_thread : ℕ → World → World
destroy_thread i w = if joinable (w.objects i) then terminate w else w

abbrev pub start : ℕ → World → World
start i w = record w {
  objects = update w.objects i (some w.started);
  fates = update w.fates w.started running;
  started = w.started + 1;
}

unfoldable pub join_if_joinable : ℕ → World → World
unfolding join
join_if_joinable i w = if joinable (w.objects i) then or_terminate (join i w) w else w

unfoldable pub launch : ℕ → World → World
launch i w = set_kind i joining (start i w)

unfoldable pub move_construct : ℕ → ℕ → World → World
move_construct i j w = set_kind i joining (move_from i j w)

unfoldable pub assign : ℕ → ℕ → World → World
unfolding join_if_joinable
assign i j w = move_assign i j (join_if_joinable i w)

unfoldable pub destroy : ℕ → World → World
unfolding join_if_joinable
destroy i w = set_kind i absent (destroy_thread i (join_if_joinable i w))

unfoldable pub swap : ℕ → ℕ → World → World
swap i j w = record w { objects = update (update w.objects i (w.objects j)) j (w.objects i) }

-- With `j` moved into the parameter; `none` when the constructor throws.
unfoldable pub scope : ℕ → ℕ → World → Option World
scope i j w =
    let moved = move_from i j w in
    if joinable (moved.objects i) then some (set_kind i scoped moved) else none

unfoldable pub end_scope : ℕ → World → World
unfolding join
end_scope i w = let w' = or_terminate (join i w) w in set_kind i absent (destroy_thread i w')

-- The destructor of a ThreadsGuard of these threads.
unfoldable pub end_guard : List ℕ → World → World
unfolding join_if_joinable
end_guard [] w = w
end_guard (i ∷ threads) w = end_guard threads (join_if_joinable i w)

pub data Call : Type 0 where
  spawn default_construct launch_in join_in detach_in destroy_in end_scope_in : ℕ → Call
  move_construct_from adopt assign_from assign_thread swap_with scope_from : ℕ → ℕ → Call
  end_guard_of : List ℕ → Call

abbrev pub rank : Kind → ℕ
rank absent = 0
rank plain = 1
rank joining = 2
rank scoped = 3

abbrev pub is : Kind → ℕ → World → Bool
is kind i w = rank (w.kinds i) == rank kind

-- A call that throws leaves everything as it was.
abbrev pub caught : Option World → World → World
caught none w = w
caught (some w') w = w'

abbrev pub all_plain : List ℕ → World → Bool
all_plain [] w = true
all_plain (i ∷ threads) w = is plain i w && all_plain threads w

-- A call of the program, which is none if the objects are not there for it.
unfoldable pub call : Call → World → World
unfolding launch move_construct assign swap join detach destroy scope end_scope end_guard
call (spawn i) w = if is absent i w then set_kind i plain (start i w) else w
call (default_construct i) w = if is absent i w then set_kind i joining w else w
call (launch_in i) w = if is absent i w then launch i w else w
call (move_construct_from i j) w =
    if is absent i w && is joining j w then move_construct i j w else w
call (adopt i j) w = if is absent i w && is plain j w then move_construct i j w else w
call (assign_from i j) w = if is joining i w && is joining j w then assign i j w else w
call (assign_thread i j) w = if is joining i w && is plain j w then assign i j w else w
call (swap_with i j) w = if is joining i w && is joining j w then swap i j w else w
call (join_in i) w = if is joining i w then caught (join i w) w else w
call (detach_in i) w = if is joining i w then caught (detach i w) w else w
call (destroy_in i) w = if is joining i w then destroy i w else w
call (scope_from i j) w = if is absent i w && is plain j w then caught (scope i j w) w else w
call (end_scope_in i) w = if is scoped i w then end_scope i w else w
call (end_guard_of threads) w = if all_plain threads w then end_guard threads w else w

unfoldable pub run : List Call → World → World
unfolding call
run [] w = w
run (c ∷ cs) w = run cs (call c w)
