-- ===== src/Interrupt.antt =====
-- include/playground/threading/interruptiable_thread.hpp: the flag of one thread, its two
-- interruptible waits, and the threads that call Interrupt on it. A move is one atomic
-- operation or one critical section of `set_clear_mutex_`; `held` says whether the waiting
-- thread holds that mutex between two moves. A thread that cannot take the mutex stays where
-- it is. Condition variables have numbers.
pub mod Invariant
pub mod Wakeup
mod Tests
use playground_cpp.Common.{
  ℕ, Bool, true, false, Option, none, some, List, [], ◌∷◌, update, ◌==◌, if◌then◌else◌,
}

-- How a wait ends: `failed` when the predicate throws.
pub data Outcome : Type 0 where
  finished interrupted failed : Outcome

-- What a call of the predicate gives.
pub data Answer : Type 0 where
  holds fails throws : Answer

-- Where the waiting thread is. In `InterruptFlag::wait`: before the lock of the mutex, at the
-- first InterruptPoint, before the wait, in it, woken and before the lock, at the second
-- InterruptPoint, and before the end of `custom_lock`. In the other InterruptibleWait: at the
-- first InterruptPoint, before SetConditionVariable, before the test of the flag, before the
-- predicate, in `wait_for`, at the second InterruptPoint, and before the end of `guard`.
pub data Waiter : Type 0 where
  locking checking about asleep woken rechecking : ℕ → Waiter
  unlocking : Outcome → Waiter
  pointing setting testing asking resting last_point : ℕ → Waiter
  clearing : Outcome → Waiter
  ended : Outcome → Waiter

-- A call of Set: before it, after its store, and at its end.
pub data Setter : Type 0 where
  ready stored notified : Setter

pub record State : Type 0 where
  pub flag_ : Bool
  pub cv_ : Option ℕ
  pub cv_any_ : Option ℕ
  pub held : Bool
  pub waiter : Waiter
  pub setters : ℕ → Setter

-- The wait on a condition_variable_any, or on a condition_variable.
abbrev pub start_wait : (any : Bool) → ℕ → Waiter
start_wait true c = locking c
start_wait false c = pointing c

-- A move of the waiting thread, of a thread in Set, the end of the time of `wait_for`, or
-- anything else that wakes the waiting thread: a notification that is not from Set, or none at
-- all.
pub data Move : Type 0 where
  waits : Answer → Move
  sets : ℕ → Move
  wakes times_out : Move

abbrev pub init : Waiter → State
init w = record {
  flag_ = false;
  cv_ = none;
  cv_any_ = none;
  held = false;
  waiter = w;
  setters = λ t. ready;
}

-- Wakes the thread if it sleeps on a condition variable of which the test holds.
unfoldable pub wake_if : (ℕ → Bool) → Waiter → Waiter
wake_if test (asleep c) = if test c then woken c else asleep c
wake_if test (resting c) = if test c then testing c else resting c
wake_if test (locking c) = locking c
wake_if test (checking c) = checking c
wake_if test (about c) = about c
wake_if test (woken c) = woken c
wake_if test (rechecking c) = rechecking c
wake_if test (unlocking o) = unlocking o
wake_if test (pointing c) = pointing c
wake_if test (setting c) = setting c
wake_if test (testing c) = testing c
wake_if test (asking c) = asking c
wake_if test (last_point c) = last_point c
wake_if test (clearing o) = clearing o
wake_if test (ended o) = ended o

-- A `wait_for` whose time is over; `wait` has no time.
unfoldable pub time_out : Waiter → Waiter
time_out (resting c) = testing c
time_out (locking c) = locking c
time_out (checking c) = checking c
time_out (about c) = about c
time_out (asleep c) = asleep c
time_out (woken c) = woken c
time_out (rechecking c) = rechecking c
time_out (unlocking o) = unlocking o
time_out (pointing c) = pointing c
time_out (setting c) = setting c
time_out (testing c) = testing c
time_out (asking c) = asking c
time_out (last_point c) = last_point c
time_out (clearing o) = clearing o
time_out (ended o) = ended o

-- The outcome at an InterruptPoint that ends the wait.
unfoldable pub interrupt_point : Bool → Outcome
interrupt_point flag = if flag then interrupted else finished

unfoldable pub ask : Answer → ℕ → Waiter
ask holds c = last_point c
ask fails c = resting c
ask throws c = clearing failed

-- `InterruptFlag::wait` and `InterruptibleWait`.
unfoldable pub wait_step : Answer → Waiter → State → State
unfolding interrupt_point ask
wait_step answer (locking c) s = record s { cv_any_ = some c; held = true; waiter = checking c }
wait_step answer (checking c) s = record s {
  waiter = if s.flag_ then unlocking interrupted else about c;
}
wait_step answer (about c) s = record s { held = false; waiter = asleep c }
wait_step answer (asleep c) s = s
wait_step answer (woken c) s = record s { held = true; waiter = rechecking c }
wait_step answer (rechecking c) s = record s { waiter = unlocking (interrupt_point s.flag_) }
wait_step answer (unlocking o) s = record s { cv_any_ = none; held = false; waiter = ended o }
wait_step answer (pointing c) s = record s {
  waiter = if s.flag_ then ended interrupted else setting c;
}
wait_step answer (setting c) s = record s { cv_ = some c; waiter = testing c }
wait_step answer (testing c) s = record s { waiter = if s.flag_ then last_point c else asking c }
wait_step answer (asking c) s = record s { waiter = ask answer c }
wait_step answer (resting c) s = s
wait_step answer (last_point c) s = record s { waiter = clearing (interrupt_point s.flag_) }
wait_step answer (clearing o) s = record s { cv_ = none; waiter = ended o }
wait_step answer (ended o) s = s

unfoldable pub notify : Option ℕ → Waiter → Waiter
unfolding wake_if
notify none w = w
notify (some c) w = wake_if (λ d. d == c) w

-- `cv_` if there is one, and else `cv_any_`.
unfoldable pub first_of : Option ℕ → Option ℕ → Option ℕ
first_of none b = b
first_of (some a) b = some a

-- The critical section of Set, lines 19 to 24.
unfoldable pub notify_all : State → State
unfolding first_of notify
notify_all s = record s { waiter = notify (first_of s.cv_ s.cv_any_) s.waiter }

unfoldable pub set_step : ℕ → Setter → State → State
unfolding notify_all
set_step t ready s = record s { flag_ = true; setters = update s.setters t stored }
set_step t stored s =
    if s.held then s else record (notify_all s) { setters = update s.setters t notified }
set_step t notified s = s

unfoldable pub step : Move → State → State
unfolding wait_step set_step wake_if time_out
step (waits answer) s = wait_step answer s.waiter s
step (sets t) s = set_step t (s.setters t) s
step wakes s = record s { waiter = wake_if (λ c. true) s.waiter }
step times_out s = record s { waiter = time_out s.waiter }

unfoldable pub run : List Move → State → State
unfolding step
run [] s = s
run (m ∷ ms) s = run ms (step m s)
