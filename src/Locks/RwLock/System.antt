-- ===== src/Locks/RwLock/System.antt =====
-- Threads that call the methods of rw_lock.hpp in any order. A call runs under the mutex; one
-- that waits on a condition variable is tried again when the thread moves, and a thread in the
-- wait of lock_write does nothing else.
use playground_cpp.Common.{
  ℕ, Bool, true, false, Option, none, some, List, [], ◌∷◌, update, if◌then◌else◌,
}
use playground_cpp.Locks.RwLock.{
  RwLock, After, Begin, waits, enters, lock_read, unlock_read, begin_write, finish_write,
  unlock_write,
}

pub data Call : Type 0 where
  reads ends_read writes ends_write : Call

-- `cnts` is `lock_cnt_[this]` of each thread, and `waiting` says who is in the wait of lock_write.
pub record System : Type 0 where
  pub lock : RwLock
  pub cnts : ℕ → ℕ
  pub waiting : ℕ → Bool

-- Threads that have not used the lock.
abbrev pub new_threads : RwLock → System
new_threads l = record { lock = l; cnts = λ t. 0; waiting = λ t. false }

abbrev pub put : ℕ → After → System → System
put t a s = record s { lock = a.lock; cnts = update s.cnts t a.cnt }

-- A thread whose call returns, or one that waits and leaves all as it is.
abbrev pub put_if : ℕ → System → Option After → System
put_if t s none = s
put_if t s (some a) = put t a s

unfoldable pub try_finish : ℕ → System → System
unfolding finish_write
try_finish t s = elim (finish_write (s.cnts t) s.lock) as (λ x. System) [
  | none ↦ s
  | some a ↦ put t a (record s { waiting = update s.waiting t false })
]

abbrev pub put_or_wait : ℕ → System → Begin → System
put_or_wait t s (waits l) = record s { lock = l; waiting = update s.waiting t true }
put_or_wait t s (enters a) = put t a s

unfoldable pub call : Call → ℕ → System → System
unfolding lock_read unlock_read begin_write unlock_write
call reads t s = put_if t s (lock_read (s.cnts t) s.lock)
call ends_read t s = put t (unlock_read (s.cnts t) s.lock) s
call writes t s = put_or_wait t s (begin_write (s.cnts t) s.lock)
call ends_write t s = put t (unlock_write (s.cnts t) s.lock) s

unfoldable pub step : ℕ → Call → System → System
unfolding try_finish call
step t c s = if s.waiting t then try_finish t s else call c t s

unfoldable pub run : List (ℕ × Call) → System → System
unfolding step
run [] s = s
run ((t, c) ∷ ms) s = run ms (step t c s)
