-- ===== src/Locks/RwLock.antt =====
-- include/playground/threading/rw_lock.hpp: a reader-writer lock over one mutex. Each function is
-- the critical section of a method. The thread-local `lock_cnt_[this]` of the calling thread is
-- the argument `cnt`; the counters are 32-bit unsigned. A wait on a condition variable splits a
-- method in two: what runs before the wait, and what runs once the predicate holds.
pub mod Sections
pub mod System
pub mod Starving
pub mod Exclusion
mod Tests
use playground_cpp.Common.{
  ℕ, ◌+◌, ◌-◌, ◌%◌, ◌^◌, Bool, true, false, not, ◌&&◌, ◌||◌, Option, none, some, ltb, ◌==◌,
  if◌then◌else◌,
}

abbrev pub uint_mod : ℕ
uint_mod = 2 ^ 32

abbrev pub inc : ℕ → ℕ
inc n = (n + 1) % uint_mod

abbrev pub dec : ℕ → ℕ
dec n = (n + uint_mod - 1) % uint_mod

pub record RwLock : Type 0 where
  pub writing : Bool
  pub readers : ℕ
  pub writer_waiting : ℕ

abbrev pub fresh : RwLock
fresh = record { writing = false; readers = 0; writer_waiting = 0 }

-- The condition variable that a method notifies.
pub data Wake : Type 0 where
  nobody : Wake
  one_writer : Wake
  all_readers : Wake

pub record After : Type 0 where
  pub cnt : ℕ
  pub lock : RwLock
  pub wake : Wake

-- The predicates of the two waits.
unfoldable pub can_read : RwLock → Bool
can_read l = not l.writing && (l.writer_waiting == 0)

unfoldable pub can_write : RwLock → Bool
can_write l = not l.writing && (l.readers == 0)

-- `none` while the reader waits.
unfoldable pub lock_read : ℕ → RwLock → Option After
unfolding can_read
lock_read cnt l =
    if ltb 0 cnt
    then some (record { cnt = inc cnt; lock = record l { readers = inc l.readers }; wake = nobody })
    else if can_read l
    then some (record { cnt = cnt; lock = record l { readers = inc l.readers }; wake = nobody })
    else none

-- `&&` stops at the first false test, so `readers_` falls only when `lock_cnt_` reaches 0.
unfoldable pub unlock_read : ℕ → RwLock → After
unlock_read cnt l =
    if not (dec cnt == 0) then record { cnt = dec cnt; lock = l; wake = nobody } else record {
      cnt = dec cnt;
      lock = record l { readers = dec l.readers };
      wake = if (dec l.readers == 0) && ltb 0 l.writer_waiting then one_writer else nobody;
    }

-- The last two lines of `lock_write`.
unfoldable pub take_write : ℕ → RwLock → After
take_write cnt l = record { cnt = inc cnt; lock = record l { writing = true }; wake = nobody }

-- `lock_write` up to the wait: `waits` when the caller now waits, `enters` when it does not
-- have to.
pub data Begin : Type 0 where
  waits : RwLock → Begin
  enters : After → Begin

unfoldable pub begin_write : ℕ → RwLock → Begin
unfolding take_write
begin_write cnt l =
    if (cnt == 0) || not l.writing
    then waits (record l { writer_waiting = inc l.writer_waiting })
    else enters (take_write cnt l)

-- From the wait to the return: `none` while the predicate is false.
unfoldable pub finish_write : ℕ → RwLock → Option After
unfolding can_write take_write
finish_write cnt l =
    if can_write l
    then some (take_write cnt (record l { writer_waiting = dec l.writer_waiting }))
    else none

-- `lock_write` with no other thread between its two parts.
unfoldable pub lock_write : ℕ → RwLock → Option After
unfolding begin_write finish_write
lock_write cnt l = elim (begin_write cnt l) [ waits l' ↦ finish_write cnt l' | enters a ↦ some a ]

unfoldable pub unlock_write : ℕ → RwLock → After
unlock_write cnt l =
    if not (dec cnt == 0) then record { cnt = dec cnt; lock = l; wake = nobody } else record {
      cnt = dec cnt;
      lock = record l { writing = false };
      wake = if ltb 0 l.writer_waiting then one_writer else all_readers;
    }
