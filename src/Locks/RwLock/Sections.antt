-- ===== src/Locks/RwLock/Sections.antt =====
-- Whole sections of rw_lock.hpp: a lock and its unlock by one thread.
use playground_cpp.Common.{
  ℕ, ◌+◌, ◌-◌, ◌<◌, ◌≡◌, true, Option, none, some, arith, if◌then◌else◌, ltb,
}
use playground_cpp.Locks.RwLock.{
  RwLock, After, uint_mod, can_read, can_write, lock_read, unlock_read, lock_write, unlock_write,
  nobody, one_writer,
}

-- `lock_read`, then `unlock_read`; `none` if the reader has to wait.
unfoldable pub read_section : ℕ → RwLock → Option After
unfolding lock_read unlock_read
read_section cnt l = elim (lock_read cnt l) [
  | none ↦ none
  | some a ↦ some (unlock_read a.cnt a.lock)
]

-- A thread's first read section on a lock that admits readers does not undo itself: it leaves
-- `readers_` one higher, wakes nobody, and leaves the thread's `lock_cnt_` wrapped to 2^32 - 1.
read_section_leaks :
    (l : RwLock)
    → can_read l ≡ true
    → l.readers + 1 < uint_mod
    → read_section 0 l
      ≡ some (record {
        cnt = uint_mod - 1;
        lock = record l { readers = l.readers + 1 };
        wake = nobody;
      })
unfolding read_section
read_section_leaks l ok h = ground arith

-- A writer on a lock with no reader and no writer that also reads, and then unlocks in the order
-- write, read, leaves `writing_` set: from then on every new reader and every new writer waits.
downgrade_sticks :
    (l : RwLock)
    → can_write l ≡ true
    → l.writer_waiting + 1 < uint_mod
    → (a b : After) × (lock_write 0 l ≡ some a)
      × (lock_read a.cnt a.lock ≡ some b)
      × (let c = unlock_write b.cnt b.lock in
          let d = unlock_read c.cnt c.lock in
          (d ≡ record {
            cnt = 0;
            lock = record l { writing = true };
            wake = if ltb 0 l.writer_waiting then one_writer else nobody;
          })
          × (lock_read 0 d.lock ≡ none)
          × (lock_write 0 d.lock ≡ none))
unfolding lock_write lock_read unlock_write unlock_read can_write
downgrade_sticks l free h = (
  record { cnt = 1; lock = record l { writing = true }; wake = nobody },
  record { cnt = 2; lock = record l { writing = true; readers = 1 }; wake = nobody },
  ground arith,
  ground arith,
  (ground arith, ground arith, ground arith),
)
