-- ===== src/Locks/RwLock/Tests.antt =====
-- Runs of rw_lock.hpp, and its theorems at them.
use playground_cpp.Common.{
  ℕ, ◌≡◌, ◌≢◌, refl, true, false, none, List, [], ◌∷◌, arith, if◌then◌else◌, ltb,
}
use playground_cpp.Locks.RwLock.{
  fresh, one_writer, all_readers, can_write, finish_write, lock_read, lock_write, unlock_write,
}
use playground_cpp.Locks.RwLock.System.{
  Call, reads, ends_read, writes, new_threads, call, step, run,
}
use playground_cpp.Locks.RwLock.Starving.{readers_starve_writers}
use playground_cpp.Locks.RwLock.Exclusion.{Asks, done, ask, taken, write_section}

-- The reader gives the lock back before a writer asks for it.
abbrev reader_then_writer : List (ℕ × Call)
reader_then_writer = (1, ends_read) ∷ (2, writes) ∷ (2, writes) ∷ []

-- A lock whose only reader is gone still counts it.
still_counted :
    (run reader_then_writer (step 1 reads (new_threads fresh))).lock
    ≡ record { writing = false; readers = 1; writer_waiting = 1 }
unfolding run step call lock_read
still_counted = refl

readers_starve_writers_example :
    let s = run reader_then_writer (step 1 reads (new_threads fresh)) in
    (s.lock.writing ≡ false)
    × ((cnt : ℕ) → (finish_write cnt s.lock ≡ none) × (lock_write cnt s.lock ≡ none))
readers_starve_writers_example = readers_starve_writers 1 reader_then_writer (omega arith)

-- A reader and a writer ask while thread 1 writes.
abbrev others_ask : List (ℕ × Call)
others_ask = (2, reads) ∷ (3, writes) ∷ []

others_ask-Asks : Asks 1 others_ask
others_ask-Asks = ask 2 reads (omega arith) refl (ask 3 writes (omega arith) refl done)

writer_woken : (unlock_write 1 (run others_ask (taken 1 fresh)).lock).wake ≡ one_writer
unfolding run step call lock_read unlock_write
writer_woken = refl

write_section_example :
    let s = run others_ask (taken 1 fresh) in
    (s.lock.writing ≡ true)
    × ((u : ℕ)
        → u ≢ 1
        → (lock_read (s.cnts u) s.lock ≡ none)
          × (finish_write (s.cnts u) s.lock ≡ none)
          × (lock_write (s.cnts u) s.lock ≡ none))
    × (unlock_write (s.cnts 1) s.lock ≡ record {
      cnt = 0;
      lock = record s.lock { writing = false };
      wake = if ltb 0 s.lock.writer_waiting then one_writer else all_readers;
    })
    × (can_write (record s.lock { writing = false }) ≡ true)
unfolding can_write
write_section_example = write_section fresh 1 others_ask refl others_ask-Asks
