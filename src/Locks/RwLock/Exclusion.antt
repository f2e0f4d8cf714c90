-- ===== src/Locks/RwLock/Exclusion.antt =====
-- A writer of rw_lock.hpp that is in, while other threads ask for the lock.
use playground_cpp.Common.{
  ℕ, ◌≡◌, ◌≢◌, refl, sym, ◌∙◌, ap, subst, Bool, true, false, not, ◌||◌, none, some, List, [], ◌∷◌,
  update, update_self, update-ne, arith, inl, inr, Bool-cases, if◌then◌else◌, ltb, ◌==◌,
}
use playground_cpp.Locks.RwLock.{
  RwLock, After, waits, one_writer, all_readers, inc, dec, can_write, lock_read, take_write,
  begin_write, finish_write, lock_write, unlock_write,
}
use playground_cpp.Locks.RwLock.System.{
  System, Call, reads, ends_read, writes, ends_write, new_threads, put, put_if, put_or_wait,
  try_finish, call, step, run,
}

abbrev pub asks : Call → Bool
asks reads = true
asks ends_read = false
asks writes = true
asks ends_write = false

-- Calls by threads other than `w` that ask for the lock. None of them gets it, so none gives
-- it back.
pub data Asks (w : ℕ) : List (ℕ × Call) → Type 0 where
  done : Asks w []
  ask :
      (t : ℕ) (c : Call) {ms : List (ℕ × Call)}
      → t ≢ w
      → asks c ≡ true
      → Asks w ms
      → Asks w ((t, c) ∷ ms)

-- `w` is in, once.
pub record Held (w : ℕ) (s : System) : Type 0 where
  pub writer_in : s.lock.writing ≡ true
  pub no_reader : s.lock.readers ≡ 0
  pub own : s.cnts w ≡ 1
  pub others : (u : ℕ) → u ≢ w → s.cnts u ≡ 0

lock_read_waits : (cnt : ℕ) (l : RwLock) → cnt ≡ 0 → l.writing ≡ true → lock_read cnt l ≡ none
unfolding lock_read
lock_read_waits cnt l e h = ground arith

finish_write_waits : (cnt : ℕ) (l : RwLock) → l.writing ≡ true → finish_write cnt l ≡ none
unfolding finish_write can_write
finish_write_waits cnt l h = ground arith

begin_write_waits :
    (cnt : ℕ) (l : RwLock)
    → cnt ≡ 0
    → begin_write cnt l ≡ waits (record l { writer_waiting = inc l.writer_waiting })
unfolding begin_write
begin_write_waits cnt l e =
    let outside : ((cnt == 0) || not l.writing) ≡ true = ground arith in rw (outside) refl

lock_write_waits : (cnt : ℕ) (l : RwLock) → cnt ≡ 0 → l.writing ≡ true → lock_write cnt l ≡ none
unfolding lock_write can_write
lock_write_waits cnt l e h = ground arith

try_finish-Held : (w t : ℕ) (s : System) → Held w s → Held w (try_finish t s)
unfolding try_finish
try_finish-Held w t s h =
    subst
      (λ o. Held w (elim o as (λ x. System) [
        | none ↦ s
        | some a ↦ put t a (record s { waiting = update s.waiting t false })
      ]))
      (sym (finish_write_waits (s.cnts t) s.lock h.writer_in)) h

call-Held :
    (w t : ℕ) (c : Call) (s : System) → t ≢ w → asks c ≡ true → Held w s → Held w (call c t s)
unfolding call
call-Held w t reads s ne e h =
    subst (Held w)
      (sym (ap (put_if t s) (lock_read_waits (s.cnts t) s.lock (h.others t ne) h.writer_in))) h
call-Held w t ends_read s ne e h = absurd cc
call-Held w t writes s ne e h =
    subst (Held w)
      (sym (ap (put_or_wait t s) (begin_write_waits (s.cnts t) s.lock (h.others t ne))))
      (record { writer_in = h.writer_in; no_reader = h.no_reader; own = h.own; others = h.others })
call-Held w t ends_write s ne e h = absurd cc

step-Held :
    (w t : ℕ) (c : Call) (s : System) → t ≢ w → asks c ≡ true → Held w s → Held w (step t c s)
unfolding step
step-Held w t c s ne e h = elim (Bool-cases (s.waiting t)) [
  | inl waits_in ↦ rw (waits_in) (try_finish-Held w t s h)
  | inr out ↦ rw (out) (call-Held w t c s ne e h)
]

run-Held : (w : ℕ) (ms : List (ℕ × Call)) (s : System) → Asks w ms → Held w s → Held w (run ms s)
unfolding run
run-Held w [] s done h = h
run-Held w ((t, c) ∷ ms) s (ask _ _ ne e rest) h =
    run-Held w ms (step t c s) rest (step-Held w t c s ne e h)

-- The lock once `w` has called lock_write and the wait is over.
abbrev pub taken : ℕ → RwLock → System
taken w l = run ((w, writes) ∷ (w, writes) ∷ []) (new_threads l)

step-finishes :
    (t : ℕ) (c : Call) (s : System) (a : After)
    → s.waiting t ≡ true
    → finish_write (s.cnts t) s.lock ≡ some a
    → step t c s ≡ put t a (record s { waiting = update s.waiting t false })
unfolding step try_finish
step-finishes t c s a waits_in e = rw (waits_in) (
    ap
      (λ o. elim o as (λ x. System) [
        | none ↦ s
        | some a ↦ put t a (record s { waiting = update s.waiting t false })
      ])
      e)

finish_write_enters :
    (l : RwLock)
    → can_write l ≡ true
    → finish_write 0 l ≡ some (take_write 0 (record l { writer_waiting = dec l.writer_waiting }))
unfolding finish_write
finish_write_enters l free = rw (free) refl

begins_wait :
    (w : ℕ) (l : RwLock)
    → step w writes (new_threads l) ≡ record {
      lock = record l { writer_waiting = inc l.writer_waiting };
      cnts = λ t. 0;
      waiting = update (λ t. false) w true;
    }
unfolding step call begin_write
begins_wait w l = refl

taken-Held : (w : ℕ) (l : RwLock) → can_write l ≡ true → Held w (taken w l)
unfolding run can_write take_write
taken-Held w l free =
    let m : RwLock = record l { writer_waiting = inc l.writer_waiting } in
    let s : System = record { lock = m; cnts = λ t. 0; waiting = update (λ t. false) w true } in
    let begun : step w writes (new_threads l) ≡ s = begins_wait w l in
    let no_reader : l.readers ≡ 0 = ground arith in
    let finished =
      step-finishes w writes s (take_write 0 (record m { writer_waiting = dec m.writer_waiting }))
        (update_self (λ t. false) w true) (finish_write_enters m free) in
    subst (Held w) (sym (ap (step w writes) begun ∙ finished)) (record {
      writer_in = refl;
      no_reader = no_reader;
      own = update_self (λ t. 0) w 1;
      others = λ u ne. update-ne (λ t. 0) w 1 u (λ e. ne (sym e));
    })

held_lem :
    (w : ℕ) (s : System)
    → Held w s
    → (unlock_write (s.cnts w) s.lock ≡ record {
      cnt = 0;
      lock = record s.lock { writing = false };
      wake = if ltb 0 s.lock.writer_waiting then one_writer else all_readers;
    })
      × (can_write (record s.lock { writing = false }) ≡ true)
unfolding unlock_write can_write
held_lem w s h = let own = h.own in let no_reader = h.no_reader in (ground arith, ground arith)

-- A thread that has not used the lock calls lock_write while the lock has no reader and no writer,
-- and gets in. Whatever calls of lock_read and lock_write other new threads then make, `writing_`
-- is set and all of them wait, in either method, and a new caller too; and when the writer calls
-- unlock_write, its counter is 0 again, the lock has no reader and no writer, and a waiting writer
-- is woken if there is one, else all readers.
pub write_section :
    (l : RwLock) (w : ℕ) (ms : List (ℕ × Call))
    → can_write l ≡ true
    → Asks w ms
    → let s = run ms (taken w l) in
      (s.lock.writing ≡ true)
      × ((u : ℕ)
          → u ≢ w
          → (lock_read (s.cnts u) s.lock ≡ none)
            × (finish_write (s.cnts u) s.lock ≡ none)
            × (lock_write (s.cnts u) s.lock ≡ none))
      × (unlock_write (s.cnts w) s.lock ≡ record {
        cnt = 0;
        lock = record s.lock { writing = false };
        wake = if ltb 0 s.lock.writer_waiting then one_writer else all_readers;
      })
      × (can_write (record s.lock { writing = false }) ≡ true)
write_section l w ms free others =
    let s : System = run ms (taken w l) in
    let h : Held w s = run-Held w ms (taken w l) others (taken-Held w l free) in
    (
      h.writer_in,
      λ u ne. (
        lock_read_waits (s.cnts u) s.lock (h.others u ne) h.writer_in,
        finish_write_waits (s.cnts u) s.lock h.writer_in,
        lock_write_waits (s.cnts u) s.lock (h.others u ne) h.writer_in,
      ),
      (held_lem w s h).0,
      (held_lem w s h).1,
    )
