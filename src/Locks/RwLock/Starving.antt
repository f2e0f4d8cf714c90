-- ===== src/Locks/RwLock/Starving.antt =====
-- A first reader of rw_lock.hpp keeps all writers out.
use playground_cpp.Common.{
  ℕ, ◌+◌, ◌-◌, ◌%◌, ◌<◌, ◌≤◌, ◌≡◌, refl, sym, ◌∙◌, ap, subst, true, false, not, ◌||◌, none, some,
  List, [], ◌∷◌, length, update, at_each, arith, inl, inr, Bool-cases, ltb, ◌==◌,
}
use playground_cpp.Locks.RwLock.{
  RwLock, After, waits, nobody, uint_mod, inc, dec, fresh, can_read, can_write, lock_read,
  begin_write, finish_write, lock_write,
}
use playground_cpp.Locks.RwLock.System.{
  System, Call, reads, ends_read, writes, ends_write, new_threads, put, put_if, put_or_wait,
  try_finish, call, step, run,
}

-- `lock_cnt_` has been lowered so often more than raised, and has wrapped.
abbrev pub lowered : ℕ → ℕ
lowered n = (uint_mod - n) % uint_mod

-- After `moves` moves no writer is in, and a reader is counted.
pub record Starved (moves : ℕ) (s : System) : Type 0 where
  pub no_writer : s.lock.writing ≡ false
  pub counted : 1 ≤ s.lock.readers
  pub few : s.lock.readers ≤ moves + 1
  pub low : (t : ℕ) → (n : ℕ) × ((n ≤ moves) × (s.cnts t ≡ lowered n))

-- A call that leaves the writers out.
put-Starved :
    (moves t n : ℕ) (a : After) (s : System)
    → Starved moves s
    → a.lock.writing ≡ false
    → s.lock.readers ≤ a.lock.readers
    → a.lock.readers ≤ s.lock.readers + 1
    → n ≤ moves + 1
    → a.cnt ≡ lowered n
    → Starved (moves + 1) (put t a s)
put-Starved moves t n a s h clear more one le e =
    let counted = h.counted in
    let few = h.few in
    record {
      no_writer = clear;
      counted = omega arith;
      few = omega arith;
      low =
          at_each (λ u c. (n : ℕ) × ((n ≤ moves + 1) × (c ≡ lowered n))) t s.cnts a.cnt (n, (le, e))
            (λ u ne. let (m, (le', e')) = h.low u in (m, (omega arith, e')));
    }

later-Starved :
    (moves : ℕ) (s s' : System)
    → Starved moves s
    → s'.lock.writing ≡ false
    → s'.lock.readers ≡ s.lock.readers
    → s'.cnts ≡ s.cnts
    → Starved (moves + 1) s'
later-Starved moves s s' h clear same cnts =
    let counted = h.counted in
    let few = h.few in
    record {
      no_writer = clear;
      counted = omega arith;
      few = omega arith;
      low = λ u. let (m, (le, e)) = h.low u in (m, (omega arith, ap (λ c. c u) cnts ∙ e));
    }

-- The one writer's test of the counter fails, so that neither unlock changes the lock.
unlock_lem :
    (n : ℕ)
    → n + 1 < uint_mod
    → (dec (lowered n) ≡ lowered (n + 1)) × ((dec (lowered n) == 0) ≡ false)
unlock_lem n lt = (omega arith, ground arith)

unlock-Starved :
    (moves t : ℕ) (s : System)
    → moves + 1 < uint_mod
    → Starved moves s
    → Starved (moves + 1) (call ends_read t s) × Starved (moves + 1) (call ends_write t s)
unfolding call
unlock-Starved moves t s few h =
    let (n, (le, e)) = h.low t in
    let (lower, stays) = unlock_lem n (omega arith) in
    let test : (dec (s.cnts t) == 0) ≡ false = ap (λ c. dec c == 0) e ∙ stays in
    let kept : Starved (moves + 1)
        (put t (record { cnt = dec (s.cnts t); lock = s.lock; wake = nobody }) s) =
      put-Starved moves t (n + 1) (record { cnt = dec (s.cnts t); lock = s.lock; wake = nobody }) s
        h h.no_writer (omega arith) (omega arith) (omega arith) (ap dec e ∙ lower) in
    (rw (test) kept, rw (test) kept)

-- lock_read on each branch.
lock_read_nested :
    (cnt : ℕ) (l : RwLock)
    → ltb 0 cnt ≡ true
    → lock_read cnt l
      ≡ some (record { cnt = inc cnt; lock = record l { readers = inc l.readers }; wake = nobody })
unfolding lock_read
lock_read_nested cnt l e = rw (e) refl

lock_read_free :
    (cnt : ℕ) (l : RwLock)
    → ltb 0 cnt ≡ false
    → can_read l ≡ true
    → lock_read cnt l
      ≡ some (record { cnt = cnt; lock = record l { readers = inc l.readers }; wake = nobody })
unfolding lock_read
lock_read_free cnt l e f = rw (e, f) refl

lock_read_waits :
    (cnt : ℕ) (l : RwLock) → ltb 0 cnt ≡ false → can_read l ≡ false → lock_read cnt l ≡ none
unfolding lock_read
lock_read_waits cnt l e f = rw (e, f) refl

reads-Starved :
    (moves t : ℕ) (s : System)
    → moves + 2 < uint_mod
    → Starved moves s
    → Starved (moves + 1) (call reads t s)
unfolding call
reads-Starved moves t s few h =
    let (n, (le, e)) = h.low t in
    let most = h.few in
    let clear = h.no_writer in
    let readers : inc s.lock.readers ≡ s.lock.readers + 1 = omega arith in
    elim (Bool-cases (ltb 0 (s.cnts t))) [
      | inl nested ↦
          let one_less : inc (s.cnts t) ≡ lowered (n - 1) = ground arith in
          subst (Starved (moves + 1))
            (sym (ap (put_if t s) (lock_read_nested (s.cnts t) s.lock nested)))
            (put-Starved moves t (n - 1)
              (record {
                cnt = inc (s.cnts t);
                lock = record s.lock { readers = inc s.lock.readers };
                wake = nobody;
              })
              s h clear (omega arith) (omega arith) (omega arith) one_less)
      | inr first ↦ elim (Bool-cases (can_read s.lock)) [
        | inl free ↦
            subst (Starved (moves + 1))
              (sym (ap (put_if t s) (lock_read_free (s.cnts t) s.lock first free)))
              (put-Starved moves t n
                (record {
                  cnt = s.cnts t;
                  lock = record s.lock { readers = inc s.lock.readers };
                  wake = nobody;
                })
                s h clear (omega arith) (omega arith) (omega arith) e)
        | inr busy ↦
            subst (Starved (moves + 1))
              (sym (ap (put_if t s) (lock_read_waits (s.cnts t) s.lock first busy)))
              (later-Starved moves s s h clear refl refl)
      ]
    ]

no_entry :
    (moves cnt : ℕ) (s : System)
    → Starved moves s
    → (finish_write cnt s.lock ≡ none) × (lock_write cnt s.lock ≡ none)
unfolding finish_write lock_write can_write
no_entry moves cnt s h =
    let counted = h.counted in let clear = h.no_writer in (ground arith, ground arith)

try_finish-Starved :
    (moves t : ℕ) (s : System) → Starved moves s → Starved (moves + 1) (try_finish t s)
unfolding try_finish
try_finish-Starved moves t s h =
    let stuck : finish_write (s.cnts t) s.lock ≡ none = (no_entry moves (s.cnts t) s h).0 in
    subst
      (λ o. Starved (moves + 1) (elim o as (λ x. System) [
        | none ↦ s
        | some a ↦ put t a (record s { waiting = update s.waiting t false })
      ]))
      (sym stuck) (later-Starved moves s s h h.no_writer refl refl)

begin_write_waits :
    (cnt : ℕ) (l : RwLock)
    → l.writing ≡ false
    → begin_write cnt l ≡ waits (record l { writer_waiting = inc l.writer_waiting })
unfolding begin_write
begin_write_waits cnt l clear =
    let outside : ((cnt == 0) || not l.writing) ≡ true = ground arith in rw (outside) refl

writes-Starved :
    (moves t : ℕ) (s : System) → Starved moves s → Starved (moves + 1) (call writes t s)
unfolding call
writes-Starved moves t s h =
    let l = record s.lock { writer_waiting = inc s.lock.writer_waiting } in
    subst (Starved (moves + 1))
      (sym (ap (put_or_wait t s) (begin_write_waits (s.cnts t) s.lock h.no_writer)))
      (later-Starved moves s (record s { lock = l; waiting = update s.waiting t true }) h
        h.no_writer refl refl)

call-Starved :
    (moves t : ℕ) (c : Call) (s : System)
    → moves + 2 < uint_mod
    → Starved moves s
    → Starved (moves + 1) (call c t s)
call-Starved moves t reads s few h = reads-Starved moves t s few h
call-Starved moves t ends_read s few h = (unlock-Starved moves t s (omega arith) h).0
call-Starved moves t writes s few h = writes-Starved moves t s h
call-Starved moves t ends_write s few h = (unlock-Starved moves t s (omega arith) h).1

step-Starved :
    (moves t : ℕ) (c : Call) (s : System)
    → moves + 2 < uint_mod
    → Starved moves s
    → Starved (moves + 1) (step t c s)
unfolding step
step-Starved moves t c s few h = elim (Bool-cases (s.waiting t)) [
  | inl waits_in ↦ rw (waits_in) (try_finish-Starved moves t s h)
  | inr out ↦ rw (out) (call-Starved moves t c s few h)
]

run-Starved :
    (moves : ℕ) (ms : List (ℕ × Call)) (s : System)
    → moves + length ms + 2 < uint_mod
    → Starved moves s
    → Starved (moves + length ms) (run ms s)
unfolding run
run-Starved moves [] s few h = subst (λ k. Starved k s) (omega arith) h
run-Starved moves ((t, c) ∷ ms) s few h =
    subst (λ k. Starved k (run ms (step t c s))) (omega arith)
      (run-Starved (moves + 1) ms (step t c s) (omega arith)
        (step-Starved moves t c s (omega arith) h))

first-Starved : (r : ℕ) → Starved 0 (step r reads (new_threads fresh))
unfolding step call lock_read
first-Starved r = record {
  no_writer = refl;
  counted = omega arith;
  few = omega arith;
  low =
      at_each (λ u c. (n : ℕ) × ((n ≤ 0) × (c ≡ lowered n))) r (λ u. 0) 0 (0, (omega arith, refl))
        (λ u ne. (0, (omega arith, refl)));
}

-- Once a first thread has taken a fresh lock to read, no thread gets in to write: after any
-- calls of the four methods by any threads, its own unlock_read among them, fewer than 2^32 -
-- 2 in all, `writing_` is not set, no thread in the wait of lock_write can leave it, and no
-- lock_write begun then returns.
pub readers_starve_writers :
    (r : ℕ) (ms : List (ℕ × Call))
    → length ms + 2 < uint_mod
    → let s = run ms (step r reads (new_threads fresh)) in
      (s.lock.writing ≡ false)
      × ((cnt : ℕ) → (finish_write cnt s.lock ≡ none) × (lock_write cnt s.lock ≡ none))
readers_starve_writers r ms few =
    let h : Starved (0 + length ms) (run ms (step r reads (new_threads fresh))) =
      run-Starved 0 ms (step r reads (new_threads fresh)) (omega arith) (first-Starved r) in
    (h.no_writer, λ cnt. no_entry (0 + length ms) cnt (run ms (step r reads (new_threads fresh))) h)
