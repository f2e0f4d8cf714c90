-- ===== src/Interrupt/Wakeup.antt =====
-- When an interruptible wait of interruptiable_thread.hpp ends, and what it leaves behind.
use playground_cpp.Common.{ℕ, ◌≡◌, ◌≢◌, refl, sym, subst, Bool, true, false, none, List, [], ◌∷◌}
use playground_cpp.Interrupt.{
  Outcome, finished, interrupted, failed, Answer, holds, fails, throws, Waiter, locking, checking,
  about, asleep, woken, rechecking, unlocking, pointing, setting, testing, asking, resting,
  last_point, clearing, ended, stored, State, Move, waits, times_out, init, start_wait, step, run,
}
use playground_cpp.Interrupt.Invariant.{InvAt, Inv, run-Inv, start-Inv}

asleep_pending :
    (d : ℕ) (s : State)
    → Inv s
    → s.waiter ≡ asleep d
    → s.flag_ ≡ true
    → (t : ℕ) × (s.setters t ≡ stored)
asleep_pending d s h e = (subst (InvAt s) e h).1

-- No interrupt is lost: in any order of the moves, when the flag is set and the thread sleeps
-- in the wait on a condition_variable_any, some call of Set has yet to notify.
pub no_lost_interrupt :
    (any : Bool) (c d : ℕ) (ms : List Move)
    → let s = run ms (init (start_wait any c)) in
      s.waiter ≡ asleep d → s.flag_ ≡ true → (t : ℕ) × (s.setters t ≡ stored)
no_lost_interrupt any c d ms =
    asleep_pending d (run ms (init (start_wait any c)))
      (run-Inv ms (init (start_wait any c)) (start-Inv any c))

-- A wait that has ended has left no condition variable in the flag and does not hold the
-- mutex, and it is interrupted only when the flag is set, in any order of the moves.
ended_wait :
    (any : Bool) (c : ℕ) (o : Outcome) (ms : List Move)
    → let s = run ms (init (start_wait any c)) in
      s.waiter ≡ ended o
      → ((s.held ≡ false) × ((s.cv_any_ ≡ none) × (s.cv_ ≡ none)))
        × (o ≡ interrupted → s.flag_ ≡ true)
ended_wait any c o ms e =
    subst (InvAt (run ms (init (start_wait any c)))) e
      (run-Inv ms (init (start_wait any c)) (start-Inv any c))

-- Past the last InterruptPoint with nothing to report.
abbrev pub Late : Waiter → Type 0
Late (locking c) = ⊥
Late (checking c) = ⊥
Late (about c) = ⊥
Late (asleep c) = ⊥
Late (woken c) = ⊥
Late (rechecking c) = ⊥
Late (unlocking o) = o ≡ finished
Late (pointing c) = ⊥
Late (setting c) = ⊥
Late (testing c) = ⊥
Late (asking c) = ⊥
Late (resting c) = ⊥
Late (last_point c) = ⊥
Late (clearing o) = o ≡ finished
Late (ended o) = o ≡ finished

-- Four moves of the thread, with the answers of the predicate, and the end of its `wait_for`
-- after each. Nothing wakes it from a wait on a condition_variable_any.
abbrev pub four_rounds : Answer → Answer → Answer → Answer → List Move
four_rounds a1 a2 a3 a4 =
    waits a1 ∷ times_out ∷ waits a2 ∷ times_out ∷ waits a3 ∷ times_out ∷ waits a4 ∷ times_out ∷ []

abbrev pub EndsFrom : Waiter → State → Type 0
EndsFrom w s = (o : Outcome) × ((s.waiter ≡ ended o) × (o ≡ finished → Late w))

rounds_end :
    (a1 a2 a3 a4 : Answer) (w : Waiter) (s : State)
    → ((t : ℕ) → s.setters t ≢ stored)
    → InvAt s w
    → s.flag_ ≡ true
    → EndsFrom w (run (four_rounds a1 a2 a3 a4) (record s { flag_ = true; waiter = w }))
unfolding run step
rounds_end a1 a2 a3 a4 (locking c) s none_stored h set = (interrupted, (refl, λ e. absurd (cc e)))
rounds_end a1 a2 a3 a4 (checking c) s none_stored h set = (interrupted, (refl, λ e. absurd (cc e)))
rounds_end a1 a2 a3 a4 (about c) s none_stored h set =
    let (t, e) = h.1 set in absurd (none_stored t e)
rounds_end a1 a2 a3 a4 (asleep c) s none_stored h set =
    let (t, e) = h.1 set in absurd (none_stored t e)
rounds_end a1 a2 a3 a4 (woken c) s none_stored h set = (interrupted, (refl, λ e. absurd (cc e)))
rounds_end a1 a2 a3 a4 (rechecking c) s none_stored h set =
    (interrupted, (refl, λ e. absurd (cc e)))
rounds_end a1 a2 a3 a4 (unlocking o) s none_stored h set = (o, (refl, λ e. e))
rounds_end a1 a2 a3 a4 (pointing c) s none_stored h set = (interrupted, (refl, λ e. absurd (cc e)))
rounds_end a1 a2 a3 a4 (setting c) s none_stored h set = (interrupted, (refl, λ e. absurd (cc e)))
rounds_end a1 a2 a3 a4 (testing c) s none_stored h set = (interrupted, (refl, λ e. absurd (cc e)))
rounds_end holds a2 a3 a4 (asking c) s none_stored h set = (interrupted, (refl, λ e. absurd (cc e)))
rounds_end fails a2 a3 a4 (asking c) s none_stored h set = (interrupted, (refl, λ e. absurd (cc e)))
rounds_end throws a2 a3 a4 (asking c) s none_stored h set = (failed, (refl, λ e. absurd (cc e)))
rounds_end a1 a2 a3 a4 (resting c) s none_stored h set = (interrupted, (refl, λ e. absurd (cc e)))
rounds_end a1 a2 a3 a4 (last_point c) s none_stored h set =
    (interrupted, (refl, λ e. absurd (cc e)))
rounds_end a1 a2 a3 a4 (clearing o) s none_stored h set = (o, (refl, λ e. e))
rounds_end a1 a2 a3 a4 (ended o) s none_stored h set = (o, (refl, λ e. e))

-- An interrupt ends the wait: from any state that a wait can reach with the flag set and every
-- call of Set either before its store or past its notification, the thread comes to the end of
-- the wait within four moves of its own, whatever the predicate answers, with nothing but the
-- time of a `wait_for` to wake it from then on; and it does not return as if nothing had
-- happened unless it was past its last InterruptPoint.
pub interrupt_ends_wait :
    (a1 a2 a3 a4 : Answer) (any : Bool) (c : ℕ) (ms : List Move)
    → let s = run ms (init (start_wait any c)) in
      s.flag_ ≡ true
      → ((t : ℕ) → s.setters t ≢ stored)
      → EndsFrom s.waiter (run (four_rounds a1 a2 a3 a4) s)
interrupt_ends_wait a1 a2 a3 a4 any c ms set none_stored =
    let s = run ms (init (start_wait any c)) in
    let h = run-Inv ms (init (start_wait any c)) (start-Inv any c) in
    let ends = rounds_end a1 a2 a3 a4 s.waiter s none_stored h set in
    subst (λ b. EndsFrom s.waiter (run (four_rounds a1 a2 a3 a4) (record s { flag_ = b })))
      (sym set) ends
