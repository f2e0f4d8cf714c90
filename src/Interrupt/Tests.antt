-- ===== src/Interrupt/Tests.antt =====
-- The waits of interruptiable_thread.hpp in concrete orders of their moves.
use playground_cpp.Common.{
  ℕ, ◌≡◌, ◌≢◌, refl, true, false, List, [], ◌∷◌, update, ◌==◌, inl, inr, Bool-cases,
}
use playground_cpp.Interrupt.{
  interrupted, fails, asleep, ended, ready, stored, notified, Move, waits, sets, init, start_wait,
  step, run,
}
use playground_cpp.Interrupt.Wakeup.{no_lost_interrupt, four_rounds, EndsFrom, interrupt_ends_wait}

-- The flag is set after the first InterruptPoint and before the wait; Set notifies once the
-- thread sleeps.
abbrev set_before_wait : List Move
set_before_wait = waits fails ∷ waits fails ∷ sets 7 ∷ sets 7 ∷ waits fails ∷ []

abbrev woken_by_set : List Move
woken_by_set =
    waits fails
    ∷ waits fails
    ∷ sets 7
    ∷ sets 7
    ∷ waits fails
    ∷ sets 7
    ∷ waits fails
    ∷ waits fails
    ∷ waits fails
    ∷ []

sleeps : (run set_before_wait (init (start_wait true 3))).waiter ≡ asleep 3
unfolding run step
sleeps = refl

is_interrupted : (run woken_by_set (init (start_wait true 3))).waiter ≡ ended interrupted
unfolding run step
is_interrupted = refl

no_lost_interrupt_example :
    (t : ℕ) × ((run set_before_wait (init (start_wait true 3))).setters t ≡ stored)
unfolding run step
no_lost_interrupt_example = no_lost_interrupt true 3 3 set_before_wait refl refl

-- The predicate fails, the thread rests, and Set comes.
abbrev set_while_resting : List Move
set_while_resting = waits fails ∷ waits fails ∷ waits fails ∷ waits fails ∷ sets 7 ∷ sets 7 ∷ []

none_stored : (t : ℕ) → update (update (λ u. ready) 7 stored) 7 notified t ≢ stored
none_stored t = elim (Bool-cases (7 == t)) [ inl e ↦ rw (e) (λ p. cc) | inr e ↦ rw (e) (λ p. cc) ]

interrupt_ends_wait_example :
    let s = run set_while_resting (init (start_wait false 3)) in
    EndsFrom s.waiter (run (four_rounds fails fails fails fails) s)
unfolding run step
interrupt_ends_wait_example =
    interrupt_ends_wait fails fails fails fails false 3 set_while_resting refl none_stored
