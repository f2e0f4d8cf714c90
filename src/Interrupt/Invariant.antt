-- ===== src/Interrupt/Invariant.antt =====
-- Which condition variable the flag of interruptiable_thread.hpp has, who holds its mutex, and
-- what a set flag still has to do, between any two moves.
use playground_cpp.Common.{
  ℕ, ◌≡◌, refl, sym, ◌∙◌, ap, subst, inl, inr, Bool, true, false, Option, none, some, List, [], ◌∷◌,
  update, update_self, ◌==◌, if◌then◌else◌, arith, Bool-cases,
}
use playground_cpp.Interrupt.{
  Outcome, interrupted, Answer, holds, fails, throws, Waiter, locking, checking, about, asleep,
  woken, rechecking, unlocking, pointing, setting, testing, asking, resting, last_point, clearing,
  ended, Setter, ready, stored, notified, State, Move, waits, sets, wakes, times_out, time_out,
  init, start_wait, wake_if, interrupt_point, ask, wait_step, notify, first_of, notify_all,
  set_step, step, run,
}

-- What is registered, and what a thread that has set the flag and not notified yet, by where
-- the waiting thread is.
module _ (flag held : Bool) (any cv : Option ℕ) (setters : ℕ → Setter) where
  abbrev pub Registers : Bool → Option ℕ → Option ℕ → Type 0
  Registers h a c = (held ≡ h) × ((any ≡ a) × (cv ≡ c))

  abbrev pub Pending : Type 0
  Pending = flag ≡ true → (t : ℕ) × (setters t ≡ stored)

  abbrev pub Because : Outcome → Type 0
  Because o = o ≡ interrupted → flag ≡ true

  abbrev pub WaiterInv : Waiter → Type 0
  WaiterInv (locking c) = Registers false none none
  WaiterInv (checking c) = Registers true (some c) none
  WaiterInv (about c) = Registers true (some c) none × Pending
  WaiterInv (asleep c) = Registers false (some c) none × Pending
  WaiterInv (woken c) = Registers false (some c) none
  WaiterInv (rechecking c) = Registers true (some c) none
  WaiterInv (unlocking o) = (held ≡ true) × ((cv ≡ none) × Because o)
  WaiterInv (pointing c) = Registers false none none
  WaiterInv (setting c) = Registers false none none
  WaiterInv (testing c) = Registers false none (some c)
  WaiterInv (asking c) = Registers false none (some c)
  WaiterInv (resting c) = Registers false none (some c)
  WaiterInv (last_point c) = Registers false none (some c)
  WaiterInv (clearing o) = (held ≡ false) × ((any ≡ none) × Because o)
  WaiterInv (ended o) = Registers false none none × Because o

abbrev pub InvAt : State → Waiter → Type 0
InvAt s w = WaiterInv s.flag_ s.held s.cv_any_ s.cv_ s.setters w

abbrev pub Inv : State → Type 0
Inv s = InvAt s s.waiter

interrupt_point_lem : (flag : Bool) → interrupt_point flag ≡ interrupted → flag ≡ true
unfolding interrupt_point
interrupt_point_lem true e = refl
interrupt_point_lem false e = ground arith

ask-InvAt : (answer : Answer) (c : ℕ) (s : State) → InvAt s (asking c) → InvAt s (ask answer c)
unfolding ask
ask-InvAt holds c s h = h
ask-InvAt fails c s h = h
ask-InvAt throws c s h = (h.0, (h.1.0, λ e. absurd (cc e)))

-- What a test of the flag leads to.
point-InvAt :
    (s : State) (up down : Waiter)
    → (s.flag_ ≡ true → InvAt s up)
    → (s.flag_ ≡ false → InvAt s down)
    → InvAt s (if s.flag_ then up else down)
point-InvAt s up down h k = elim (Bool-cases s.flag_) [
  | inl set ↦ subst (λ b. InvAt s (if b then up else down)) (sym set) (h set)
  | inr clear ↦ subst (λ b. InvAt s (if b then up else down)) (sym clear) (k clear)
]

wait_step-Inv :
    (answer : Answer) (w : Waiter) (s : State)
    → s.waiter ≡ w
    → InvAt s w
    → Inv (wait_step answer w s)
unfolding wait_step
wait_step-Inv answer (locking c) s e h = (refl, (refl, h.1.1))
wait_step-Inv answer (checking c) s e h =
    point-InvAt s (unlocking interrupted) (about c) (λ set. (h.0, (h.1.1, λ i. set)))
      (λ clear. (h, λ set. absurd (cc (sym clear ∙ set))))
wait_step-Inv answer (about c) s e h = ((refl, h.0.1), h.1)
wait_step-Inv answer (asleep c) s e h = subst (InvAt s) (sym e) h
wait_step-Inv answer (woken c) s e h = (refl, h.1)
wait_step-Inv answer (rechecking c) s e h = (h.0, (h.1.1, interrupt_point_lem s.flag_))
wait_step-Inv answer (unlocking o) s e h = ((refl, (refl, h.1.0)), h.1.1)
wait_step-Inv answer (pointing c) s e h =
    point-InvAt s (ended interrupted) (setting c) (λ set. (h, λ i. set)) (λ clear. h)
wait_step-Inv answer (setting c) s e h = (h.0, (h.1.0, refl))
wait_step-Inv answer (testing c) s e h =
    point-InvAt s (last_point c) (asking c) (λ set. h) (λ clear. h)
wait_step-Inv answer (asking c) s e h = ask-InvAt answer c s h
wait_step-Inv answer (resting c) s e h = subst (InvAt s) (sym e) h
wait_step-Inv answer (last_point c) s e h = (h.0, (h.1.0, interrupt_point_lem s.flag_))
wait_step-Inv answer (clearing o) s e h = ((h.0, (h.1.0, refl)), h.1.1)
wait_step-Inv answer (ended o) s e h = subst (InvAt s) (sym e) h

wake_if-InvAt : (test : ℕ → Bool) (w : Waiter) (s : State) → InvAt s w → InvAt s (wake_if test w)
unfolding wake_if
wake_if-InvAt test (locking c) s h = h
wake_if-InvAt test (checking c) s h = h
wake_if-InvAt test (about c) s h = h
wake_if-InvAt test (asleep c) s h = elim (Bool-cases (test c)) [
  | inl e ↦ rw (e) h.0
  | inr e ↦ rw (e) h
]
wake_if-InvAt test (woken c) s h = h
wake_if-InvAt test (rechecking c) s h = h
wake_if-InvAt test (unlocking o) s h = h
wake_if-InvAt test (pointing c) s h = h
wake_if-InvAt test (setting c) s h = h
wake_if-InvAt test (testing c) s h = h
wake_if-InvAt test (asking c) s h = h
wake_if-InvAt test (resting c) s h = elim (Bool-cases (test c)) [
  | inl e ↦ rw (e) h
  | inr e ↦ rw (e) h
]
wake_if-InvAt test (last_point c) s h = h
wake_if-InvAt test (clearing o) s h = h
wake_if-InvAt test (ended o) s h = h

time_out-InvAt : (w : Waiter) (s : State) → InvAt s w → InvAt s (time_out w)
unfolding time_out
time_out-InvAt (resting c) s h = h
time_out-InvAt (locking c) s h = h
time_out-InvAt (checking c) s h = h
time_out-InvAt (about c) s h = h
time_out-InvAt (asleep c) s h = h
time_out-InvAt (woken c) s h = h
time_out-InvAt (rechecking c) s h = h
time_out-InvAt (unlocking o) s h = h
time_out-InvAt (pointing c) s h = h
time_out-InvAt (setting c) s h = h
time_out-InvAt (testing c) s h = h
time_out-InvAt (asking c) s h = h
time_out-InvAt (last_point c) s h = h
time_out-InvAt (clearing o) s h = h
time_out-InvAt (ended o) s h = h

-- The store of Set.
store-InvAt :
    (t : ℕ) (w : Waiter) (s : State)
    → InvAt s w
    → InvAt (record s { flag_ = true; setters = update s.setters t stored }) w
store-InvAt t (locking c) s h = h
store-InvAt t (checking c) s h = h
store-InvAt t (about c) s h = (h.0, λ set. (t, update_self s.setters t stored))
store-InvAt t (asleep c) s h = (h.0, λ set. (t, update_self s.setters t stored))
store-InvAt t (woken c) s h = h
store-InvAt t (rechecking c) s h = h
store-InvAt t (unlocking o) s h = (h.0, (h.1.0, λ i. refl))
store-InvAt t (pointing c) s h = h
store-InvAt t (setting c) s h = h
store-InvAt t (testing c) s h = h
store-InvAt t (asking c) s h = h
store-InvAt t (resting c) s h = h
store-InvAt t (last_point c) s h = h
store-InvAt t (clearing o) s h = (h.0, (h.1.0, λ i. refl))
store-InvAt t (ended o) s h = (h.0, λ i. refl)

-- What Set tells the waiting thread, after which it is not bound to do anything.
notify-InvAt :
    (setters : ℕ → Setter) (target : Option ℕ) (w : Waiter) (s : State)
    → s.held ≡ false
    → target ≡ first_of s.cv_ s.cv_any_
    → InvAt s w
    → InvAt (record s { setters = setters }) (notify target w)
unfolding notify first_of wake_if
notify-InvAt setters none (locking c) s free e h = h
notify-InvAt setters none (checking c) s free e h = h
notify-InvAt setters none (about c) s free e h = absurd (cc (sym free ∙ h.0.0))
notify-InvAt setters none (asleep c) s free e h =
    let f : first_of s.cv_ s.cv_any_ ≡ some c = ap (λ q. first_of q s.cv_any_) h.0.1.1 ∙ h.0.1.0 in
    absurd (cc (e ∙ f))
notify-InvAt setters none (woken c) s free e h = h
notify-InvAt setters none (rechecking c) s free e h = h
notify-InvAt setters none (unlocking o) s free e h = h
notify-InvAt setters none (pointing c) s free e h = h
notify-InvAt setters none (setting c) s free e h = h
notify-InvAt setters none (testing c) s free e h = h
notify-InvAt setters none (asking c) s free e h = h
notify-InvAt setters none (resting c) s free e h = h
notify-InvAt setters none (last_point c) s free e h = h
notify-InvAt setters none (clearing o) s free e h = h
notify-InvAt setters none (ended o) s free e h = h
notify-InvAt setters (some d) (locking c) s free e h = h
notify-InvAt setters (some d) (checking c) s free e h = h
notify-InvAt setters (some d) (about c) s free e h = absurd (cc (sym free ∙ h.0.0))
notify-InvAt setters (some d) (asleep c) s free e h =
    let f : first_of s.cv_ s.cv_any_ ≡ some c = ap (λ q. first_of q s.cv_any_) h.0.1.1 ∙ h.0.1.0 in
    let same : d ≡ c = cc (e ∙ f) in
    let wakes_it : (c == d) ≡ true = ground arith in rw (wakes_it) (h.0)
notify-InvAt setters (some d) (woken c) s free e h = h
notify-InvAt setters (some d) (rechecking c) s free e h = h
notify-InvAt setters (some d) (unlocking o) s free e h = h
notify-InvAt setters (some d) (pointing c) s free e h = h
notify-InvAt setters (some d) (setting c) s free e h = h
notify-InvAt setters (some d) (testing c) s free e h = h
notify-InvAt setters (some d) (asking c) s free e h = h
notify-InvAt setters (some d) (resting c) s free e h = elim (Bool-cases (c == d)) [
  | inl e ↦ rw (e) h
  | inr e ↦ rw (e) h
]
notify-InvAt setters (some d) (last_point c) s free e h = h
notify-InvAt setters (some d) (clearing o) s free e h = h
notify-InvAt setters (some d) (ended o) s free e h = h

set_step-Inv : (t : ℕ) (st : Setter) (s : State) → Inv s → Inv (set_step t st s)
unfolding set_step notify_all
set_step-Inv t ready s h = store-InvAt t s.waiter s h
set_step-Inv t stored s h = elim (Bool-cases s.held) [
  | inl busy ↦
      rw (busy) (subst (λ b. WaiterInv s.flag_ b s.cv_any_ s.cv_ s.setters s.waiter) busy h)
  | inr free ↦ rw (free) (
      subst
        (λ b.
          WaiterInv s.flag_ b s.cv_any_ s.cv_ (update s.setters t notified)
            (notify (first_of s.cv_ s.cv_any_) s.waiter))
        free
        (notify-InvAt (update s.setters t notified) (first_of s.cv_ s.cv_any_) s.waiter s free refl
          h))
]
set_step-Inv t notified s h = h

step-Inv : (m : Move) (s : State) → Inv s → Inv (step m s)
unfolding step
step-Inv (waits answer) s h = wait_step-Inv answer s.waiter s refl h
step-Inv (sets t) s h = set_step-Inv t (s.setters t) s h
step-Inv wakes s h = wake_if-InvAt (λ c. true) s.waiter s h
step-Inv times_out s h = time_out-InvAt s.waiter s h

pub run-Inv : (ms : List Move) (s : State) → Inv s → Inv (run ms s)
unfolding run
run-Inv [] s h = h
run-Inv (m ∷ ms) s h = run-Inv ms (step m s) (step-Inv m s h)

pub start-Inv : (any : Bool) (c : ℕ) → Inv (init (start_wait any c))
start-Inv true c = (refl, (refl, refl))
start-Inv false c = (refl, (refl, refl))
