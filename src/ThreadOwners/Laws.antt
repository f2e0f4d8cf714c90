-- ===== src/ThreadOwners/Laws.antt =====
-- The owners of threads of joining_thread.hpp, scoped_thread.hpp and threads_guard.hpp never
-- end the program, and lose no thread.
use playground_cpp.Common.{
  ℕ, ◌<◌, ◌≡◌, ◌≢◌, refl, false, ◌&&◌, none, some, List, [], ◌∷◌, arith, Bool-cases, ◌⊎◌, inl, inr,
}
use playground_cpp.ThreadOwners.{
  Fate, unstarted, running, joined, detached, absent, plain, joining, scoped, World, init, join,
  detach, launch, move_construct, is, all_plain, Call, spawn, default_construct, launch_in, join_in,
  detach_in, destroy_in, end_scope_in, move_construct_from, adopt, assign_from, assign_thread,
  swap_with, scope_from, end_guard_of, call, run,
}
use playground_cpp.ThreadOwners.Invariant.{
  Inv, plain-Fits, joining-Fits, absent-Fits, scoped-Fits, Fits-kind, finish-Inv,
}
use playground_cpp.ThreadOwners.Calls.{
  start-Inv, move_construct-Inv, assign-Inv, destroy-Inv, swap-Inv, scope-Inv, end_scope-Inv,
  end_guard-Inv,
}

call-Inv : (c : Call) (w : World) → Inv w → Inv (call c w)
unfolding call launch move_construct join detach
call-Inv (spawn i) w inv = elim (Bool-cases (is absent i w)) [
  | inl e ↦
      rw (e)
        (start-Inv i plain w (λ o. tt) (absent-Fits (w.kinds i) (w.objects i) e (inv.fits i)) inv)
  | inr e ↦ rw (e) inv
]
call-Inv (default_construct i) w inv = elim (Bool-cases (is absent i w)) [
  | inl e ↦ rw (e) (record {
    owned = inv.owned;
    fits = Fits-kind w.kinds w.objects i joining tt inv.fits;
    going = inv.going;
  })
  | inr e ↦ rw (e) inv
]
call-Inv (launch_in i) w inv = elim (Bool-cases (is absent i w)) [
  | inl e ↦
      rw (e)
        (start-Inv i joining w (λ o. tt) (absent-Fits (w.kinds i) (w.objects i) e (inv.fits i)) inv)
  | inr e ↦ rw (e) inv
]
call-Inv (move_construct_from i j) w inv = elim (Bool-cases (is absent i w && is joining j w)) [
  | inl e ↦ rw (e) (
      move_construct-Inv i j joining w tt (joining-Fits (w.kinds j) (ground arith) none)
        (absent-Fits (w.kinds i) (w.objects i) (ground arith) (inv.fits i)) inv)
  | inr e ↦ rw (e) inv
]
call-Inv (adopt i j) w inv = elim (Bool-cases (is absent i w && is plain j w)) [
  | inl e ↦ rw (e) (
      move_construct-Inv i j joining w tt (plain-Fits (w.kinds j) (ground arith) none)
        (absent-Fits (w.kinds i) (w.objects i) (ground arith) (inv.fits i)) inv)
  | inr e ↦ rw (e) inv
]
call-Inv (assign_from i j) w inv = elim (Bool-cases (is joining i w && is joining j w)) [
  | inl e ↦ rw (e) (
      assign-Inv i j w (joining-Fits (w.kinds i) (ground arith))
        (joining-Fits (w.kinds j) (ground arith) none) inv)
  | inr e ↦ rw (e) inv
]
call-Inv (assign_thread i j) w inv = elim (Bool-cases (is joining i w && is plain j w)) [
  | inl e ↦ rw (e) (
      assign-Inv i j w (joining-Fits (w.kinds i) (ground arith))
        (plain-Fits (w.kinds j) (ground arith) none) inv)
  | inr e ↦ rw (e) inv
]
call-Inv (swap_with i j) w inv = elim (Bool-cases (is joining i w && is joining j w)) [
  | inl e ↦ rw (e) (
      swap-Inv i j w (joining-Fits (w.kinds i) (ground arith))
        (joining-Fits (w.kinds j) (ground arith)) inv)
  | inr e ↦ rw (e) inv
]
call-Inv (join_in i) w inv = elim (Bool-cases (is joining i w)) [
  | inl e ↦ rw (e) (
      finish-Inv joined i (w.objects i) w refl (λ e. cc e) (λ e. cc e)
        (joining-Fits (w.kinds i) e none) inv)
  | inr e ↦ rw (e) inv
]
call-Inv (detach_in i) w inv = elim (Bool-cases (is joining i w)) [
  | inl e ↦ rw (e) (
      finish-Inv detached i (w.objects i) w refl (λ e. cc e) (λ e. cc e)
        (joining-Fits (w.kinds i) e none) inv)
  | inr e ↦ rw (e) inv
]
call-Inv (destroy_in i) w inv = elim (Bool-cases (is joining i w)) [
  | inl e ↦ rw (e) (destroy-Inv i w (joining-Fits (w.kinds i) e none) inv)
  | inr e ↦ rw (e) inv
]
call-Inv (scope_from i j) w inv = elim (Bool-cases (is absent i w && is plain j w)) [
  | inl e ↦ rw (e) (
      scope-Inv i j w (plain-Fits (w.kinds j) (ground arith) none)
        (absent-Fits (w.kinds i) (w.objects i) (ground arith) (inv.fits i)) inv)
  | inr e ↦ rw (e) inv
]
call-Inv (end_scope_in i) w inv = elim (Bool-cases (is scoped i w)) [
  | inl e ↦ rw (e) (end_scope-Inv i w (scoped-Fits (w.kinds i) (w.objects i) e (inv.fits i)) inv)
  | inr e ↦ rw (e) inv
]
call-Inv (end_guard_of threads) w inv = elim (Bool-cases (all_plain threads w)) [
  | inl e ↦ rw (e) (end_guard-Inv threads w e inv).0
  | inr e ↦ rw (e) inv
]

pub init-Inv : Inv init
init-Inv = record {
  owned = record {
    owns = λ i id e. absurd (cc e);
    once = λ i j id e. absurd (cc e);
    owned = λ id e. absurd (cc e);
    old = λ id lt. absurd (omega arith);
    fresh = λ id le. refl;
  };
  fits = λ i. refl;
  going = refl;
}

pub run-Inv : (cs : List Call) (w : World) → Inv w → Inv (run cs w)
unfolding run
run-Inv [] w inv = inv
run-Inv (c ∷ cs) w inv = run-Inv cs (call c w) (call-Inv c w inv)

Fate-cases : (f : Fate) → f ≢ unstarted → (f ≡ running) ⊎ ((f ≡ joined) ⊎ (f ≡ detached))
Fate-cases unstarted ne = absurd (ne refl)
Fate-cases running ne = inl refl
Fate-cases joined ne = inr (inl refl)
Fate-cases detached ne = inr (inr refl)

-- After any sequence of constructions, moves, swaps, joins, detaches and destructions of
-- owners, the program has not been ended, and every thread that was started is joined, or
-- detached, or is that of exactly one object, and no object stands for a thread that is not
-- running.
pub no_thread_lost :
    (cs : List Call)
    → let w = run cs init in
      (w.terminated ≡ false)
      × (((id : ℕ)
            → id < w.started
            → ((w.fates id ≡ joined) ⊎ (w.fates id ≡ detached))
              ⊎ ((i : ℕ) × ((w.objects i ≡ some id) × ((j : ℕ) → w.objects j ≡ some id → i ≡ j))))
          × ((i id : ℕ) → w.objects i ≡ some id → w.fates id ≡ running))
no_thread_lost cs =
    let w = run cs init in
    let inv = run-Inv cs init init-Inv in
    (
      inv.going,
      (
        λ id lt. elim (Fate-cases (w.fates id) (inv.owned.old id lt)) [
          | inl r ↦
              (let (i, e) = inv.owned.owned id r in inr (i, (e, λ j. inv.owned.once i j id e)))
          | inr f ↦ inl f
        ],
        inv.owned.owns,
      ),
    )
