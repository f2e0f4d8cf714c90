-- ===== src/Events/Loop/Laws.antt =====
-- When EventLoop::exec of main.cpp waits, when it returns, and with which code.
use mathlib.Core.Path.{fun_ext}
use playground_cpp.Common.{
  ℕ, suc, ◌+◌, ◌*◌, ◌≤◌, ◌≡◌, refl, ap, subst, Bool, true, false, some, List, [], ◌∷◌, ◌++◌, length,
  arith,
}
use playground_cpp.Events.Timers.{Event, ns_per_ms, pump_timers}
use playground_cpp.Events.Timers.Laws.{NoneBefore, pump_timers_lem}
use playground_cpp.Events.Dispatcher.{Thread, Object, process_front, process_posted_events}
use playground_cpp.Events.Loop.{
  Round, max_posted, set_loop, exit, pump, loop_round, leave, wait_after, exec_rounds, enter, exec,
}

module _ {ℓ} {R W : Type ℓ} where
  -- Rounds of the loop of exec, each begun with the exit flag down.
  pub data Rounds (objects : R → Object R W) (loop : ℕ)
      : List (Round R W) → Thread R W → Thread R W → Type ℓ where
    no_rounds : (d : Thread R W) → Rounds objects loop [] d d
    round :
        (r : Round R W) (rs : List (Round R W)) (d d' : Thread R W)
        → (d.loops loop).exit ≡ false
        → Rounds objects loop rs (r.others ((loop_round objects loop r.now d).1)) d'
        → Rounds objects loop (r ∷ rs) d d'

  exec_rounds-append :
      (objects : R → Object R W) (loop : ℕ) (rs more : List (Round R W)) (d d' : Thread R W)
      → Rounds objects loop rs d d'
      → exec_rounds objects loop (rs ++ more) d ≡ exec_rounds objects loop more d'
  unfolding exec_rounds
  exec_rounds-append objects loop [] more d d' (no_rounds _) = refl
  exec_rounds-append objects loop (r ∷ rs) more d d' (round _ _ _ _ down runs) =
      rw (down) (exec_rounds-append objects loop rs more _ d' runs)

  exec_rounds-exited :
      (objects : R → Object R W) (loop : ℕ) (more : List (Round R W)) (d : Thread R W)
      → (d.loops loop).exit ≡ true
      → exec_rounds objects loop more d ≡ some (leave loop d)
  unfolding exec_rounds
  exec_rounds-exited objects loop [] d up = rw (up)
  exec_rounds-exited objects loop (r ∷ rs) d up = rw (up)

  -- A call of exec on a loop that is not running takes its rounds until the exit flag is up
  -- at the end of one, whichever handler or thread has raised it, and returns then, with the
  -- code that is in the loop, whatever would happen later; the loop is not running any more,
  -- and nothing else is changed.
  exec_returns :
      (objects : R → Object R W) (loop : ℕ) (rs more : List (Round R W)) (d d' : Thread R W)
      → (d.loops loop).running ≡ false
      → Rounds objects loop rs (enter loop d) d'
      → (d'.loops loop).exit ≡ true
      → exec objects loop (rs ++ more) d
        ≡ some ((d'.loops loop).rc, set_loop loop (record (d'.loops loop) { running = false }) d')
  unfolding exec leave
  exec_returns objects loop rs more d d' idle runs up =
      rw (idle, exec_rounds-append objects loop rs more _ d' runs)
        (exec_rounds-exited objects loop more d' up)

  enter-exit : (loop rc : ℕ) (d : Thread R W) → enter loop (exit loop rc d) ≡ enter loop d
  unfolding exit
  enter-exit loop rc d = ap (λ loops. record d { loops = loops }) (fun_ext (λ i. ground arith))

  -- exit() before exec() is lost: the call of exec does the same as if exit had not been called, so
  -- the loop ends only when exit is called again.
  exec-exit :
      (objects : R → Object R W) (loop rc : ℕ) (rounds : List (Round R W)) (d : Thread R W)
      → (d.loops loop).running ≡ false
      → exec objects loop rounds (exit loop rc d) ≡ exec objects loop rounds d
  unfolding exec
  exec-exit objects loop rc rounds d idle =
      let same : ((exit loop rc d).loops loop).running ≡ (d.loops loop).running =
        unfold exit in ground arith in
      rw (same, idle, enter-exit loop rc d)

  process_idle :
      (objects : R → Object R W) (n : ℕ) (d : Thread R W)
      → (process_posted_events objects (suc n) d).0 ≡ false
      → d.queue ≡ []
  unfolding process_posted_events process_front
  process_idle objects n d e = front_idle d.queue e
    where
      front_idle :
          (q : List (R × Event))
          → (process_front objects (process_posted_events objects n) q d).0 ≡ false
          → q ≡ []
      front_idle [] e = refl
      front_idle (node ∷ q) e = ground arith

  wait_after_lem :
      (loop ms : ℕ) (did : Bool) (wait_ms : ℕ) (d : Thread R W)
      → wait_after loop did wait_ms d ≡ some ms
      → (did ≡ false) × (((d.loops loop).exit ≡ false) × ((d.queue ≡ []) × (wait_ms ≡ ms)))
  unfolding wait_after
  wait_after_lem loop ms did wait_ms d e = queue_empty d.queue refl
    where
      queue_empty :
          (q : List (R × Event))
          → d.queue ≡ q
          → (did ≡ false) × (((d.loops loop).exit ≡ false) × ((d.queue ≡ []) × (wait_ms ≡ ms)))
      queue_empty [] q = (ground arith, (ground arith, (q, ground arith)))
      queue_empty (x ∷ xs) q = let n = ap length q in ground arith

  -- A round of exec waits only when it has delivered nothing, no event is queued after its
  -- timers were looked at, and the exit flag is down; it waits for at most 50 ms, and no
  -- timer is due before the end of the wait.
  pub loop_round_waits :
      (objects : R → Object R W) (loop now ms : ℕ) (d : Thread R W)
      → (loop_round objects loop now d).0 ≡ some ms
      → let d' = (loop_round objects loop now d).1 in
        (d.queue ≡ [])
        × ((d'.queue ≡ [])
            × (((d'.loops loop).exit ≡ false)
                × ((ms ≤ 50) × NoneBefore (now + ms * ns_per_ms) d'.timers.timers)))
  unfolding loop_round pump
  loop_round_waits objects loop now ms d e =
      let processed = process_posted_events objects max_posted d in
      let pumped = pump_timers_lem now (processed.1).timers in
      let (idle, (down, (empty, wait))) =
        wait_after_lem loop ms (processed.0) ((pump now (processed.1)).0)
          ((pump now (processed.1)).1) e in
      (
        process_idle objects 255 d idle,
        (
          empty,
          (
            down,
            subst
                (λ t.
                  (t ≤ 50)
                  × NoneBefore (now + t * ns_per_ms) (pump_timers now (processed.1).timers).timers)
                wait (pumped.0, pumped.1.0),
          ),
        ),
      )
