-- ===== src/Events/Loop.antt =====
-- examples/qt_eventloop_skeleton/main.cpp: EventLoop. A round of `exec` is given the time that
-- the clock has in pumpTimers and what the other threads do to the state until the flag is
-- read again. A call of `exec` is given its rounds as a list: it gives none when they are used
-- up before the loop has seen its exit flag.
pub mod Laws
use playground_cpp.Common.{
  ℕ, ◌+◌, Bool, true, false, not, ◌&&◌, Option, none, some, List, [], ◌∷◌, ◌++◌, length, ◌==◌, ◌%◌,
  if◌then◌else◌,
}
use playground_cpp.Events.Timers.{pump_timers}
use playground_cpp.Events.Dispatcher.{EventLoop, Thread, Object, process_posted_events}

pub record Round {ℓ} (R W : Type ℓ) : Type ℓ where
  pub now : ℕ
  pub others : Thread R W → Thread R W

abbrev pub max_posted : ℕ
max_posted = 256

-- ProcessFlag.
abbrev pub all_events : ℕ
all_events = 1

abbrev pub posted_only : ℕ
posted_only = 2

abbrev pub initial_loop : EventLoop
initial_loop = record { running = false; exit = false; rc = 0 }

module _ {ℓ} {R W : Type ℓ} where
  abbrev pub set_loop : ℕ → EventLoop → Thread R W → Thread R W
  set_loop loop l d = record d { loops = λ i. if i == loop then l else d.loops i }

  unfoldable pub exit : (loop rc : ℕ) → Thread R W → Thread R W
  exit loop rc d =
      set_loop loop (record { running = (d.loops loop).running; exit = true; rc = rc }) d

  -- pumpTimers with the `post` that exec and processEvents give it.
  unfoldable pub pump : (now : ℕ) → Thread R W → ℕ × Thread R W
  unfolding pump_timers
  pump now d =
      let p = pump_timers now d.timers in
      (
        p.wait_ms,
        record d {
          queue = d.queue ++ p.posts;
          timers = record { timers = p.timers; last_id = d.timers.last_id };
        },
      )

  -- The wait of a round, if there is one.
  unfoldable pub wait_after : (loop : ℕ) → (did : Bool) → (wait_ms : ℕ) → Thread R W → Option ℕ
  wait_after loop did wait_ms d =
      if not did && not (d.loops loop).exit && (length d.queue == 0) then some wait_ms else none

  -- A round of the loop of `exec`, and how long it waits at its end, if it does.
  unfoldable pub loop_round : (R → Object R W) → (loop now : ℕ) → Thread R W → Option ℕ × Thread R W
  unfolding wait_after
  loop_round objects loop now d =
      let (did, d1) = process_posted_events objects max_posted d in
      let (wait_ms, d2) = pump now d1 in (wait_after loop did wait_ms d2, d2)

  -- What `exec` does after its loop.
  unfoldable pub leave : (loop : ℕ) → Thread R W → ℕ × Thread R W
  leave loop d = ((d.loops loop).rc, set_loop loop (record (d.loops loop) { running = false }) d)

  unfoldable pub exec_rounds :
      (R → Object R W) → (loop : ℕ) → List (Round R W) → Thread R W → Option (ℕ × Thread R W)
  unfolding loop_round leave
  exec_rounds objects loop [] d = if (d.loops loop).exit then some (leave loop d) else none
  exec_rounds objects loop (r ∷ rs) d =
      let rest = exec_rounds objects loop rs (r.others ((loop_round objects loop r.now d).1)) in
      if (d.loops loop).exit then some (leave loop d) else rest

  abbrev pub enter : (loop : ℕ) → Thread R W → Thread R W
  enter loop d = set_loop loop (record { running = true; exit = false; rc = 0 }) d

  unfoldable pub exec :
      (R → Object R W) → (loop : ℕ) → List (Round R W) → Thread R W → Option (ℕ × Thread R W)
  unfolding exec_rounds
  exec objects loop rounds d =
      let result = exec_rounds objects loop rounds (enter loop d) in
      if (d.loops loop).running then some (0, d) else result

  unfoldable pub process_events :
      (R → Object R W) → (flags now : ℕ) → Thread R W → Bool × Thread R W
  unfolding process_posted_events pump
  process_events objects flags now d =
      let (did, d1) = process_posted_events objects max_posted d in
      (did, if flags % 2 == all_events then (pump now d1).1 else d1)
