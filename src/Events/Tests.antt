-- ===== src/Events/Tests.antt =====
-- The event loop of main.cpp on concrete events, timers and rounds.
use playground_cpp.Common.{
  ℕ, ◌+◌, ◌*◌, ◌≤◌, ◌≡◌, refl, sym, append-nil, true, false, none, some, List, [], ◌∷◌, ◌++◌, map,
  keep, not, length, ◌==◌, arith, leb, if◌then◌else◌,
}
use playground_cpp.Events.Timers.{
  EventType, Event, TimerInfo, no_type, quit, user, timer, system_message, TimerManager, ns_per_ms,
  is_due, timer_event, start_timer, kill_timer, pump_timers,
}
use playground_cpp.Events.Timers.Laws.{NoneBefore, pump_timers_lem, kill_timer-start_timer}
use playground_cpp.Events.Dispatcher.{Thread, Object, post, send, process_posted_events}
use playground_cpp.Events.Dispatcher.Laws.{Processed, process_posted_events_lem}
use playground_cpp.Events.Loop.{Round, exit, loop_round, pump, initial_loop}
use playground_cpp.Events.Loop.Laws.{loop_round_waits}

abbrev no_timers : TimerManager ℕ
no_timers = record { timers = []; last_id = 0 }

abbrev at_end : TimerInfo ℕ → List (TimerInfo ℕ) → List (TimerInfo ℕ)
at_end t ts = ts ++ t ∷ []

abbrev at_front : TimerInfo ℕ → List (TimerInfo ℕ) → List (TimerInfo ℕ)
at_front t ts = t ∷ ts

abbrev two_timers : TimerManager ℕ
unfolding start_timer
two_timers = (start_timer at_end 7 3 0 ((start_timer at_end 8 1 0 no_timers).1)).1

abbrev click : Event
click = record { type = user; timer_id = none }

abbrev message : Event
message = record { type = system_message; timer_id = none }

abbrev state : List (ℕ × Event) → TimerManager ℕ → ℕ → Thread ℕ ℕ
state queue timers world = record {
  queue = queue;
  timers = timers;
  loops = λ i. initial_loop;
  world = world;
}

-- At 2 ms the timer of 1 ms is due, and the wait is until the other one.
pump_two : pump_timers 2000000 two_timers ≡ record {
  wait_ms = 1;
  fired = true;
  timers =
      record { id = 1; interval_ms = 1; next_fire = 3000000; target = 8 }
      ∷ record { id = 2; interval_ms = 3; next_fire = 3000000; target = 7 }
      ∷ [];
  posts = (8, record { type = timer; timer_id = some 1 }) ∷ [];
}
unfolding pump_timers start_timer
pump_two = refl

pump_timers_lem_example :
    let p = pump_timers 2000000 two_timers in
    (p.wait_ms ≤ 50)
    × (NoneBefore (2000000 + p.wait_ms * ns_per_ms) p.timers
        × ((p.posts ≡ map timer_event (keep (is_due 2000000) two_timers.timers))
            × ((p.fired ≡ not (length p.posts == 0))
                × (p.timers
                    ≡ map
                        (λ t.
                          if leb t.next_fire 2000000
                          then record t { next_fire = 2000000 + t.interval_ms * ns_per_ms }
                          else t)
                        two_timers.timers))))
pump_timers_lem_example = pump_timers_lem 2000000 two_timers

kill_timer-start_timer_example :
    let started = start_timer at_front 9 5 0 two_timers in
    kill_timer started.0 started.1
    ≡ record two_timers { timers = [] ++ two_timers.timers; last_id = started.0 }
unfolding start_timer
kill_timer-start_timer_example =
    kill_timer-start_timer at_front 9 5 0 two_timers [] two_timers.timers
      (omega arith, (omega arith, tt)) (omega arith, (omega arith, tt)) refl

-- Counts its events, and posts a message to itself for a click.
abbrev clicked : EventType → Thread ℕ ℕ → Thread ℕ ℕ
unfolding post
clicked user d = post 0 message (record d { world = d.world + 1 })
clicked no_type d = record d { world = d.world + 1 }
clicked quit d = record d { world = d.world + 1 }
clicked timer d = record d { world = d.world + 1 }
clicked system_message d = record d { world = d.world + 1 }

abbrev button : Object ℕ ℕ
button = record { event = λ e d. (true, (e, clicked e.type d)); filters = [] }

abbrev objects : ℕ → Object ℕ ℕ
objects r = button

clicked-OnlyPosts :
    (t : EventType) (d : Thread ℕ ℕ)
    → (posted : List (ℕ × Event)) × ((clicked t d).queue ≡ d.queue ++ posted)
unfolding clicked
clicked-OnlyPosts user d = ((0, message) ∷ [], refl)
clicked-OnlyPosts no_type d = ([], sym (append-nil d.queue))
clicked-OnlyPosts quit d = ([], sym (append-nil d.queue))
clicked-OnlyPosts timer d = ([], sym (append-nil d.queue))
clicked-OnlyPosts system_message d = ([], sym (append-nil d.queue))

-- Two of the three events of the queue, and the message that the first of them posts stays behind.
two_of_three :
    (process_posted_events objects 2
      (state ((0, click) ∷ (0, message) ∷ (0, click) ∷ []) no_timers 0)).1.queue
    ≡ (0, click) ∷ (0, message) ∷ []
unfolding process_posted_events send clicked
two_of_three = refl

process_posted_events_lem_example :
    Processed objects 2 (state ((0, click) ∷ (0, click) ∷ (0, click) ∷ []) no_timers 0) (
      process_posted_events objects 2
        (state ((0, click) ∷ (0, click) ∷ (0, click) ∷ []) no_timers 0))
process_posted_events_lem_example =
    process_posted_events_lem objects 2
      (state ((0, click) ∷ (0, click) ∷ (0, click) ∷ []) no_timers 0)
      (λ r. (λ e d. clicked-OnlyPosts e.type d, tt))

abbrev leaving : Round ℕ ℕ
unfolding exit
leaving = record { now = 0; others = exit 5 9 }

loop_round_waits_example :
    let d' = (loop_round objects 5 0 (state [] two_timers 0)).1 in
    ((state [] two_timers 0).queue ≡ [])
    × ((d'.queue ≡ [])
        × (((d'.loops 5).exit ≡ false)
            × ((1 ≤ 50) × NoneBefore (0 + 1 * ns_per_ms) d'.timers.timers)))
unfolding loop_round process_posted_events pump two_timers
loop_round_waits_example = loop_round_waits objects 5 0 1 (state [] two_timers 0) refl
