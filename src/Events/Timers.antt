-- ===== src/Events/Timers.antt =====
-- examples/qt_eventloop_skeleton/main.cpp: EventType, Event, TimerInfo and TimerManager. Times are
-- nanoseconds of the steady clock, `now` what it gives at a call. The list of timers stands in the
-- order in which the hash map is traversed. Intervals are not negative, and ids below 2 ^ 31.
pub mod Laws
use playground_cpp.Common.{
  ℕ, ◌+◌, ◌-◌, ◌*◌, ◌/◌, Bool, true, false, not, Option, none, some, List, [], ◌∷◌, ◌++◌, keep, ltb,
  leb, length, ◌==◌, if◌then◌else◌,
}

pub data EventType : Type 0 where
  no_type quit user timer system_message : EventType

-- `none` stands for the timer id -1. The payload of a system message is never read.
pub record Event : Type 0 where
  pub type : EventType
  pub timer_id : Option ℕ

pub record TimerInfo {ℓ} (R : Type ℓ) : Type ℓ where
  pub id : ℕ
  pub interval_ms : ℕ
  pub next_fire : ℕ
  pub target : R

pub record TimerManager {ℓ} (R : Type ℓ) : Type ℓ where
  pub timers : List (TimerInfo R)
  pub last_id : ℕ

-- A wait in milliseconds, whether a timer fired, the timers and the events that are posted.
pub record Pumped {ℓ} (R : Type ℓ) : Type ℓ where
  pub wait_ms : ℕ
  pub fired : Bool
  pub timers : List (TimerInfo R)
  pub posts : List (R × Event)

abbrev pub ns_per_ms : ℕ
ns_per_ms = 1000000

abbrev pub default_wait : ℕ
default_wait = 50

module _ {ℓ} {R : Type ℓ} where
  abbrev pub erase : ℕ → List (TimerInfo R) → List (TimerInfo R)
  erase id ts = keep (λ t. not (t.id == id)) ts

  -- `place` is where the hash map puts a new entry among the others, and the order in which
  -- it has them then.
  unfoldable pub start_timer :
      (place : TimerInfo R → List (TimerInfo R) → List (TimerInfo R)) (target : R)
      (interval_ms now : ℕ)
      → TimerManager R
      → ℕ × TimerManager R
  start_timer place target interval_ms now m =
      let id = m.last_id + 1 in
      (
        id,
        record {
          timers =
              place
                (record {
                  id = id;
                  interval_ms = interval_ms;
                  next_fire = now + interval_ms * ns_per_ms;
                  target = target;
                })
                (erase id m.timers);
          last_id = id;
        },
      )

  unfoldable pub kill_timer : ℕ → TimerManager R → TimerManager R
  kill_timer id m = record m { timers = erase id m.timers }

  abbrev pub is_due : ℕ → TimerInfo R → Bool
  is_due now t = leb t.next_fire now

  abbrev pub timer_event : TimerInfo R → R × Event
  timer_event t = (t.target, record { type = timer; timer_id = some t.id })

  -- The timer after its round of the loop.
  unfoldable pub rearm : ℕ → TimerInfo R → TimerInfo R
  rearm now t = if is_due now t then record t { next_fire = now + t.interval_ms * ns_per_ms } else t

  unfoldable pub shorten : (now wait_ms : ℕ) → TimerInfo R → ℕ
  shorten now wait_ms t =
      let diff = (t.next_fire - now) / ns_per_ms in if ltb diff wait_ms then diff else wait_ms

  -- The loop of `pumpTimers`, with `waitMs` and `fired` so far.
  unfoldable pub pump_from : (now wait_ms : ℕ) → Bool → List (TimerInfo R) → Pumped R
  unfolding rearm shorten
  pump_from now wait_ms fired [] = record {
    wait_ms = wait_ms;
    fired = fired;
    timers = [];
    posts = [];
  }
  pump_from now wait_ms fired (t ∷ ts) =
      let t' = rearm now t in
      let rest = pump_from now (shorten now wait_ms t') (if is_due now t then true else fired) ts in
      record {
        wait_ms = rest.wait_ms;
        fired = rest.fired;
        timers = t' ∷ rest.timers;
        posts = if is_due now t then timer_event t ∷ rest.posts else rest.posts;
      }

  unfoldable pub pump_timers : (now : ℕ) → TimerManager R → Pumped R
  unfolding pump_from
  pump_timers now m =
      if length m.timers == 0
      then record { wait_ms = default_wait; fired = false; timers = m.timers; posts = [] }
      else pump_from now default_wait false m.timers
