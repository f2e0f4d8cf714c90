-- ===== src/Events/Dispatcher.antt =====
-- examples/qt_eventloop_skeleton/main.cpp: Object with its event filters, and EventDispatcher,
-- which is one per thread. The state of the thread is the dispatcher's queue and timers, the
-- event loops, by their addresses, and the rest of the program. An object's `event` and its
-- filters are any functions that change the event and the state of the thread: they may post,
-- start timers and exit loops.
pub mod Laws
use playground_cpp.Common.{ℕ, zero, suc, Bool, true, false, List, [], ◌∷◌, ◌++◌, if◌then◌else◌}
use playground_cpp.Events.Timers.{Event, TimerManager}

-- EventLoop.
pub record EventLoop : Type 0 where
  pub running : Bool
  pub exit : Bool
  pub rc : ℕ

pub record Thread {ℓ} (R W : Type ℓ) : Type ℓ where
  pub queue : List (R × Event)
  pub timers : TimerManager R
  pub loops : ℕ → EventLoop
  pub world : W

abbrev pub Handler {ℓ} : (R W : Type ℓ) → Type ℓ
Handler R W = Event → Thread R W → Bool × (Event × Thread R W)

pub record Object {ℓ} (R W : Type ℓ) : Type ℓ where
  pub event : Handler R W
  pub filters : List (Handler R W)

module _ {ℓ} {R W : Type ℓ} where
  unfoldable pub install_event_filter : Handler R W → Object R W → Object R W
  install_event_filter f o = record o { filters = o.filters ++ f ∷ [] }

  -- The first filter that returns true eats the event.
  unfoldable pub filter_event : List (Handler R W) → Handler R W
  filter_event [] e d = (false, (e, d))
  filter_event (f ∷ fs) e d =
      let (eaten, (e', d')) = f e d in
      let rest = filter_event fs e' d' in if eaten then (true, (e', d')) else rest

  unfoldable pub send : Object R W → Handler R W
  unfolding filter_event
  send receiver e d =
      let (eaten, (e', d')) = filter_event receiver.filters e d in
      if eaten then (true, (e', d')) else receiver.event e' d'

  unfoldable pub post : R → Event → Thread R W → Thread R W
  post receiver e d = record d { queue = d.queue ++ (receiver, e) ∷ [] }

  abbrev pub deliver : (R → Object R W) → R × Event → Thread R W → Thread R W
  deliver objects node d = (send (objects (node.0)) (node.1) d).1.1

  -- A round of the loop of `processPostedEvents` on the queue, and then the rounds that are left.
  unfoldable pub process_front :
      (objects : R → Object R W)
      → (next_rounds : Thread R W → Bool × Thread R W) → List (R × Event)
      → Thread R W
      → Bool × Thread R W
  process_front objects next_rounds [] d = (false, d)
  process_front objects next_rounds (node ∷ rest) d =
      (true, (next_rounds (deliver objects node (record d { queue = rest }))).1)

  -- It is called with `maxCount` 256.
  unfoldable pub process_posted_events :
      (objects : R → Object R W) → (max_count : ℕ) → Thread R W → Bool × Thread R W
  unfolding process_front
  process_posted_events objects zero d = (false, d)
  process_posted_events objects (suc n) d =
      process_front objects (process_posted_events objects n) d.queue d
